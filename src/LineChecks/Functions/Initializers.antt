-- ===== src/LineChecks/Functions/Initializers.antt =====
-- `IsInitializerList` finds the last line that says whether initializers go on.
use lamp.Prelude.{
  ℕ, zero, suc, ◌-◌, ◌≤◌, ◌<◌, Bool, true, false, ◌==◌, ==_iff, Option, none, some, List, [], ◌≡◌,
  ◌↔◌, inl, inr, refl, sym, ap, ◌∙◌, arith, ltb, if◌then◌else◌, get_or, Option-cases, Bool-cases,
}
use mathlib.Core.Path.{subst}
use lamp.Text.{Text}
use lamp.LineChecks.Functions.{
  without_body, initializer_verdict, initializer_from, is_initializer_list,
}

-- In the lines from 2 to `n` there is a last one that says anything, and it says yes.
abbrev SaysYes : (ℕ → Option Bool) → ℕ → Type 0
SaysYes v n =
    (i : ℕ) × (2 ≤ i) × (i ≤ n) × (v i ≡ some true) × ((j : ℕ) → i < j → j ≤ n → v j ≡ none)

-- the first verdict from `n` back to 2
abbrev back_from : (ℕ → Option Bool) → ℕ → Bool
back_from v zero = false
back_from v (suc zero) = false
back_from v (suc (suc i)) =
    let before = back_from v (suc i) in elim (v (suc (suc i))) [ some b ↦ b | none ↦ before ]

SaysYes-suc : (v : ℕ → Option Bool) (n : ℕ) → v (suc n) ≡ none → SaysYes v n → SaysYes v (suc n)
SaysYes-suc v n e (i, a, b, h, k) = (
  i,
  a,
  omega arith,
  h,
  λ j l m. elim (Bool-cases (j == suc n)) [
    | inl q ↦ let same = (==_iff j (suc n)).0 q in subst (λ x. v x ≡ none) (sym same) e
    | inr q ↦ k j l (ground arith)
  ],
)

SaysYes-pred : (v : ℕ → Option Bool) (n : ℕ) → v (suc n) ≡ none → SaysYes v (suc n) → SaysYes v n
SaysYes-pred v n e (i, a, b, h, k) = elim (Bool-cases (i == suc n)) [
  | inl q ↦ let h' = subst (λ x. v x ≡ some true) ((==_iff i (suc n)).0 q) h in cc
  | inr q ↦ (i, a, ground arith, h, λ j l m. k j l (omega arith))
]

SaysYes-top : (v : ℕ → Option Bool) (n : ℕ) (b : Bool) → v n ≡ some b → SaysYes v n → b ≡ true
SaysYes-top v n b e (i, a, l, h, k) = elim (Bool-cases (i == n)) [
  | inl q ↦ let h' = subst (λ x. v x ≡ some true) ((==_iff i n).0 q) h in cc
  | inr q ↦ let h' = k n (ground arith) (omega arith) in cc
]

back_from_iff : (v : ℕ → Option Bool) (n : ℕ) → (back_from v n ≡ true) ↔ SaysYes v n
back_from_iff v zero = (λ h. cc, λ p. let (i, a, b, _, _) = p in absurd (omega arith))
back_from_iff v (suc zero) = (λ h. cc, λ p. let (i, a, b, _, _) = p in absurd (omega arith))
back_from_iff v (suc (suc n)) = elim (Option-cases (v (suc (suc n)))) [
  | inl e ↦
      let (only, back) = back_from_iff v (suc n) in
      (
        λ h. SaysYes-suc v (suc n) e (only (rw (e, back_from) at h)),
        λ p. rw (e, back_from) (back (SaysYes-pred v (suc n) e p)),
      )
  | inr (b, e) ↦ (
    λ h.
        let b' : b ≡ true = rw (e, back_from) at h in
        (suc (suc n), omega arith, omega arith, e ∙ ap some b', λ j l m. absurd (omega arith)),
    λ p. rw (e, back_from) (SaysYes-top v (suc (suc n)) b e p),
  )
]

-- what a line says; the line that is asked about is read without the brace at its end
abbrev pub verdict_at : List Text → ℕ → ℕ → Option Bool
verdict_at elided linenum i =
    let line = get_or elided i [] in
    let own = initializer_verdict (without_body line) in
    let other = initializer_verdict line in if i == linenum then own else other

initializer_from-back_from :
    (elided : List Text) (linenum n : ℕ)
    → n < linenum
    → initializer_from elided n ≡ back_from (verdict_at elided linenum) n
unfolding initializer_from
initializer_from-back_from elided linenum zero h = refl
initializer_from-back_from elided linenum (suc zero) h = refl
initializer_from-back_from elided linenum (suc (suc n)) h =
    let apart : (suc (suc n) == linenum) ≡ false = ground arith in
    rw (apart, back_from)
      (ap
        (λ (before : Bool). elim (initializer_verdict (get_or elided (suc (suc n)) [])) [
          | some b ↦ b
          | none ↦ before
        ])
        (initializer_from-back_from elided linenum (suc n) (omega arith)))

is_initializer_list-back_from :
    (elided : List Text) (linenum : ℕ)
    → is_initializer_list elided linenum ≡ back_from (verdict_at elided linenum) linenum
unfolding is_initializer_list
is_initializer_list-back_from elided zero = refl
is_initializer_list-back_from elided (suc zero) = refl
is_initializer_list-back_from elided (suc (suc n)) =
    let read : ltb 1 (suc (suc n)) ≡ true = ground arith in
    let own : (suc (suc n) == suc (suc n)) ≡ true = ground arith in
    let before : suc (suc n) - 1 ≡ suc n = omega arith in
    rw read (
      rw (own, back_from)
        (ap
          (λ (rest : Bool).
            elim (initializer_verdict (without_body (get_or elided (suc (suc n)) []))) [
              | some b ↦ b
              | none ↦ rest
            ])
          (ap (initializer_from elided) before
            ∙ initializer_from-back_from elided (suc (suc n)) (suc n) (omega arith))))

-- `IsInitializerList` says yes exactly if, of the lines from line 2 of the list to the line asked about,
-- read without a brace at its end, there is a last one that says anything, and it says yes.
pub is_initializer_list_iff :
    (elided : List Text) (linenum : ℕ)
    → (is_initializer_list elided linenum ≡ true) ↔ (
        (i : ℕ) × (2 ≤ i)
        × (i ≤ linenum)
        × (verdict_at elided linenum i ≡ some true)
        × ((j : ℕ) → i < j → j ≤ linenum → verdict_at elided linenum j ≡ none))
is_initializer_list_iff elided linenum =
    let (only, back) = back_from_iff (verdict_at elided linenum) linenum in
    let e = is_initializer_list-back_from elided linenum in (λ h. only (sym e ∙ h), λ p. e ∙ back p)
