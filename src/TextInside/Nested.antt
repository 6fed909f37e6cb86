-- ===== src/TextInside/Nested.antt =====
-- `_GetTextInside` gives the text up to the fitting bracket exactly where nested text stands there.
use lamp.Prelude.{
  ℕ, zero, suc, ◌+◌, ◌-◌, ◌<◌, true, false, Option, none, some, [], ◌∷◌, ◌++◌, ◌≡◌, ◌↔◌, inl, inr,
  refl, sym, ap, ◌∙◌, arith, ◌==◌, ==_iff, length, length-append, take, take-length-append, drop,
  append_assoc, some_eq, Bool-cases, Option-cases,
}
use mathlib.Core.Path.{subst}
use lamp.Text.{Text}
use lamp.Regex
use lamp.Regex.{Re, At}
use lamp.TextInside.{closer, is_closer, scan_inside, inside_from, get_text_inside}

-- Text whose brackets match.
pub data Nested : Text → Type 0 where
  nothing : Nested []
  other : {c : ℕ} {t : Text} → is_closer c ≡ false → closer c ≡ none → Nested t → Nested (c ∷ t)
  pair :
      {c d : ℕ} {t u : Text} → closer c ≡ some d → Nested t → Nested u → Nested (c ∷ (t ++ d ∷ u))

closer-is_closer : (c d : ℕ) → closer c ≡ some d → is_closer d ≡ true
closer-is_closer c d h = elim (Bool-cases (c == b'(')) [
  | inl e ↦ let h1 = rw e at h in subst (λ x. is_closer x ≡ true) (some_eq h1) refl
  | inr e ↦
      let h1 = rw e at h in
      elim (Bool-cases (c == b'{')) [
        | inl e' ↦ let h2 = rw e' at h1 in subst (λ x. is_closer x ≡ true) (some_eq h2) refl
        | inr e' ↦
            let h2 = rw e' at h1 in
            elim (Bool-cases (c == b'[')) [
              | inl i ↦ let h3 = rw i at h2 in subst (λ x. is_closer x ≡ true) (some_eq h3) refl
              | inr i ↦ let h3 = rw i at h2 in cc
            ]
      ]
]

opener : (c d : ℕ) → closer c ≡ some d → is_closer c ≡ false
opener c d h = ground arith

differ : (c d : ℕ) → is_closer c ≡ false → is_closer d ≡ true → (c == d) ≡ false
differ c d h k = elim (Bool-cases (c == d)) [
  | inl e ↦ let k' = subst (λ x. is_closer x ≡ true) (sym ((==_iff c d).0 e)) k in cc
  | inr e ↦ e
]

same : (d : ℕ) → (d == d) ≡ true
same d = ground arith

scan_inside-Nested :
    (t : Text) (d : ℕ) (s st : Text) (n : ℕ)
    → Nested t
    → is_closer d ≡ true
    → scan_inside (t ++ d ∷ s) (d ∷ st) n ≡ scan_inside s st (n + length t + 1)
unfolding scan_inside
scan_inside-Nested t d s st n nothing k =
    rw (same d, scan_inside) (ap (scan_inside s st) (omega arith))
scan_inside-Nested t d s st n (other {c = c} {t = t'} h o r) k =
    rw (differ c d h k, scan_inside)
      (rw (h, scan_inside)
        (rw (o, scan_inside)
          (scan_inside-Nested t' d s st (suc n) r k ∙ ap (scan_inside s st) (omega arith))))
scan_inside-Nested t d s st n (pair {c = c} {d = e} {t = t'} {u = u} o r q) k =
    rw (differ c d (opener c e o) k, scan_inside)
      (rw (opener c e o, scan_inside)
        (rw (o, scan_inside)
          (rw append_assoc (
            scan_inside-Nested t' e (u ++ d ∷ s) (d ∷ st) (suc n) r (closer-is_closer c e o)
            ∙ scan_inside-Nested u d s st (suc n + length t' + 1) q k
            ∙ ap (scan_inside s st) (omega (arith, length-append t' (e ∷ u)))))))

-- what the loop finds of a text at a closing bracket on top of a stack
abbrev FoundInside : Text → ℕ → Text → ℕ → ℕ → Type 0
FoundInside s d st n p =
    (t : Text) × (s' : Text) × (s ≡ t ++ d ∷ s')
    × Nested t
    × (scan_inside s' st (n + length t + 1) ≡ some p)

scan_inside-FoundInside :
    (f : ℕ) (s : Text) (d : ℕ) (st : Text) (n p : ℕ)
    → length s < f
    → scan_inside s (d ∷ st) n ≡ some p
    → FoundInside s d st n p
unfolding scan_inside
scan_inside-FoundInside zero s d st n p l h = absurd (omega arith)
scan_inside-FoundInside (suc f) [] d st n p l h = cc
scan_inside-FoundInside (suc f) (c ∷ s) d st n p l h = elim (Bool-cases (c == d)) [
  | inl e ↦
      let h1 = rw (e, scan_inside) at h in
      let i = (==_iff c d).0 e in
      ([], s, ap (λ x. x ∷ s) i, nothing, ap (scan_inside s st) (omega arith) ∙ h1)
  | inr e ↦
      let h1 = rw (e, scan_inside) at h in
      elim (Bool-cases (is_closer c)) [
        | inl k ↦ let h2 = rw (k, scan_inside) at h1 in cc
        | inr k ↦
            let h2 = rw (k, scan_inside) at h1 in
            elim (Option-cases (closer c)) [
              | inl o ↦
                  let h3 = rw (o, scan_inside) at h2 in
                  let (t, s', eq, nested, later) =
                    scan_inside-FoundInside f s d st (suc n) p (omega arith) h3 in
                  (
                    c ∷ t,
                    s',
                    ap (◌∷◌ c) eq,
                    other k o nested,
                    ap (scan_inside s' st) (omega arith) ∙ later,
                  )
              | inr (b, o) ↦
                  let h3 = rw (o, scan_inside) at h2 in
                  let (t, s1, eq1, nested1, later1) =
                    scan_inside-FoundInside f s b (d ∷ st) (suc n) p (omega arith) h3 in
                  let shorter : length s1 < f =
                    omega (arith, ap length eq1, length-append t (b ∷ s1)) in
                  let (u, s2, eq2, nested2, later2) =
                    scan_inside-FoundInside f s1 d st (suc n + length t + 1) p shorter later1 in
                  (
                    c ∷ (t ++ b ∷ u),
                    s2,
                    ap (◌∷◌ c)
                        (eq1 ∙ ap (λ x. t ++ b ∷ x) eq2 ∙ sym (append_assoc t (b ∷ u) (d ∷ s2))),
                    pair o nested1 nested2,
                    ap (scan_inside s2 st) (omega (arith, length-append t (b ∷ u))) ∙ later2,
                  )
            ]
      ]
]

inside_from_iff :
    (s : Text) (d : ℕ) (t : Text)
    → is_closer d ≡ true
    → (inside_from s d ≡ some t) ↔ ((rest : Text) × (s ≡ t ++ d ∷ rest) × Nested t)
unfolding inside_from scan_inside
inside_from_iff s d t k = (only, back)
  where
    of_scan :
        (o : Option ℕ)
        → scan_inside s (d ∷ []) 0 ≡ o
        → ◌≡◌ {A = Option Text} (elim o [ none ↦ none | some n ↦ some (take (n - 1) s) ]) (some t)
        → (rest : Text) × (s ≡ t ++ d ∷ rest) × Nested t
    of_scan none e h = cc
    of_scan (some p) e h =
        let (u, rest, eq, nested, end) =
          scan_inside-FoundInside (length s + 1) s d [] 0 p (omega arith) e in
        let n : p - 1 ≡ length u = omega (arith, some_eq end) in
        let is : u ≡ t =
          sym (take-length-append u (d ∷ rest))
          ∙ ap (take (length u)) (sym eq)
          ∙ ap (λ i. take i s) (sym n)
          ∙ some_eq h in
        (rest, eq ∙ ap (λ x. x ++ d ∷ rest) is, subst Nested is nested)

    only : inside_from s d ≡ some t → (rest : Text) × (s ≡ t ++ d ∷ rest) × Nested t
    only h = of_scan (scan_inside s (d ∷ []) 0) refl h

    back : (rest : Text) × (s ≡ t ++ d ∷ rest) × Nested t → inside_from s d ≡ some t
    back (rest, eq, nested) =
        let e = ap (λ x. scan_inside x (d ∷ []) 0) eq ∙ scan_inside-Nested t d rest [] 0 nested k in
        let n : 0 + length t + 1 - 1 ≡ length t = omega arith in
        rw (e, inside_from)
          (ap some
            (ap (λ i. take i s) n ∙ ap (take (length t)) eq ∙ take-length-append t (d ∷ rest)))

-- Where the pattern is found and its match ends in an opening bracket, `_GetTextInside` gives a text
-- exactly if it stands behind the match, its brackets match, and the bracket that closes the opening
-- one follows.
pub get_text_inside_iff :
    (text : Text) (start_pattern : Re) (m : At) (c d : ℕ) (b t : Text)
    → Regex.search start_pattern text ≡ some m
    → m.before ≡ c ∷ b
    → closer c ≡ some d
    → (get_text_inside text start_pattern ≡ some (some t))
      ↔ ((rest : Text) × (drop (length m.before) text ≡ t ++ d ∷ rest) × Nested t)
unfolding get_text_inside
get_text_inside_iff text start_pattern m c d b t e e1 o =
    let found : get_text_inside text start_pattern
        ≡ some (inside_from (drop (length m.before) text) d) =
      rw (e, get_text_inside) (of_before m.before (drop (length m.before) text) e1) in
    let (only, back) = inside_from_iff (drop (length m.before) text) d t (closer-is_closer c d o) in
    (λ h. only (some_eq (sym found ∙ h)), λ r. found ∙ ap some (back r))
  where
    of_before :
        (x s : Text)
        → x ≡ c ∷ b
        → ◌≡◌ {A = Option (Option Text)}
            (elim x [
              | [] ↦ none
              | c' ∷ b' ↦ elim (closer c') [ none ↦ none | some close ↦ some (inside_from s close) ]
            ])
            (some (inside_from s d))
    of_before x s h = rw h (rw o refl)
