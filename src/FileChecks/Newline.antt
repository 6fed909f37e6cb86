-- ===== src/FileChecks/Newline.antt =====
-- The check for a newline at the end of a file, on the lines that a file's text is split into.
use lamp.Prelude.{
  ℕ, suc, ◌-◌, Bool, true, false, not, ◌||◌, none, some, List, [], ◌∷◌, ◌++◌, ◌≡◌, ◌⊎◌, ◌↔◌, inl,
  inr, refl, sym, ap, ◌∙◌, arith, ltb, ◌==◌, if◌then◌else◌, length, get_or, length-append,
  Bool-cases, ==_iff, if_rule,
}
use mathlib.Core.Path.{subst}
use lamp.Text.{Text, codes}
use lamp.State.{Report}
use lamp.FileChecks.{
  newline_report, is_nil, check_for_newline_at_eof, put, split_lines, with_markers,
}

-- the last of the lines, the first one given
abbrev last_of : Text → List Text → Text
last_of l [] = l
last_of l (m ∷ ls) = last_of m ls

abbrev last_char : ℕ → Text → ℕ
last_char c [] = c
last_char c (d ∷ s) = last_char d s

split_lines-cons : (s : Text) → (l : Text) × (ls : List Text) × (split_lines s ≡ l ∷ ls)
unfolding split_lines
split_lines-cons [] = ([], [], refl)
split_lines-cons (c ∷ s) =
    let (l, ls, e) = split_lines-cons s in
    elim (Bool-cases (c == b'\n')) [
      | inl b ↦ ([], split_lines s, rw b refl)
      | inr b ↦ (c ∷ l, ls, rw b (ap (put c) e))
    ]

abbrev last_line : List Text → Text
last_line [] = []
last_line (l ∷ ls) = last_of l ls

last_nil-put :
    (d c : ℕ) (s : Text)
    → is_nil (last_line (put d (split_lines (c ∷ s)))) ≡ is_nil (last_line (split_lines (c ∷ s)))
unfolding split_lines
last_nil-put d c s =
    let (l, ls, e) = split_lines-cons s in
    elim (Bool-cases (c == b'\n')) [ inl b ↦ rw b (rw e refl) | inr b ↦ rw b (rw e (after l ls)) ]
  where
    after :
        (l : Text) (ls : List Text) → is_nil (last_of (d ∷ c ∷ l) ls) ≡ is_nil (last_of (c ∷ l) ls)
    after l [] = refl
    after l (m ∷ ls) = refl

last_nil-split_lines :
    (c : ℕ) (s : Text) → is_nil (last_line (split_lines (c ∷ s))) ≡ (last_char c s == b'\n')
unfolding split_lines
last_nil-split_lines c [] = ground arith
last_nil-split_lines c (d ∷ s) =
    let (l, ls, e) = split_lines-cons (d ∷ s) in
    let ih = last_nil-split_lines d s in
    if_rule (λ x. is_nil (last_line x) ≡ (last_char d s == b'\n')) (c == b'\n')
      ([] ∷ split_lines (d ∷ s)) (put c (split_lines (d ∷ s)))
      (λ _. ap (λ x. is_nil (last_of [] x)) e ∙ sym (ap (λ x. is_nil (last_line x)) e) ∙ ih)
      (λ _. last_nil-put c d s ∙ ih)

get_or-last_of :
    (l b : Text) (ls : List Text) → get_or (l ∷ (ls ++ b ∷ [])) (length ls) [] ≡ last_of l ls
get_or-last_of l b [] = refl
get_or-last_of l b (m ∷ ls) = get_or-last_of m b ls

last_char-snoc : (c : ℕ) (s : Text) → (u : Text) × (c ∷ s ≡ u ++ last_char c s ∷ [])
last_char-snoc c [] = ([], refl)
last_char-snoc c (d ∷ s) = let (u, e) = last_char-snoc d s in (c ∷ u, ap (◌∷◌ c) e)

last_char-append : (c d : ℕ) (u : Text) → last_char c (u ++ d ∷ []) ≡ d
last_char-append c d [] = refl
last_char-append c d (e ∷ u) = last_char-append e d u

-- a text of whole lines
abbrev pub IsWhole : Text → Type 0
IsWhole text = (text ≡ []) ⊎ ((u : Text) × (text ≡ u ++ b'\n' ∷ []))

last_nil-IsWhole : (text : Text) → (is_nil (last_line (split_lines text)) ≡ true) ↔ IsWhole text
unfolding split_lines
last_nil-IsWhole [] = (λ _. inl refl, λ _. refl)
last_nil-IsWhole (c ∷ s) = (
  λ h.
      let (u, e) = last_char-snoc c s in
      let n = (==_iff (last_char c s) b'\n').0 (sym (last_nil-split_lines c s) ∙ h) in
      inr (u, subst (λ x. c ∷ s ≡ u ++ x ∷ []) n e),
  λ w. elim w [
    | inl e ↦ cc
    | inr found ↦
        let (u, e) = found in
        last_nil-split_lines c s
        ∙ (==_iff (last_char c s) b'\n').1 (ap (last_char 0) e ∙ last_char-append 0 b'\n' u)
  ],
)

check-last_nil :
    (filename l : Text) (ls : List Text)
    → (check_for_newline_at_eof filename (with_markers (l ∷ ls)) ≡ none)
      ↔ (is_nil (last_of l ls) ≡ true)
unfolding check_for_newline_at_eof
check-last_nil filename l ls =
    let b = codes "// marker so line numbers end in a known way" in
    let lines = with_markers (l ∷ ls) in
    let n : length lines - 2 ≡ suc (length ls) = omega (arith, length-append ls (b ∷ [])) in
    let many : ltb (length lines) 3 ≡ false = ground (arith, length-append ls (b ∷ [])) in
    let at : get_or lines (length lines - 2) [] ≡ last_of l ls =
      ap (λ i. get_or lines i []) n ∙ get_or-last_of l b ls in
    subst
      (λ (x : Bool).
        ((if x then some (newline_report filename (length lines - 2)) else none) ≡ none)
        ↔ (is_nil (last_of l ls) ≡ true))
      (sym (
        ap (λ x. x || not (is_nil (get_or lines (length lines - 2) []))) many
        ∙ ap (λ x. not (is_nil x)) at))
      (after (is_nil (last_of l ls)) (newline_report filename (length lines - 2)))
  where
    after : (x : Bool) (r : Report) → ((if not x then some r else none) ≡ none) ↔ (x ≡ true)
    after true r = (λ _. refl, λ _. refl)
    after false r = (λ h. cc, λ h. cc)

-- The check of the lines that a file's text is split into, between the two markers, makes no report
-- exactly when the text is empty or its last character is a newline.
pub check_for_newline_at_eof-eq-none_iff :
    (filename text : Text)
    → (check_for_newline_at_eof filename (with_markers (split_lines text)) ≡ none)
      ↔ ((text ≡ []) ⊎ ((u : Text) × (text ≡ u ++ b'\n' ∷ [])))
check_for_newline_at_eof-eq-none_iff filename text =
    let (l, ls, e) = split_lines-cons text in
    let (to, from) = check-last_nil filename l ls in
    let (whole, whole') = last_nil-IsWhole text in
    rw e (
      λ h. whole (ap (λ x. is_nil (last_line x)) e ∙ to h),
      λ w. from (sym (ap (λ x. is_nil (last_line x)) e) ∙ whole' w),
    )
