-- ===== src/FileChecks/Characters.antt =====
-- `CheckForBadCharacters` reports exactly the lines that hold the two characters.
use lamp.Prelude.{
  ℕ, suc, Bool, true, false, not, ◌||◌, ◌==◌, List, [], ◌∷◌, ◌++◌, ◌≡◌, ◌↔◌, refl, ◌∙◌,
  if◌then◌else◌, is_some, is_some-map, any, All, Bool-cases, inl, inr,
}
use lamp.Text.{Text, find, starts_with}
use lamp.FileChecks.{
  replacement, utf8_report, nul_report, bad_characters, bad_characters_from,
  check_for_bad_characters,
}

find-any : (s : Text) (c : ℕ) → is_some (find s (c ∷ [])) ≡ any (λ d. d == c) s
unfolding find starts_with
find-any [] c = refl
find-any (d ∷ s) c = elim (Bool-cases (d == c)) [
  | inl e ↦ rw (e, starts_with) refl
  | inr e ↦ rw (e, starts_with) (is_some-map suc (find s (c ∷ [])) ∙ find-any s c)
]

-- neither of the two characters
abbrev pub is_clean : Text → Bool
is_clean line = not (any (λ d. d == replacement) line || any (λ d. d == 0) line)

bad_characters_iff :
    (filename : Text) (linenum : ℕ) (line : Text)
    → (bad_characters filename linenum line ≡ []) ↔ (is_clean line ≡ true)
unfolding bad_characters
bad_characters_iff filename linenum line =
    rw (find-any line replacement, bad_characters)
      (rw (find-any line 0, bad_characters)
        (of_tests (any (λ d. d == replacement) line) (any (λ d. d == 0) line)))
  where
    of_tests :
        (a b : Bool)
        → (((if a then utf8_report filename linenum ∷ [] else [])
              ++ (if b then nul_report filename linenum ∷ [] else []))
            ≡ [])
          ↔ (not (a || b) ≡ true)
    of_tests true true = (λ h. cc, λ h. cc)
    of_tests true false = (λ h. cc, λ h. cc)
    of_tests false true = (λ h. cc, λ h. cc)
    of_tests false false = (λ h. refl, λ h. refl)

append-nil_split : {A : Type 0} (xs ys : List A) → xs ++ ys ≡ [] → (xs ≡ []) × (ys ≡ [])
append-nil_split [] ys h = (refl, h)
append-nil_split (x ∷ xs) ys h = cc

bad_characters_from_iff :
    (filename : Text) (linenum : ℕ) (lines : List Text)
    → (bad_characters_from filename linenum lines ≡ []) ↔ All (λ l. is_clean l ≡ true) lines
unfolding bad_characters_from
bad_characters_from_iff filename linenum [] = (λ h. tt, λ h. refl)
bad_characters_from_iff filename linenum (l ∷ ls) =
    let (only, back) = bad_characters_iff filename linenum l in
    let (only', back') = bad_characters_from_iff filename (suc linenum) ls in
    (
      λ h.
          let (a, b) =
            append-nil_split (bad_characters filename linenum l)
              (bad_characters_from filename (suc linenum) ls) h in
          (only a, only' b),
      λ h. rw (back h.0) (back' h.1),
    )

-- `CheckForBadCharacters` makes no report exactly if no line holds the replacement character or NUL.
pub check_for_bad_characters_iff :
    (filename : Text) (lines : List Text)
    → (check_for_bad_characters filename lines ≡ []) ↔ All (λ l. is_clean l ≡ true) lines
unfolding check_for_bad_characters
check_for_bad_characters_iff filename lines = bad_characters_from_iff filename 0 lines
