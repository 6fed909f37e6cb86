-- ===== src/Cleanse/RawLoop.antt =====
-- About the loops of `CleanseRawStrings` (build_support/cpplint.py).
use lamp.Prelude.{
  ℕ, zero, suc, ◌+◌, ◌≤◌, ◌<◌, true, Option, none, some, List, [], ◌∷◌, ◌++◌, ◌≡◌, refl, ap, arith,
  is_some, length, drop, length-append, length-drop,
}
use mathlib.Core.Path.{subst}
use lamp.Text.{Text, codes, find}
use lamp.Regex
use lamp.Regex.{Re, star, lazy_star, At, group_of}
use lamp.Cleanse.RawPattern.{
  IsDelimiter, find_raw_string-length, find-has_other, leading_space_pattern-is_some,
}
use lamp.Cleanse.Raw.{
  leading_space_pattern, group_text, find_raw_string, open_raw_strings, close_raw_string, raw_line,
  raw_lines_from, cleanse_raw_strings,
}

-- The step is a function, and its delimiter is one.
abbrev Opens : Option (Text × Option Text) → Type 0
Opens o = (r : Text × Option Text) × (o ≡ some r) × IsDelimiter r.1

open_raw_strings-Opens : (f : ℕ) (line : Text) → length line < f → Opens (open_raw_strings f line)
unfolding open_raw_strings
open_raw_strings-Opens zero line h = absurd (omega arith)
open_raw_strings-Opens (suc f) line h =
    after (find_raw_string line) (find_raw_string-length line) (open_raw_strings-Opens f)
  where
    after :
        (o : Option (Text × Text × Text))
        → ((before delimiter behind : Text)
            → o ≡ some (before, delimiter, behind)
            → IsDelimiter (some delimiter) × (length before + length behind + 3 ≤ length line))
        → ((t : Text) → length t < f → Opens (open_raw_strings f t))
        → Opens (elim o [
          | none ↦ some (line, none)
          | some found ↦
              let (before, delimiter, behind) = found in
              elim (find behind delimiter) [
                | none ↦ some (before ++ codes "\"\"", some delimiter)
                | some end ↦
                    open_raw_strings f
                      (before ++ codes "\"\"" ++ drop (end + length delimiter) behind)
              ]
        ])
    after none l ih = ((line, none), refl, tt)
    after (some (before, delimiter, behind)) l ih =
        let ((t, e, long), bound) = l before delimiter behind refl in
        let two : 2 ≤ length delimiter = rw e (omega arith) in
        elim (find behind delimiter)
          as (λ o. Opens (elim o [
            | none ↦ some (before ++ codes "\"\"", some delimiter)
            | some end ↦
                open_raw_strings f (before ++ codes "\"\"" ++ drop (end + length delimiter) behind)
          ])) [
            | none ↦ ((before ++ codes "\"\"", some delimiter), refl, (t, e, long))
            | some end ↦ ih (before ++ codes "\"\"" ++ drop (end + length delimiter) behind) (
                omega (
                  arith,
                  length-append (before ++ codes "\"\"") (drop (end + length delimiter) behind),
                  length-append before (codes "\"\""),
                  length-drop (end + length delimiter) behind,
                ))
          ]

close_raw_string-Opens : (d line : Text) → IsDelimiter (some d) → Opens (close_raw_string d line)
unfolding close_raw_string
close_raw_string-Opens d line (t, e, long) = after (find line d) λ h.
    leading_space_pattern-is_some line
      (find-has_other line t (subst (λ x. is_some (find line x) ≡ true) e h))
  where
    matched :
        (end : ℕ) (o : Option At)
        → is_some o ≡ true
        → Opens (elim o [
          | none ↦ none
          | some m ↦ some (group_text m 1 ++ codes "\"\"" ++ drop (end + length d) line, none)
        ])
    matched end none h = cc
    matched end (some m) h = (_, refl, tt)

    after :
        (o : Option ℕ)
        → (is_some o ≡ true → is_some (Regex.match leading_space_pattern line) ≡ true)
        → Opens (elim o [
          | none ↦ some (codes "\"\"", some d)
          | some end ↦ elim (Regex.match leading_space_pattern line) [
            | none ↦ none
            | some m ↦ some (group_text m 1 ++ codes "\"\"" ++ drop (end + length d) line, none)
          ]
        ])
    after none h = (_, refl, (t, e, long))
    after (some end) h = matched end (Regex.match leading_space_pattern line) (h refl)

raw_line-Opens : (d : Option Text) (line : Text) → IsDelimiter d → Opens (raw_line d line)
unfolding raw_line
raw_line-Opens none line h = open_raw_strings-Opens (length line + 1) line (omega arith)
raw_line-Opens (some d) line h =
    let (r, e, delimiter) = close_raw_string-Opens d line h in rw (e, raw_line) (after r delimiter)
  where
    after :
        (r : Text × Option Text)
        → IsDelimiter r.1
        → Opens (elim r.1 [
          | none ↦ open_raw_strings (length r.0 + 1) r.0
          | some d' ↦ some (r.0, some d')
        ])
    after (t, none) h' = open_raw_strings-Opens (length t + 1) t (omega arith)
    after (t, some d') h' = ((t, some d'), refl, h')

-- The lines that come out are as many as those that go in.
abbrev pub Returns {ℓ} : {A : Type ℓ} → List Text → Option (List A) → Type ℓ
Returns {A = A} lines o = (ls : List A) × (o ≡ some ls) × (length ls ≡ length lines)

raw_lines_from-Returns :
    (d : Option Text) (lines : List Text) → IsDelimiter d → Returns lines (raw_lines_from d lines)
unfolding raw_lines_from
raw_lines_from-Returns d [] h = ([], refl, refl)
raw_lines_from-Returns d (l ∷ ls) h =
    let (r, e, h') = raw_line-Opens d l h in
    let (rest, e', same) = raw_lines_from-Returns r.1 ls h' in
    (r.0 ∷ rest, rw (e, raw_lines_from) (rw (e', raw_lines_from) refl), ap suc same)

pub cleanse_raw_strings-Returns : (lines : List Text) → Returns lines (cleanse_raw_strings lines)
unfolding cleanse_raw_strings
cleanse_raw_strings-Returns lines = raw_lines_from-Returns none lines tt
