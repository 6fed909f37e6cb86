-- ===== src/TextInside.antt =====
-- `_GetTextInside` (build_support/cpplint.py): the text between matching brackets. The flag `re.M` of
-- its search changes only what `^` and `$` match, and the patterns meant here hold neither, as that of
-- its only caller.
pub mod Nested
use lamp.Prelude.{
  ℕ, zero, suc, ◌+◌, ◌-◌, Bool, true, false, ◌||◌, Option, none, some, List, [], ◌∷◌, ◌==◌,
  if◌then◌else◌, length, take, drop,
}
use lamp.Text.{Text}
use lamp.Regex
use lamp.Regex.{Re}

-- `matching_punctuation` and `closing_punctuation`
abbrev pub closer : ℕ → Option ℕ
closer c =
    if c == b'('
    then some b')'
    else if c == b'{'
    then some b'}'
    else if c == b'['
    then some b']'
    else none

abbrev pub is_closer : ℕ → Bool
is_closer c = c == b')' || c == b'}' || c == b']'

-- The loop: the number of characters read when the stack is empty. `none` stands for `None`.
unfoldable pub scan_inside : Text → Text → ℕ → Option ℕ
scan_inside s [] position = some position
scan_inside [] (t ∷ st) position = none
scan_inside (c ∷ s) (t ∷ st) position =
    let popped = scan_inside s st (suc position) in
    let same = scan_inside s (t ∷ st) (suc position) in
    if c == t
    then popped
    else if is_closer c
    then none
    else (elim (closer c) [ none ↦ same | some d ↦ scan_inside s (d ∷ t ∷ st) (suc position) ])

unfoldable pub inside_from : Text → ℕ → Option Text
unfolding scan_inside
inside_from text close = elim (scan_inside text (close ∷ []) 0) [
  | none ↦ none
  | some n ↦ some (take (n - 1) text)
]

-- An outer `none` is the failure of an assertion: the pattern does not end at an opening bracket.
unfoldable pub get_text_inside : Text → Re → Option (Option Text)
unfolding inside_from
get_text_inside text start_pattern = elim (Regex.search start_pattern text) [
  | none ↦ some none
  | some m ↦ elim m.before [
    | [] ↦ none
    | c ∷ b ↦ elim (closer c) [
      | none ↦ none
      | some close ↦ some (inside_from (drop (length m.before) text) close)
    ]
  ]
]
