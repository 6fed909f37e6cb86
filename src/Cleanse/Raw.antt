-- ===== src/Cleanse/Raw.antt =====
-- `CleanseRawStrings` (build_support/cpplint.py).
use lamp.Prelude.{
  ℕ, zero, suc, ◌+◌, not, ◌||◌, Option, none, some, List, [], ◌∷◌, ◌++◌, if◌then◌else◌, is_some,
  length, drop,
}
use mathlib.Core.Option
use lamp.Text.{Text, codes, find, is_space}
use lamp.Regex
use lamp.Regex.{Re, chr, alt, star, lazy_star, group, bol, eol, word_boundary, seq, At, group_of}
use lamp.Regex.Classes.{lit, except, space, non_space, dot, one_of, seqs, alts}

-- `^(\s*)\S`
abbrev pub leading_space_pattern : Re
leading_space_pattern = seqs (bol ∷ group 1 (star space) ∷ non_space ∷ [])

-- `[^\s\\()]`
abbrev pub delimiter_char : Re
delimiter_char = chr (λ c. not (is_space c || one_of (codes "\\()") c))

-- `^(.*?)\b(?:R|u8R|uR|UR|LR)"([^\s\\()]*)\((.*)$`
abbrev pub raw_string_pattern : Re
raw_string_pattern = seqs (
    bol
    ∷ group 1 (lazy_star dot)
    ∷ word_boundary
    ∷ alts (lit "R" ∷ lit "u8R" ∷ lit "uR" ∷ lit "UR" ∷ lit "LR" ∷ [])
    ∷ lit "\""
    ∷ group 2 (star delimiter_char)
    ∷ lit "("
    ∷ group 3 (star dot)
    ∷ eol
    ∷ [])

-- `^([^'"]|'(\\.|[^'])*'|"(\\.|[^"])*")*//`
abbrev pub commented_prefix_pattern : Re
commented_prefix_pattern = seqs (
    bol
    ∷ star (
        group 1 (
          alts (
            except "'\""
            ∷ seqs (lit "'" ∷ star (group 2 (alt (seq (lit "\\") dot) (except "'"))) ∷ lit "'" ∷ [])
            ∷ seqs
                (lit "\"" ∷ star (group 3 (alt (seq (lit "\\") dot) (except "\""))) ∷ lit "\"" ∷ [])
            ∷ [])))
    ∷ lit "//"
    ∷ [])

-- a group that takes part in every match
abbrev pub group_text : At → ℕ → Text
group_text m n = Option.get_or (group_of m n) []

-- The beginning of a raw string: what stands before it, its delimiter and what stands behind.
unfoldable pub find_raw_string : Text → Option (Text × Text × Text)
find_raw_string line = elim (Regex.match raw_string_pattern line) [
  | none ↦ none
  | some m ↦
      if is_some (Regex.match commented_prefix_pattern (group_text m 1))
      then none
      else some (group_text m 1, codes ")" ++ group_text m 2 ++ codes "\"", group_text m 3)
]

-- The loop `while delimiter is None`: the line, and the delimiter of a raw string that goes on;
-- `none` if the rounds run out.
unfoldable pub open_raw_strings : ℕ → Text → Option (Text × Option Text)
open_raw_strings zero line = none
open_raw_strings (suc f) line = elim (find_raw_string line) [
  | none ↦ some (line, none)
  | some found ↦
      let (before, delimiter, behind) = found in
      elim (find behind delimiter) [
        | none ↦ some (before ++ codes "\"\"", some delimiter)
        | some end ↦
            open_raw_strings f (before ++ codes "\"\"" ++ drop (end + length delimiter) behind)
      ]
]

-- the branch inside a raw string
unfoldable pub close_raw_string : Text → Text → Option (Text × Option Text)
close_raw_string delimiter line = elim (find line delimiter) [
  | none ↦ some (codes "\"\"", some delimiter)
  | some end ↦ elim (Regex.match leading_space_pattern line) [
    | none ↦ none
    | some m ↦ some (group_text m 1 ++ codes "\"\"" ++ drop (end + length delimiter) line, none)
  ]
]

-- one line: the line without raw strings, and the delimiter afterwards
unfoldable pub raw_line : Option Text → Text → Option (Text × Option Text)
unfolding open_raw_strings close_raw_string
raw_line none line = open_raw_strings (length line + 1) line
raw_line (some delimiter) line = elim (close_raw_string delimiter line) [
  | none ↦ none
  | some r ↦ elim r.1 [ none ↦ open_raw_strings (length r.0 + 1) r.0 | some d ↦ some (r.0, some d) ]
]

unfoldable pub raw_lines_from : Option Text → List Text → Option (List Text)
raw_lines_from delimiter [] = some []
raw_lines_from delimiter (l ∷ ls) = elim (raw_line delimiter l) [
  | none ↦ none
  | some r ↦ Option.map (◌∷◌ r.0) (raw_lines_from r.1 ls)
]

-- `none` is an `AttributeError` at a line with no leading space to match, or rounds that run out.
unfoldable pub cleanse_raw_strings : List Text → Option (List Text)
unfolding raw_lines_from raw_line find_raw_string
cleanse_raw_strings raw_lines = raw_lines_from none raw_lines
