-- ===== src/Cleanse/Lines.antt =====
-- `CleansedLines` (build_support/cpplint.py): the four copies of the lines.
use lamp.Prelude.{
  ℕ, zero, suc, ◌+◌, ◌||◌, Option, none, some, List, [], ◌∷◌, ◌++◌, if◌then◌else◌, is_some, length,
  drop, map,
}
use mathlib.Core.Option
use lamp.Text.{Text, codes, ◌=t=◌, find, replace, is_digit, is_word}
use lamp.Regex
use lamp.Regex.{Re, chr, alt, star, group, bol, eol, word_boundary, seq, At, group_of}
use lamp.Regex.Classes.{lit, among, except, space, digit, dot, between, plus, opt, seqs, alts}
use lamp.Cleanse.{cleanse_comments}
use lamp.Cleanse.Raw.{group_text, cleanse_raw_strings}

-- `[0-9a-fA-F]`
abbrev pub hex_digit : Re
hex_digit = chr (λ c. is_digit c || between b'a' b'f' c || between b'A' b'F' c)

-- `^\s*#\s*include\s*([<"])([^>"]*)[>"].*$`
abbrev pub include_pattern : Re
include_pattern = seqs (
    bol
    ∷ star space
    ∷ lit "#"
    ∷ star space
    ∷ lit "include"
    ∷ star space
    ∷ group 1 (among "<\"")
    ∷ group 2 (star (except ">\""))
    ∷ among ">\""
    ∷ star dot
    ∷ eol
    ∷ [])

-- `\\([abfnrtv?"\\\']|\d+|x[0-9a-fA-F]+)`
abbrev pub escapes_pattern : Re
escapes_pattern =
    seq (lit "\\")
      (group 1 (alts (among "abfnrtv?\"\\'" ∷ plus digit ∷ seq (lit "x") (plus hex_digit) ∷ [])))

-- `^([^'"]*)(['"])(.*)$`
abbrev pub quote_pattern : Re
quote_pattern =
    seqs
      (bol ∷ group 1 (star (except "'\"")) ∷ group 2 (among "'\"") ∷ group 3 (star dot) ∷ eol ∷ [])

-- `\b(?:0[bBxX]?|[1-9])[0-9a-fA-F]*$`
abbrev pub number_pattern : Re
number_pattern = seqs (
    word_boundary
    ∷ alt (seq (lit "0") (opt (among "bBxX"))) (chr (between b'1' b'9'))
    ∷ star hex_digit
    ∷ eol
    ∷ [])

-- `^((?:'?[0-9a-zA-Z_])*)(.*)$`
abbrev pub literal_pattern : Re
literal_pattern =
    seqs (bol ∷ group 1 (star (seq (opt (lit "'")) (chr is_word))) ∷ group 2 (star dot) ∷ eol ∷ [])

-- One round: what is appended, and what is left to collapse, if the loop goes on.
unfoldable pub collapse_string : Text → Text → Text → Text × Option Text
collapse_string head tail elided = elim (find tail (codes "\"")) [
  | some second_quote ↦ (head ++ codes "\"\"", some (drop (second_quote + 1) tail))
  | none ↦ (elided, none)
]

unfoldable pub collapse_char : Text → Text → Text → Option (Text × Option Text)
collapse_char head tail elided =
    if is_some (Regex.search number_pattern head)
    then (elim (Regex.match literal_pattern (b'\'' ∷ tail)) [
      | none ↦ none
      | some m ↦ some (head ++ replace (group_text m 1) (codes "'") [], some (group_text m 2))
    ])
    else (elim (find tail (codes "'")) [
      | some second_quote ↦ some (head ++ codes "''", some (drop (second_quote + 1) tail))
      | none ↦ some (elided, none)
    ])

unfoldable pub collapse_round : Text → Option (Text × Option Text)
unfolding collapse_string collapse_char
collapse_round elided = elim (Regex.match quote_pattern elided) [
  | none ↦ some (elided, none)
  | some m ↦
      if group_text m 2 =t= codes "\""
      then some (collapse_string (group_text m 1) (group_text m 3) elided)
      else collapse_char (group_text m 1) (group_text m 3) elided
]

-- The loop; `none` if the rounds run out, or where the literal behind a digit does not match.
unfoldable pub collapse_from : ℕ → Text → Option Text
unfolding collapse_round
collapse_from zero elided = none
collapse_from (suc f) elided = elim (collapse_round elided) [
  | none ↦ none
  | some r ↦ elim r.1 [
    | none ↦ some r.0
    | some rest ↦ Option.map (λ t. r.0 ++ t) (collapse_from f rest)
  ]
]

-- `_CollapseStrings`: an include line stays.
unfoldable pub collapse_strings : Text → Option Text
unfolding collapse_from
collapse_strings elided =
    if is_some (Regex.match include_pattern elided)
    then some elided
    else (let t = Regex.sub escapes_pattern [] elided in collapse_from (length t + 1) t)

pub record CleansedLines : Type 0 where
  pub elided : List Text
  pub lines : List Text
  pub raw_lines : List Text
  pub num_lines : ℕ
  pub lines_without_raw_strings : List Text

unfoldable pub collapse_lines : List Text → Option (List Text)
unfolding collapse_strings
collapse_lines [] = some []
collapse_lines (l ∷ ls) = elim (collapse_strings l) [
  | none ↦ none
  | some t ↦ Option.map (◌∷◌ (cleanse_comments t)) (collapse_lines ls)
]

-- `__init__`; `none` where the removal of raw strings or the collapsing of strings gives none.
unfoldable pub init_cleansed_lines : List Text → Option CleansedLines
unfolding collapse_lines cleanse_comments cleanse_raw_strings
init_cleansed_lines lines = elim (cleanse_raw_strings lines) [
  | none ↦ none
  | some without ↦
      Option.map
        (λ elided. record {
          elided = elided;
          lines = map cleanse_comments without;
          raw_lines = lines;
          num_lines = length lines;
          lines_without_raw_strings = without;
        })
        (collapse_lines without)
]
