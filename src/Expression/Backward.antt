-- ===== src/Expression/Backward.antt =====
-- `FindStartOfExpressionInLine` and `ReverseCloseExpression` (build_support/cpplint.py): the search
-- for the bracket that a bracket closes, from right to left. What is left to read is reversed.
use lamp.Prelude.{
  ℕ, suc, ◌-◌, Bool, true, false, not, ◌&&◌, ◌||◌, Option, none, some, List, [], ◌∷◌, ltb, ◌==◌,
  if◌then◌else◌, is_some, length, get_elem?, take, drop,
}
use mathlib.Core.List.{reverse}
use lamp.Text.{Text}
use lamp.Regex
use lamp.Regex.{Re}
use lamp.Regex.Classes.{lit, space, seqs}
use lamp.Expression.{
  is_open, is_close, pairs, drop_angles, ends_in_operator, LineResult, found, unclosed, open_at_end,
  Step, go, stop, pop_angle, pop_pair, keep_going, before_is, Place,
}

-- `\s>=\s`
abbrev pub at_least_pattern : Re
at_least_pattern = seqs (space ∷ lit ">=" ∷ space ∷ [])

-- a step, and whether the character before is passed over as well
unfoldable pub start_step : Text → ℕ → ℕ → List ℕ → Bool × Step
start_step line i c st =
    if is_close c
    then (false, go (c ∷ st))
    else if c == b'>'
    then (if ltb 0 i
          && (before_is line i b'-'
              || is_some (Regex.match at_least_pattern (drop (i - 1) line))
              || ends_in_operator (take i line))
        then (true, go st)
        else (false, go (b'>' ∷ st)))
    else if c == b'<'
    then (if before_is line i b'<' then (true, go st) else (false, pop_angle b'>' (found i) st))
    else if is_open c
    then (false, pop_pair (λ t. pairs c t) (found i) (drop_angles b'>' st))
    else if c == b';'
    then (false, keep_going (drop_angles b'>' st))
    else (false, go st)

-- The loop: the index of a character is the number of those left behind it.
unfoldable pub scan_start : Text → Bool → Text → List ℕ → LineResult
scan_start line skip [] st = open_at_end st
scan_start line true (c ∷ cs) st = scan_start line false cs st
scan_start line false (c ∷ cs) st =
    let (skip, step) = start_step line (length cs) c st in
    elim step [ go st' ↦ scan_start line skip cs st' | stop r ↦ r ]

-- from the position back, itself included
unfoldable pub find_start_of_expression_in_line : Text → ℕ → List ℕ → LineResult
unfolding scan_start
find_start_of_expression_in_line line endpos st =
    scan_start line false (reverse (take (suc endpos) line)) st

-- from the end of the line back
unfoldable pub find_start_from_end : Text → List ℕ → LineResult
unfolding scan_start
find_start_from_end line st = scan_start line false (reverse line) st

-- `while stack and linenum > 0`, with the lines before, the nearest first, and the line last read
unfoldable pub open_in : Text → List Text → List ℕ → Place
open_in last [] st = record { line = last; linenum = 0; pos = none }
open_in last (l ∷ ls) [] = record { line = last; linenum = 0; pos = none }
open_in last (l ∷ ls) (t ∷ st) = elim (find_start_from_end l (t ∷ st)) [
  | found p ↦ record { line = l; linenum = length ls; pos = some p }
  | unclosed ↦ record { line = l; linenum = 0; pos = none }
  | open_at_end st' ↦ open_in l ls st'
]

abbrev pub open_from : List Text → ℕ → Text → LineResult → Place
open_from elided linenum line (found p) = record { line = line; linenum = linenum; pos = some p }
open_from elided linenum line unclosed = record { line = line; linenum = 0; pos = none }
open_from elided linenum line (open_at_end st) = open_in line (reverse (take linenum elided)) st

-- `none` is the `IndexError` at a position outside the lines.
unfoldable pub reverse_close_expression : List Text → ℕ → ℕ → Option Place
unfolding open_in find_start_from_end
reverse_close_expression elided linenum pos = elim (get_elem? elided linenum) [
  | none ↦ none
  | some line ↦ elim (get_elem? line pos) [
    | none ↦ none
    | some c ↦
        if not (is_close c || c == b'>')
        then some (record { line = line; linenum = 0; pos = none })
        else some (open_from elided linenum line (find_start_of_expression_in_line line pos []))
  ]
]
