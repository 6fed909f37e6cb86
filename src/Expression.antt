-- ===== src/Expression.antt =====
-- Matching brackets: `FindEndOfExpressionInLine`, `CloseExpression` and their reverses
-- (build_support/cpplint.py). The expression stack is a list with its top in front; the lines are
-- those of `CleansedLines.elided`.
pub mod Steps
pub mod Forward
pub mod Backward
pub mod Balance
pub mod Closing
pub mod Advance
pub mod Lines
pub mod RoundTrip
use lamp.Prelude.{
  ℕ, zero, suc, ◌+◌, ◌-◌, Bool, true, false, not, ◌&&◌, ◌||◌, Option, none, some, List, [], ◌∷◌,
  ltb, ◌==◌, if◌then◌else◌, is_some, length, get_elem?, get_or, take, drop,
}
use mathlib.Core.List.{reverse}
use lamp.Text.{Text}
use lamp.Regex
use lamp.Regex.{Re, eol, star, word_boundary, bol}
use lamp.Regex.Classes.{lit, space, among, seqs}

-- `char in "([{"` and `char in ")]}"`
abbrev pub is_open : ℕ → Bool
is_open c = c == b'(' || c == b'[' || c == b'{'

abbrev pub is_close : ℕ → Bool
is_close c = c == b')' || c == b']' || c == b'}'

-- an opening bracket and its closing one
abbrev pub pairs : ℕ → ℕ → Bool
pairs o c = (o == b'(' && c == b')') || (o == b'[' && c == b']') || (o == b'{' && c == b'}')

-- `while stack and stack[-1] == angle: stack.pop()`
unfoldable pub drop_angles : ℕ → List ℕ → List ℕ
drop_angles angle [] = []
drop_angles angle (t ∷ st) = let rest = drop_angles angle st in if t == angle then rest else t ∷ st

-- `\boperator\s*$`
abbrev pub operator_pattern : Re
operator_pattern = seqs (word_boundary ∷ lit "operator" ∷ star space ∷ eol ∷ [])

unfoldable pub ends_in_operator : Text → Bool
ends_in_operator t = is_some (Regex.search operator_pattern t)

-- The three results of a line: a position, `(-1, None)`, and `(-1, stack)`.
pub data LineResult : Type 0 where
  found : ℕ → LineResult
  unclosed : LineResult
  open_at_end : List ℕ → LineResult

-- one character: on with a stack, or a result
pub data Step : Type 0 where
  go : List ℕ → Step
  stop : LineResult → Step

-- after a `pop`: `if not stack: return`
abbrev pub after_pop : LineResult → List ℕ → Step
after_pop r [] = stop r
after_pop r (t ∷ st) = go (t ∷ st)

-- Pop a `<` (or `>`) from the top, if it is there.
abbrev pub pop_angle : ℕ → LineResult → List ℕ → Step
pop_angle angle r [] = go []
pop_angle angle r (t ∷ st) = if t == angle then after_pop r st else go (t ∷ st)

-- a closing bracket (from the left) or an opening one (from the right), the angles dropped
abbrev pub pop_pair : (ℕ → Bool) → LineResult → List ℕ → Step
pop_pair fits r [] = stop unclosed
pop_pair fits r (t ∷ st) = if fits t then after_pop r st else stop unclosed

abbrev pub keep_going : List ℕ → Step
keep_going [] = stop unclosed
keep_going (t ∷ st) = go (t ∷ st)

-- `line[i - 1] == c` for `i > 0`
abbrev pub before_is : Text → ℕ → ℕ → Bool
before_is line i c = ltb 0 i && get_or line (i - 1) 0 == c

unfoldable pub end_step : Text → ℕ → ℕ → List ℕ → Step
end_step line i c st =
    if is_open c
    then go (c ∷ st)
    else if c == b'<'
    then (if before_is line i b'<'
        then pop_angle b'<' unclosed st
        else if ltb 0 i && ends_in_operator (take i line)
        then go st
        else go (b'<' ∷ st))
    else if is_close c
    then pop_pair (λ t. pairs t c) (found (i + 1)) (drop_angles b'<' st)
    else if c == b'>'
    then (if ltb 0 i && (before_is line i b'-' || ends_in_operator (take (i - 1) line))
        then go st
        else pop_angle b'<' (found (i + 1)) st)
    else if c == b';'
    then keep_going (drop_angles b'<' st)
    else go st

-- the loop from `i`, with the characters from there on
unfoldable pub scan_end : Text → ℕ → Text → List ℕ → LineResult
scan_end line i [] st = open_at_end st
scan_end line i (c ∷ cs) st = elim (end_step line i c st) [
  | go st' ↦ scan_end line (suc i) cs st'
  | stop r ↦ r
]

unfoldable pub find_end_of_expression_in_line : Text → ℕ → List ℕ → LineResult
unfolding scan_end
find_end_of_expression_in_line line startpos st = scan_end line startpos (drop startpos line) st

-- The triple that the two functions return; `none` for the position stands for -1.
pub record Place : Type 0 where
  pub line : Text
  pub linenum : ℕ
  pub pos : Option ℕ

-- `while stack and linenum < NumLines() - 1`, with the lines that follow and the line last read
unfoldable pub close_in : ℕ → ℕ → Text → List Text → List ℕ → Place
close_in total linenum last [] st = record { line = last; linenum = total; pos = none }
close_in total linenum last (l ∷ ls) [] = record { line = last; linenum = total; pos = none }
close_in total linenum last (l ∷ ls) (t ∷ st) = elim (find_end_of_expression_in_line l 0 (t ∷ st)) [
  | found p ↦ record { line = l; linenum = suc linenum; pos = some p }
  | unclosed ↦ record { line = l; linenum = total; pos = none }
  | open_at_end st' ↦ close_in total (suc linenum) l ls st'
]

-- `<[<=]`
abbrev pub shift_pattern : Re
shift_pattern = seqs (lit "<" ∷ among "<=" ∷ [])

abbrev pub close_from : List Text → ℕ → Text → LineResult → Place
close_from elided linenum line (found p) = record { line = line; linenum = linenum; pos = some p }
close_from elided linenum line unclosed = record {
  line = line;
  linenum = length elided;
  pos = none;
}
close_from elided linenum line (open_at_end st) =
    close_in (length elided) linenum line (drop (suc linenum) elided) st

-- `none` is the `IndexError` at a position outside the lines.
unfoldable pub close_expression : List Text → ℕ → ℕ → Option Place
unfolding close_in find_end_of_expression_in_line
close_expression elided linenum pos = elim (get_elem? elided linenum) [
  | none ↦ none
  | some line ↦ elim (get_elem? line pos) [
    | none ↦ none
    | some c ↦
        if not (is_open c || c == b'<') || is_some (Regex.match shift_pattern (drop pos line))
        then some (record { line = line; linenum = length elided; pos = none })
        else some (close_from elided linenum line (find_end_of_expression_in_line line pos []))
  ]
]
