-- ===== src/FunctionState.antt =====
-- Class `_FunctionState`: the size of a function's body (build_support/cpplint.py).
pub mod Size
pub mod Lengths
pub mod Body
use lamp.Prelude.{
  ℕ, zero, suc, ◌+◌, ◌*◌, ◌/◌, ◌^◌, Bool, true, false, Option, none, some, List, [], ◌∷◌, ltb,
  if◌then◌else◌, is_some,
}
use lamp.Text.{Text, codes, decimal, concat}
use lamp.State.{Report}
use lamp.Regex
use lamp.Regex.{Re, seq, alt, group}
use lamp.Regex.Classes.{lit}

pub record FunctionState : Type 0 where
  pub in_a_function : Bool
  pub lines_in_function : ℕ
  pub current_function : Text

abbrev pub normal_trigger : ℕ
normal_trigger = 250

abbrev pub test_trigger : ℕ
test_trigger = 400

abbrev pub init_function_state : FunctionState
init_function_state = record { in_a_function = false; lines_in_function = 0; current_function = [] }

abbrev pub begin : FunctionState → Text → FunctionState
begin s function_name = record s {
  in_a_function = true;
  lines_in_function = 0;
  current_function = function_name;
}

abbrev pub count_line : FunctionState → FunctionState
count_line s =
    if s.in_a_function then record s { lines_in_function = s.lines_in_function + 1 } else s

abbrev pub end : FunctionState → FunctionState
end s = record s { in_a_function = false }

-- `T(EST|est)`
abbrev test_pattern : Re
test_pattern = seq (lit "T") (group 1 (alt (lit "EST") (lit "est")))

unfoldable pub base_trigger : Text → ℕ
base_trigger name = if is_some (Regex.match test_pattern name) then test_trigger else normal_trigger

-- `int(math.log(n / base, 2))` for `base <= n`, capped: how often `n / base` can be halved, but at
-- most so many times.
unfoldable pub log_up_to : ℕ → ℕ → ℕ → ℕ
log_up_to zero base n = 0
log_up_to (suc most) base n =
    let more = suc (log_up_to most (base * 2) n) in if ltb n (base * 2) then 0 else more

-- `if error_level > 5: error_level = 5` is the cap of `log_up_to`.
unfoldable pub error_level : ℕ → ℕ → ℕ
unfolding log_up_to
error_level base lines = log_up_to 5 base lines

unfoldable pub trigger : ℕ → FunctionState → ℕ
trigger verbose s = base_trigger s.current_function * 2 ^ verbose

abbrev size_message : FunctionState → ℕ → Text
size_message s limit = concat (
    codes "Small and focused functions are preferred: "
    ∷ s.current_function
    ∷ codes " has "
    ∷ decimal s.lines_in_function
    ∷ codes " non-comment lines (error triggered by exceeding "
    ∷ decimal limit
    ∷ codes " lines)."
    ∷ [])

-- `Check`: the report made, if there is one, at the verbosity of the linter.
unfoldable pub check : ℕ → FunctionState → Text → ℕ → Option Report
check verbose s filename linenum =
    if s.in_a_function
    then (if ltb (trigger verbose s) s.lines_in_function
        then some (record {
          filename = filename;
          linenum = linenum;
          category = codes "readability/fn_size";
          confidence = error_level (base_trigger s.current_function) s.lines_in_function;
          message = size_message s (trigger verbose s);
        })
        else none)
    else none
