-- ===== src/Tests/Lengths.antt =====
-- Lengths of functions.
use lamp.Prelude.{suc, false, none, some, List, [], ◌∷◌, ◌≡◌, ◌≤◌, ◌+◌, ◌<◌, ◌⊎◌, refl, length}
use mathlib.Core.Option
use Prim.Native.Nat.{min}
use lamp.Text.{Text, codes, ◌=t=◌, lstrip}
use lamp.State.{Report}
use lamp.Regex
use lamp.FunctionState.{init_function_state, begin}
use lamp.FunctionState.Lengths.{
  last_word, starts_function, function_of, find_body, is_end, is_blank, missing_body,
  check_for_function_lengths,
}
use lamp.FunctionState.Size.{most_lines}
use lamp.FunctionState.Body.{count_lines, check_lines, check_lines-begin}

lengths : Unit {0}
unfolding ◌=t=◌ lstrip Regex.match Regex.search Regex.group_of Option.bind last_word starts_function
    function_of find_body is_end is_blank check_for_function_lengths
lengths = tt

abbrev file : List Text
file =
    codes "static int f(int a,"
    ∷ codes "             int b) {"
    ∷ codes "  a = b;"
    ∷ codes ""
    ∷ codes "  return a;"
    ∷ codes "}"
    ∷ codes "TEST(A, B)"
    ∷ []

begin_test :
    check_for_function_lengths 0 (codes "a.cc") file 0 init_function_state
    ≡ some (begin init_function_state (codes "f()"), none)
unfolding lengths
begin_test = refl

missing_body_test :
    check_for_function_lengths 0 (codes "a.cc") file 6 init_function_state
    ≡ some (init_function_state, some (missing_body (codes "a.cc") 6))
unfolding lengths
missing_body_test = refl

abbrev file_body : List Text
file_body = codes "  a = b;" ∷ codes "" ∷ codes "  return a;" ∷ []

check_lines_example :
    (reports : List Report) × (check_lines 0
        (codes "a.cc")
        file
        (suc (length file_body))
        2
        (begin init_function_state (codes "f()"))
      ≡ some (
        record {
          in_a_function = false;
          lines_in_function = count_lines file_body;
          current_function = codes "f()";
        },
        reports,
      ))
    × (((count_lines file_body ≤ most_lines 0 (codes "f()")) × (reports ≡ []))
        ⊎ ((most_lines 0 (codes "f()") < count_lines file_body)
            × (r : Report) × (reports ≡ r ∷ [])
            × (r.linenum ≡ 2 + length file_body)
            × (r.filename ≡ codes "a.cc")
            × (r.category ≡ codes "readability/fn_size")
            × (min 0 5 ≤ r.confidence)))
unfolding lengths
check_lines_example =
    check_lines-begin 0 (codes "a.cc") file file_body 2 (codes "}") (codes "TEST(A, B)" ∷ [])
      init_function_state (codes "f()") refl ((refl, refl), ((refl, refl), ((refl, refl), tt))) refl
      refl
