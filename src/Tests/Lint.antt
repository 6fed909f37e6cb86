-- ===== src/Tests/Lint.antt =====
-- The state of the linter, its messages, suppressions, include order and function sizes.
use lamp.Prelude.{
  ℕ, ◌+◌, ◌*◌, ◌^◌, ◌≤◌, ◌<◌, Bool, true, false, not, ◌&&◌, ◌||◌, none, some, List, [], ◌∷◌, ◌++◌,
  ◌≡◌, ◌==◌, ◌≢◌, arith, All, ◌↔◌, ◌⊎◌, refl, leb, length, if◌then◌else◌,
}
use Prim.Native.Nat.{min}
use mathlib.Core.Option
use lamp.Text.{
  Text, codes, ◌=t=◌, text_lt, mem_text, starts_with, ends_with, find, count, replace, strip, split,
  decimal, concat, lower,
}
use lamp.Dict.{get_default, get_set, add_to_set, mem_number}
use lamp.State.{World, Report, CppLintState, init_state, init_world, default_filters}
use lamp.LintState.{set_filters, increment_error_count, reset_error_counts}
use lamp.LintState.Filters.{AllSigned, named, set_filters_lem}
use lamp.LintState.Counts.{total, increments, times, increments-reset_error_counts}
use lamp.Suppress.{parse_nolint_suppressions, is_error_suppressed_by_nolint}
use lamp.Suppress.Comment.{nolint}
use lamp.ErrorLog.{filtered_out, should_print_error, error}
use lamp.ErrorLog.Verdict.{
  last_applying, passes, printable, delivered, should_print_error_lem, error_lem,
}
use lamp.ErrorLog.Nolint.{covers, parse_nolint_suppressions-nolint}
use lamp.FunctionState.{FunctionState, base_trigger, error_level, trigger, check}
use lamp.FunctionState.Size.{check_confidence}
use lamp.IncludeState.{
  IncludeState, c_sys_header, cpp_sys_header, likely_my_header, init_include_state, first_of_two,
  find_header, reset_section, add_include, canonicalize_alphabetical_order,
  check_next_include_order,
}
use lamp.IncludeState.Order.{checked, is_out_of_order, check_next_include_order_iff}
use lamp.IncludeState.Headers.{
  find_header-add_include, find_header-reset_section, Canonical,
  canonicalize_alphabetical_order_iff,
}
use lamp.Regex

texts : Unit {0}
unfolding ◌=t=◌ text_lt mem_text starts_with ends_with find count replace strip split decimal concat
    lower
texts = tt

python_texts :
    (find (codes "a//b") (codes "//") ≡ some 1)
    × (count (codes "aaaa") (codes "aa") ≡ 2)
    × (replace (codes "x-inl.h") (codes "-inl.h") (codes ".h") ≡ codes "x.h")
    × (strip (codes "  a b ") ≡ codes "a b")
    × (split (codes "a,,b") b',' ≡ codes "a" ∷ [] ∷ codes "b" ∷ [])
    × (decimal 1204 ≡ codes "1204")
    × (text_lt (codes "ab") (codes "b") ≡ true)
unfolding texts
python_texts = (refl, refl, refl, refl, refl, refl, refl)

-- filters and error counts
set_filters_test :
    (set_filters init_state (codes "-whitespace, +build")).0.filters
    ≡ default_filters ++ codes "-whitespace" ∷ codes "+build" ∷ []
unfolding set_filters texts
set_filters_test = refl

abbrev flag : Text
flag = codes "-legal/copyright,-build/header_guard"

set_filters_example :
    ((set_filters init_state flag).0.filters ≡ default_filters ++ named (split flag b','))
    × (((set_filters init_state flag).1 ≡ none) ↔ AllSigned (named (split flag b',')))
set_filters_example = set_filters_lem init_state flag

abbrev counted_state : CppLintState
counted_state = record init_state { counting = codes "toplevel" }

abbrev errors : List Text
errors = codes "build/include" ∷ codes "whitespace/tab" ∷ codes "build/class" ∷ []

increments_example :
    (get_default 0
        (codes "build")
        (increments (reset_error_counts counted_state) errors).errors_by_category
      ≡ times counted_state (codes "build") errors)
    × (total (increments (reset_error_counts counted_state) errors).errors_by_category
        ≡ length errors)
    × ((increments (reset_error_counts counted_state) errors).error_count ≡ length errors)
unfolding texts
increments_example = increments-reset_error_counts counted_state errors (codes "build") refl

-- suppressions and messages
abbrev long_line : Report
long_line = record {
  filename = codes "a.h";
  linenum = 7;
  category = codes "whitespace/line_length";
  confidence = 2;
  message = codes "Too long";
}

error_test :
    Option.map (λ w. w.err) (error long_line init_world)
    ≡ some (codes "a.h:7:  Too long  [whitespace/line_length] [2]\n" ∷ [])
unfolding error should_print_error filtered_out is_error_suppressed_by_nolint get_default mem_number
    get_set increment_error_count texts
error_test = refl

nolint_test :
    Option.map {B = Bool × Bool}
      (λ w. (
        is_error_suppressed_by_nolint w (codes "build/include") 4,
        is_error_suppressed_by_nolint w (codes "build/class") 4,
      ))
      (parse_nolint_suppressions error
        (codes "a.h")
        (codes "x();  // NOLINTNEXTLINE(build/include)")
        3
        init_world)
    ≡ some (true, false)
unfolding parse_nolint_suppressions is_error_suppressed_by_nolint Regex.search Regex.group_of
    get_default mem_number get_set add_to_set texts
nolint_test = refl

no_n_before : All (λ c. c ≢ b'N') (codes "  f();  ")
no_n_before = ground arith

no_closing : All (λ c. c ≢ b')') (codes "build/class")
no_closing = ground arith

nolint_example :
    (w' : World) × (parse_nolint_suppressions error
        (codes "a.h")
        (codes "  f();  " ++ codes "// " ++ nolint true (some (codes "build/class")) ++ codes " .")
        3
        init_world
      ≡ some w')
    × (is_error_suppressed_by_nolint w' (codes "build/class") 4 ≡ (
        (covers (some (codes "build/class")) (codes "build/class") && ◌==◌ 4 (3 + 1))
        || is_error_suppressed_by_nolint init_world (codes "build/class") 4))
unfolding texts
nolint_example =
    parse_nolint_suppressions-nolint (codes "a.h") (codes "  f();  ") (codes " .") true
      (some (codes "build/class")) 3 init_world (codes "build/class") 4 no_n_before
      (λ e. cc, no_closing) (refl, tt)

should_print_example :
    should_print_error init_world (codes "whitespace/tab") 1 7
    ≡ some (
        not (is_error_suppressed_by_nolint init_world (codes "whitespace/tab") 7)
        && leb 1 1
        && passes (last_applying (codes "whitespace/tab") default_filters))
unfolding texts
should_print_example = should_print_error_lem init_world (codes "whitespace/tab") 1 7 (refl, tt)

error_example :
    (w' : World) × (error long_line init_world ≡ some w')
    × (w'.lint.error_count ≡ 0 + (if printable init_world long_line then 1 else 0))
    × (delivered w' ≡ 0 + (if printable init_world long_line then 1 else 0))
    × (w'.lint.filters ≡ default_filters)
    × (w'.error_suppressions ≡ [])
    × (w'.global_error_suppressions ≡ [])
unfolding texts
error_example = error_lem long_line init_world (refl, tt)

-- the size of functions
abbrev big_function : FunctionState
big_function = record {
  in_a_function = true;
  lines_in_function = 1100;
  current_function = codes "Parse";
}

check_test : Option.map (λ r. r.confidence) (check 1 big_function (codes "a.cc") 9) ≡ some 2
unfolding check trigger error_level base_trigger Regex.match
check_test = refl

check_confidence_example :
    (2 ≤ 5)
    × (base_trigger (codes "Parse") * 2 ^ 2 ≤ 1100)
    × ((◌≡◌ {A = ℕ} 2 5) ⊎ (1100 < base_trigger (codes "Parse") * 2 ^ 3))
    × (min 1 5 ≤ 2)
unfolding check trigger error_level base_trigger Regex.match
check_confidence_example = check_confidence 1 big_function (codes "a.cc") 9 refl

-- the order of includes
abbrev c_first : IncludeState
c_first = init_include_state

order_test :
    (check_next_include_order
      (checked c_first (likely_my_header ∷ cpp_sys_header ∷ []))
      c_sys_header).1
    ≡ codes "Found C system header after C++ system header"
unfolding check_next_include_order concat
order_test = refl

order_example :
    ((check_next_include_order
        (checked (reset_section c_first (codes "if")) (c_sys_header ∷ cpp_sys_header ∷ []))
        c_sys_header).1
      ≢ [])
    ↔ (is_out_of_order (c_sys_header ∷ cpp_sys_header ∷ []) c_sys_header ≡ true)
order_example =
    check_next_include_order_iff c_first (codes "if") (c_sys_header ∷ cpp_sys_header ∷ [])
      c_sys_header

add_include_example :
    find_header (add_include init_include_state (codes "a.h") 3) (codes "a.h")
    ≡ first_of_two
        (find_header init_include_state (codes "a.h"))
        (if codes "a.h" =t= codes "a.h" then some 3 else none)
add_include_example =
    find_header-add_include init_include_state (codes "a.h") (codes "a.h") 3 (λ e. cc)

reset_section_example :
    find_header
      (reset_section (add_include init_include_state (codes "a.h") 3) (codes "endif"))
      (codes "a.h")
    ≡ find_header (add_include init_include_state (codes "a.h") 3) (codes "a.h")
unfolding texts
reset_section_example =
    find_header-reset_section (add_include init_include_state (codes "a.h") 3) (codes "endif")
      (codes "a.h") refl

header_path_example :
    (canonicalize_alphabetical_order (codes "Foo-Bar-inl.h") ≡ codes "foo_bar.h")
    ↔ Canonical (codes "Foo-Bar-inl.h") (codes "foo_bar.h")
header_path_example =
    canonicalize_alphabetical_order_iff (codes "Foo-Bar-inl.h") (codes "foo_bar.h")

header_path_test : canonicalize_alphabetical_order (codes "Foo-Bar-inl.h") ≡ codes "foo_bar.h"
unfolding canonicalize_alphabetical_order texts
header_path_test = refl
