-- ===== src/Tests/Checks.antt =====
-- The checks of lines.
use lamp.Prelude.{
  ◌≤◌, ◌<◌, none, ℕ, true, arith, Option, some, List, [], ◌∷◌, ◌≡◌, ◌↔◌, ◌++◌, refl, map, drop,
}
use lamp.Text.{Text, codes, find, ◌=t=◌, count, replace, concat, starts_with, mem_text}
use lamp.State.{Report}
use lamp.Regex
use lamp.Expression.{close_expression, drop_angles, ends_in_operator, end_step, scan_end}
use lamp.Nesting.{NestingState, init_nesting_state, block_info, namespace_info}
use lamp.LineChecks.{check_for_multiline_comments_and_strings, check_posix_threading}
use lamp.LineChecks.Features.{flag_cxx11_features, flag_cxx14_features}
use lamp.LineChecks.Functions.{
  is_derived_function, is_initializer_list, is_out_of_line_method_definition,
}
use lamp.LineChecks.Functions.Initializers.{verdict_at, is_initializer_list_iff}
use lamp.LineChecks.Blank.{get_previous_non_blank_line, get_previous_non_blank_line_lem, IsPrevious}
use lamp.LineChecks.Namespaces.{check_for_namespace_indentation}
use lamp.LineChecks.Virtual.{check_redundant_virtual, check_redundant_override_or_final}
use lamp.LineChecks.Virtual.Reports.{check_redundant_virtual_total, IsVerdict}
use lamp.Regex.{Re, At, star, word_boundary}
use lamp.Regex.Classes.{lit, space, seqs}
use lamp.TextInside.{get_text_inside}
use lamp.TextInside.Nested.{Nested, get_text_inside_iff}

checks : Unit {0}
unfolding ◌=t=◌ find count replace concat Regex.match Regex.search Regex.group_of close_expression
    drop_angles ends_in_operator end_step scan_end check_for_multiline_comments_and_strings
    check_posix_threading check_for_namespace_indentation check_redundant_virtual
    check_redundant_override_or_final get_previous_non_blank_line get_text_inside
    flag_cxx11_features flag_cxx14_features is_derived_function is_initializer_list
    is_out_of_line_method_definition starts_with mem_text
checks = tt

abbrev category_of : Report → Text
category_of r = r.category

posix_test :
    map category_of (check_posix_threading (codes "a.cc") 3 (codes "int x = rand() + ctime(t);"))
    ≡ codes "runtime/threadsafe_fn" ∷ codes "runtime/threadsafe_fn" ∷ []
unfolding checks
posix_test = refl

multiline_test :
    map category_of
      (check_for_multiline_comments_and_strings (codes "a.cc") 3 (codes "f(\"a\\\"b); /* c"))
    ≡ codes "readability/multiline_comment" ∷ codes "readability/multiline_string" ∷ []
unfolding checks
multiline_test = refl

abbrev declarations : List Text
declarations = codes "virtual void f(int a," ∷ codes "    int b) override;" ∷ codes "  " ∷ []

virtual_test :
    check_redundant_virtual (codes "a.h") declarations 0
    ≡ some (
        record {
          filename = codes "a.h";
          linenum = 0;
          category = codes "readability/inheritance";
          confidence = 4;
          message =
              codes "\"virtual\" is redundant since function is already declared as \"override\"";
        }
        ∷ [])
unfolding checks
virtual_test = refl

-- The search for the parameters begins at column 7, wherever `virtual` stands: here it finds `(x)`.
virtual_missed_test :
    check_redundant_virtual
      (codes "a.h")
      (codes "ATTRIBUTES(x) virtual void f()" ∷ codes "    override;" ∷ [])
      0
    ≡ some []
unfolding checks
virtual_missed_test = refl

abbrev in_two : NestingState
in_two = record init_nesting_state {
  stack =
      record (block_info 1 true (namespace_info (codes "b")) true) { starting_linenum = 1 }
      ∷ block_info 0 true (namespace_info (codes "a")) true
      ∷ [];
  previous_stack_top = some (block_info 0 true (namespace_info (codes "a")) true);
  previous_index = some 0;
}

namespaces_test :
    map category_of (
      check_for_namespace_indentation
        (codes "a.cc")
        in_two
        (codes "namespace a {" ∷ codes "  namespace b {" ∷ [])
        1)
    ≡ codes "runtime/indentation_namespace" ∷ []
unfolding checks
namespaces_test = refl

check_redundant_virtual_example : IsVerdict 0 (check_redundant_virtual (codes "a.h") declarations 0)
check_redundant_virtual_example =
    check_redundant_virtual_total (codes "a.h") declarations 0 (omega arith)

get_previous_non_blank_line_example :
    (r : Text × Option ℕ) × (get_previous_non_blank_line declarations 3 ≡ some r)
    × IsPrevious declarations 3 r
get_previous_non_blank_line_example = get_previous_non_blank_line_lem declarations 3 (omega arith)

-- `\bprintf\s*\(`
abbrev printf_pattern : Re
printf_pattern = seqs (word_boundary ∷ lit "printf" ∷ star space ∷ lit "(" ∷ [])

abbrev call : Text
call = codes "  printf(a(), b(c()));"

get_text_inside_test : get_text_inside call printf_pattern ≡ some (some (codes "a(), b(c())"))
unfolding checks
get_text_inside_test = refl

-- the match in the call above
abbrev printf_match : At
printf_match = record { before = codes "(ftnirp  "; rest = codes "a(), b(c()));"; groups = [] }

printf_match_lem : Regex.search printf_pattern call ≡ some printf_match
unfolding checks
printf_match_lem = refl

get_text_inside_example :
    (get_text_inside call printf_pattern ≡ some (some (codes "a(), b(c())"))) ↔ (
      (rest : Text) × (drop 9 call ≡ codes "a(), b(c())" ++ b')' ∷ rest)
      × Nested (codes "a(), b(c())"))
get_text_inside_example =
    get_text_inside_iff call printf_pattern printf_match b'(' b')' (codes "ftnirp  ")
      (codes "a(), b(c())") printf_match_lem refl refl

features_test :
    map category_of (flag_cxx11_features (codes "a.cc") 3 (codes "#include <mutex>"))
      ++ map category_of (flag_cxx11_features (codes "a.cc") 3 (codes "std::alignment_of<T> a;"))
      ++ map category_of (flag_cxx14_features (codes "a.cc") 3 (codes "#include <shared_mutex>"))
    ≡ codes "build/c++11" ∷ codes "build/c++11" ∷ codes "build/c++14" ∷ []
unfolding checks
features_test = refl

abbrev override_lines : List Text
override_lines = codes "void f(int a," ∷ codes "       int b) override {" ∷ []

derived_test : is_derived_function override_lines 1 ≡ some true
unfolding checks
derived_test = refl

initializer_test :
    is_initializer_list
      (codes "" ∷ codes "A::A()" ∷ codes "    : a(1)," ∷ codes "      b(2) {" ∷ [])
      3
    ≡ true
unfolding checks
initializer_test = refl

method_test :
    is_out_of_line_method_definition (codes "void A::f(int a," ∷ codes "  int b)" ∷ []) 1 ≡ true
unfolding checks
method_test = refl

abbrev constructor_lines : List Text
constructor_lines = codes "" ∷ codes "A::A()" ∷ codes "    : a(1)," ∷ codes "      b(2) {" ∷ []

is_initializer_list_example : (is_initializer_list constructor_lines 3 ≡ true) ↔ (
    (i : ℕ) × (2 ≤ i)
    × (i ≤ 3)
    × (verdict_at constructor_lines 3 i ≡ some true)
    × ((j : ℕ) → i < j → j ≤ 3 → verdict_at constructor_lines 3 j ≡ none))
is_initializer_list_example = is_initializer_list_iff constructor_lines 3
