-- ===== src/LintState.antt =====
-- Class `_CppLintState` and the functions of the module that pass on to its one instance
-- (build_support/cpplint.py). `SetQuiet` and the like return the state and their result.
pub mod Filters
pub mod Counts
use lamp.Prelude.{
  ℕ, suc, ◌+◌, Bool, true, false, not, ◌&&◌, ◌||◌, Option, none, some, List, [], ◌∷◌, ◌++◌, ltb,
  leb, if◌then◌else◌, drop, get_or,
}
use lamp.Text.{Text, codes, ◌=t=◌, mem_text, starts_with, strip, split, decimal, concat, text_lt}
use lamp.Dict.{get_default, store}
use lamp.State.{CppLintState, World, Failure, default_filters}

abbrev pub set_output_format : CppLintState → Text → CppLintState
set_output_format s format = record s { output_format = format }

abbrev pub set_quiet : CppLintState → Bool → CppLintState × Bool
set_quiet s quiet = (record s { quiet = quiet }, s.quiet)

abbrev pub set_verbose_level : CppLintState → ℕ → CppLintState × ℕ
set_verbose_level s level = (record s { verbose_level = level }, s.verbose_level)

abbrev pub set_counting_style : CppLintState → Text → CppLintState
set_counting_style s style = record s { counting = style }

-- the first loop of `AddFilters`
append_filters : List Text → List Text → List Text
append_filters filters [] = filters
append_filters filters (f ∷ fs) = elim (strip f) [
  | [] ↦ append_filters filters fs
  | c ∷ t ↦ append_filters (filters ++ (c ∷ t) ∷ []) fs
]

abbrev pub is_filter : Text → Bool
is_filter f = starts_with f (codes "+") || starts_with f (codes "-")

-- its second loop: the message of the `ValueError`, if one is raised
check_filters : List Text → Option Text
check_filters [] = none
check_filters (f ∷ fs) =
    let later = check_filters fs in
    if not (is_filter f)
    then some (
        concat (
          codes "Every filter in --filters must start with + or - (" ∷ f ∷ codes " does not)" ∷ []))
    else later

-- The state, and the `ValueError` raised. What was appended stays.
unfoldable pub add_filters : CppLintState → Text → CppLintState × Option Text
unfolding append_filters check_filters
add_filters s filters =
    let all = append_filters s.filters (split filters b',') in
    (record s { filters = all }, check_filters all)

unfoldable pub set_filters : CppLintState → Text → CppLintState × Option Text
unfolding add_filters
set_filters s filters = add_filters (record s { filters = default_filters }) filters

abbrev pub backup_filters : CppLintState → CppLintState
backup_filters s = record s { filters_backup = s.filters }

abbrev pub restore_filters : CppLintState → CppLintState
restore_filters s = record s { filters = s.filters_backup }

abbrev pub reset_error_counts : CppLintState → CppLintState
reset_error_counts s = record s { error_count = 0; errors_by_category = [] }

-- the name under which `IncrementErrorCount` counts
abbrev pub counted_category : CppLintState → Text → Text
counted_category s category =
    if not (s.counting =t= codes "detailed") then get_or (split category b'/') 0 [] else category

unfoldable pub increment_error_count : CppLintState → Text → CppLintState
increment_error_count s category =
    let s' : CppLintState = record s { error_count = s.error_count + 1 } in
    if mem_text s.counting (codes "toplevel" ∷ codes "detailed" ∷ [])
    then (let c = counted_category s category in
        record s' {
          errors_by_category =
              store c (get_default 0 c s.errors_by_category + 1) s.errors_by_category;
        })
    else s'

unfoldable pub print_info : World → Text → World
print_info w message =
    if not w.quiet_info && not (w.lint.output_format =t= codes "junit")
    then record w { out = w.out ++ message ∷ [] }
    else w

unfoldable pub print_error : World → Text → World
print_error w message =
    if w.lint.output_format =t= codes "junit"
    then record w { lint = record w.lint { junit_errors = w.lint.junit_errors ++ message ∷ [] } }
    else record w { err = w.err ++ message ∷ [] }

abbrev pub add_junit_failure : CppLintState → Failure → CppLintState
add_junit_failure s f = record s { junit_failures = s.junit_failures ++ f ∷ [] }

-- `sorted` of the pairs, whose keys differ
insert_pair : Text × ℕ → List (Text × ℕ) → List (Text × ℕ)
insert_pair p [] = p ∷ []
insert_pair (k, n) ((j, m) ∷ ps) =
    if text_lt k j then (k, n) ∷ (j, m) ∷ ps else (j, m) ∷ insert_pair (k, n) ps

sorted_pairs : List (Text × ℕ) → List (Text × ℕ)
sorted_pairs [] = []
sorted_pairs (p ∷ ps) = insert_pair p (sorted_pairs ps)

print_categories : World → List (Text × ℕ) → World
print_categories w [] = w
print_categories w ((category, count) ∷ ps) =
    print_categories
      (print_info w (
        concat (
          codes "Category '"
          ∷ category
          ∷ codes "' errors found: "
          ∷ decimal count
          ∷ codes "\n"
          ∷ [])))
      ps

unfoldable pub print_error_counts : World → World
unfolding print_info print_categories insert_pair sorted_pairs
print_error_counts w =
    let w' = print_categories w (sorted_pairs w.lint.errors_by_category) in
    if ltb 0 w.lint.error_count
    then print_info w'
        (concat (codes "Total errors found: " ∷ decimal w.lint.error_count ∷ codes "\n" ∷ []))
    else w'
