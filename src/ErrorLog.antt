-- ===== src/ErrorLog.antt =====
-- `_ShouldPrintError` and `Error` (build_support/cpplint.py). `none` is the `AssertionError` at a
-- filter with no sign.
pub mod Verdict
pub mod Nolint
use lamp.Prelude.{
  ℕ, Bool, true, false, Option, none, some, List, [], ◌∷◌, ◌++◌, ltb, if◌then◌else◌, drop,
}
use lamp.Text.{Text, codes, ◌=t=◌, starts_with, decimal, concat}
use lamp.State.{World, Report, Failure}
use lamp.LintState.{increment_error_count, print_error, add_junit_failure}
use lamp.Suppress.{is_error_suppressed_by_nolint}

-- the loop over the filters: whether the category is filtered out
unfoldable pub filtered_out : Text → List Text → Bool → Option Bool
filtered_out category [] is_filtered = some is_filtered
filtered_out category (f ∷ fs) is_filtered = elim (starts_with f (codes "-")) [
  | true ↦ filtered_out category fs (if starts_with category (drop 1 f) then true else is_filtered)
  | false ↦ elim (starts_with f (codes "+")) [
    | true ↦
        filtered_out category fs (if starts_with category (drop 1 f) then false else is_filtered)
    | false ↦ none
  ]
]

unfoldable pub should_print_error : World → Text → ℕ → ℕ → Option Bool
should_print_error w category confidence linenum =
    if is_error_suppressed_by_nolint w category linenum
    then some false
    else if ltb confidence w.lint.verbose_level
    then some false
    else elim (filtered_out category w.lint.filters false) [
      | none ↦ none
      | some is_filtered ↦ if is_filtered then some false else some true
    ]

-- the message in each format
abbrev pub vs7_line : Report → Text
vs7_line r = concat (
    r.filename
    ∷ codes "("
    ∷ decimal r.linenum
    ∷ codes "): error cpplint: ["
    ∷ r.category
    ∷ codes "] "
    ∷ r.message
    ∷ codes " ["
    ∷ decimal r.confidence
    ∷ codes "]\n"
    ∷ [])

abbrev pub eclipse_line : Report → Text
eclipse_line r = concat (
    r.filename
    ∷ codes ":"
    ∷ decimal r.linenum
    ∷ codes ": warning: "
    ∷ r.message
    ∷ codes "  ["
    ∷ r.category
    ∷ codes "] ["
    ∷ decimal r.confidence
    ∷ codes "]\n"
    ∷ [])

abbrev pub emacs_line : Report → Text
emacs_line r = concat (
    r.filename
    ∷ codes ":"
    ∷ decimal r.linenum
    ∷ codes ":  "
    ∷ r.message
    ∷ codes "  ["
    ∷ r.category
    ∷ codes "] ["
    ∷ decimal r.confidence
    ∷ codes "]\n"
    ∷ [])

abbrev pub failure_of : Report → Failure
failure_of r = record {
  filename = r.filename;
  linenum = r.linenum;
  message = r.message;
  category = r.category;
  confidence = r.confidence;
}

abbrev write_err : Text → World → World
write_err t w = record w { err = w.err ++ t ∷ [] }

-- what `Error` does once it prints
unfoldable pub emit : Report → World → World
unfolding print_error
emit r w =
    let w' = record w { lint = increment_error_count w.lint r.category } in
    if w'.lint.output_format =t= codes "vs7"
    then print_error w' (vs7_line r)
    else if w'.lint.output_format =t= codes "eclipse"
    then write_err (eclipse_line r) w'
    else if w'.lint.output_format =t= codes "junit"
    then record w' { lint = add_junit_failure w'.lint (failure_of r) }
    else write_err (emacs_line r) w'

unfoldable pub error : Report → World → Option World
unfolding emit
error r w = elim (should_print_error w r.category r.confidence r.linenum) [
  | none ↦ none
  | some printed ↦ if printed then some (emit r w) else some w
]
