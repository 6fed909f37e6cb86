-- ===== src/ErrorLog/Verdict.antt =====
-- When `Error` prints, and what it changes.
use lamp.Prelude.{
  ℕ, ◌+◌, Bool, true, false, not, ◌&&◌, Option, none, some, List, [], ◌∷◌, ◌≡◌, inl, inr, refl,
  arith, leb, if◌then◌else◌, drop, length, length-append, Bool-cases,
}
use lamp.Text.{Text, codes, starts_with}
use lamp.State.{CppLintState, World, Report}
use lamp.LintState.{is_filter, increment_error_count, print_error}
use lamp.LintState.Filters.{AllSigned}
use lamp.Suppress.{is_error_suppressed_by_nolint}
use lamp.Suppress.Laws.{KeepsSuppressions}
use lamp.ErrorLog.{
  filtered_out, should_print_error, vs7_line, eclipse_line, emacs_line, failure_of, emit, error,
}

abbrev applies : Text → Text → Bool
applies category f = is_filter f && starts_with category (drop 1 f)

-- The last filter that names a prefix of the category.
abbrev pub last_applying : Text → List Text → Option Text
last_applying category [] = none
last_applying category (f ∷ fs) = elim (last_applying category fs) [
  | some g ↦ some g
  | none ↦ if applies category f then some f else none
]

-- A category passes if the last filter that applies to it, if there is one, has no minus sign.
abbrev pub passes : Option Text → Bool
passes none = true
passes (some f) = not (starts_with f (codes "-"))

filtered_out_lem :
    (category : Text) (fs : List Text) (b : Bool)
    → AllSigned fs
    → filtered_out category fs b
      ≡ some (elim (last_applying category fs) [ none ↦ b | some f ↦ not (passes (some f)) ])
unfolding filtered_out
filtered_out_lem category [] b h = refl
filtered_out_lem category (f ∷ fs) b (h, hs) = ground (
  arith,
  filtered_out_lem category fs b hs,
  filtered_out_lem category fs true hs,
  filtered_out_lem category fs false hs,
)

-- With signed filters `_ShouldPrintError` answers, and it says yes exactly when the category is not
-- suppressed on the line, the confidence reaches the verbosity, and the last filter that applies to
-- the category has no minus sign.
pub should_print_error_lem :
    (w : World) (category : Text) (confidence linenum : ℕ)
    → AllSigned w.lint.filters
    → should_print_error w category confidence linenum
      ≡ some (
          not (is_error_suppressed_by_nolint w category linenum)
          && leb w.lint.verbose_level confidence
          && passes (last_applying category w.lint.filters))
unfolding should_print_error
should_print_error_lem w category confidence linenum h =
    ground (arith, filtered_out_lem category w.lint.filters false h)

-- what `Error` has delivered, on the stream or for the JUnit report
abbrev pub delivered : World → ℕ
delivered w = length w.err + length w.lint.junit_failures + length w.lint.junit_errors

increment_error_count-keeps :
    (s : CppLintState) (c : Text)
    → ((increment_error_count s c).error_count ≡ s.error_count + 1)
      × ((increment_error_count s c).filters ≡ s.filters)
      × ((increment_error_count s c).verbose_level ≡ s.verbose_level)
      × ((increment_error_count s c).junit_errors ≡ s.junit_errors)
      × ((increment_error_count s c).junit_failures ≡ s.junit_failures)
unfolding increment_error_count
increment_error_count-keeps s c = ground arith

emit_lem :
    (r : Report) (w : World)
    → ((emit r w).lint.error_count ≡ w.lint.error_count + 1)
      × (delivered (emit r w) ≡ delivered w + 1)
      × ((emit r w).lint.filters ≡ w.lint.filters)
      × ((emit r w).error_suppressions ≡ w.error_suppressions)
      × ((emit r w).global_error_suppressions ≡ w.global_error_suppressions)
unfolding emit print_error
emit_lem r w = ground (
  arith,
  increment_error_count-keeps w.lint r.category,
  length-append (increment_error_count w.lint r.category).junit_errors (vs7_line r ∷ []),
  length-append (increment_error_count w.lint r.category).junit_failures (failure_of r ∷ []),
  length-append w.err (vs7_line r ∷ []),
  length-append w.err (eclipse_line r ∷ []),
  length-append w.err (emacs_line r ∷ []),
)

-- Not suppressed on its line, confident enough, and passed by the filters.
abbrev pub printable : World → Report → Bool
printable w r =
    not (is_error_suppressed_by_nolint w r.category r.linenum)
    && leb w.lint.verbose_level r.confidence
    && passes (last_applying r.category w.lint.filters)

-- With signed filters `Error` returns. It raises the number of errors by one and delivers one
-- message if the report is printable, and does neither if it is not; the filters and the tables of
-- suppressions stay as they are.
pub error_lem :
    (r : Report) (w : World)
    → AllSigned w.lint.filters
    → (w' : World) × (error r w ≡ some w')
      × (w'.lint.error_count ≡ w.lint.error_count + (if printable w r then 1 else 0))
      × (delivered w' ≡ delivered w + (if printable w r then 1 else 0))
      × (w'.lint.filters ≡ w.lint.filters)
      × (w'.error_suppressions ≡ w.error_suppressions)
      × (w'.global_error_suppressions ≡ w.global_error_suppressions)
unfolding error
error_lem r w h =
    let verdict = should_print_error_lem w r.category r.confidence r.linenum h in
    elim (Bool-cases (printable w r)) [
      | inl p ↦
          let (a, b, c, d, e) = emit_lem r w in
          (emit r w, rw (verdict, p, error), rw p a, rw p b, c, d, e)
      | inr p ↦
          (w, rw (verdict, p, error), rw p (omega arith), rw p (omega arith), refl, refl, refl)
    ]

error-keeps_tables :
    (r : Report) (w w' : World)
    → error r w ≡ some w'
    → (w'.error_suppressions ≡ w.error_suppressions)
      × (w'.global_error_suppressions ≡ w.global_error_suppressions)
unfolding error
error-keeps_tables r w w' h = ground (arith, emit_lem r w)

pub error-KeepsSuppressions : KeepsSuppressions error
unfolding is_error_suppressed_by_nolint
error-KeepsSuppressions r w w' h category l = let (a, b) = error-keeps_tables r w w' h in rw (a, b)
