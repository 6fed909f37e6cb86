-- ===== src/Suppress.antt =====
-- NOLINT comments: `ParseNolintSuppressions`, `ProcessGlobalSuppresions`,
-- `ResetNolintSuppressions` and `IsErrorSuppressedByNolint` (build_support/cpplint.py).
pub mod Laws
pub mod Comment
use lamp.Prelude.{
  ℕ, ◌+◌, ◌-◌, Bool, true, false, ◌&&◌, ◌||◌, Option, none, some, List, [], ◌∷◌, ◌++◌,
  if◌then◌else◌, is_some, length, take, drop,
}
use lamp.Text.{Text, codes, ◌=t=◌, mem_text, starts_with, ends_with}
use lamp.Dict.{Key, mem_number, get_default, store, get_set, add_to_set}
use lamp.State.{World, Report}
use lamp.Categories.{
  error_categories, legacy_error_categories, default_c_suppressed_categories,
  default_kernel_suppressed_categories,
}
use lamp.Regex
use lamp.Regex.{Re, chr, seq, alt, star, group, eol, word_boundary, At, group_of}
use lamp.Regex.Classes.{except, lit, plus, opt, space, dot, seqs, alts}

-- `\bNOLINT(NEXTLINE)?\b(\([^)]+\))?`
abbrev pub nolint_pattern : Re
nolint_pattern = seqs (
    word_boundary
    ∷ lit "NOLINT"
    ∷ opt (group 1 (lit "NEXTLINE"))
    ∷ word_boundary
    ∷ opt (group 2 (seqs (lit "(" ∷ plus (except ")") ∷ lit ")" ∷ [])))
    ∷ [])

-- `\b(?:LINT_C_FILE|vim?:\s*.*(\s*|:)filetype=c(\s*|:|$))`
abbrev pub c_file_pattern : Re
c_file_pattern = seq word_boundary (
    alt (lit "LINT_C_FILE") (
      seqs (
        lit "vi"
        ∷ opt (lit "m")
        ∷ lit ":"
        ∷ star space
        ∷ star dot
        ∷ group 1 (alt (star space) (lit ":"))
        ∷ lit "filetype=c"
        ∷ group 2 (alts (star space ∷ lit ":" ∷ eol ∷ []))
        ∷ [])))

-- `\b(?:LINT_KERNEL_FILE)`
abbrev pub kernel_file_pattern : Re
kernel_file_pattern = seq word_boundary (lit "LINT_KERNEL_FILE")

-- The error handler that a function is given. `none` stands for an exception.
abbrev pub Handler : Type 0
Handler = Report → World → Option World

abbrev pub suppress : Key → ℕ → World → World
suppress k n w = record w { error_suppressions = add_to_set k n w.error_suppressions }

-- `category[1:-1]`
abbrev pub inner : Text → Text
inner t = take (length t - 2) (drop 1 t)

abbrev pub nolint_report : Text → ℕ → Text → Report
nolint_report filename linenum category = record {
  filename = filename;
  linenum = linenum;
  category = codes "readability/nolint";
  confidence = 5;
  message = codes "Unknown NOLINT error category: " ++ category;
}

-- the branch with a category in parentheses
suppress_category : Handler → Text → ℕ → ℕ → Text → World → Option World
suppress_category error filename linenum suppressed_line category w =
    if starts_with category (codes "(") && ends_with category (codes ")")
    then (if mem_text (inner category) error_categories
        then some (suppress (some (inner category)) suppressed_line w)
        else if mem_text (inner category) legacy_error_categories
        then some w
        else error (nolint_report filename linenum (inner category)) w)
    else some w

suppress_group : Handler → Text → ℕ → ℕ → Option Text → World → Option World
suppress_group error filename linenum suppressed_line none w =
    some (suppress none suppressed_line w)
suppress_group error filename linenum suppressed_line (some category) w =
    if category =t= codes "(*)"
    then some (suppress none suppressed_line w)
    else suppress_category error filename linenum suppressed_line category w

abbrev pub suppressed_line_of : ℕ → At → ℕ
suppressed_line_of linenum m = if is_some (group_of m 1) then linenum + 1 else linenum

unfoldable pub parse_nolint_suppressions : Handler → Text → Text → ℕ → World → Option World
unfolding suppress_group suppress_category
parse_nolint_suppressions error filename raw_line linenum w =
    elim (Regex.search nolint_pattern raw_line) [
      | none ↦ some w
      | some m ↦
          suppress_group error filename linenum (suppressed_line_of linenum m) (group_of m 2) w
    ]

set_globals : List Text → World → World
set_globals [] w = w
set_globals (c ∷ cs) w =
    set_globals cs
      (record w { global_error_suppressions = store c true w.global_error_suppressions })

global_of_line : Text → World → World
unfolding set_globals
global_of_line line w =
    let w' =
      if is_some (Regex.search c_file_pattern line)
      then set_globals default_c_suppressed_categories w
      else w in
    if is_some (Regex.search kernel_file_pattern line)
    then set_globals default_kernel_suppressed_categories w'
    else w'

unfoldable pub process_global_suppressions : List Text → World → World
unfolding global_of_line
process_global_suppressions [] w = w
process_global_suppressions (line ∷ lines) w =
    process_global_suppressions lines (global_of_line line w)

unfoldable pub reset_nolint_suppressions : World → World
reset_nolint_suppressions w = record w { error_suppressions = []; global_error_suppressions = [] }

unfoldable pub is_error_suppressed_by_nolint : World → Text → ℕ → Bool
is_error_suppressed_by_nolint w category linenum =
    get_default false category w.global_error_suppressions
    || mem_number linenum (get_set (some category) w.error_suppressions)
    || mem_number linenum (get_set none w.error_suppressions)
