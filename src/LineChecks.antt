-- ===== src/LineChecks.antt =====
-- Checks of single lines (build_support/cpplint.py): `CheckForMultilineCommentsAndStrings`,
-- `CheckPosixThreading`, `CheckVlogArguments`, `CheckInvalidIncrement`, `CheckMakePairUsesDeduction`.
-- Each is given the line that it reads and its number.
pub mod Blank
pub mod Namespaces
pub mod Virtual
pub mod Features
pub mod Functions
use lamp.Prelude.{
  ℕ, ◌-◌, ◌%◌, Bool, true, false, not, Option, none, some, List, [], ◌∷◌, ◌++◌, ltb, ◌==◌,
  if◌then◌else◌, is_some,
}
use lamp.Text.{Text, codes, concat, count, replace}
use lamp.State.{Report}
use lamp.Int.{sub_ℕ, is_even}
use lamp.Regex
use lamp.Regex.{Re, seq, alt, star, group, bol, word_boundary}
use lamp.Regex.Classes.{lit, among, except, space, word, plus, seqs, alts}
use lamp.Nesting.Blocks.{report}

unfoldable pub check_for_multiline_comments_and_strings : Text → ℕ → Text → List Report
check_for_multiline_comments_and_strings filename linenum elided =
    let line = replace elided (codes "\\\\") [] in
    (if ltb (count line (codes "*/")) (count line (codes "/*"))
      then report filename linenum (codes "readability/multiline_comment") 5 (
          concat (
            codes "Complex multi-line /*...*/-style comment found. "
            ∷ codes "Lint may give bogus warnings.  "
            ∷ codes "Consider replacing these with //-style comments, "
            ∷ codes "with #if 0...#endif, "
            ∷ codes "or with more clearly structured multi-line comments."
            ∷ []))
        ∷ []
      else [])
    ++ (if is_even (sub_ℕ (count line (codes "\"")) (count line (codes "\\\"")))
        then []
        else report filename linenum (codes "readability/multiline_string") 5 (
            concat (
              codes "Multi-line string (\"...\") found.  This lint script doesn't "
              ∷ codes "do well with such strings, and may give bogus warnings.  "
              ∷ codes "Use C++11 raw strings or concatenation instead."
              ∷ []))
          ∷ [])

-- `(?:[-+*/=%^&|(<]\s*|>\s+)`
abbrev pub unsafe_func_prefix : Re
unsafe_func_prefix = alt (seq (among "-+*/=%^&|(<") (star space)) (seq (lit ">") (plus space))

-- `name\([^)]+\)` and `name\(\)` behind the prefix
abbrev pub unsafe_call : Text → Bool → Re
unsafe_call name arguments = seqs (
    unsafe_func_prefix
    ∷ Regex.Classes.exactly name
    ∷ lit "("
    ∷ (if arguments then seq (plus (except ")")) (lit ")") else lit ")")
    ∷ [])

-- The name of each function, and whether its pattern asks for arguments; the safe function and the
-- text of both are made of the name.
abbrev pub threading_list : List (Text × Bool)
threading_list =
    (codes "asctime", true)
    ∷ (codes "ctime", true)
    ∷ (codes "getgrgid", true)
    ∷ (codes "getgrnam", true)
    ∷ (codes "getlogin", false)
    ∷ (codes "getpwnam", true)
    ∷ (codes "getpwuid", true)
    ∷ (codes "gmtime", true)
    ∷ (codes "localtime", true)
    ∷ (codes "rand", false)
    ∷ (codes "strtok", true)
    ∷ (codes "ttyname", true)
    ∷ []

abbrev pub unsafe_report : Text → ℕ → Text → Report
unsafe_report filename linenum name = report filename linenum (codes "runtime/threadsafe_fn") 2 (
    concat (
      codes "Consider using "
      ∷ name
      ∷ codes "_r("
      ∷ codes "...) instead of "
      ∷ name
      ∷ codes "("
      ∷ codes "...) for improved thread safety."
      ∷ []))

unfoldable pub unsafe_calls : Text → ℕ → Text → List (Text × Bool) → List Report
unsafe_calls filename linenum line [] = []
unsafe_calls filename linenum line ((name, arguments) ∷ fs) =
    (if is_some (Regex.search (unsafe_call name arguments) line)
      then unsafe_report filename linenum name ∷ []
      else [])
    ++ unsafe_calls filename linenum line fs

unfoldable pub check_posix_threading : Text → ℕ → Text → List Report
unfolding unsafe_calls
check_posix_threading filename linenum line = unsafe_calls filename linenum line threading_list

-- `\bVLOG\((INFO|ERROR|WARNING|DFATAL|FATAL)\)`
abbrev pub vlog_pattern : Re
vlog_pattern = seqs (
    word_boundary
    ∷ lit "VLOG("
    ∷ group 1 (alts (lit "INFO" ∷ lit "ERROR" ∷ lit "WARNING" ∷ lit "DFATAL" ∷ lit "FATAL" ∷ []))
    ∷ lit ")"
    ∷ [])

unfoldable pub check_vlog_arguments : Text → ℕ → Text → List Report
check_vlog_arguments filename linenum line =
    if is_some (Regex.search vlog_pattern line)
    then report filename linenum (codes "runtime/vlog") 5 (
        concat (
          codes "VLOG() should be used with numeric verbosity level.  "
          ∷ codes "Use LOG() if you want symbolic severity levels."
          ∷ []))
      ∷ []
    else []

-- `^\s*\*\w+(\+\+|--);`
abbrev pub invalid_increment_pattern : Re
invalid_increment_pattern =
    seqs
      (bol ∷ star space ∷ lit "*" ∷ plus word ∷ group 1 (alt (lit "++") (lit "--")) ∷ lit ";" ∷ [])

unfoldable pub check_invalid_increment : Text → ℕ → Text → List Report
check_invalid_increment filename linenum line =
    if is_some (Regex.match invalid_increment_pattern line)
    then report filename linenum (codes "runtime/invalid_increment") 5
        (codes "Changing pointer instead of value (or unused value of operator*).")
      ∷ []
    else []

-- `\bmake_pair\s*<`
abbrev pub explicit_makepair_pattern : Re
explicit_makepair_pattern = seqs (word_boundary ∷ lit "make_pair" ∷ star space ∷ lit "<" ∷ [])

unfoldable pub check_make_pair_uses_deduction : Text → ℕ → Text → List Report
check_make_pair_uses_deduction filename linenum line =
    if is_some (Regex.search explicit_makepair_pattern line)
    then report filename linenum (codes "build/explicit_make_pair") 4 (
        concat (
          codes "For C++11-compatibility, omit template arguments from make_pair"
          ∷ codes " OR use pair directly OR if appropriate, construct a pair directly"
          ∷ []))
      ∷ []
    else []
