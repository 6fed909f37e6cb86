-- ===== src/LineChecks/Features.antt =====
-- `FlagCxx11Features` and `FlagCxx14Features` (build_support/cpplint.py).
use lamp.Prelude.{ℕ, not, ◌&&◌, Option, none, some, List, [], ◌∷◌, ◌++◌, if◌then◌else◌, is_some}
use lamp.Text.{Text, codes, concat, starts_with, mem_text}
use lamp.State.{Report}
use lamp.Regex
use lamp.Regex.{Re, seq, star, group, word_boundary}
use lamp.Regex.Classes.{lit, among, except, exactly, space, plus, seqs}
use lamp.Cleanse.Raw.{group_text}
use lamp.Nesting.Blocks.{report}

-- `\s*#\s*include\s+[<"]([^<"]+)[">]`
abbrev pub header_pattern : Re
header_pattern = seqs (
    star space
    ∷ lit "#"
    ∷ star space
    ∷ lit "include"
    ∷ plus space
    ∷ among "<\""
    ∷ group 1 (plus (except "<\""))
    ∷ among "\">"
    ∷ [])

-- `include.group(1)`, if the line is an include
unfoldable pub included : Text → Option Text
included line = elim (Regex.match header_pattern line) [
  | none ↦ none
  | some include ↦ some (group_text include 1)
]

abbrev pub unapproved_headers : List Text
unapproved_headers =
    codes "cfenv"
    ∷ codes "condition_variable"
    ∷ codes "fenv.h"
    ∷ codes "future"
    ∷ codes "mutex"
    ∷ codes "thread"
    ∷ codes "chrono"
    ∷ codes "ratio"
    ∷ codes "regex"
    ∷ codes "system_error"
    ∷ []

abbrev pub tr1_report : Text → ℕ → Text → Report
tr1_report filename linenum header =
    report filename linenum (codes "build/c++tr1") 5
      (concat (codes "C++ TR1 headers such as <" ∷ header ∷ codes "> are unapproved." ∷ []))

abbrev pub header_report : Text → ℕ → Text → Text → Text → Report
header_report filename linenum category standard header =
    report filename linenum category 5
      (concat (codes "<" ∷ header ∷ codes "> is an unapproved " ∷ standard ∷ codes " header." ∷ []))

-- what is said of an included header
unfoldable pub flag_header_11 : Text → ℕ → Text → List Report
flag_header_11 filename linenum header =
    (if starts_with header (codes "tr1/") then tr1_report filename linenum header ∷ [] else [])
    ++ (if mem_text header unapproved_headers
        then header_report filename linenum (codes "build/c++11") (codes "C++11") header ∷ []
        else [])

-- `\s*#` and `\s*#\s*define\b`
abbrev pub directive_pattern : Re
directive_pattern = seq (star space) (lit "#")

abbrev pub macro_directive : Re
macro_directive = seqs (star space ∷ lit "#" ∷ star space ∷ lit "define" ∷ word_boundary ∷ [])

abbrev pub top_names : List Text
top_names = codes "alignment_of" ∷ codes "aligned_union" ∷ []

-- `\bstd::%s\b`
abbrev pub std_name : Text → Re
std_name name = seqs (word_boundary ∷ lit "std::" ∷ exactly name ∷ word_boundary ∷ [])

unfoldable pub flag_names : Text → ℕ → Text → List Text → List Report
flag_names filename linenum line [] = []
flag_names filename linenum line (top_name ∷ names) =
    (if is_some (Regex.search (std_name top_name) line)
      then report filename linenum (codes "build/c++11") 5 (
          concat (
            codes "std::"
            ∷ top_name
            ∷ codes " is an unapproved C++11 class or function.  Send c-style "
            ∷ codes "an example of where it would make your code more readable, and "
            ∷ codes "they may let you use it."
            ∷ []))
        ∷ []
      else [])
    ++ flag_names filename linenum line names

unfoldable pub flag_cxx11_features : Text → ℕ → Text → List Report
unfolding included flag_header_11 flag_names
flag_cxx11_features filename linenum line =
    (elim (included line) [ none ↦ [] | some header ↦ flag_header_11 filename linenum header ])
    ++ (if is_some (Regex.match directive_pattern line)
          && not (is_some (Regex.match macro_directive line))
        then []
        else flag_names filename linenum line top_names)

unfoldable pub flag_cxx14_features : Text → ℕ → Text → List Report
unfolding included
flag_cxx14_features filename linenum line = elim (included line) [
  | none ↦ []
  | some header ↦
      if mem_text header (codes "scoped_allocator" ∷ codes "shared_mutex" ∷ [])
      then header_report filename linenum (codes "build/c++14") (codes "C++14") header ∷ []
      else []
]
