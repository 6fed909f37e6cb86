-- ===== src/FileChecks.antt =====
-- Checks of a whole file (build_support/cpplint.py): `CheckForBadCharacters` and
-- `CheckForNewlineAtEOF`.
pub mod Newline
pub mod Characters
use lamp.Prelude.{
  ℕ, suc, ◌-◌, Bool, true, false, not, ◌||◌, Option, none, some, List, [], ◌∷◌, ◌++◌, ltb, ◌==◌,
  if◌then◌else◌, is_some, length, get_or,
}
use lamp.Text.{Text, codes, find}
use lamp.State.{Report}

abbrev pub utf8_report : Text → ℕ → Report
utf8_report filename linenum = record {
  filename = filename;
  linenum = linenum;
  category = codes "readability/utf8";
  confidence = 5;
  message = codes "Line contains invalid UTF-8 (or Unicode replacement character).";
}

abbrev pub nul_report : Text → ℕ → Report
nul_report filename linenum = record {
  filename = filename;
  linenum = linenum;
  category = codes "readability/nul";
  confidence = 5;
  message = codes "Line contains NUL byte.";
}

-- the code point of the replacement character
abbrev pub replacement : ℕ
replacement = 65533

unfoldable pub bad_characters : Text → ℕ → Text → List Report
bad_characters filename linenum line =
    (if is_some (find line (replacement ∷ [])) then utf8_report filename linenum ∷ [] else [])
    ++ (if is_some (find line (0 ∷ [])) then nul_report filename linenum ∷ [] else [])

unfoldable pub bad_characters_from : Text → ℕ → List Text → List Report
unfolding bad_characters
bad_characters_from filename linenum [] = []
bad_characters_from filename linenum (line ∷ lines) =
    bad_characters filename linenum line ++ bad_characters_from filename (suc linenum) lines

unfoldable pub check_for_bad_characters : Text → List Text → List Report
unfolding bad_characters_from
check_for_bad_characters filename lines = bad_characters_from filename 0 lines

abbrev pub is_nil : Text → Bool
is_nil [] = true
is_nil (c ∷ s) = false

abbrev pub newline_report : Text → ℕ → Report
newline_report filename linenum = record {
  filename = filename;
  linenum = linenum;
  category = codes "whitespace/ending_newline";
  confidence = 5;
  message = codes "Could not find a newline character at the end of the file.";
}

-- For two lines at least: the file's lines stand between two markers.
unfoldable pub check_for_newline_at_eof : Text → List Text → Option Report
check_for_newline_at_eof filename lines =
    if ltb (length lines) 3 || not (is_nil (get_or lines (length lines - 2) []))
    then some (newline_report filename (length lines - 2))
    else none

-- `s.split("\n")`
abbrev pub put : ℕ → List Text → List Text
put c [] = (c ∷ []) ∷ []
put c (l ∷ ls) = (c ∷ l) ∷ ls

unfoldable pub split_lines : Text → List Text
split_lines [] = [] ∷ []
split_lines (c ∷ s) = let rest = split_lines s in if c == b'\n' then [] ∷ rest else put c rest

-- the list of lines that `ProcessFileData` makes of the lines of a file
abbrev pub with_markers : List Text → List Text
with_markers lines =
    codes "// marker so line numbers and indices both start at 1"
    ∷ (lines ++ codes "// marker so line numbers end in a known way" ∷ [])
