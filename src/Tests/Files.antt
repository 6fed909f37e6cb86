-- ===== src/Tests/Files.antt =====
-- Checks of whole files.
use lamp.Prelude.{true, All, none, some, [], ◌∷◌, ◌++◌, ◌≡◌, ◌⊎◌, ◌↔◌, refl}
use lamp.Text.{Text, codes, find}
use lamp.FileChecks.{
  check_for_bad_characters, utf8_report, nul_report, check_for_newline_at_eof, newline_report,
  split_lines, with_markers,
}
use lamp.FileChecks.Characters.{is_clean, check_for_bad_characters_iff}
use lamp.FileChecks.Newline.{check_for_newline_at_eof-eq-none_iff}

files : Unit {0}
unfolding find check_for_bad_characters check_for_newline_at_eof split_lines
files = tt

bad_characters_test :
    check_for_bad_characters (codes "a.cc") (codes "a" ∷ (0 ∷ 65533 ∷ []) ∷ codes "b" ∷ [])
    ≡ utf8_report (codes "a.cc") 1 ∷ nul_report (codes "a.cc") 1 ∷ []
unfolding files
bad_characters_test = refl

no_newline_test :
    check_for_newline_at_eof (codes "a.cc") (with_markers (split_lines (codes "a\nb")))
    ≡ some (newline_report (codes "a.cc") 2)
unfolding files
no_newline_test = refl

newline_example :
    (check_for_newline_at_eof (codes "a.cc") (with_markers (split_lines (codes "a\nb\n"))) ≡ none)
    ↔ ((codes "a\nb\n" ≡ []) ⊎ ((u : Text) × (codes "a\nb\n" ≡ u ++ b'\n' ∷ [])))
newline_example = check_for_newline_at_eof-eq-none_iff (codes "a.cc") (codes "a\nb\n")

bad_characters_example :
    (check_for_bad_characters (codes "a.cc") (codes "a" ∷ (0 ∷ []) ∷ []) ≡ [])
    ↔ All (λ l. is_clean l ≡ true) (codes "a" ∷ (0 ∷ []) ∷ [])
bad_characters_example = check_for_bad_characters_iff (codes "a.cc") (codes "a" ∷ (0 ∷ []) ∷ [])
