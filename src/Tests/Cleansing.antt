-- ===== src/Tests/Cleansing.antt =====
-- Comments and strings.
use lamp.Prelude.{
  ℕ, ◌+◌, true, Option, none, some, List, [], ◌∷◌, ◌≡◌, ◌⊎◌, refl, length, get_elem?, drop,
}
use lamp.Text.{
  Text, codes, ◌=t=◌, starts_with, ends_with, find, find_from, count, replace, strip, rstrip,
  lstrip,
}
use lamp.State.{Report}
use lamp.Regex
use lamp.Cleanse.{
  is_cpp_string, remove_multi_line_comments, remove_multi_line_comments_from_range, starts_comment,
  ends_comment, find_next_multi_line_comment_start, find_next_multi_line_comment_end,
  cleanse_comments,
}
use lamp.Cleanse.FirstIndex.{Fails}
use lamp.Cleanse.MultiLine.{Cleared, remove_multi_line_comments_lem}
use lamp.Cleanse.Raw.{cleanse_raw_strings}
use lamp.Cleanse.StringLoop.{init_cleansed_lines-length}
use lamp.Cleanse.Lines.{CleansedLines, init_cleansed_lines, collapse_strings}

cleansing : Unit {0}
unfolding ◌=t=◌ starts_with ends_with find find_from count replace strip rstrip lstrip Regex.match
    Regex.search Regex.sub Regex.group_of is_cpp_string remove_multi_line_comments
    remove_multi_line_comments_from_range starts_comment ends_comment
    find_next_multi_line_comment_start find_next_multi_line_comment_end cleanse_comments
    cleanse_raw_strings init_cleansed_lines collapse_strings
cleansing = tt

raw_test :
    cleanse_raw_strings
      (codes "f(R\"x(a\")\" b)x\", 1);" ∷ codes "s = R\"(one" ∷ codes "  two)\" + t;" ∷ [])
    ≡ some (codes "f(\"\", 1);" ∷ codes "s = \"\"" ∷ codes "  \"\" + t;" ∷ [])
unfolding cleansing
raw_test = refl

comments_test : cleanse_comments (codes "a /* b */ c; // d \"x\"") ≡ codes "a c;"
unfolding cleansing
comments_test = refl

collapse_test :
    collapse_strings (codes "f(\"a\\n//\", 'c', 0x1'000);") ≡ some (codes "f(\"\", '', 0x1000);")
unfolding cleansing
collapse_test = refl

multi_line_test :
    remove_multi_line_comments
      (codes "a.h")
      (codes "x" ∷ codes "/* one" ∷ codes "two */" ∷ codes "y" ∷ [])
    ≡ some (codes "x" ∷ codes "/**/" ∷ codes "/**/" ∷ codes "y" ∷ [], none)
unfolding cleansing
multi_line_test = refl

abbrev unclosed_lines : List Text
unclosed_lines = codes "/* one */" ∷ codes "/* two" ∷ codes "three" ∷ []

remove_multi_line_comments_example :
    (r : List Text × Option Report) × (remove_multi_line_comments (codes "a.h") unclosed_lines
      ≡ some r)
    × (Cleared unclosed_lines r.0
        × (((r.1 ≡ none) × Fails starts_comment r.0)
            ⊎ ((k : ℕ) × (l : Text) × (report : Report) × (r.1 ≡ some report)
                × (report.linenum ≡ k + 1)
                × (report.filename ≡ codes "a.h")
                × (report.category ≡ codes "readability/multiline_comment")
                × (get_elem? r.0 k ≡ some l)
                × (starts_comment l ≡ true)
                × Fails ends_comment (drop k r.0))))
remove_multi_line_comments_example = remove_multi_line_comments_lem (codes "a.h") unclosed_lines

abbrev raw_string_lines : List Text
raw_string_lines = codes "s = R\"(one // \"" ∷ codes "  two)\" + 1'000;  // \"x\"" ∷ []

init_cleansed_lines_example :
    (c : CleansedLines) × (init_cleansed_lines raw_string_lines ≡ some c)
    × (c.raw_lines ≡ raw_string_lines)
    × (c.num_lines ≡ length raw_string_lines)
    × (length c.elided ≡ length raw_string_lines)
    × (length c.lines ≡ length raw_string_lines)
    × (length c.lines_without_raw_strings ≡ length raw_string_lines)
init_cleansed_lines_example = init_cleansed_lines-length raw_string_lines
