-- ===== src/Cleanse.antt =====
-- Comments and strings out of the lines (build_support/cpplint.py): `IsCppString`, the removal of
-- comments over several lines, `CleanseComments`. Child modules have raw strings and `CleansedLines`.
pub mod FirstIndex
pub mod MultiLine
pub mod Raw
pub mod RawPattern
pub mod RawLoop
pub mod Lines
pub mod StringPattern
pub mod StringLoop
use lamp.Prelude.{
  ℕ, zero, suc, ◌+◌, ◌%◌, Bool, true, false, not, ◌&&◌, ◌||◌, Option, none, some, List, [], ◌∷◌,
  ◌++◌, ltb, leb, ◌==◌, if◌then◌else◌, is_some, length, take, drop,
}
use lamp.Text.{
  Text, codes, starts_with, ends_with, find, find_from, count, replace, strip, rstrip, is_word,
}
use lamp.State.{Report}
use lamp.Regex
use lamp.Regex.{Re, chr, seq, alt, star, group, ahead, not_ahead, eol}
use lamp.Regex.Classes.{lit, except, space, non_word, plus, seqs, alts}

-- The parity of the difference of the three counts is that of their sum.
unfoldable pub is_cpp_string : Text → Bool
is_cpp_string line =
    let l = replace line (codes "\\\\") (codes "XX") in
    (count l (codes "\"") + count l (codes "\\\"") + count l (codes "'\"'")) % 2 == 1

-- `lines[lineix]` begins a comment that goes on beyond the line
unfoldable pub starts_comment : Text → Bool
starts_comment line =
    starts_with (strip line) (codes "/*") && not (is_some (find_from (strip line) (codes "*/") 2))

unfoldable pub ends_comment : Text → Bool
ends_comment line = ends_with (strip line) (codes "*/")

-- The index of the first of the lines that meets the test, counted from `i`; else that past the end.
unfoldable pub first_index : (Text → Bool) → ℕ → List Text → ℕ
first_index p i [] = i
first_index p i (l ∷ ls) = let later = first_index p (suc i) ls in if p l then i else later

-- For an index that is not past the end.
unfoldable pub find_next_multi_line_comment_start : List Text → ℕ → ℕ
unfolding first_index
find_next_multi_line_comment_start lines lineix =
    first_index starts_comment lineix (drop lineix lines)

unfoldable pub find_next_multi_line_comment_end : List Text → ℕ → ℕ
unfolding first_index
find_next_multi_line_comment_end lines lineix = first_index ends_comment lineix (drop lineix lines)

abbrev pub comment_line : Text
comment_line = codes "/**/"

-- the lines from `begin` up to `end`, that one left out
unfoldable pub remove_multi_line_comments_from_range : List Text → ℕ → ℕ → List Text
remove_multi_line_comments_from_range [] begin end = []
remove_multi_line_comments_from_range (l ∷ ls) begin zero = l ∷ ls
remove_multi_line_comments_from_range (l ∷ ls) zero (suc end) =
    comment_line ∷ remove_multi_line_comments_from_range ls zero end
remove_multi_line_comments_from_range (l ∷ ls) (suc begin) (suc end) =
    l ∷ remove_multi_line_comments_from_range ls begin end

abbrev pub unclosed_comment : Text → ℕ → Report
unclosed_comment filename lineix_begin = record {
  filename = filename;
  linenum = lineix_begin + 1;
  category = codes "readability/multiline_comment";
  confidence = 5;
  message = codes "Could not find end of multi-line comment";
}

-- The lines and the report made; `none` if the rounds run out.
abbrev pub Removed : Type 0
Removed = Option (List Text × Option Report)

unfoldable pub remove_comments : ℕ → Text → List Text → ℕ → Removed
remove_comments zero filename lines lineix = none
remove_comments (suc f) filename lines lineix =
    let begin = find_next_multi_line_comment_start lines lineix in
    let end = find_next_multi_line_comment_end lines begin in
    let more =
      remove_comments f filename (remove_multi_line_comments_from_range lines begin (end + 1))
        (end + 1) in
    if leb (length lines) lineix
    then some (lines, none)
    else if leb (length lines) begin
    then some (lines, none)
    else if leb (length lines) end
    then some (lines, some (unclosed_comment filename begin))
    else more

unfoldable pub remove_multi_line_comments : Text → List Text → Removed
unfolding remove_comments
remove_multi_line_comments filename lines = remove_comments (length lines + 1) filename lines 0

-- `/\*(?:[^*]|\*(?!/))*\*/`
abbrev pub c_comment : Re
c_comment =
    seqs (lit "/*" ∷ star (alt (except "*") (seq (lit "*") (not_ahead (lit "/")))) ∷ lit "*/" ∷ [])

-- `(\s*C\s*$|C\s+|\s+C(?=\W)|C)`, with the pattern above for `C`
abbrev pub c_comments : Re
c_comments = group 1 (
    alts (
      seqs (star space ∷ c_comment ∷ star space ∷ eol ∷ [])
      ∷ seqs (c_comment ∷ plus space ∷ [])
      ∷ seqs (plus space ∷ c_comment ∷ ahead non_word ∷ [])
      ∷ c_comment
      ∷ []))

-- the line cut at a `//` that is not in a string
unfoldable pub cut_comment : Text → Text
unfolding is_cpp_string
cut_comment line = elim (find line (codes "//")) [
  | none ↦ line
  | some commentpos ↦
      if is_cpp_string (take commentpos line) then line else rstrip (take commentpos line)
]

unfoldable pub cleanse_comments : Text → Text
unfolding cut_comment
cleanse_comments line = Regex.sub c_comments [] (cut_comment line)
