-- ===== src/Cleanse/MultiLine.antt =====
-- About `RemoveMultiLineComments` (build_support/cpplint.py).
use lamp.Prelude.{
  ℕ, zero, suc, ◌+◌, ◌≤◌, ◌<◌, true, false, Option, none, some, List, [], ◌∷◌, ◌≡◌, ◌⊎◌, inl, inr,
  refl, ap, arith, leb, leb→le, length, get_elem?, take, drop, take_all, All-append,
  take-append-drop, if_rule,
}
use lamp.Text.{Text, codes, strip, starts_with, find_from}
use lamp.State.{Report}
use lamp.Cleanse.FirstIndex.{Fails, index, index_bounds, index-Fails, index_here, index_none}
use lamp.Cleanse.{
  starts_comment, ends_comment, first_index, find_next_multi_line_comment_start,
  find_next_multi_line_comment_end, comment_line, remove_multi_line_comments_from_range,
  unclosed_comment, Removed, remove_comments, remove_multi_line_comments,
}

-- Each line is the old one, or the empty comment that takes its place.
abbrev pub Cleared : List Text → List Text → Type 0
Cleared [] [] = Unit
Cleared (l ∷ ls) (m ∷ ms) = ((m ≡ l) ⊎ (m ≡ comment_line)) × Cleared ls ms
Cleared _ _ = ⊥

Cleared-refl : (ls : List Text) → Cleared ls ls
Cleared-refl [] = tt
Cleared-refl (l ∷ ls) = (inl refl, Cleared-refl ls)

Cleared-trans : (ks ls ms : List Text) → Cleared ks ls → Cleared ls ms → Cleared ks ms
Cleared-trans [] [] [] h g = tt
Cleared-trans (k ∷ ks) (l ∷ ls) (m ∷ ms) (h, hs) (g, gs) =
    (ground arith, Cleared-trans ks ls ms hs gs)
Cleared-trans [] (l ∷ ls) ms h g = absurd h
Cleared-trans (k ∷ ks) [] ms h g = absurd h
Cleared-trans [] [] (m ∷ ms) h g = absurd g
Cleared-trans (k ∷ ks) (l ∷ ls) [] h g = absurd g

length-Cleared : (ls ms : List Text) → Cleared ls ms → length ms ≡ length ls
length-Cleared [] [] h = refl
length-Cleared (l ∷ ls) (m ∷ ms) (_, h) = ap suc (length-Cleared ls ms h)
length-Cleared [] (m ∷ ms) h = absurd h
length-Cleared (l ∷ ls) [] h = absurd h

range-Cleared :
    (ls : List Text) (begin end : ℕ)
    → Cleared ls (remove_multi_line_comments_from_range ls begin end)
unfolding remove_multi_line_comments_from_range
range-Cleared [] begin end = tt
range-Cleared (l ∷ ls) begin zero = (inl refl, Cleared-refl ls)
range-Cleared (l ∷ ls) zero (suc end) = (inr refl, range-Cleared ls zero end)
range-Cleared (l ∷ ls) (suc begin) (suc end) = (inl refl, range-Cleared ls begin end)

comment_line-starts : starts_comment comment_line ≡ false
unfolding starts_comment strip starts_with find_from
comment_line-starts = refl

-- Up to its end a cleared range holds no comment start, if what stands before it holds none.
range-Fails :
    (ls : List Text) (begin end : ℕ)
    → Fails starts_comment (take begin ls)
    → begin ≤ end
    → Fails starts_comment (take end (remove_multi_line_comments_from_range ls begin end))
unfolding remove_multi_line_comments_from_range
range-Fails [] begin zero h g = tt
range-Fails [] begin (suc end) h g = tt
range-Fails (l ∷ ls) begin zero h g = tt
range-Fails (l ∷ ls) zero (suc end) h g =
    (comment_line-starts, range-Fails ls zero end tt (omega arith))
range-Fails (l ∷ ls) (suc begin) (suc end) (h, hs) g =
    (h, range-Fails ls begin end hs (omega arith))

-- What the removal says of the lines that it is given: `r` holds lines that are kept or cleared; none
-- of them begins a comment that goes on, or the report names the line of one that never ends.
abbrev IsRemoved : Text → List Text → List Text × Option Report → Type 0
IsRemoved filename lines r =
    Cleared lines r.0
    × (((r.1 ≡ none) × Fails starts_comment r.0)
        ⊎ ((k : ℕ) × (l : Text) × (report : Report) × (r.1 ≡ some report)
            × (report.linenum ≡ k + 1)
            × (report.filename ≡ filename)
            × (report.category ≡ codes "readability/multiline_comment")
            × (get_elem? r.0 k ≡ some l)
            × (starts_comment l ≡ true)
            × Fails ends_comment (drop k r.0)))

-- The removal returns, and returns such lines.
abbrev Ends : Text → List Text → Removed → Type 0
Ends filename lines o = (r : List Text × Option Report) × (o ≡ some r) × IsRemoved filename lines r

Ends-Cleared :
    (filename : Text) (ks ls : List Text) (o : Removed)
    → Cleared ks ls
    → Ends filename ls o
    → Ends filename ks o
Ends-Cleared filename ks ls o h (r, e, (c, rest)) = (r, e, (Cleared-trans ks ls r.0 h c, rest))

module _ (filename : Text) (lines : List Text) (lineix : ℕ) (within : lineix ≤ length lines)
    (before : Fails starts_comment (take lineix lines)) where
  abbrev comment_begin : ℕ
  comment_begin = index starts_comment lines lineix within

  Ends-past : length lines ≤ lineix → Ends filename lines (some (lines, none))
  Ends-past h = (
    (lines, none),
    refl,
    (Cleared-refl lines, inl (refl, rw (take_all lineix lines h) at before)),
  )

  Ends-without : length lines ≤ comment_begin → Ends filename lines (some (lines, none))
  Ends-without h = (
    (lines, none),
    refl,
    (
      Cleared-refl lines,
      inl (
        refl,
        rw (take-append-drop lineix lines) at (
            All-append (λ l. starts_comment l ≡ false) (take lineix lines) (drop lineix lines)
              before (index_none starts_comment lines lineix within h)),
      ),
    ),
  )

  Ends-unclosed :
      (inside : comment_begin < length lines)
      → length lines ≤ index ends_comment lines comment_begin (omega arith)
      → Ends filename lines (some (lines, some (unclosed_comment filename comment_begin)))
  Ends-unclosed inside h =
      let (l, at, holds) = index_here starts_comment lines lineix within inside in
      (
        (lines, some (unclosed_comment filename comment_begin)),
        refl,
        (
          Cleared-refl lines,
          inr (
            comment_begin,
            l,
            unclosed_comment filename comment_begin,
            refl,
            refl,
            refl,
            refl,
            at,
            holds,
            index_none ends_comment lines comment_begin (omega arith) h,
          ),
        ),
      )

remove_comments-Ends :
    (f : ℕ) (filename : Text) (lines : List Text) (lineix : ℕ)
    → lineix ≤ length lines
    → length lines < lineix + f
    → Fails starts_comment (take lineix lines)
    → Ends filename lines (remove_comments f filename lines lineix)
unfolding remove_comments find_next_multi_line_comment_start find_next_multi_line_comment_end
remove_comments-Ends zero filename lines lineix w m h = absurd (omega arith)
remove_comments-Ends (suc f) filename lines lineix w m h =
    let P = Ends filename lines in
    let begin = first_index starts_comment lineix (drop lineix lines) in
    let end = first_index ends_comment begin (drop begin lines) in
    if_rule P (leb (length lines) lineix) _ _
      (λ e. Ends-past filename lines lineix w h (leb→le (length lines) lineix e))
      λ _.
        if_rule P (leb (length lines) begin) _ _
          (λ e. Ends-without filename lines lineix w h (leb→le (length lines) begin e))
          λ inside.
            let b : begin < length lines = ground arith in
            if_rule P (leb (length lines) end) _ _
              (λ e. Ends-unclosed filename lines lineix w h b (leb→le (length lines) end e))
              λ closed.
                let lines' = remove_multi_line_comments_from_range lines begin (end + 1) in
                let cleared = range-Cleared lines begin (end + 1) in
                let same = length-Cleared lines lines' cleared in
                let low = index_bounds starts_comment lines lineix w in
                let high : begin ≤ end = index_bounds ends_comment lines begin (omega arith) in
                let inside_too : end < length lines = ground arith in
                Ends-Cleared filename lines lines' _ cleared (
                  remove_comments-Ends f filename lines' (end + 1) (omega arith) (omega arith) (
                    range-Fails lines begin (end + 1) (index-Fails starts_comment lines lineix w h)
                      (omega arith)))

-- The removal of comments over several lines returns for every list of lines. Each line it returns
-- is the line given or the empty comment in its place. Either it makes no report and no line begins
-- a comment that goes on beyond it, or the line at some index begins such a comment, no line from
-- there on ends one, and the report is of an unclosed comment in that file, at the number one above
-- the index.
pub remove_multi_line_comments_lem :
    (filename : Text) (lines : List Text)
    → (r : List Text × Option Report) × (remove_multi_line_comments filename lines ≡ some r)
      × (Cleared lines r.0
          × (((r.1 ≡ none) × Fails starts_comment r.0)
              ⊎ ((k : ℕ) × (l : Text) × (report : Report) × (r.1 ≡ some report)
                  × (report.linenum ≡ k + 1)
                  × (report.filename ≡ filename)
                  × (report.category ≡ codes "readability/multiline_comment")
                  × (get_elem? r.0 k ≡ some l)
                  × (starts_comment l ≡ true)
                  × Fails ends_comment (drop k r.0))))
unfolding remove_multi_line_comments
remove_multi_line_comments_lem filename lines =
    remove_comments-Ends (length lines + 1) filename lines 0 (omega arith) (omega arith) tt
