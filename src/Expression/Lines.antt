-- ===== src/Expression/Lines.antt =====
-- About `CloseExpression` at a bracket in front of balanced text that goes on over several lines.
use lamp.Prelude.{
  ℕ, suc, ◌+◌, true, some, List, [], ◌∷◌, ◌++◌, ◌≡◌, ap, ◌∙◌, arith, length, All, append-nil,
  append_assoc, drop-suc-length-append, get_elem?-length-append, All-split,
}
use lamp.Text.{Text}
use lamp.Expression.{
  pairs, found, open_at_end, scan_end, find_end_of_expression_in_line, Place, close_in, close_from,
  close_expression,
}
use lamp.Expression.Balance.{
  Balanced, IsClean, NoAngle, stack_after, stack_after-Balanced, stack_after-split,
  Balanced-IsClean, scan_end-stack_after,
}
use lamp.Expression.Closing.{
  opening_is_bracket, scan_end-closing, find_end_to_end, close_expression-opening,
}

-- the texts joined
abbrev pub joined : List Text → Text
joined [] = []
joined (t ∷ ts) = t ++ joined ts

stack_after-nil : (t : Text) (o : ℕ) → stack_after [] t ≡ some (o ∷ []) → ⊥
unfolding stack_after
stack_after-nil [] o h = cc
stack_after-nil (c ∷ t) o h = cc

find_end_clean :
    (l : Text) (t : ℕ) (st st' : List ℕ)
    → NoAngle (t ∷ st)
    → All IsClean l
    → stack_after (t ∷ st) l ≡ some st'
    → (find_end_of_expression_in_line l 0 (t ∷ st) ≡ open_at_end st') × NoAngle st'
unfolding find_end_of_expression_in_line scan_end
find_end_clean l t st st' n k h =
    let (run, n') = scan_end-stack_after l l [] 0 (t ∷ st) st' n k h in (rw append-nil at run, n')

-- past the bracket `c` behind `wn`, on the line of that number
abbrev past : Text → ℕ → Text → ℕ → Place
past wn c post n = record { line = wn ++ c ∷ post; linenum = n; pos = some (length wn + 1) }

module _ (o c : ℕ) (p : pairs o c ≡ true) (total : ℕ) (wn post : Text) (after : List Text) where
  find_end_last :
      (t : ℕ) (st : List ℕ)
      → NoAngle (t ∷ st)
      → All IsClean wn
      → stack_after (t ∷ st) wn ≡ some (o ∷ [])
      → find_end_of_expression_in_line (wn ++ c ∷ post) 0 (t ∷ st) ≡ found (length wn + 1)
  unfolding find_end_of_expression_in_line
  find_end_last t st a k h =
      let line = wn ++ c ∷ post in
      (scan_end-stack_after line wn (c ∷ post) 0 (t ∷ st) (o ∷ []) a k h).0
      ∙ ap (λ i. scan_end line i (c ∷ post) (o ∷ [])) (omega arith)
      ∙ scan_end-closing line (length wn) o c post p

  close_in_last :
      (n : ℕ) (last : Text) (t : ℕ) (st : List ℕ)
      → NoAngle (t ∷ st)
      → All IsClean wn
      → stack_after (t ∷ st) wn ≡ some (o ∷ [])
      → close_in total n last ((wn ++ c ∷ post) ∷ after) (t ∷ st) ≡ past wn c post (suc n)
  unfolding close_in
  close_in_last n last t st a k h = rw (find_end_last t st a k h, close_in)

  close_in_lines :
      (mids : List Text) (n : ℕ) (last : Text) (st : List ℕ)
      → NoAngle st
      → All IsClean (joined mids ++ wn)
      → stack_after st (joined mids ++ wn) ≡ some (o ∷ [])
      → close_in total n last (mids ++ (wn ++ c ∷ post) ∷ after) st
        ≡ past wn c post (suc (n + length mids))
  unfolding close_in
  close_in_lines [] n last [] a k h = absurd (stack_after-nil wn o h)
  close_in_lines (m ∷ ms) n last [] a k h = absurd (stack_after-nil (joined (m ∷ ms) ++ wn) o h)
  close_in_lines [] n last (t ∷ st) a k h =
      close_in_last n last t st a k h ∙ ap (past wn c post) (omega arith)
  close_in_lines (m ∷ ms) n last (t ∷ st) a k h =
      let k' = rw (append_assoc m (joined ms) wn) at k in
      let (clean, cleans) = All-split IsClean m (joined ms ++ wn) k' in
      let (st', here, later) =
        stack_after-split m (joined ms ++ wn) (t ∷ st) (rw (append_assoc m (joined ms) wn) at h) in
      let (found_end, a') = find_end_clean m t st st' a clean here in
      rw (found_end, close_in)
        (close_in_lines ms (suc n) m st' a' cleans later ∙ ap (past wn c post) (omega arith))

-- A bracket in front of balanced text that goes on over the following lines: `CloseExpression`
-- returns the position past the fitting bracket, with the line and the number of the line where it
-- stands. `w` is the text behind the bracket on its line, `mids` are the whole lines between, and
-- `wn` is the text in front of the fitting bracket on its line.
pub close_expression_lines :
    (before mids after : List Text) (o c : ℕ) (pre w wn post : Text)
    → pairs o c ≡ true
    → Balanced (w ++ (joined mids ++ wn))
    → close_expression
        (before ++ (pre ++ o ∷ w) ∷ (mids ++ (wn ++ c ∷ post) ∷ after))
        (length before)
        (length pre)
      ≡ some (record {
        line = wn ++ c ∷ post;
        linenum = suc (length before + length mids);
        pos = some (length wn + 1);
      })
close_expression_lines before mids after o c pre w wn post p b =
    let (h, n) = opening_is_bracket o c p in
    let rest = mids ++ (wn ++ c ∷ post) ∷ after in
    let elided = before ++ (pre ++ o ∷ w) ∷ rest in
    let (st, here, later) =
      stack_after-split w (joined mids ++ wn) (o ∷ []) (stack_after-Balanced o [] b) in
    let (clean, cleans) = All-split IsClean w (joined mids ++ wn) (Balanced-IsClean b) in
    let (opened, a) = find_end_to_end pre w o h n clean here in
    close_expression-opening elided (length before) o pre w
      (get_elem?-length-append before (pre ++ o ∷ w) rest) h n
    ∙ ap (λ r. some (close_from elided (length before) (pre ++ o ∷ w) r)) opened
    ∙ ap (λ ls. some (close_in (length elided) (length before) (pre ++ o ∷ w) ls st))
        (drop-suc-length-append before (pre ++ o ∷ w) rest)
    ∙ ap some (
        close_in_lines o c p (length elided) wn post after mids (length before) (pre ++ o ∷ w) st a
          cleans later)
