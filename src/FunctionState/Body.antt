-- ===== src/FunctionState/Body.antt =====
-- What the check of function lengths makes of a function's body, line by line.
use lamp.Prelude.{
  ℕ, zero, suc, ◌+◌, ◌≤◌, ◌<◌, ◌⊎◌, true, false, Option, none, some, List, [], ◌∷◌, ◌++◌, ◌≡◌, inl,
  inr, refl, ap, ◌∙◌, arith, if◌then◌else◌, length, get_elem?, All, drop, drop-cons, append-nil,
  Bool-cases,
}
use Prim.Native.Nat.{min}
use lamp.Text.{Text, codes}
use lamp.State.{Report}
use lamp.FunctionState.{FunctionState, begin, end, check}
use lamp.FunctionState.Size.{most_lines, check_cases, check_confidence}
use lamp.FunctionState.Lengths.{starts_function, is_end, is_blank, check_for_function_lengths}

abbrev pub to_list : Option Report → List Report
to_list none = []
to_list (some r) = r ∷ []

-- the check of `n` lines in turn, and its reports
unfoldable pub check_lines :
    ℕ → Text → List Text → ℕ → ℕ → FunctionState → Option (FunctionState × List Report)
check_lines verbose filename lines zero linenum s = some (s, [])
check_lines verbose filename lines (suc n) linenum s =
    elim (check_for_function_lengths verbose filename lines linenum s) [
      | none ↦ none
      | some r ↦ elim (check_lines verbose filename lines n (suc linenum) r.0) [
        | none ↦ none
        | some q ↦ some (q.0, to_list r.1 ++ q.1)
      ]
    ]

-- A line within a body: it begins no function, and is no closing brace in the first column.
abbrev pub IsBodyLine : Text → Type 0
IsBodyLine line = (starts_function line ≡ some false) × (is_end line ≡ false)

-- how many lines are not blank
abbrev pub count_lines : List Text → ℕ
count_lines [] = 0
count_lines (l ∷ ls) = if is_blank l then count_lines ls else suc (count_lines ls)

module _ (verbose : ℕ) (filename : Text) (lines : List Text) where
  check-body :
      (linenum : ℕ) (line : Text) (s : FunctionState)
      → get_elem? lines linenum ≡ some line
      → IsBodyLine line
      → s.in_a_function ≡ true
      → check_for_function_lengths verbose filename lines linenum s
        ≡ some
            (record s { lines_in_function = s.lines_in_function + count_lines (line ∷ []) }, none)
  unfolding check_for_function_lengths
  check-body linenum line s at (starts, ends) inside =
      rw (at, check_for_function_lengths)
        (rw starts (
          rw ends (elim (Bool-cases (is_blank line)) [
            | inl b ↦ rw b (ap (λ n. some (record s { lines_in_function = n }, none)) (omega arith))
            | inr b ↦ rw b (rw inside refl)
          ])))

  check-end :
      (linenum : ℕ) (line : Text) (s : FunctionState)
      → get_elem? lines linenum ≡ some line
      → starts_function line ≡ some false
      → is_end line ≡ true
      → check_for_function_lengths verbose filename lines linenum s
        ≡ some (end s, check verbose s filename linenum)
  unfolding check_for_function_lengths
  check-end linenum line s at starts ends =
      rw (at, check_for_function_lengths) (rw starts (rw ends refl))

  -- the state in which the closing brace is reached
  abbrev counted : FunctionState → List Text → FunctionState
  counted s body = record s { lines_in_function = s.lines_in_function + count_lines body }

  -- what the check of the brace gives, with so many lines counted
  abbrev ended : FunctionState → ℕ → ℕ → Option (FunctionState × List Report)
  ended s n linenum =
      let s' = record s { lines_in_function = n } in
      some (end s', to_list (check verbose s' filename linenum))

  check_lines-body :
      (body : List Text) (linenum : ℕ) (closing : Text) (post : List Text) (s : FunctionState)
      → drop linenum lines ≡ body ++ closing ∷ post
      → All IsBodyLine body
      → starts_function closing ≡ some false
      → is_end closing ≡ true
      → s.in_a_function ≡ true
      → check_lines verbose filename lines (suc (length body)) linenum s
        ≡ ended s (s.lines_in_function + count_lines body) (linenum + length body)
  unfolding check_lines
  check_lines-body [] linenum closing post s at h starts ends inside =
      let (here, later, _) = drop-cons linenum lines at in
      let n : s.lines_in_function ≡ s.lines_in_function + 0 = omega arith in
      let i : linenum ≡ linenum + 0 = omega arith in
      rw (check-end linenum closing s here starts ends, check_lines)
        (rw append-nil (ap (λ k. ended s k linenum) n ∙ ap (ended s (s.lines_in_function + 0)) i))
  check_lines-body (l ∷ body) linenum closing post s at (h, hs) starts ends inside =
      let (here, later, _) = drop-cons linenum lines at in
      let s' = counted s (l ∷ []) in
      let ih = check_lines-body body (suc linenum) closing post s' later hs starts ends inside in
      let n : s'.lines_in_function + count_lines body
          ≡ s.lines_in_function + count_lines (l ∷ body) =
        ground arith in
      let i : suc linenum + length body ≡ linenum + length (l ∷ body) = omega arith in
      rw (check-body linenum l s here h inside, check_lines)
        (rw (ih, check_lines)
          (ap (λ k. ended s k (suc linenum + length body)) n
            ∙ ap (ended s (s.lines_in_function + count_lines (l ∷ body))) i))

-- The lines of a function are checked in turn after `Begin`: lines that begin no function and are
-- no closing brace in the first column, and then such a brace. The check leaves the function with
-- as many lines counted as there are lines that are not blank. While they are at most 250, or 400
-- where the name begins with TEST or Test, times two to the verbosity, it reports nothing; beyond
-- that it makes one report, of the size of functions, which names the file and the number of the
-- closing brace, and whose confidence is no less than the smaller of the verbosity and 5.
pub check_lines-begin :
    (verbose : ℕ) (filename : Text) (lines body : List Text) (linenum : ℕ) (closing : Text)
    (post : List Text) (s : FunctionState) (function : Text)
    → drop linenum lines ≡ body ++ closing ∷ post
    → All IsBodyLine body
    → starts_function closing ≡ some false
    → is_end closing ≡ true
    → (reports : List Report) × (check_lines verbose filename lines
          (suc (length body))
          linenum
          (begin s function)
        ≡ some (
          record {
            in_a_function = false;
            lines_in_function = count_lines body;
            current_function = function;
          },
          reports,
        ))
      × (((count_lines body ≤ most_lines verbose function) × (reports ≡ []))
          ⊎ ((most_lines verbose function < count_lines body)
              × (r : Report) × (reports ≡ r ∷ [])
              × (r.linenum ≡ linenum + length body)
              × (r.filename ≡ filename)
              × (r.category ≡ codes "readability/fn_size")
              × (min verbose 5 ≤ r.confidence)))
check_lines-begin verbose filename lines body linenum closing post s function at h starts ends =
    let n = linenum + length body in
    let f : FunctionState = record {
      in_a_function = true;
      lines_in_function = count_lines body;
      current_function = function;
    } in
    let run =
      check_lines-body verbose filename lines body linenum closing post (begin s function) at h
        starts ends refl in
    (
      to_list (check verbose f filename n),
      run ∙ ap (λ k. ended verbose filename lines (begin s function) k n) (omega arith),
      elim (check_cases verbose f filename n refl) [
        | inl (few, none_made) ↦ inl (few, ap to_list none_made)
        | inr (over, r, made, line, file, category) ↦
            let (_, _, _, enough) = check_confidence verbose f filename n made in
            inr (over, r, ap to_list made, line, file, category, enough)
      ],
    )
