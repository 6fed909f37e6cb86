-- ===== src/Expression/Closing.antt =====
-- About `CloseExpression` at a bracket in front of balanced text.
use lamp.Prelude.{
  ℕ, suc, ◌+◌, true, false, some, List, [], ◌∷◌, ◌++◌, ◌≡◌, ap, ◌∙◌, arith, ◌==◌, is_some, length,
  get_elem?, All, drop-length-append, get_elem?-length-append, append-nil,
}
use lamp.Text.{Text}
use lamp.Regex
use lamp.Regex.{matches}
use lamp.Expression.{
  is_open, pairs, drop_angles, found, open_at_end, go, stop, shift_pattern, end_step, scan_end,
  find_end_of_expression_in_line, close_from, close_expression,
}
use lamp.Expression.Balance.{
  Balanced, IsClean, NoAngle, stack_after, stack_after-Balanced, Balanced-IsClean,
  scan_end-stack_after,
}

pub opening_is_bracket : (o c : ℕ) → pairs o c ≡ true → (is_open o ≡ true) × ((o == b'<') ≡ false)
opening_is_bracket o c h = ground arith

shift_pattern-none :
    (o : ℕ) (t : Text) → (o == b'<') ≡ false → is_some (Regex.match shift_pattern (o ∷ t)) ≡ false
unfolding Regex.match
shift_pattern-none o t h = ground arith

end_step-closing :
    (line : Text) (i o c : ℕ) → pairs o c ≡ true → end_step line i c (o ∷ []) ≡ stop (found (i + 1))
unfolding end_step drop_angles
end_step-closing line i o c h = ground arith

end_step-opening : (line : Text) (i o : ℕ) → is_open o ≡ true → end_step line i o [] ≡ go (o ∷ [])
unfolding end_step
end_step-opening line i o h = ground arith

pub scan_end-closing :
    (line : Text) (i o c : ℕ) (post : Text)
    → pairs o c ≡ true
    → scan_end line i (c ∷ post) (o ∷ []) ≡ found (i + 1)
unfolding scan_end
scan_end-closing line i o c post h = rw (end_step-closing line i o c h, scan_end)

-- From the bracket up to the end of the text that is given.
pub find_end-opening :
    (pre t rest : Text) (o : ℕ) {st : List ℕ}
    → is_open o ≡ true
    → (o == b'<') ≡ false
    → All IsClean t
    → stack_after (o ∷ []) t ≡ some st
    → find_end_of_expression_in_line (pre ++ o ∷ (t ++ rest)) (length pre) []
      ≡ scan_end (pre ++ o ∷ (t ++ rest)) (suc (length pre) + length t) rest st
unfolding find_end_of_expression_in_line scan_end
find_end-opening pre t rest o {st} h n clean run =
    let line = pre ++ o ∷ (t ++ rest) in
    rw (drop-length-append pre (o ∷ (t ++ rest)), scan_end, end_step-opening line (length pre) o h)
      (scan_end-stack_after line t rest (suc (length pre)) (o ∷ []) st (n, tt) clean run).0

-- the same where the line ends with the text
pub find_end_to_end :
    (pre t : Text) (o : ℕ) {st : List ℕ}
    → is_open o ≡ true
    → (o == b'<') ≡ false
    → All IsClean t
    → stack_after (o ∷ []) t ≡ some st
    → (find_end_of_expression_in_line (pre ++ o ∷ t) (length pre) [] ≡ open_at_end st) × NoAngle st
unfolding scan_end
find_end_to_end pre t o {st} h n clean run =
    let line = pre ++ o ∷ t in
    (
      rw append-nil at (find_end-opening pre t [] o h n clean run),
      (scan_end-stack_after line t [] 0 (o ∷ []) st (n, tt) clean run).1,
    )

pub close_expression-opening :
    (elided : List Text) (linenum o : ℕ) (pre t : Text)
    → get_elem? elided linenum ≡ some (pre ++ o ∷ t)
    → is_open o ≡ true
    → (o == b'<') ≡ false
    → close_expression elided linenum (length pre)
      ≡ some (
          close_from elided linenum
            (pre ++ o ∷ t)
            (find_end_of_expression_in_line (pre ++ o ∷ t) (length pre) []))
unfolding close_expression
close_expression-opening elided linenum o pre t at h n =
    rw (at, close_expression)
      (rw (get_elem?-length-append pre o t)
        (rw (drop-length-append pre (o ∷ t)) (rw (shift_pattern-none o t n) (rw h))))

-- `CloseExpression` at a bracket in front of balanced text returns the position past the fitting
-- bracket behind that text, on the same line.
pub close_expression-Balanced :
    (elided : List Text) (linenum o c : ℕ) (pre w post : Text)
    → get_elem? elided linenum ≡ some (pre ++ o ∷ (w ++ c ∷ post))
    → pairs o c ≡ true
    → Balanced w
    → close_expression elided linenum (length pre)
      ≡ some (record {
        line = pre ++ o ∷ (w ++ c ∷ post);
        linenum = linenum;
        pos = some (length pre + length w + 2);
      })
close_expression-Balanced elided linenum o c pre w post at p b =
    let (h, n) = opening_is_bracket o c p in
    let line = pre ++ o ∷ (w ++ c ∷ post) in
    close_expression-opening elided linenum o pre (w ++ c ∷ post) at h n
    ∙ ap (λ r. some (close_from elided linenum line r))
        (find_end-opening pre w (c ∷ post) o h n (Balanced-IsClean b) (stack_after-Balanced o [] b)
          ∙ scan_end-closing line (suc (length pre) + length w) o c post p
          ∙ ap found (omega arith))
