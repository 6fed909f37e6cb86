-- ===== src/Expression/RoundTrip.antt =====
-- About `CloseExpression` and `ReverseCloseExpression` together, on balanced text.
use lamp.Prelude.{
  ℕ, suc, ◌+◌, Bool, true, false, some, List, [], ◌∷◌, ◌++◌, ◌≡◌, refl, ap, ◌∙◌, arith, length,
  get_elem?, take, append_assoc, length-append, length-reverse, take-length-append,
  get_elem?-length-append,
}
use mathlib.Core.List.{reverse, reverse-append, reverse-cons}
use lamp.Text.{Text}
use lamp.Expression.{
  is_close, pairs, drop_angles, LineResult, found, Step, go, stop, close_expression,
}
use lamp.Expression.Backward.{
  start_step, scan_start, find_start_of_expression_in_line, reverse_close_expression,
}
use lamp.Expression.Balance.{is_plain, Balanced, nil, plain, nest}
use lamp.Expression.Closing.{close_expression-Balanced}

reverse-nest :
    (o c : ℕ) (t u rest : Text)
    → reverse (o ∷ (t ++ c ∷ u)) ++ rest ≡ reverse u ++ (c ∷ (reverse t ++ o ∷ rest))
reverse-nest o c t u rest = simp (reverse-cons, reverse-append, append_assoc)

module _ (line : Text) where
  start_step-plain :
      (i c : ℕ) (st : List ℕ) → is_plain c ≡ true → start_step line i c st ≡ (false, go st)
  unfolding start_step
  start_step-plain i c st h = ground arith

  start_step-close :
      (i o c : ℕ) (st : List ℕ) → pairs o c ≡ true → start_step line i c st ≡ (false, go (c ∷ st))
  unfolding start_step
  start_step-close i o c st h = ground arith

  start_step-open :
      (i o c s : ℕ) (st : List ℕ)
      → pairs o c ≡ true
      → start_step line i o (c ∷ s ∷ st) ≡ (false, go (s ∷ st))
  unfolding start_step drop_angles
  start_step-open i o c s st h = ground arith

  start_step-last :
      (i o c : ℕ) → pairs o c ≡ true → start_step line i o (c ∷ []) ≡ (false, stop (found i))
  unfolding start_step drop_angles
  start_step-last i o c h = ground arith

  scan_start_go :
      (c : ℕ) (cs : Text) (st st' : List ℕ)
      → start_step line (length cs) c st ≡ (false, go st')
      → scan_start line false (c ∷ cs) st ≡ scan_start line false cs st'
  unfolding scan_start
  scan_start_go c cs st st' h =
      ap (λ (x : Bool × Step). elim x.1 [ go st'' ↦ scan_start line x.0 cs st'' | stop r ↦ r ]) h

  scan_start_stop :
      (c : ℕ) (cs : Text) (st : List ℕ) {r : LineResult}
      → start_step line (length cs) c st ≡ (false, stop r)
      → scan_start line false (c ∷ cs) st ≡ r
  unfolding scan_start
  scan_start_stop c cs st h =
      ap (λ (x : Bool × Step). elim x.1 [ go st'' ↦ scan_start line x.0 cs st'' | stop r' ↦ r' ]) h

  scan_start-Balanced :
      {w : Text} (rest : Text) (s : ℕ) (st : List ℕ)
      → Balanced w
      → scan_start line false (reverse w ++ rest) (s ∷ st) ≡ scan_start line false rest (s ∷ st)
  scan_start-Balanced rest s st nil = refl
  scan_start-Balanced rest s st (plain c t p b) = rw reverse-cons (
      rw append_assoc (
        scan_start-Balanced (c ∷ rest) s st b
        ∙ scan_start_go c rest (s ∷ st) (s ∷ st) (start_step-plain (length rest) c (s ∷ st) p)))
  scan_start-Balanced rest s st (nest o c t u p b d) =
      ap (λ x. scan_start line false x (s ∷ st)) (reverse-nest o c t u rest)
      ∙ scan_start-Balanced (c ∷ (reverse t ++ o ∷ rest)) s st d
      ∙ scan_start_go c (reverse t ++ o ∷ rest) (s ∷ st) (c ∷ s ∷ st)
          (start_step-close (length (reverse t ++ o ∷ rest)) o c (s ∷ st) p)
      ∙ scan_start-Balanced (o ∷ rest) c (s ∷ st) b
      ∙ scan_start_go o rest (c ∷ s ∷ st) (s ∷ st) (start_step-open (length rest) o c s st p)

  find_start-Balanced :
      (o c : ℕ) (pre w : Text)
      → pairs o c ≡ true
      → Balanced w
      → scan_start line false (c ∷ (reverse w ++ o ∷ reverse pre)) [] ≡ found (length pre)
  find_start-Balanced o c pre w p b =
      scan_start_go c (reverse w ++ o ∷ reverse pre) [] (c ∷ [])
        (start_step-close (length (reverse w ++ o ∷ reverse pre)) o c [] p)
      ∙ scan_start-Balanced (o ∷ reverse pre) c [] b
      ∙ scan_start_stop o (reverse pre) (c ∷ []) (start_step-last (length (reverse pre)) o c p)
      ∙ ap found (length-reverse pre)

-- the line cut behind the closing bracket, and in front of it
module _ (o c : ℕ) (pre w post : Text) where
  length-front : length (pre ++ o ∷ w) ≡ length pre + length w + 1
  length-front = omega (arith, length-append pre (o ∷ w))

  closing_at : get_elem? (pre ++ o ∷ (w ++ c ∷ post)) (length pre + length w + 1) ≡ some c
  closing_at =
      rw (← length-front)
        (rw (← append_assoc pre (o ∷ w) (c ∷ post)) (get_elem?-length-append (pre ++ o ∷ w) c post))

  take_closing :
      take (suc (length pre + length w + 1)) (pre ++ o ∷ (w ++ c ∷ post)) ≡ pre ++ o ∷ (w ++ c ∷ [])
  take_closing =
      let front = pre ++ o ∷ (w ++ c ∷ []) in
      let e : pre ++ o ∷ (w ++ c ∷ post) ≡ front ++ post = simp append_assoc in
      let l : suc (length pre + length w + 1) ≡ length front =
        omega (arith, length-append pre (o ∷ (w ++ c ∷ [])), length-append w (c ∷ [])) in
      rw e (rw l (take-length-append front post))

  reverse_front : reverse (pre ++ o ∷ (w ++ c ∷ [])) ≡ c ∷ (reverse w ++ o ∷ reverse pre)
  reverse_front = simp (reverse-append, reverse-cons, append_assoc)

closing_is_bracket : (o c : ℕ) → pairs o c ≡ true → is_close c ≡ true
closing_is_bracket o c h = ground arith

-- In a line where balanced text stands between an opening bracket and the fitting closing one,
-- `CloseExpression` at the opening bracket returns the position past the closing one, and
-- `ReverseCloseExpression` at the closing bracket returns the position of the opening one.
pub reverse_close_expression-Balanced :
    (elided : List Text) (linenum o c : ℕ) (pre w post : Text)
    → get_elem? elided linenum ≡ some (pre ++ o ∷ (w ++ c ∷ post))
    → pairs o c ≡ true
    → Balanced w
    → (close_expression elided linenum (length pre)
        ≡ some (record {
          line = pre ++ o ∷ (w ++ c ∷ post);
          linenum = linenum;
          pos = some (length pre + length w + 2);
        }))
      × (reverse_close_expression elided linenum (length pre + length w + 1)
          ≡ some (record {
            line = pre ++ o ∷ (w ++ c ∷ post);
            linenum = linenum;
            pos = some (length pre);
          }))
unfolding reverse_close_expression find_start_of_expression_in_line
reverse_close_expression-Balanced elided linenum o c pre w post at p b = (
  close_expression-Balanced elided linenum o c pre w post at p b,
  rw (at, reverse_close_expression)
      (rw (closing_at o c pre w post) (
        rw (closing_is_bracket o c p) (
          rw (take_closing o c pre w post) (
            rw (reverse_front o c pre w post)
              (rw (find_start-Balanced (pre ++ o ∷ (w ++ c ∷ post)) o c pre w p b)))))),
)
