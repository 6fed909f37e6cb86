-- ===== src/Expression/Advance.antt =====
-- How far `CloseExpression` moves: the position that it returns lies behind the one asked about.
use lamp.Prelude.{
  ℕ, suc, ◌+◌, ◌-◌, ◌≤◌, ◌<◌, not, ◌&&◌, ◌||◌, none, some, List, [], ◌∷◌, ◌≡◌, ◌⊎◌, inl, inr, refl,
  arith, ltb, ◌==◌, is_some, length, get_elem?, take, drop, some_eq, if_rule, length-drop,
  drop-cons,
}
use lamp.Text.{Text}
use lamp.Regex
use lamp.Expression.{
  is_open, is_close, pairs, drop_angles, LineResult, found, unclosed, open_at_end, Step, go, stop,
  ends_in_operator, before_is, after_pop, pop_angle, pop_pair, keep_going, end_step, scan_end,
  find_end_of_expression_in_line, Place, close_in, close_from, close_expression, shift_pattern,
}

-- A step stops at a position just past the character.
abbrev StopsAt : ℕ → Step → Type 0
StopsAt i (stop (found p)) = p ≡ suc i
StopsAt i (stop unclosed) = Unit
StopsAt i (stop (open_at_end st)) = ⊥
StopsAt i (go st) = Unit

-- A result for a line, which stands between two positions.
abbrev FoundIn : ℕ → ℕ → LineResult → Type 0
FoundIn i n (found p) = (i < p) × (p ≤ n)
FoundIn i n unclosed = Unit
FoundIn i n (open_at_end st) = Unit

module _ (i c : ℕ) where
  after_pop-StopsAt : (st : List ℕ) → StopsAt i (after_pop (found (i + 1)) st)
  after_pop-StopsAt [] = omega arith
  after_pop-StopsAt (t ∷ st) = tt

  after_pop-unclosed : (st : List ℕ) → StopsAt i (after_pop unclosed st)
  after_pop-unclosed [] = tt
  after_pop-unclosed (t ∷ st) = tt

  pop_angle-StopsAt : (st : List ℕ) → StopsAt i (pop_angle b'<' (found (i + 1)) st)
  pop_angle-StopsAt [] = tt
  pop_angle-StopsAt (t ∷ st) =
      if_rule (StopsAt i) (t == b'<') _ _ (λ _. after_pop-StopsAt st) (λ _. tt)

  pop_angle-unclosed : (st : List ℕ) → StopsAt i (pop_angle b'<' unclosed st)
  pop_angle-unclosed [] = tt
  pop_angle-unclosed (t ∷ st) =
      if_rule (StopsAt i) (t == b'<') _ _ (λ _. after_pop-unclosed st) (λ _. tt)

  pop_pair-StopsAt : (st : List ℕ) → StopsAt i (pop_pair (λ t. pairs t c) (found (i + 1)) st)
  pop_pair-StopsAt [] = tt
  pop_pair-StopsAt (t ∷ st) =
      if_rule (StopsAt i) (pairs t c) _ _ (λ _. after_pop-StopsAt st) (λ _. tt)

  keep_going-StopsAt : (st : List ℕ) → StopsAt i (keep_going st)
  keep_going-StopsAt [] = tt
  keep_going-StopsAt (t ∷ st) = tt

  end_step-StopsAt : (line : Text) (st : List ℕ) → StopsAt i (end_step line i c st)
  unfolding end_step
  end_step-StopsAt line st =
      let P = StopsAt i in
      let angles = drop_angles b'<' st in
      if_rule P (is_open c) _ _ (λ _. tt)
        λ _.
          if_rule P (c == b'<') _ _
            (λ _.
              if_rule P (before_is line i b'<') _ _ (λ _. pop_angle-unclosed st)
                (λ _.
                  if_rule P (ltb 0 i && ends_in_operator (take i line)) _ _ (λ _. tt) (λ _. tt)))
            λ _.
              if_rule P (is_close c) _ _ (λ _. pop_pair-StopsAt angles)
                λ _.
                  if_rule P (c == b'>') _ _
                    (λ _.
                      if_rule P
                        (ltb 0 i && (before_is line i b'-' || ends_in_operator (take (i - 1) line)))
                        _ _ (λ _. tt) (λ _. pop_angle-StopsAt st))
                    λ _. if_rule P (c == b';') _ _ (λ _. keep_going-StopsAt angles) (λ _. tt)

scan_end-FoundIn :
    (line : Text) (i n : ℕ) (cs : Text) (st : List ℕ)
    → i + length cs ≤ n
    → FoundIn i n (scan_end line i cs st)
unfolding scan_end
scan_end-FoundIn line i n [] st h = tt
scan_end-FoundIn line i n (c ∷ cs) st h =
    after (end_step line i c st) (end_step-StopsAt i c line st)
      (λ st'. scan_end-FoundIn line (suc i) n cs st' (omega arith))
  where
    weaken : (r : LineResult) → FoundIn (suc i) n r → FoundIn i n r
    weaken (found p) h' = omega arith
    weaken unclosed h' = tt
    weaken (open_at_end st') h' = tt

    after :
        (s : Step)
        → StopsAt i s
        → ((st' : List ℕ) → FoundIn (suc i) n (scan_end line (suc i) cs st'))
        → FoundIn i n (elim s [ go st' ↦ scan_end line (suc i) cs st' | stop r ↦ r ])
    after (go st') k ih = weaken _ (ih st')
    after (stop (found p)) k ih = omega arith
    after (stop unclosed) k ih = tt
    after (stop (open_at_end st')) k ih = absurd k

find_end-FoundIn :
    (line : Text) (i : ℕ) (st : List ℕ)
    → i ≤ length line
    → FoundIn i (length line) (find_end_of_expression_in_line line i st)
unfolding find_end_of_expression_in_line
find_end-FoundIn line i st h =
    scan_end-FoundIn line i (length line) (drop i line) st (omega (arith, length-drop i line))

-- The position returned stands in a line behind line `n`.
abbrev Behind : List Text → ℕ → Place → Type 0
Behind elided n q =
    (p : ℕ)
    → q.pos ≡ some p
    → (n < q.linenum) × (get_elem? elided q.linenum ≡ some q.line) × (p ≤ length q.line)

close_in-Behind :
    (elided : List Text) (n : ℕ) (last : Text) (ls : List Text) (st : List ℕ)
    → drop (suc n) elided ≡ ls
    → Behind elided n (close_in (length elided) n last ls st)
unfolding close_in
close_in-Behind elided n last [] st e = λ p h. cc
close_in-Behind elided n last (l ∷ ls) [] e = λ p h. cc
close_in-Behind elided n last (l ∷ ls) (t ∷ st) e =
    let (here, later, _) = drop-cons (suc n) elided e in
    after (find_end_of_expression_in_line l 0 (t ∷ st))
      (find_end-FoundIn l 0 (t ∷ st) (omega arith)) here
      (λ st'. close_in-Behind elided (suc n) l ls st' later)
  where
    weaken : (q : Place) → Behind elided (suc n) q → Behind elided n q
    weaken q h = λ p e'. let (a, b, c) = h p e' in (omega arith, b, c)

    after :
        (r : LineResult)
        → FoundIn 0 (length l) r
        → get_elem? elided (suc n) ≡ some l
        → ((st' : List ℕ) → Behind elided (suc n) (close_in (length elided) (suc n) l ls st'))
        → Behind elided n (elim r [
          | found p ↦ record { line = l; linenum = suc n; pos = some p }
          | unclosed ↦ record { line = l; linenum = length elided; pos = none }
          | open_at_end st' ↦ close_in (length elided) (suc n) l ls st'
        ])
    after (found p) h here ih = λ p' e'. let e'' = some_eq e' in (omega arith, here, omega arith)
    after unclosed h here ih = λ p' e'. cc
    after (open_at_end st') h here ih = weaken _ (ih st')

-- The position returned stands behind the one asked about, on its line or on a later one.
abbrev pub Ahead : List Text → ℕ → ℕ → Place → Type 0
Ahead elided linenum pos q =
    (p : ℕ)
    → q.pos ≡ some p
    → (get_elem? elided q.linenum ≡ some q.line)
      × (p ≤ length q.line)
      × (((q.linenum ≡ linenum) × (pos < p)) ⊎ (linenum < q.linenum))

close_from-Ahead :
    (elided : List Text) (linenum pos : ℕ) (line : Text) (r : LineResult)
    → get_elem? elided linenum ≡ some line
    → FoundIn pos (length line) r
    → Ahead elided linenum pos (close_from elided linenum line r)
close_from-Ahead elided linenum pos line (found p) at h =
    λ p' e. let e' = some_eq e in (at, omega arith, inl (refl, omega arith))
close_from-Ahead elided linenum pos line unclosed at h = λ p' e. cc
close_from-Ahead elided linenum pos line (open_at_end st) at h = λ p e.
    let (a, b, c) = close_in-Behind elided linenum line (drop (suc linenum) elided) st refl p e in
    (b, c, inr a)

pub close_expression-Ahead :
    (elided : List Text) (linenum pos c : ℕ) (line : Text)
    → get_elem? elided linenum ≡ some line
    → get_elem? line pos ≡ some c
    → pos ≤ length line
    → (q : Place) × (close_expression elided linenum pos ≡ some q) × Ahead elided linenum pos q
unfolding close_expression
close_expression-Ahead elided linenum pos c line at at' h =
    let r = find_end_of_expression_in_line line pos [] in
    rw (at, close_expression)
      (rw (at', close_expression)
        (if_rule (λ o. (q : Place) × (o ≡ some q) × Ahead elided linenum pos q)
          (not (is_open c || c == b'<') || is_some (Regex.match shift_pattern (drop pos line))) _ _
          (λ _. (_, refl, λ p e. cc))
          (λ _. (
            _,
            refl,
            close_from-Ahead elided linenum pos line r at (find_end-FoundIn line pos [] h),
          ))))
