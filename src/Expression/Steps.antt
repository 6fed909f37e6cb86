-- ===== src/Expression/Steps.antt =====
-- What a step of the search for a closing bracket keeps of its stack.
use lamp.Prelude.{
  ℕ, suc, ◌+◌, ◌-◌, Bool, true, ◌&&◌, ◌||◌, Option, none, some, List, [], ◌∷◌, ◌≡◌, ◌⊎◌, inl, inr,
  refl, sym, arith, ltb, ◌==◌, take, some_eq, if_rule, ==_iff,
}
use lamp.Text.{Text}
use lamp.Expression.{
  is_open, is_close, pairs, drop_angles, LineResult, found, unclosed, open_at_end, Step, go, stop,
  after_pop, pop_angle, pop_pair, keep_going, before_is, ends_in_operator, end_step,
}

-- The bottom of the stack, the bracket at which the search began.
abbrev pub bottom : List ℕ → Option ℕ
bottom [] = none
bottom (t ∷ []) = some t
bottom (t ∷ u ∷ st) = bottom (u ∷ st)

-- `c` closes the bracket `b`, which may be an angle.
abbrev pub closes : ℕ → ℕ → Bool
closes b c = pairs b c || (b == b'<' && c == b'>')

-- An empty stack, or one on the bracket `b`.
abbrev pub RestsOn : ℕ → List ℕ → Type 0
RestsOn b st = bottom st ≡ some b

drop_angles-bottom :
    (b : ℕ) (st : List ℕ)
    → RestsOn b st
    → (drop_angles b'<' st ≡ []) ⊎ RestsOn b (drop_angles b'<' st)
unfolding drop_angles
drop_angles-bottom b [] h = cc
drop_angles-bottom b (t ∷ []) h = ground arith
drop_angles-bottom b (t ∷ u ∷ st) h = ground (arith, drop_angles-bottom b (u ∷ st) h)

-- What a step keeps, and what it may stop with.
abbrev pub StepSound : ℕ → ℕ → ℕ → Step → Type 0
StepSound b i c (go st) = RestsOn b st
StepSound b i c (stop (found p)) = (p ≡ suc i) × (closes b c ≡ true)
StepSound b i c (stop unclosed) = Unit
StepSound b i c (stop (open_at_end st)) = ⊥

module _ (b i c : ℕ) where
  after_pop-StepSound :
      (t : ℕ) (st : List ℕ)
      → RestsOn b (t ∷ st)
      → (b ≡ t → closes b c ≡ true)
      → StepSound b i c (after_pop (found (i + 1)) st)
  after_pop-StepSound t [] h k = (omega arith, k (sym (some_eq h)))
  after_pop-StepSound t (u ∷ st) h k = h

  pop_angle-StepSound :
      (r : LineResult) (st : List ℕ)
      → RestsOn b st
      → (r ≡ unclosed) ⊎ ((r ≡ found (i + 1)) × (c ≡ b'>'))
      → StepSound b i c (pop_angle b'<' r st)
  pop_angle-StepSound r [] h k = h
  pop_angle-StepSound r (t ∷ []) h k = ground arith
  pop_angle-StepSound r (t ∷ u ∷ st) h k = ground arith

  pop_pair-StepSound :
      (st : List ℕ)
      → (st ≡ []) ⊎ RestsOn b st
      → StepSound b i c (pop_pair (λ t. pairs t c) (found (i + 1)) st)
  pop_pair-StepSound [] h = tt
  pop_pair-StepSound (t ∷ st) (inl h) = cc
  pop_pair-StepSound (t ∷ st) (inr h) =
      if_rule (StepSound b i c) (pairs t c) _ _ (λ p. after_pop-StepSound t st h (λ e. rw (e, p)))
        (λ _. tt)

  keep_going-StepSound : (st : List ℕ) → (st ≡ []) ⊎ RestsOn b st → StepSound b i c (keep_going st)
  keep_going-StepSound [] h = tt
  keep_going-StepSound (t ∷ st) (inl h) = cc
  keep_going-StepSound (t ∷ st) (inr h) = h

  push-RestsOn : (t : ℕ) (st : List ℕ) → RestsOn b st → RestsOn b (t ∷ st)
  push-RestsOn t [] h = cc
  push-RestsOn t (u ∷ st) h = h

  pub end_step-StepSound :
      (line : Text) (st : List ℕ) → RestsOn b st → StepSound b i c (end_step line i c st)
  unfolding end_step
  end_step-StepSound line st h =
      let P = StepSound b i c in
      if_rule P (is_open c) _ _ (λ _. push-RestsOn c st h)
        λ _.
          if_rule P (c == b'<') _ _
            (λ _.
              if_rule P (before_is line i b'<') _ _
                (λ _. pop_angle-StepSound unclosed st h (inl refl))
                (λ _.
                  if_rule P (ltb 0 i && ends_in_operator (take i line)) _ _ (λ _. h)
                    (λ _. push-RestsOn b'<' st h)))
            λ _.
              if_rule P (is_close c) _ _
                (λ _. pop_pair-StepSound (drop_angles b'<' st) (drop_angles-bottom b st h))
                λ _.
                  if_rule P (c == b'>') _ _
                    (λ e.
                      if_rule P
                        (ltb 0 i && (before_is line i b'-' || ends_in_operator (take (i - 1) line)))
                        _ _ (λ _. h)
                        (λ _.
                          pop_angle-StepSound (found (i + 1)) st h
                            (inr (refl, (==_iff c b'>').0 e))))
                    λ _.
                      if_rule P (c == b';') _ _
                        (λ _.
                          keep_going-StepSound (drop_angles b'<' st) (drop_angles-bottom b st h))
                        λ _. h
