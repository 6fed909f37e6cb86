-- ===== src/Expression/Balance.antt =====
-- Balanced text: brackets nest, and no angle, semicolon or stray bracket stands in it. A bracket in
-- front of balanced text is closed by the one behind it, on one line or over several.
use lamp.Prelude.{
  ℕ, suc, ◌+◌, Bool, true, false, not, ◌||◌, Option, none, some, List, [], ◌∷◌, ◌++◌, ◌≡◌, ◌≢◌,
  refl, ap, ◌∙◌, arith, ◌==◌, if◌then◌else◌, length, some_eq, All, All-append,
}
use mathlib.Core.Path.{subst}
use native.Mathlib.Nat.{add-zero}
use lamp.Text.{Text}
use lamp.Expression.{is_open, is_close, pairs, drop_angles, go, end_step, scan_end}

-- no bracket, angle or semicolon
abbrev pub is_plain : ℕ → Bool
is_plain c = not (is_open c || is_close c || c == b'<' || c == b'>' || c == b';')

pub data Balanced : Text → Type 0 where
  nil : Balanced []
  plain : (c : ℕ) (t : Text) → is_plain c ≡ true → Balanced t → Balanced (c ∷ t)
  nest :
      (o c : ℕ) (t u : Text)
      → pairs o c ≡ true
      → Balanced t
      → Balanced u
      → Balanced (o ∷ (t ++ c ∷ u))

-- The stack behind a text without angles and semicolons; `none` if the last entry is popped or a
-- bracket does not fit.
abbrev pub pop_fit : ℕ → ℕ → List ℕ → Option (List ℕ)
pop_fit c t [] = none
pop_fit c t (u ∷ st) = if pairs t c then some (u ∷ st) else none

abbrev pub push_pop : ℕ → List ℕ → Option (List ℕ)
push_pop c [] = none
push_pop c (t ∷ st) =
    if is_open c then some (c ∷ t ∷ st) else if is_close c then pop_fit c t st else some (t ∷ st)

unfoldable pub stack_after : List ℕ → Text → Option (List ℕ)
stack_after st [] = some st
stack_after st (c ∷ cs) = elim (push_pop c st) [ none ↦ none | some st' ↦ stack_after st' cs ]

stack_after-append :
    (t u : Text) (st : List ℕ) {st' : List ℕ}
    → stack_after st t ≡ some st'
    → stack_after st (t ++ u) ≡ stack_after st' u
unfolding stack_after
stack_after-append [] u st h = ap (λ x. stack_after x u) (some_eq h)
stack_after-append (c ∷ t) u st {st'} h =
    after (push_pop c st) h (λ st''. stack_after-append t u st'')
  where
    after :
        (o : Option (List ℕ))
        → (elim o [ none ↦ none | some st'' ↦ stack_after st'' t ]) ≡ some st'
        → ((st'' : List ℕ)
            → stack_after st'' t ≡ some st'
            → stack_after st'' (t ++ u) ≡ stack_after st' u)
        → (elim o [ none ↦ none | some st'' ↦ stack_after st'' (t ++ u) ]) ≡ stack_after st' u
    after none h ih = cc
    after (some st'') h ih = ih st'' h

-- and the other way round: what runs through a text runs through its parts
pub stack_after-split :
    (t u : Text) (st : List ℕ) {st' : List ℕ}
    → stack_after st (t ++ u) ≡ some st'
    → (st'' : List ℕ) × (stack_after st t ≡ some st'') × (stack_after st'' u ≡ some st')
unfolding stack_after
stack_after-split [] u st h = (st, refl, h)
stack_after-split (c ∷ t) u st {st'} h = after (push_pop c st) h (λ s. stack_after-split t u s)
  where
    after :
        (o : Option (List ℕ))
        → (elim o [ none ↦ none | some s ↦ stack_after s (t ++ u) ]) ≡ some st'
        → ((s : List ℕ)
            → stack_after s (t ++ u) ≡ some st'
            → (st'' : List ℕ) × (stack_after s t ≡ some st'') × (stack_after st'' u ≡ some st'))
        → (st'' : List ℕ) × ((elim o [ none ↦ none | some s ↦ stack_after s t ]) ≡ some st'')
          × (stack_after st'' u ≡ some st')
    after none h ih = cc
    after (some s) h ih = ih s h

pairs-push_pop :
    (o c s : ℕ) (st : List ℕ)
    → pairs o c ≡ true
    → (push_pop o (s ∷ st) ≡ some (o ∷ s ∷ st)) × (push_pop c (o ∷ s ∷ st) ≡ some (s ∷ st))
pairs-push_pop o c s st h = ground arith

pub stack_after-Balanced :
    {w : Text} (s : ℕ) (st : List ℕ) → Balanced w → stack_after (s ∷ st) w ≡ some (s ∷ st)
unfolding stack_after
stack_after-Balanced s st nil = refl
stack_after-Balanced s st (plain c t p b) = ground (arith, stack_after-Balanced s st b)
stack_after-Balanced s st (nest o c t u p b d) =
    let (push, pop) = pairs-push_pop o c s st p in
    rw (push, stack_after)
      (stack_after-append t (c ∷ u) (o ∷ s ∷ st) (stack_after-Balanced o (s ∷ st) b)
        ∙ rw (pop, stack_after) (stack_after-Balanced s st d))

-- no angle and no semicolon
abbrev pub IsClean : ℕ → Type 0
IsClean c = (c == b'<' || c == b'>' || c == b';') ≡ false

pub Balanced-IsClean : {w : Text} → Balanced w → All IsClean w
Balanced-IsClean nil = tt
Balanced-IsClean (plain c t p b) = (ground arith, Balanced-IsClean b)
Balanced-IsClean (nest o c t u p b d) = (
  ground arith,
  All-append IsClean t (c ∷ u) (Balanced-IsClean b) (ground arith, Balanced-IsClean d),
)

abbrev pub NoAngle : List ℕ → Type 0
NoAngle = All (λ t. (t == b'<') ≡ false)

-- On such a character the search steps as the stack does.
end_step-push_pop :
    (line : Text) (i c t : ℕ) (st st' : List ℕ)
    → NoAngle (t ∷ st)
    → IsClean c
    → push_pop c (t ∷ st) ≡ some st'
    → (end_step line i c (t ∷ st) ≡ go st') × NoAngle st' × (st' ≢ [])
unfolding end_step drop_angles
end_step-push_pop line i c t [] st' n k h = ground arith
end_step-push_pop line i c t (u ∷ st) st' n k h = ground arith

-- The search runs through a clean text as the stack does.
pub scan_end-stack_after :
    (line : Text) (cs rest : Text) (i : ℕ) (st st' : List ℕ)
    → NoAngle st
    → All IsClean cs
    → stack_after st cs ≡ some st'
    → (scan_end line i (cs ++ rest) st ≡ scan_end line (i + length cs) rest st') × NoAngle st'
unfolding scan_end stack_after
scan_end-stack_after line [] rest i st st' n k h =
    (rw (add-zero) (ap (scan_end line i rest) (some_eq h)), subst NoAngle (some_eq h) n)
scan_end-stack_after line (c ∷ cs) rest i [] st' n k h = cc
scan_end-stack_after line (c ∷ cs) rest i (t ∷ st) st' n (k, ks) h =
    after (push_pop c (t ∷ st)) refl h
      (λ s n'. scan_end-stack_after line cs rest (suc i) s st' n' ks)
  where
    after :
        (o : Option (List ℕ))
        → push_pop c (t ∷ st) ≡ o
        → (elim o [ none ↦ none | some s ↦ stack_after s cs ]) ≡ some st'
        → ((s : List ℕ)
            → NoAngle s
            → stack_after s cs ≡ some st'
            → (scan_end line (suc i) (cs ++ rest) s ≡ scan_end line (suc i + length cs) rest st')
              × NoAngle st')
        → (scan_end line i (c ∷ (cs ++ rest)) (t ∷ st)
            ≡ scan_end line (i + suc (length cs)) rest st')
          × NoAngle st'
    after none e h ih = cc
    after (some s) e h ih =
        let (stepped, n', _) = end_step-push_pop line i c t st s n k e in
        let (run, n'') = ih s n' h in
        (rw (stepped, scan_end) (run ∙ ap (λ j. scan_end line j rest st') (omega arith)), n'')
