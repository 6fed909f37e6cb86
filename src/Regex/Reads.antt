-- ===== src/Regex/Reads.antt =====
-- What a match reads: a relation between the positions before and after it, and its length.
use lamp.Prelude.{
  ℕ, zero, suc, Bool, true, false, Option, none, some, List, [], ◌∷◌, ◌≡◌, ◌⊎◌, inl, inr, refl, sym,
  ltb, length,
}
use lamp.Prelude.{Bool-cases, some_eq}
use mathlib.Core.Path.{subst}
use lamp.Regex.{
  Re, eps, chr, seq, alt, star, lazy_star, group, bol, eol, word_boundary, ahead, not_ahead, At,
  Matcher, step_onto, or_else, iterate, iterate_lazy, close_group, check, matches, match,
}

-- none or more rounds
pub data Rounds (R : At → At → Type 0) : At → At → Type 0 where
  done : (s : At) → Rounds R s s
  round : {s t u : At} → R s t → Rounds R t u → Rounds R s u

-- one character of a class
abbrev pub ReadsChar : (ℕ → Bool) → At → At → Type 0
ReadsChar p s s' =
    (c : ℕ) × (r : List ℕ) × (p c ≡ true)
    × (s.rest ≡ c ∷ r)
    × (s' ≡ record s { before = c ∷ s.before; rest = r })

abbrev pub Reads : Re → At → At → Type 0
Reads eps s s' = s' ≡ s
Reads (chr p) s s' = ReadsChar p s s'
Reads (seq a b) s s' = (m : At) × Reads a s m × Reads b m s'
Reads (alt a b) s s' = Reads a s s' ⊎ Reads b s s'
Reads (star r) s s' = Rounds (Reads r) s s'
Reads (lazy_star r) s s' = Rounds (Reads r) s s'
Reads (group n r) s s' = (m : At) × Reads r s m × (s' ≡ close_group n s m)
Reads bol s s' = s' ≡ s
Reads eol s s' = s' ≡ s
Reads word_boundary s s' = s' ≡ s
Reads (ahead r) s s' = (gs : List (ℕ × List ℕ)) × (s' ≡ record s { groups = gs })
Reads (not_ahead r) s s' = s' ≡ s

-- A matcher is sound for a relation if whatever it gives, it got from its continuation at a related
-- position.
abbrev Result : (At → At → Type 0) → At → (At → Option At) → At → Type 0
Result R s k v = (s' : At) × R s s' × (k s' ≡ some v)

abbrev IsSound : (At → At → Type 0) → Matcher → Type 0
IsSound R m = (s : At) (k : At → Option At) (v : At) → m s k ≡ some v → Result R s k v

or_else-some :
    (o : Option At) (later : Unit {0} → Option At) (v : At)
    → or_else o later ≡ some v
    → (o ≡ some v) ⊎ (later tt ≡ some v)
or_else-some none later v h = inr h
or_else-some (some r) later v h = inl h

check-some : (b : Bool) (s : At) (k : At → Option At) (v : At) → check b s k ≡ some v → k s ≡ some v
check-some true s k v h = h
check-some false s k v h = cc

step_onto-IsSound :
    (p : ℕ → Bool) (t : List ℕ) (s : At) (k : At → Option At) (v : At)
    → t ≡ s.rest
    → step_onto p t s k ≡ some v
    → Result (ReadsChar p) s k v
unfolding step_onto
step_onto-IsSound p [] s k v e h = cc
step_onto-IsSound p (c ∷ r) s k v e h = elim (Bool-cases (p c)) [
  | inl b ↦ (_, (c, r, b, sym e, refl), rw (b, step_onto) at h)
  | inr b ↦ let h' = rw (b, step_onto) at h in cc
]

advanced :
    (b : Bool) (o : Option At) {v : At} → elim b [ true ↦ o | false ↦ none ] ≡ some v → o ≡ some v
advanced true o h = h
advanced false o h = cc

iterate-IsSound :
    (R : At → At → Type 0) (f : ℕ) (m : Matcher) → IsSound R m → IsSound (Rounds R) (iterate f m)
unfolding iterate
iterate-IsSound R zero m sound s k v h = (s, done s, h)
iterate-IsSound R (suc f) m sound s k v h =
    let next : At → Option At =
      λ t. elim (ltb (length t.rest) (length s.rest)) [ true ↦ iterate f m t k | false ↦ none ] in
    elim (or_else-some (m s next) (λ _. k s) v h) [
      | inr later ↦ (s, done s, later)
      | inl first ↦
          let (t, r, g) = sound s next v first in
          let (u, rs, g') =
            iterate-IsSound R f m sound t k v
              (advanced (ltb (length t.rest) (length s.rest)) (iterate f m t k) g) in
          (u, round r rs, g')
    ]

iterate_lazy-IsSound :
    (R : At → At → Type 0) (f : ℕ) (m : Matcher)
    → IsSound R m
    → IsSound (Rounds R) (iterate_lazy f m)
unfolding iterate_lazy
iterate_lazy-IsSound R zero m sound s k v h = (s, done s, h)
iterate_lazy-IsSound R (suc f) m sound s k v h =
    let next : At → Option At = λ t. elim (ltb (length t.rest) (length s.rest)) [
      | true ↦ iterate_lazy f m t k
      | false ↦ none
    ] in
    elim (or_else-some (k s) (λ _. m s next) v h) [
      | inl first ↦ (s, done s, first)
      | inr later ↦
          let (t, r, g) = sound s next v later in
          let (u, rs, g') =
            iterate_lazy-IsSound R f m sound t k v
              (advanced (ltb (length t.rest) (length s.rest)) (iterate_lazy f m t k) g) in
          (u, round r rs, g')
    ]

pub matches-IsSound : (r : Re) → IsSound (Reads r) (matches r)
unfolding matches
matches-IsSound eps s k v h = (s, refl, h)
matches-IsSound (chr p) s k v h = step_onto-IsSound p s.rest s k v refl h
matches-IsSound (seq a b) s k v h =
    let (m, r, g) = matches-IsSound a s (λ s'. matches b s' k) v h in
    let (u, r', g') = matches-IsSound b m k v g in (u, (m, r, r'), g')
matches-IsSound (alt a b) s k v h = elim (or_else-some (matches a s k) (λ _. matches b s k) v h) [
  | inl g ↦ let (u, r, g') = matches-IsSound a s k v g in (u, inl r, g')
  | inr g ↦ let (u, r, g') = matches-IsSound b s k v g in (u, inr r, g')
]
matches-IsSound (star r) s k v h =
    iterate-IsSound (Reads r) (length s.rest) (matches r) (matches-IsSound r) s k v h
matches-IsSound (lazy_star r) s k v h =
    iterate_lazy-IsSound (Reads r) (length s.rest) (matches r) (matches-IsSound r) s k v h
matches-IsSound (group n r) s k v h =
    let (m, r', g) = matches-IsSound r s (λ s'. k (close_group n s s')) v h in
    (close_group n s m, (m, r', refl), g)
matches-IsSound bol s k v h = (s, refl, check-some _ s k v h)
matches-IsSound eol s k v h = (s, refl, check-some _ s k v h)
matches-IsSound word_boundary s k v h = (s, refl, check-some _ s k v h)
matches-IsSound (ahead r) s k v h = after (matches r s some) h
  where
    after :
        (o : Option At)
        → elim o [ some s' ↦ k (record s { groups = s'.groups }) | none ↦ none ] ≡ some v
        → Result (Reads (ahead r)) s k v
    after none h' = cc
    after (some s') h' = (record s { groups = s'.groups }, (s'.groups, refl), h')
matches-IsSound (not_ahead r) s k v h = after (matches r s some) h
  where
    after :
        (o : Option At)
        → elim o [ some s' ↦ none | none ↦ k s ] ≡ some v
        → Result (Reads (not_ahead r)) s k v
    after none h' = (s, refl, h')
    after (some s') h' = cc

-- A match is a reading from the start of the text.
pub match-Reads :
    (r : Re) (t : List ℕ) (v : At)
    → match r t ≡ some v
    → Reads r (record { before = []; rest = t; groups = [] }) v
unfolding match
match-Reads r t v h =
    let (u, r', g) = matches-IsSound r (record { before = []; rest = t; groups = [] }) some v h in
    subst (Reads r (record { before = []; rest = t; groups = [] })) (some_eq g) r'
