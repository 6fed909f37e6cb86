-- ===== src/Regex/Skip.antt =====
-- About repetitions of a class of characters: what they read, and when they match.
use lamp.Prelude.{
  ℕ, zero, suc, ◌≤◌, Bool, true, false, ◌||◌, not, Option, none, some, List, [], ◌∷◌, ◌≡◌, inl, inr,
  refl, arith, ltb, length, is_some, Bool-cases, ◌-◌, ◌++◌, sym, ap, ◌∙◌, append_assoc,
  length-append, take-length-append, take,
}
use mathlib.Core.Path.{subst}
use lamp.Text.{Text}
use mathlib.Core.List.{reverse, reverse-cons, reverse-reverse}
use lamp.Regex.Reads.{Rounds, done, round, ReadsChar}
use lamp.Regex.Length.{closed_text}
use lamp.Regex.{Re, Matcher, chr, star, At, or_else, step_onto, iterate, matches}

abbrev pub has_other : (ℕ → Bool) → Text → Bool
has_other p [] = false
has_other p (c ∷ t) = not (p c) || has_other p t

-- The continuation succeeds in front of a character outside the class.
abbrev Takes : (ℕ → Bool) → (At → Option At) → Type 0
Takes p k =
    (b : Text) (c : ℕ) (r : Text) (gs : List (ℕ × Text))
    → p c ≡ false
    → is_some (k (record { before = b; rest = c ∷ r; groups = gs })) ≡ true

or_else-is_some :
    (o : Option At) (later : Unit {0} → Option At)
    → is_some o ≡ true
    → is_some (or_else o later) ≡ true
or_else-is_some (some r) later h = refl
or_else-is_some none later h = cc

iterate-is_some :
    (p : ℕ → Bool) (f : ℕ) (b t : Text) (gs : List (ℕ × Text)) (k : At → Option At)
    → length t ≤ f
    → has_other p t ≡ true
    → Takes p k
    → is_some (iterate f (matches (chr p)) (record { before = b; rest = t; groups = gs }) k) ≡ true
unfolding iterate matches step_onto
iterate-is_some p f b [] gs k l h takes = cc
iterate-is_some p zero b (c ∷ r) gs k l h takes = absurd (omega arith)
iterate-is_some p (suc f) b (c ∷ r) gs k l h takes =
    let fewer : ltb (length r) (suc (length r)) ≡ true = ground arith in
    elim (Bool-cases (p c)) [
      | inl e ↦
          rw (e, is_some)
            (rw (fewer, is_some)
              (or_else-is_some _ _
                (iterate-is_some p f (c ∷ b) r gs k (omega arith) (ground arith) takes)))
      | inr e ↦ rw (e, is_some) (takes b c r gs e)
    ]

pub star-is_some :
    (p : ℕ → Bool) (b t : Text) (gs : List (ℕ × Text)) (k : At → Option At)
    → has_other p t ≡ true
    → Takes p k
    → is_some (matches (star (chr p)) (record { before = b; rest = t; groups = gs }) k) ≡ true
unfolding matches
star-is_some p b t gs k h takes = iterate-is_some p (length t) b t gs k (omega arith) h takes

iterate_all :
    (p : ℕ → Bool) (f : ℕ) (b t : Text) (gs : List (ℕ × Text)) (k : At → Option At)
    → length t ≤ f
    → has_other p t ≡ false
    → ((b' : Text) → is_some (k (record { before = b'; rest = []; groups = gs })) ≡ true)
    → is_some (iterate f (matches (chr p)) (record { before = b; rest = t; groups = gs }) k) ≡ true
unfolding iterate matches step_onto
iterate_all p zero b [] gs k l h ends = ends b
iterate_all p (suc f) b [] gs k l h ends = ends b
iterate_all p zero b (c ∷ r) gs k l h ends = absurd (omega arith)
iterate_all p (suc f) b (c ∷ r) gs k l h ends =
    let fewer : ltb (length r) (suc (length r)) ≡ true = ground arith in
    let e : p c ≡ true = ground arith in
    rw (e, is_some)
      (rw (fewer, is_some)
        (or_else-is_some _ _ (iterate_all p f (c ∷ b) r gs k (omega arith) (ground arith) ends)))

-- A repetition reads a text of its class to the end.
pub star_all :
    (p : ℕ → Bool) (b t : Text) (gs : List (ℕ × Text)) (k : At → Option At)
    → has_other p t ≡ false
    → ((b' : Text) → is_some (k (record { before = b'; rest = []; groups = gs })) ≡ true)
    → is_some (matches (star (chr p)) (record { before = b; rest = t; groups = gs }) k) ≡ true
unfolding matches
star_all p b t gs k h ends = iterate_all p (length t) b t gs k (omega arith) h ends

or_else-is_some_later :
    (o : Option At) (later : Unit {0} → Option At)
    → is_some (later tt) ≡ true
    → is_some (or_else o later) ≡ true
or_else-is_some_later (some r) later h = refl
or_else-is_some_later none later h = h

iterate_none :
    (f : ℕ) (m : Matcher) (s : At) (k : At → Option At)
    → is_some (k s) ≡ true
    → is_some (iterate f m s k) ≡ true
unfolding iterate
iterate_none zero m s k h = h
iterate_none (suc f) m s k h = or_else-is_some_later _ (λ _. k s) h

-- A repetition may read nothing.
pub star_none :
    (r : Re) (s : At) (k : At → Option At)
    → is_some (k s) ≡ true
    → is_some (matches (star r) s k) ≡ true
unfolding matches
star_none r s k h = iterate_none (length s.rest) (matches r) s k h

-- What a repetition of a class reads holds nothing else.
Rounds-text :
    (p : ℕ → Bool) {s m : At}
    → Rounds (ReadsChar p) s m
    → (t : Text) × (m.before ≡ reverse t ++ s.before) × (has_other p t ≡ false)
Rounds-text p (done s) = ([], refl, refl)
Rounds-text p (round {s = s} (c, r, h, e, e') rs) =
    let (t, b, none_other) = Rounds-text p rs in
    let b' = ap (λ (x : At). x.before) e' in
    (c ∷ t, rw reverse-cons (rw append_assoc (b ∙ ap (λ x. reverse t ++ x) b')), ground arith)

-- what stands in front of a position, as far as it was read
pub read_text :
    (t b : Text) → reverse (take (length (reverse t ++ b) - length b) (reverse t ++ b)) ≡ t
read_text t b =
    let n : length (reverse t ++ b) - length b ≡ length (reverse t) =
      omega (arith, length-append (reverse t) b) in
    ap reverse (ap (λ k. take k (reverse t ++ b)) n ∙ take-length-append (reverse t) b)
    ∙ reverse-reverse t

pub Rounds-rest :
    (p : ℕ → Bool) {s m : At} → Rounds (ReadsChar p) s m → (t : Text) × (s.rest ≡ t ++ m.rest)
Rounds-rest p (done s) = ([], refl)
Rounds-rest p (round {s = s} (c, r, h, e, e') rs) =
    let (t, b) = Rounds-rest p rs in
    let b' = ap (λ (x : At). x.rest) e' in (c ∷ t, e ∙ ap (◌∷◌ c) (sym b' ∙ b))

pub closed_text-has_other :
    (p : ℕ → Bool) (s m : At) → Rounds (ReadsChar p) s m → has_other p (closed_text s m) ≡ false
closed_text-has_other p s m rs =
    let (t, b, none_other) = Rounds-text p rs in
    let e : closed_text s m ≡ t =
      ap (λ x. reverse (take (length x - length s.before) x)) b ∙ read_text t s.before in
    subst (λ x. has_other p x ≡ false) (sym e) none_other

-- The class ends there.
abbrev pub IsStop : (ℕ → Bool) → Text → Type 0
IsStop p [] = Unit
IsStop p (c ∷ r) = p c ≡ false

or_else-eq :
    (o : Option At) (later : Unit {0} → Option At) {v : At} → o ≡ some v → or_else o later ≡ some v
or_else-eq (some r) later h = h
or_else-eq none later h = cc

iterate_max :
    (p : ℕ → Bool) (f : ℕ) (b t r : Text) (gs : List (ℕ × Text)) (k : At → Option At) (v : At)
    → length (t ++ r) ≤ f
    → has_other p t ≡ false
    → IsStop p r
    → k (record { before = reverse t ++ b; rest = r; groups = gs }) ≡ some v
    → iterate f (matches (chr p)) (record { before = b; rest = t ++ r; groups = gs }) k ≡ some v
unfolding iterate matches step_onto
iterate_max p zero b [] r gs k v l h stop e = e
iterate_max p zero b (c ∷ t) r gs k v l h stop e = absurd (omega arith)
iterate_max p (suc f) b [] [] gs k v l h stop e = e
iterate_max p (suc f) b [] (c ∷ r) gs k v l h stop e = rw (stop, or_else) e
iterate_max p (suc f) b (c ∷ t) r gs k v l h stop e =
    let fewer : ltb (length (t ++ r)) (suc (length (t ++ r))) ≡ true = ground arith in
    let in_class : p c ≡ true = ground arith in
    let e' = rw (reverse-cons, append_assoc) at e in
    rw (in_class, or_else)
      (rw (fewer, or_else)
        (or_else-eq _ _ (iterate_max p f (c ∷ b) t r gs k v (omega arith) (ground arith) stop e')))

-- A repetition reads its class as far as it goes, if the rest of the pattern matches there.
pub star_max :
    (p : ℕ → Bool) (b t r : Text) (gs : List (ℕ × Text)) (k : At → Option At) (v : At)
    → has_other p t ≡ false
    → IsStop p r
    → k (record { before = reverse t ++ b; rest = r; groups = gs }) ≡ some v
    → matches (star (chr p)) (record { before = b; rest = t ++ r; groups = gs }) k ≡ some v
unfolding matches
star_max p b t r gs k v h stop e =
    iterate_max p (length (t ++ r)) b t r gs k v (omega arith) h stop e
