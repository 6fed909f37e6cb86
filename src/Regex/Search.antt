-- ===== src/Regex/Search.antt =====
-- Where a search ends: at the first position where the pattern matches.
use lamp.Prelude.{
  ℕ, Bool, true, false, Option, none, some, List, [], ◌∷◌, ◌++◌, ◌≡◌, refl, All, append_assoc,
}
use mathlib.Core.List.{reverse, reverse-cons}
use lamp.Text.{Text, is_word}
use lamp.Regex.Classes.{opt}
use lamp.Regex.Skip.{IsStop}
use lamp.Regex.{
  Re, At, chr, seq, word_boundary, or_else, step_onto, word_at, differ, matches, search_from,
  search,
}

-- A pattern that matches at no character outside a class.
abbrev pub BeginsWith : Re → (ℕ → Bool) → Type 0
BeginsWith r p =
    (b : Text) (c : ℕ) (t : Text)
    → p c ≡ false
    → matches r (record { before = b; rest = c ∷ t; groups = [] }) some ≡ none

pub opt-some :
    (r : Re) (s : At) (k : At → Option At) (m : At)
    → matches r s k ≡ some m
    → matches (opt r) s k ≡ some m
unfolding matches
opt-some r s k m h = rw (h, or_else) refl

pub opt-none :
    (r : Re) (s : At) (k : At → Option At) → matches r s k ≡ none → matches (opt r) s k ≡ k s
unfolding matches
opt-none r s k h = rw (h, or_else) refl

taken : (b : Bool) (o : Option At) → b ≡ true → elim b [ true ↦ o | false ↦ none ] ≡ o
taken true o h = refl
taken false o h = cc

not_taken : (b : Bool) (o : Option At) → b ≡ false → elim b [ true ↦ o | false ↦ none ] ≡ none
not_taken true o h = cc
not_taken false o h = refl

pub chr-taken :
    (p : ℕ → Bool) (r : Re) (b t : Text) (c : ℕ) (gs : List (ℕ × Text)) (k : At → Option At)
    → p c ≡ true
    → matches (seq (chr p) r) (record { before = b; rest = c ∷ t; groups = gs }) k
      ≡ matches r (record { before = c ∷ b; rest = t; groups = gs }) k
unfolding matches step_onto
chr-taken p r b t c gs k h =
    taken (p c) (matches r (record { before = c ∷ b; rest = t; groups = gs }) k) h

pub chr-none :
    (p : ℕ → Bool) (b t : Text) (c : ℕ) (gs : List (ℕ × Text)) (k : At → Option At)
    → p c ≡ false
    → matches (chr p) (record { before = b; rest = c ∷ t; groups = gs }) k ≡ none
unfolding matches step_onto
chr-none p b t c gs k h = not_taken (p c) (k (record { before = c ∷ b; rest = t; groups = gs })) h

-- Behind a word a boundary stands where no word goes on.
pub word_boundary-after :
    (r : Re) (e : ℕ) (b t : Text) (gs : List (ℕ × Text)) (k : At → Option At)
    → is_word e ≡ true
    → IsStop is_word t
    → matches (seq word_boundary r) (record { before = e ∷ b; rest = t; groups = gs }) k
      ≡ matches r (record { before = e ∷ b; rest = t; groups = gs }) k
unfolding matches word_at differ
word_boundary-after r e b [] gs k h stop = rw h refl
word_boundary-after r e b (c ∷ t) gs k h stop = rw (h, differ) (rw stop refl)

search_from-skip :
    (r : Re) (p : ℕ → Bool) (b t u : Text) (m : At)
    → BeginsWith r p
    → All (λ c. p c ≡ false) t
    → search_from r (reverse t ++ b) u ≡ some m
    → search_from r b (t ++ u) ≡ some m
unfolding search_from
search_from-skip r p b [] u m begins h e = e
search_from-skip r p b (c ∷ t) u m begins (h, hs) e =
    rw (begins b c (t ++ u) h, search_from)
      (search_from-skip r p (c ∷ b) t u m begins hs (rw (reverse-cons, append_assoc) at e))

search_from-here :
    (r : Re) (b u : Text) (m : At)
    → matches r (record { before = b; rest = u; groups = [] }) some ≡ some m
    → search_from r b u ≡ some m
unfolding search_from
search_from-here r b [] m h = h
search_from-here r b (c ∷ u) m h = rw h refl

-- The search goes past a text of other characters to where the pattern matches.
pub search-skip :
    (r : Re) (p : ℕ → Bool) (t u : Text) (m : At)
    → BeginsWith r p
    → All (λ c. p c ≡ false) t
    → matches r (record { before = reverse t ++ []; rest = u; groups = [] }) some ≡ some m
    → search r (t ++ u) ≡ some m
unfolding search
search-skip r p t u m begins h e =
    search_from-skip r p [] t u m begins h (search_from-here r (reverse t ++ []) u m e)
