-- ===== src/Regex.antt =====
-- Python's `re` on the constructs that the linter's patterns use: a backtracking matcher in the
-- order of preference of that module. A pattern of the source is written as a value of `Re`.
pub mod Classes
pub mod Reads
pub mod Length
pub mod Skip
pub mod Behind
pub mod Search
use mathlib.Core.List.{reverse}
use lamp.Prelude.{
  ℕ, zero, suc, ◌-◌, Bool, true, false, not, ◌||◌, Option, none, some, List, [], ◌∷◌, ◌++◌, ltb,
  ◌==◌, if◌then◌else◌, length, take,
}
use lamp.Text.{Text, is_word}

pub data Re : Type 0 where
  -- matches nothing and succeeds
  eps : Re
  -- one character of a class
  chr : (ℕ → Bool) → Re
  -- one after the other; the left one, else the right one
  seq alt : Re → Re → Re
  -- `r*` and `r*?`
  star lazy_star : Re → Re
  -- `(r)`, the group of that number
  group : ℕ → Re → Re
  -- `^`, `$` and `\b`
  bol eol word_boundary : Re
  -- `(?=r)` and `(?!r)`
  ahead not_ahead : Re → Re

-- A position in the text: what is behind it, reversed, what is left, and the groups closed so far.
pub record At : Type 0 where
  pub before : Text
  pub rest : Text
  pub groups : List (ℕ × Text)

abbrev pub Matcher : Type 0
Matcher = At → (At → Option At) → Option At

-- The matchers are functions of what is left, so that they compute by clauses.
step_onto : (ℕ → Bool) → Text → At → (At → Option At) → Option At
step_onto p [] s k = none
step_onto p (c ∷ r) s k = elim (p c) [
  | true ↦ k (record s { before = c ∷ s.before; rest = r })
  | false ↦ none
]

abbrev or_else : Option At → (Unit {0} → Option At) → Option At
or_else (some r) later = some r
or_else none later = later tt

-- A round that does not advance ends the repetition.
iterate : ℕ → Matcher → Matcher
iterate zero m s k = k s
iterate (suc f) m s k =
    or_else
      (m s (λ s'. elim (ltb (length s'.rest) (length s.rest)) [
        | true ↦ iterate f m s' k
        | false ↦ none
      ]))
      (λ _. k s)

iterate_lazy : ℕ → Matcher → Matcher
iterate_lazy zero m s k = k s
iterate_lazy (suc f) m s k = or_else (k s) (λ _. m s (λ s'.
    elim (ltb (length s'.rest) (length s.rest)) [ true ↦ iterate_lazy f m s' k | false ↦ none ]))

abbrev pub close_group : ℕ → At → At → At
close_group n s s' = record s' {
  groups = (n, reverse (take (length s'.before - length s.before) s'.before)) ∷ s'.groups;
}

word_at : Text → Bool
word_at [] = false
word_at (c ∷ _) = is_word c

at_end : Text → Bool
at_end [] = true
at_end (c ∷ []) = c == b'\n'
at_end _ = false

is_nil : Text → Bool
is_nil [] = true
is_nil _ = false

differ : Bool → Bool → Bool
differ true b = not b
differ false b = b

abbrev check : Bool → At → (At → Option At) → Option At
check b s k = elim b [ true ↦ k s | false ↦ none ]

unfoldable pub matches : Re → Matcher
unfolding step_onto iterate iterate_lazy word_at at_end is_nil differ
matches eps s k = k s
matches (chr p) s k = step_onto p s.rest s k
matches (seq a b) s k = matches a s (λ s'. matches b s' k)
matches (alt a b) s k = or_else (matches a s k) (λ _. matches b s k)
matches (star r) s k = iterate (length s.rest) (matches r) s k
matches (lazy_star r) s k = iterate_lazy (length s.rest) (matches r) s k
matches (group n r) s k = matches r s (λ s'. k (close_group n s s'))
matches bol s k = check (is_nil s.before) s k
matches eol s k = check (at_end s.rest) s k
matches word_boundary s k = check (differ (word_at s.before) (word_at s.rest)) s k
matches (ahead r) s k = elim (matches r s some) [
  | some s' ↦ k (record s { groups = s'.groups })
  | none ↦ none
]
matches (not_ahead r) s k = elim (matches r s some) [ some _ ↦ none | none ↦ k s ]

-- `pattern.match(s)`: at the start of the text
unfoldable pub match : Re → Text → Option At
unfolding matches
match r t = matches r (record { before = []; rest = t; groups = [] }) some

search_from : Re → Text → Text → Option At
search_from r before [] = matches r (record { before = before; rest = []; groups = [] }) some
search_from r before (c ∷ t) =
    or_else (matches r (record { before = before; rest = c ∷ t; groups = [] }) some)
      (λ _. search_from r (c ∷ before) t)

-- `pattern.search(s)`: at the first position where it matches
unfoldable pub search : Re → Text → Option At
unfolding search_from matches
search r t = search_from r [] t

lookup_group : ℕ → List (ℕ × Text) → Option Text
lookup_group n [] = none
lookup_group n ((m, t) ∷ gs) = if m == n then some t else lookup_group n gs

-- `match.group(n)` for a group; `none` if it took no part
unfoldable pub group_of : At → ℕ → Option Text
unfolding lookup_group
group_of s n = lookup_group n s.groups

sub_from : ℕ → Re → Text → Text → Text → Text
sub_from zero r new before t = t
sub_from (suc f) r new before [] = []
sub_from (suc f) r new before (c ∷ t) =
    elim (matches r (record { before = before; rest = c ∷ t; groups = [] }) some) [
      | some s ↦ elim (ltb (length s.rest) (length (c ∷ t))) [
        | true ↦ new ++ sub_from f r new s.before s.rest
        | false ↦ c ∷ sub_from f r new (c ∷ before) t
      ]
      | none ↦ c ∷ sub_from f r new (c ∷ before) t
    ]

-- `pattern.sub(new, s)` for a pattern with no empty match and a text with no back-reference. Every
-- round drops a character, so the length of the text is enough.
unfoldable pub sub : Re → Text → Text → Text
unfolding sub_from matches
sub r new t = sub_from (length t) r new [] t
