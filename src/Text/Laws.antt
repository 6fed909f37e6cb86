-- ===== src/Text/Laws.antt =====
-- Laws of the operations on texts.
use lamp.Prelude.{ℕ, ◌≡◌, true, ◌++◌, refl, arith, [], ◌∷◌, ◌==◌, if◌then◌else◌, map, List, if_rule}
use mathlib.Core.List.{reverse}
use lamp.Text.{Text, split_onto, split, starts_with, replace_from, replace}

-- A replacement of one character by another goes through the characters one by one.
pub replace_char :
    (old new : ℕ) (s : Text)
    → replace s (old ∷ []) (new ∷ []) ≡ map (λ c. if c == old then new else c) s
unfolding replace replace_from starts_with
replace_char old new [] = refl
replace_char old new (c ∷ s) = ground (arith, replace_char old new s)

-- A text that starts with another is that one and a rest.
pub starts_with-split : (s p : Text) → starts_with s p ≡ true → (t : Text) × (s ≡ p ++ t)
unfolding starts_with
starts_with-split s [] h = (s, refl)
starts_with-split [] (d ∷ p) h = cc
starts_with-split (c ∷ s) (d ∷ p) h =
    let (t, e) = starts_with-split s p (ground arith) in (t, ground (arith, e))

split_onto-cons :
    (sep : ℕ) (cur s : Text) → (t : Text) × (ts : List Text) × (split_onto sep cur s ≡ t ∷ ts)
unfolding split_onto
split_onto-cons sep cur [] = (reverse cur, [], refl)
split_onto-cons sep cur (c ∷ s) =
    if_rule (λ o. (t : Text) × (ts : List Text) × (o ≡ t ∷ ts)) (c == sep)
      (reverse cur ∷ split_onto sep [] s) (split_onto sep (c ∷ cur) s)
      (λ _. (reverse cur, split_onto sep [] s, refl)) (λ _. split_onto-cons sep (c ∷ cur) s)

-- A text is split into one part at least.
pub split-cons : (s : Text) (sep : ℕ) → (t : Text) × (ts : List Text) × (split s sep ≡ t ∷ ts)
unfolding split
split-cons s sep = split_onto-cons sep [] s
