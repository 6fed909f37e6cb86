-- ===== src/Cleanse/FirstIndex.antt =====
-- The index of the first line that meets a test, as the searches for the ends of a comment find it.
use lamp.Prelude.{
  ℕ, suc, ◌+◌, ◌≤◌, ◌<◌, Bool, true, false, some, List, [], ◌∷◌, ◌≡◌, inl, inr, refl, sym, ap, ◌∙◌,
  arith, if◌then◌else◌, length, get_elem?, take, drop, All, All-append, length-drop, Bool-cases,
  take_add, get_elem?-drop,
}
use lamp.Text.{Text}
use lamp.Cleanse.{first_index}

-- how many lines stand before the first that meets the test
skip : (Text → Bool) → List Text → ℕ
skip p [] = 0
skip p (l ∷ ls) = if p l then 0 else suc (skip p ls)

first_index-skip : (p : Text → Bool) (i : ℕ) (ls : List Text) → first_index p i ls ≡ i + skip p ls
unfolding first_index skip
first_index-skip p i [] = omega arith
first_index-skip p i (l ∷ ls) = ground (arith, first_index-skip p (suc i) ls)

abbrev pub Fails : (Text → Bool) → List Text → Type 0
Fails p = All (λ l. p l ≡ false)

skip-Fails : (p : Text → Bool) (ls : List Text) → Fails p (take (skip p ls) ls)
unfolding skip
skip-Fails p [] = tt
skip-Fails p (l ∷ ls) = elim (Bool-cases (p l)) [
  | inl e ↦ rw e tt
  | inr e ↦ rw e (e, skip-Fails p ls)
]

skip_all : (p : Text → Bool) (ls : List Text) → length ls ≤ skip p ls → Fails p ls
unfolding skip
skip_all p [] h = tt
skip_all p (l ∷ ls) h = ground (arith, skip_all p ls)

skip_here :
    (p : Text → Bool) (ls : List Text)
    → skip p ls < length ls
    → (l : Text) × (get_elem? ls (skip p ls) ≡ some l) × (p l ≡ true)
unfolding skip
skip_here p [] h = absurd (omega arith)
skip_here p (l ∷ ls) h = elim (Bool-cases (p l)) [
  | inl e ↦ (l, rw e refl, e)
  | inr e ↦ rw e (skip_here p ls (ground arith))
]

-- What is known of an index that a search from `i` returns.
module _ (p : Text → Bool) (ls : List Text) (i : ℕ) (within : i ≤ length ls) where
  abbrev pub index : ℕ
  index = first_index p i (drop i ls)

  index-skip : index ≡ i + skip p (drop i ls)
  index-skip = first_index-skip p i (drop i ls)

  pub index_bounds : i ≤ index
  index_bounds = omega (arith, index-skip)

  pub index-Fails : Fails p (take i ls) → Fails p (take index ls)
  index-Fails h = rw index-skip (
      rw (take_add i (skip p (drop i ls)) ls) (
        All-append (λ l. p l ≡ false) (take i ls) (take (skip p (drop i ls)) (drop i ls)) h
          (skip-Fails p (drop i ls))))

  pub index_here : index < length ls → (l : Text) × (get_elem? ls index ≡ some l) × (p l ≡ true)
  index_here h =
      let (l, at, holds) = skip_here p (drop i ls) (omega (arith, index-skip, length-drop i ls)) in
      (l, ap (get_elem? ls) index-skip ∙ sym (get_elem?-drop i (skip p (drop i ls)) ls) ∙ at, holds)

  pub index_none : length ls ≤ index → Fails p (drop i ls)
  index_none h = skip_all p (drop i ls) (omega (arith, index-skip, length-drop i ls))
