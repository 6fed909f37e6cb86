-- ===== src/Dict.antt =====
-- Dictionaries with texts, or `None`, for keys: association lists in insertion order.
use lamp.Prelude.{
  ℕ, Bool, true, false, ◌||◌, Option, none, some, List, [], ◌∷◌, ◌≡◌, ◌↔◌, refl, arith, ◌==◌,
  if◌then◌else◌,
}
use lamp.Text.{Text, ◌=t=◌}

pub =t=_iff : (s t : Text) → (s =t= t ≡ true) ↔ (s ≡ t)
unfolding ◌=t=◌
=t=_iff [] [] = ground arith
=t=_iff [] (d ∷ t) = ground arith
=t=_iff (c ∷ s) [] = ground arith
=t=_iff (c ∷ s) (d ∷ t) = ground (arith, =t=_iff s t)

pub =t=_refl : (s : Text) → s =t= s ≡ true
=t=_refl s = (=t=_iff s s).1 refl

abbrev pub Key : Type 0
Key = Option Text

infix 50 ◌=k=◌
abbrev pub ◌=k=◌ : Key → Key → Bool
none =k= none = true
some s =k= some t = s =t= t
_ =k= _ = false

pub =k=_iff : (a b : Key) → (a =k= b ≡ true) ↔ (a ≡ b)
=k=_iff none none = ground arith
=k=_iff (some s) (some t) = ground (arith, =t=_iff s t)
=k=_iff none (some t) = ground arith
=k=_iff (some s) none = ground arith

-- `x in xs` for numbers
unfoldable pub mem_number : ℕ → List ℕ → Bool
mem_number n [] = false
mem_number n (m ∷ ms) = n == m || mem_number n ms

-- `d.get(key, default)`
unfoldable pub get_default {ℓ} : {V : Type ℓ} → V → Text → List (Text × V) → V
get_default d k [] = d
get_default d k ((j, v) ∷ m) = if j =t= k then v else get_default d k m

-- `d[key] = value`
unfoldable pub store {ℓ} : {V : Type ℓ} → Text → V → List (Text × V) → List (Text × V)
store k v [] = (k, v) ∷ []
store k v ((j, w) ∷ m) = if j =t= k then (j, v) ∷ m else (j, w) ∷ store k v m

-- `d.get(key, set())` and `d.setdefault(key, set()).add(n)`
unfoldable pub get_set : Key → List (Key × List ℕ) → List ℕ
get_set k [] = []
get_set k ((j, ns) ∷ m) = if j =k= k then ns else get_set k m

unfoldable pub add_to_set : Key → ℕ → List (Key × List ℕ) → List (Key × List ℕ)
add_to_set k n [] = (k, n ∷ []) ∷ []
add_to_set k n ((j, ns) ∷ m) = if j =k= k then (j, n ∷ ns) ∷ m else (j, ns) ∷ add_to_set k n m

pub get_default-store {ℓ} :
    {V : Type ℓ} (d : V) (k j : Text) (v : V) (m : List (Text × V))
    → get_default d j (store k v m) ≡ (if k =t= j then v else get_default d j m)
unfolding get_default store
get_default-store d k j v [] = refl
get_default-store d k j v ((i, w) ∷ m) =
    ground (arith, =t=_iff k j, =t=_iff i k, =t=_iff i j, get_default-store d k j v m)

pub get_set-add_to_set :
    (k j : Key) (n : ℕ) (m : List (Key × List ℕ))
    → get_set j (add_to_set k n m) ≡ (if k =k= j then n ∷ get_set j m else get_set j m)
unfolding get_set add_to_set
get_set-add_to_set k j n [] = ground arith
get_set-add_to_set k j n ((i, ns) ∷ m) =
    ground (arith, =k=_iff k j, =k=_iff i k, =k=_iff i j, get_set-add_to_set k j n m)
