-- ===== src/Prelude/Lists.antt =====
-- Lists measured and indexed by native numbers, under the library's names.
use Prim.Native.Nat.{ℕ, zero, suc, ◌+◌, ◌-◌, ◌≤◌, ◌<◌, min}
use mathlib.Core.Path.{◌≡◌, refl, sym, ap}
use mathlib.Core.Bool.{Bool, true, false, ◌&&◌, ◌||◌}
use mathlib.Core.List.{List, [], ◌∷◌, ◌++◌, map, reverse, reverse-cons}
use mathlib.Core.Option.{Option, none, some}
use native.Mathlib.Omega.{arith}

module _ {ℓ} {A : Type ℓ} where
  abbrev pub length : List A → ℕ
  length [] = 0
  length (x ∷ xs) = suc (length xs)

  abbrev pub get_elem? : List A → ℕ → Option A
  get_elem? [] i = none
  get_elem? (x ∷ xs) zero = some x
  get_elem? (x ∷ xs) (suc i) = get_elem? xs i

  abbrev pub get_or : List A → ℕ → A → A
  get_or [] i d = d
  get_or (x ∷ xs) zero d = x
  get_or (x ∷ xs) (suc i) d = get_or xs i d

  -- A write out of bounds changes nothing.
  abbrev pub set : List A → ℕ → A → List A
  set [] i v = []
  set (x ∷ xs) zero v = v ∷ xs
  set (x ∷ xs) (suc i) v = x ∷ set xs i v

  abbrev pub take : ℕ → List A → List A
  take zero xs = []
  take (suc n) [] = []
  take (suc n) (x ∷ xs) = x ∷ take n xs

  abbrev pub drop : ℕ → List A → List A
  drop zero xs = xs
  drop (suc n) [] = []
  drop (suc n) (x ∷ xs) = drop n xs

  abbrev pub any : (A → Bool) → List A → Bool
  any p [] = false
  any p (x ∷ xs) = p x || any p xs

  abbrev pub all : (A → Bool) → List A → Bool
  all p [] = true
  all p (x ∷ xs) = p x && all p xs

  abbrev pub All {κ} : (A → Type κ) → List A → Type κ
  All P [] = Unit
  All P (x ∷ xs) = P x × All P xs

  pub length-append : (xs ys : List A) → length (xs ++ ys) ≡ length xs + length ys
  length-append [] ys = omega arith
  length-append (x ∷ xs) ys = omega (arith, length-append xs ys)

  pub length-set : (xs : List A) (i : ℕ) (v : A) → length (set xs i v) ≡ length xs
  length-set [] i v = refl
  length-set (x ∷ xs) zero v = refl
  length-set (x ∷ xs) (suc i) v = ap suc (length-set xs i v)

  pub take-append-drop : (n : ℕ) (xs : List A) → take n xs ++ drop n xs ≡ xs
  take-append-drop zero xs = refl
  take-append-drop (suc n) [] = refl
  take-append-drop (suc n) (x ∷ xs) = ap (◌∷◌ x) (take-append-drop n xs)

  pub length-drop : (n : ℕ) (xs : List A) → length (drop n xs) ≡ length xs - n
  length-drop zero xs = omega arith
  length-drop (suc n) [] = omega arith
  length-drop (suc n) (x ∷ xs) = omega (arith, length-drop n xs)

  pub length-take : (n : ℕ) (xs : List A) → length (take n xs) ≡ min n (length xs)
  length-take zero xs = omega arith
  length-take (suc n) [] = omega arith
  length-take (suc n) (x ∷ xs) = omega (arith, length-take n xs)

  pub take-length-append : (xs ys : List A) → take (length xs) (xs ++ ys) ≡ xs
  take-length-append [] ys = refl
  take-length-append (x ∷ xs) ys = ap (◌∷◌ x) (take-length-append xs ys)

  pub drop-length-append : (xs ys : List A) → drop (length xs) (xs ++ ys) ≡ ys
  drop-length-append [] ys = refl
  drop-length-append (x ∷ xs) ys = drop-length-append xs ys

  pub All-append {κ} : (P : A → Type κ) (xs ys : List A) → All P xs → All P ys → All P (xs ++ ys)
  All-append P [] ys h k = k
  All-append P (x ∷ xs) ys (p, h) k = (p, All-append P xs ys h k)

  -- What stands at a position, and what stands behind it.
  pub drop-cons :
      (i : ℕ) (xs : List A) {y : A} {ys : List A}
      → drop i xs ≡ y ∷ ys
      → (get_elem? xs i ≡ some y) × (drop (suc i) xs ≡ ys) × (i < length xs)
  drop-cons zero [] h = cc
  drop-cons zero (x ∷ xs) h = (cc, cc, omega arith)
  drop-cons (suc i) [] h = cc
  drop-cons (suc i) (x ∷ xs) h = let (a, b, c) = drop-cons i xs h in (a, b, omega arith)

  pub drop_of_get_elem? :
      (i : ℕ) (xs : List A) {y : A} → get_elem? xs i ≡ some y → drop i xs ≡ y ∷ drop (suc i) xs
  drop_of_get_elem? i [] h = cc
  drop_of_get_elem? zero (x ∷ xs) h = cc
  drop_of_get_elem? (suc i) (x ∷ xs) h = drop_of_get_elem? i xs h

  pub get_elem?-length-append :
      (xs : List A) (y : A) (ys : List A) → get_elem? (xs ++ y ∷ ys) (length xs) ≡ some y
  get_elem?-length-append [] y ys = refl
  get_elem?-length-append (x ∷ xs) y ys = get_elem?-length-append xs y ys

  pub All-split {κ} : (P : A → Type κ) (xs ys : List A) → All P (xs ++ ys) → All P xs × All P ys
  All-split P [] ys h = (tt, h)
  All-split P (x ∷ xs) ys (p, h) = let (a, b) = All-split P xs ys h in ((p, a), b)

  pub drop-suc-length-append :
      (xs : List A) (y : A) (ys : List A) → drop (suc (length xs)) (xs ++ y ∷ ys) ≡ ys
  drop-suc-length-append [] y ys = refl
  drop-suc-length-append (x ∷ xs) y ys = drop-suc-length-append xs y ys

take-nil {ℓ} : {A : Type ℓ} (k : ℕ) → take {A = A} k [] ≡ []
take-nil zero = refl
take-nil (suc k) = refl

pub take_add {ℓ} :
    {A : Type ℓ} (i k : ℕ) (xs : List A) → take (i + k) xs ≡ take i xs ++ take k (drop i xs)
take_add zero k xs = ap (λ n. take n xs) (omega arith)
take_add (suc i) k [] = let e : suc i + k ≡ suc (i + k) = omega arith in rw e (sym (take-nil k))
take_add (suc i) k (x ∷ xs) =
    let e : suc i + k ≡ suc (i + k) = omega arith in rw e (ap (◌∷◌ x) (take_add i k xs))

pub get_elem?-drop {ℓ} :
    {A : Type ℓ} (i k : ℕ) (xs : List A) → get_elem? (drop i xs) k ≡ get_elem? xs (i + k)
get_elem?-drop zero k xs = ap (get_elem? xs) (omega arith)
get_elem?-drop (suc i) k [] = refl
get_elem?-drop (suc i) k (x ∷ xs) =
    let e : suc i + k ≡ suc (i + k) = omega arith in rw e (get_elem?-drop i k xs)

pub take_all {ℓ} : {A : Type ℓ} (n : ℕ) (xs : List A) → length xs ≤ n → take n xs ≡ xs
take_all zero [] h = refl
take_all zero (x ∷ xs) h = absurd (omega arith)
take_all (suc n) [] h = refl
take_all (suc n) (x ∷ xs) h = ap (◌∷◌ x) (take_all n xs (omega arith))

pub length-reverse {ℓ} : {A : Type ℓ} (xs : List A) → length (reverse xs) ≡ length xs
length-reverse [] = refl
length-reverse (x ∷ xs) =
    rw reverse-cons (omega (arith, length-append (reverse xs) (x ∷ []), length-reverse xs))

pub length-map {ℓ ℓ'} :
    {A : Type ℓ} {B : Type ℓ'} (f : A → B) (xs : List A) → length (map f xs) ≡ length xs
length-map f [] = refl
length-map f (x ∷ xs) = ap suc (length-map f xs)

pub get_elem?_of_lt {ℓ} :
    {A : Type ℓ} (xs : List A) (i : ℕ) → i < length xs → (x : A) × (get_elem? xs i ≡ some x)
get_elem?_of_lt [] i h = absurd (omega arith)
get_elem?_of_lt (x ∷ xs) zero h = (x, refl)
get_elem?_of_lt (x ∷ xs) (suc i) h = get_elem?_of_lt xs i (omega arith)

pub get_elem?-in {ℓ} :
    {A : Type ℓ} (xs : List A) (i : ℕ) {x : A} → get_elem? xs i ≡ some x → i < length xs
get_elem?-in [] i h = cc
get_elem?-in (y ∷ xs) zero h = omega arith
get_elem?-in (y ∷ xs) (suc i) h = let l = get_elem?-in xs i h in omega arith

pub get_or_of_get_elem? {ℓ} :
    {A : Type ℓ} (xs : List A) (i : ℕ) (d : A) {x : A} → get_elem? xs i ≡ some x → get_or xs i d ≡ x
get_or_of_get_elem? [] i d h = cc
get_or_of_get_elem? (y ∷ xs) zero d h = cc
get_or_of_get_elem? (y ∷ xs) (suc i) d h = get_or_of_get_elem? xs i d h
