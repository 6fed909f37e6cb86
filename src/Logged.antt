-- ===== src/Logged.antt =====
-- Results with the reports made on the way, or none where an exception is raised.
use lamp.Prelude.{Option, none, some, List, [], ◌++◌, ◌≡◌, refl, ap, append-nil, append_assoc}
use mathlib.Core.Path.{subst}
use lamp.State.{Report}

abbrev pub Logged {ℓ} : Type ℓ → Type ℓ
Logged A = Option (A × List Report)

abbrev pub ret {ℓ} : {A : Type ℓ} → A → Logged A
ret a = some (a, [])

-- reports in front of those of a result
abbrev pub logged {ℓ} : {A : Type ℓ} → List Report → Logged A → Logged A
logged rs none = none
logged rs (some (a, more)) = some (a, rs ++ more)

infixl 5 ◌>>=◌
abbrev pub ◌>>=◌ {ℓ κ} : {A : Type ℓ} {B : Type κ} → Logged A → (A → Logged B) → Logged B
none >>= f = none
some (a, rs) >>= f = logged rs (f a)

logged-append {ℓ} :
    {A : Type ℓ} (rs qs : List Report) (m : Logged A)
    → logged (rs ++ qs) m ≡ logged rs (logged qs m)
logged-append rs qs none = refl
logged-append rs qs (some (a, more)) = ap (λ x. some (a, x)) (append_assoc rs qs more)

logged->>= {ℓ κ} :
    {A : Type ℓ} {B : Type κ} (rs : List Report) (m : Logged A) (f : A → Logged B)
    → (logged rs m >>= f) ≡ logged rs (m >>= f)
logged->>= rs none f = refl
logged->>= rs (some (a, more)) f = logged-append rs more (f a)

pub >>=_assoc {ℓ κ ν} :
    {A : Type ℓ} {B : Type κ} {C : Type ν} (m : Logged A) (f : A → Logged B) (g : B → Logged C)
    → ((m >>= f) >>= g) ≡ (m >>= (λ a. f a >>= g))
>>=_assoc none f g = refl
>>=_assoc (some (a, rs)) f g = logged->>= rs (f a) g

pub logged-nil {ℓ} : {A : Type ℓ} (m : Logged A) → logged [] m ≡ m
logged-nil none = refl
logged-nil (some (a, rs)) = refl

-- Two results that fail together, or make the same reports and give related values.
abbrev pub Related {ℓ κ} :
    {A : Type ℓ} {B : Type κ} → (A → B → Type 0) → Logged A → Logged B → Type 0
Related R none none = Unit
Related R (some (a, rs)) (some (b, qs)) = R a b × (rs ≡ qs)
Related R none (some (b, qs)) = ⊥
Related R (some (a, rs)) none = ⊥

module _ {ℓ κ} {A : Type ℓ} {B : Type κ} (R : A → B → Type 0) where
  pub Related-logged :
      (rs : List Report) (m : Logged A) (n : Logged B)
      → Related R m n
      → Related R (logged rs m) (logged rs n)
  Related-logged rs none none h = h
  Related-logged rs (some (a, more)) (some (b, qs)) (h, e) = (h, ap (λ x. rs ++ x) e)
  Related-logged rs none (some (b, qs)) h = h
  Related-logged rs (some (a, more)) none h = h

pub Related->>= {ℓ} :
    {A B C D : Type ℓ} (R : A → B → Type 0) (S : C → D → Type 0) (m : Logged A) (n : Logged B)
    (f : A → Logged C) (g : B → Logged D)
    → Related R m n
    → ((a : A) (b : B) → R a b → Related S (f a) (g b))
    → Related S (m >>= f) (n >>= g)
Related->>= R S none none f g h k = tt
Related->>= R S (some (a, rs)) (some (b, qs)) f g (h, e) k =
    subst (λ x. Related S (logged rs (f a)) (logged x (g b))) e
      (Related-logged S rs (f a) (g b) (k a b h))
Related->>= R S none (some (b, qs)) f g h k = absurd h
Related->>= R S (some (a, rs)) none f g h k = absurd h

pub >>=_ret {ℓ} : {A : Type ℓ} (m : Logged A) → (m >>= ret) ≡ m
>>=_ret none = refl
>>=_ret (some (a, rs)) = ap (λ x. some (a, x)) (append-nil rs)
