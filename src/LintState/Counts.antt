-- ===== src/LintState/Counts.antt =====
-- About the error counts of `_CppLintState`, in all and by category.
use lamp.Prelude.{ℕ, ◌+◌, true, List, [], ◌∷◌, ◌≡◌, refl, arith, if◌then◌else◌, length, ◌∙◌}
use lamp.Text.{Text, codes, ◌=t=◌, mem_text}
use lamp.Dict.{get_default-store, get_default, store, =t=_iff}
use lamp.State.{CppLintState}
use lamp.LintState.{counted_category, increment_error_count, reset_error_counts}

abbrev pub total : List (Text × ℕ) → ℕ
total [] = 0
total ((k, n) ∷ m) = n + total m

total-store :
    (k : Text) (v : ℕ) (m : List (Text × ℕ)) → total (store k v m) + get_default 0 k m ≡ total m + v
unfolding store get_default
total-store k v [] = omega arith
total-store k v ((j, n) ∷ m) = ground (arith, total-store k v m)

-- A style that counts by category.
abbrev pub IsCounted : CppLintState → Type 0
IsCounted s = mem_text s.counting (codes "toplevel" ∷ codes "detailed" ∷ []) ≡ true

abbrev pub increments : CppLintState → List Text → CppLintState
increments s [] = s
increments s (c ∷ cs) = increments (increment_error_count s c) cs

-- how many of the categories are counted under a name
abbrev pub times : CppLintState → Text → List Text → ℕ
times s name [] = 0
times s name (c ∷ cs) = (if counted_category s c =t= name then 1 else 0) + times s name cs

increment-counts :
    (s : CppLintState) (c name : Text)
    → IsCounted s
    → (get_default 0 name (increment_error_count s c).errors_by_category
        ≡ get_default 0 name s.errors_by_category
          + (if counted_category s c =t= name then 1 else 0))
      × (total (increment_error_count s c).errors_by_category ≡ total s.errors_by_category + 1)
      × ((increment_error_count s c).counting ≡ s.counting)
      × ((increment_error_count s c).error_count ≡ s.error_count + 1)
unfolding increment_error_count
increment-counts s c name h = rw h (
  rw get_default-store (ground (arith, =t=_iff (counted_category s c) name)),
  omega (
    arith,
    total-store (counted_category s c)
        (get_default 0 (counted_category s c) s.errors_by_category + 1) s.errors_by_category,
  ),
  refl,
  refl,
)

times-same :
    (s s' : CppLintState) (name : Text) (cs : List Text)
    → s'.counting ≡ s.counting
    → times s' name cs ≡ times s name cs
times-same s s' name [] e = refl
times-same s s' name (c ∷ cs) e = rw (e, times-same s s' name cs e)

increments-counts :
    (s : CppLintState) (cs : List Text) (name : Text)
    → IsCounted s
    → (get_default 0 name (increments s cs).errors_by_category
        ≡ get_default 0 name s.errors_by_category + times s name cs)
      × (total (increments s cs).errors_by_category ≡ total s.errors_by_category + length cs)
      × ((increments s cs).error_count ≡ s.error_count + length cs)
increments-counts s [] name h = (omega arith, omega arith, omega arith)
increments-counts s (c ∷ cs) name h =
    let s' = increment_error_count s c in
    let (here, sum, style, count) = increment-counts s c name h in
    let (later, sum', count') = increments-counts s' cs name (rw style h) in
    (omega (arith, times-same s s' name cs style), omega arith, omega arith)

-- After `ResetErrorCounts`, in a style that counts by category, a run of errors is counted in full:
-- each name has as many as were counted under it, and the counts add up to `error_count`, which is
-- the number of errors.
pub increments-reset_error_counts :
    (s : CppLintState) (cs : List Text) (name : Text)
    → IsCounted s
    → (get_default 0 name (increments (reset_error_counts s) cs).errors_by_category
        ≡ times s name cs)
      × (total (increments (reset_error_counts s) cs).errors_by_category ≡ length cs)
      × ((increments (reset_error_counts s) cs).error_count ≡ length cs)
unfolding get_default
increments-reset_error_counts s cs name h =
    let (a, b, c) = increments-counts (reset_error_counts s) cs name h in
    (
      a ∙ omega (arith, times-same s (reset_error_counts s) name cs refl),
      b ∙ omega arith,
      c ∙ omega arith,
    )
