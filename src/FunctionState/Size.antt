-- ===== src/FunctionState/Size.antt =====
-- When a function is reported for its size, and with what confidence.
use lamp.Prelude.{
  if◌then◌else◌, ◌||◌, [], ◌∷◌, ℕ, zero, suc, ◌+◌, ◌*◌, ◌^◌, ◌≤◌, ◌<◌, ◌≡◌, ap, ◌⊎◌, refl, true,
  inl, inr, arith, ltb, none, some, Bool-cases, Option-cases, ltb→lt, leb, leb→le, ◌-◌,
}
use Prim.Native.Nat.{min}
use native.Mathlib.Nat.{pow-suc, add-zero, add-suc, mul-le-mul_left, one-le-pow}
use lamp.Text.{Text, codes, starts_with}
use lamp.Regex
use lamp.State.{Report}
use lamp.FunctionState.{FunctionState, base_trigger, log_up_to, error_level, trigger, check}

double_pow : (base k : ℕ) → base * 2 ^ suc k ≡ base * 2 * 2 ^ k
double_pow base k = rw pow-suc (omega arith)

pow-le-pow : (j k : ℕ) → 2 ^ j ≤ 2 ^ (j + k)
pow-le-pow j zero = rw add-zero (omega arith)
pow-le-pow j (suc k) = rw (add-suc, pow-suc) (omega (arith, pow-le-pow j k))

-- `log_up_to` is the floor of the logarithm, up to its cap.
log_up_to_bounds :
    (most base n : ℕ)
    → base ≤ n
    → (base * 2 ^ log_up_to most base n ≤ n)
      × (log_up_to most base n ≤ most)
      × ((log_up_to most base n < most) → n < base * 2 ^ suc (log_up_to most base n))
unfolding log_up_to
log_up_to_bounds zero base n h = (omega arith, omega arith, λ k. absurd (omega arith))
log_up_to_bounds (suc most) base n h = elim (Bool-cases (ltb n (base * 2))) [
  | inl e ↦ rw e (omega arith, omega arith, λ _. ltb→lt n (base * 2) e)
  | inr e ↦
      let (low, cap, high) = log_up_to_bounds most (base * 2) n (ground arith) in
      rw e (
        rw double_pow low,
        omega arith,
        λ k. rw (double_pow base (suc (log_up_to most (base * 2) n))) (high (omega arith)),
      )
]

-- The number of lines that a function may have: that of a test, or of another function, doubled at
-- each level of verbosity.
abbrev pub most_lines : ℕ → Text → ℕ
most_lines verbose name =
    (if starts_with name (codes "TEST") || starts_with name (codes "Test") then 400 else 250)
    * 2 ^ verbose

base_trigger_lem :
    (name : Text)
    → base_trigger name
      ≡ (if starts_with name (codes "TEST") || starts_with name (codes "Test") then 400 else 250)
unfolding base_trigger starts_with Regex.match Regex.matches
base_trigger_lem [] = refl
base_trigger_lem (a ∷ []) = ground arith
base_trigger_lem (a ∷ b ∷ []) = ground arith
base_trigger_lem (a ∷ b ∷ c ∷ []) = ground arith
base_trigger_lem (a ∷ b ∷ c ∷ d ∷ name) = ground arith

-- In a function the check reports nothing up to the trigger, and beyond it the line it is given.
pub check_cases :
    (verbose : ℕ) (s : FunctionState) (filename : Text) (linenum : ℕ)
    → s.in_a_function ≡ true
    → ((s.lines_in_function ≤ most_lines verbose s.current_function)
        × (check verbose s filename linenum ≡ none))
      ⊎ ((most_lines verbose s.current_function < s.lines_in_function)
          × (r : Report) × (check verbose s filename linenum ≡ some r)
          × (r.linenum ≡ linenum)
          × (r.filename ≡ filename)
          × (r.category ≡ codes "readability/fn_size"))
unfolding check trigger
check_cases verbose s filename linenum inside =
    let limit = ap (λ n. n * 2 ^ verbose) (base_trigger_lem s.current_function) in
    elim (Option-cases (check verbose s filename linenum)) [
      | inl e ↦ inl (ground arith, e)
      | inr (r, e) ↦ inr (ground arith, r, e, ground arith, ground arith, ground arith)
    ]

check_facts :
    (verbose : ℕ) (s : FunctionState) (filename : Text) (linenum : ℕ) {r : Report}
    → check verbose s filename linenum ≡ some r
    → (base_trigger s.current_function * 2 ^ verbose < s.lines_in_function)
      × (r.confidence ≡ log_up_to 5 (base_trigger s.current_function) s.lines_in_function)
unfolding check trigger error_level
check_facts verbose s filename linenum h = ground arith

-- A number under the next power of two and over another one.
exponent_bound :
    (base n verbose k : ℕ) → base * 2 ^ verbose < n → n < base * 2 ^ suc k → verbose ≤ k
exponent_bound base n verbose k h g = elim (Bool-cases (leb verbose k)) [
  | inl e ↦ leb→le verbose k e
  | inr e ↦
      let d : suc k + (verbose - suc k) ≡ verbose = ground arith in
      let p : 2 ^ suc k ≤ 2 ^ verbose = rw d at (pow-le-pow (suc k) (verbose - suc k)) in
      absurd (omega (arith, mul-le-mul_left base p))
]

base-le-mul_pow : (base verbose : ℕ) → base ≤ base * 2 ^ verbose
base-le-mul_pow base verbose =
    omega (arith, mul-le-mul_left base (one-le-pow verbose 2 (omega arith)))

-- The confidence of a report is the floor of the binary logarithm of lines over base trigger, but
-- at most 5; so it reaches the verbosity at which the check ran, or 5.
pub check_confidence :
    (verbose : ℕ) (s : FunctionState) (filename : Text) (linenum : ℕ) {r : Report}
    → check verbose s filename linenum ≡ some r
    → (r.confidence ≤ 5)
      × (base_trigger s.current_function * 2 ^ r.confidence ≤ s.lines_in_function)
      × ((r.confidence ≡ 5)
          ⊎ (s.lines_in_function < base_trigger s.current_function * 2 ^ suc r.confidence))
      × (min verbose 5 ≤ r.confidence)
check_confidence verbose s filename linenum {r} h =
    let base = base_trigger s.current_function in
    let (over, conf) = check_facts verbose s filename linenum h in
    let conf_value = log_up_to 5 base s.lines_in_function in
    let (low, cap, high) =
      log_up_to_bounds 5 base s.lines_in_function (omega (arith, base-le-mul_pow base verbose)) in
    rw conf (elim (Bool-cases (ltb conf_value 5)) [
      | inl e ↦
          let under = high (ltb→lt conf_value 5 e) in
          (
            cap,
            low,
            inr under,
            omega (arith, exponent_bound base s.lines_in_function verbose conf_value over under),
          )
      | inr e ↦ (cap, low, inl (ground arith), ground arith)
    ])
