-- ===== src/Suppress/Laws.antt =====
-- Which lines and categories a NOLINT comment suppresses.
use lamp.Prelude.{
  ℕ, Bool, false, ◌&&◌, ◌||◌, Option, none, some, ◌≡◌, inl, inr, refl, if_rule, sym, some_eq, arith,
  ◌==◌, if◌then◌else◌, Option-cases,
}
use lamp.Text.{Text, codes, ◌=t=◌, mem_text, starts_with, ends_with}
use lamp.Dict.{Key, mem_number, get_set-add_to_set}
use lamp.State.{World, Report}
use lamp.Categories.{error_categories, legacy_error_categories}
use lamp.Regex
use lamp.Regex.{group_of, At}
use lamp.Suppress.{
  nolint_pattern, nolint_report, Handler, suppress, inner, suppress_category, suppress_group,
  suppressed_line_of, parse_nolint_suppressions, is_error_suppressed_by_nolint,
}

-- An entry of `_error_suppressions` at a key and a line reaches this category and line.
abbrev pub reaches : Key → ℕ → Text → ℕ → Bool
reaches none n category l = l == n
reaches (some c) n category l = c =t= category && l == n

pub suppress_lem :
    (w : World) (k : Key) (n : ℕ) (category : Text) (l : ℕ)
    → is_error_suppressed_by_nolint (suppress k n w) category l
      ≡ (reaches k n category l || is_error_suppressed_by_nolint w category l)
unfolding is_error_suppressed_by_nolint
suppress_lem w none n category l =
    rw get_set-add_to_set (rw get_set-add_to_set (unfold mem_number in ground arith))
suppress_lem w (some c) n category l =
    rw get_set-add_to_set (rw get_set-add_to_set (unfold mem_number in ground arith))

-- What the category group of a NOLINT comment asks to suppress: everything, one known category, or
-- nothing.
abbrev pub requested_key : Option Text → Option Key
requested_key none = some none
requested_key (some t) =
    if t =t= codes "(*)"
    then some none
    else if starts_with t (codes "(")
        && ends_with t (codes ")")
        && mem_text (inner t) error_categories
    then some (some (inner t))
    else none

-- The comment on line `n`, if there is one, reaches this category and line.
abbrev pub nolint_reaches : Option At → ℕ → Text → ℕ → Bool
nolint_reaches none n category l = false
nolint_reaches (some m) n category l = elim (requested_key (group_of m 2)) [
  | none ↦ false
  | some k ↦ reaches k (suppressed_line_of n m) category l
]

-- A handler that leaves the tables of suppressions alone.
abbrev pub KeepsSuppressions : Handler → Type 0
KeepsSuppressions error =
    (r : Report) (w w' : World)
    → error r w ≡ some w'
    → (category : Text) (l : ℕ)
    → is_error_suppressed_by_nolint w' category l ≡ is_error_suppressed_by_nolint w category l

module _ (error : Handler) (keeps : KeepsSuppressions error) where
  suppress_group_lem :
      (filename : Text) (n line : ℕ) (g : Option Text) (w w' : World) (category : Text) (l : ℕ)
      → suppress_group error filename n line g w ≡ some w'
      → is_error_suppressed_by_nolint w' category l ≡ (
          (elim (requested_key g) [ none ↦ false | some k ↦ reaches k line category l ])
          || is_error_suppressed_by_nolint w category l)
  unfolding suppress_group suppress_category
  suppress_group_lem filename n line none w w' category l h =
      rw (sym (some_eq h)) (suppress_lem w none line category l)
  suppress_group_lem filename n line (some t) w w' category l h = ground (
    arith,
    suppress_lem w none line category l,
    suppress_lem w (some (inner t)) line category l,
    λ (e : error (nolint_report filename n (inner t)) w ≡ some w').
        keeps (nolint_report filename n (inner t)) w w' e category l,
  )

  -- After a line with a NOLINT comment is read, exactly the lines and categories that the comment
  -- reaches are suppressed besides those that were, for every handler that leaves the tables alone.
  pub parse_nolint_suppressions_lem :
      (filename raw_line : Text) (n : ℕ) (w w' : World) (category : Text) (l : ℕ)
      → parse_nolint_suppressions error filename raw_line n w ≡ some w'
      → is_error_suppressed_by_nolint w' category l ≡ (
          nolint_reaches (Regex.search nolint_pattern raw_line) n category l
          || is_error_suppressed_by_nolint w category l)
  unfolding parse_nolint_suppressions
  parse_nolint_suppressions_lem filename raw_line n w w' category l h =
      elim (Option-cases (Regex.search nolint_pattern raw_line)) [
        | inl e ↦ rw e (ground arith)
        | inr (m, e) ↦ rw e (
            suppress_group_lem filename n (suppressed_line_of n m) (group_of m 2) w w' category l
              (rw (e, parse_nolint_suppressions) at h))
      ]

-- A handler that returns in this state.
abbrev pub Returns : Handler → World → Type 0
Returns error w = (r : Report) → (w' : World) × (error r w ≡ some w')

module _ (error : Handler) (w : World) (returns : Returns error w) where
  suppress_group_total :
      (filename : Text) (n line : ℕ) (g : Option Text)
      → (w' : World) × (suppress_group error filename n line g w ≡ some w')
  unfolding suppress_group suppress_category
  suppress_group_total filename n line none = (suppress none line w, refl)
  suppress_group_total filename n line (some t) =
      let P : Option World → Type 0 = λ o. (w' : World) × (o ≡ some w') in
      let (w', e) = returns (nolint_report filename n (inner t)) in
      let in_category =
        if_rule P (mem_text (inner t) error_categories) _ _
          (λ _. (suppress (some (inner t)) line w, refl))
          λ _.
            if_rule P (mem_text (inner t) legacy_error_categories) (some w)
              (error (nolint_report filename n (inner t)) w) (λ _. (w, refl)) λ _. (w', e) in
      if_rule P (t =t= codes "(*)") _ _ (λ _. (suppress none line w, refl))
        λ _.
          if_rule P (starts_with t (codes "(") && ends_with t (codes ")")) _ _ (λ _. in_category)
            λ _. (w, refl)

  -- Where the handler returns, a line is parsed.
  pub parse_nolint_suppressions_total :
      (filename raw_line : Text) (n : ℕ)
      → (w' : World) × (parse_nolint_suppressions error filename raw_line n w ≡ some w')
  unfolding parse_nolint_suppressions
  parse_nolint_suppressions_total filename raw_line n =
      elim (Option-cases (Regex.search nolint_pattern raw_line)) [
        | inl e ↦ (w, rw (e, parse_nolint_suppressions) refl)
        | inr (m, e) ↦
            let (w', done) =
              suppress_group_total filename n (suppressed_line_of n m) (group_of m 2) in
            (w', rw (e, parse_nolint_suppressions) done)
      ]
