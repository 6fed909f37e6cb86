-- ===== src/ErrorLog/Nolint.antt =====
-- What a line with a NOLINT comment suppresses.
use lamp.Prelude.{
  ℕ, ◌+◌, ◌-◌, Bool, true, false, ◌&&◌, ◌||◌, Option, none, some, [], ◌∷◌, ◌++◌, ◌≡◌, ◌≢◌, refl, ap,
  ◌∙◌, arith, ◌==◌, if◌then◌else◌, length, take, drop, All, length-append, take-length-append,
  drop-length-append, leb,
}
use lamp.Text.{Text, codes, ◌=t=◌, mem_text, starts_with, ends_with}
use lamp.State.{World}
use lamp.Categories.{error_categories}
use lamp.LintState.Filters.{AllSigned}
use lamp.Regex.{At}
use lamp.Suppress.{
  inner, suppressed_line_of, parse_nolint_suppressions, is_error_suppressed_by_nolint,
}
use lamp.Suppress.Comment.{nolint, IsFollowed, Found, search-nolint}
use lamp.Suppress.Laws.{
  requested_key, reaches, nolint_reaches, parse_nolint_suppressions_lem,
  parse_nolint_suppressions_total, Returns,
}
use lamp.ErrorLog.{error}
use lamp.ErrorLog.Verdict.{error_lem, error-KeepsSuppressions}

-- The categories that a comment with these parentheses covers: all, or the one known category that
-- stands in them.
abbrev pub covers : Option Text → Text → Bool
covers none category = true
covers (some c) category = c =t= codes "*" || (mem_text c error_categories && c =t= category)

star_parentheses : (c : Text) → (codes "(" ++ c ++ codes ")" =t= codes "(*)") ≡ (c =t= codes "*")
unfolding ◌=t=◌
star_parentheses [] = refl
star_parentheses (d ∷ []) = ground arith
star_parentheses (d ∷ e ∷ []) = ground arith
star_parentheses (d ∷ e ∷ f ∷ c) = ground arith

ends_with-parentheses : (c : Text) → ends_with (codes "(" ++ c ++ codes ")") (codes ")") ≡ true
unfolding ends_with ◌=t=◌
ends_with-parentheses c =
    let t : Text = codes "(" ++ c in
    let n : length (t ++ codes ")") - 1 ≡ length t = omega (arith, length-append t (codes ")")) in
    let d : drop (length (t ++ codes ")") - 1) (t ++ codes ")") ≡ codes ")" =
      ap (λ k. drop k (t ++ codes ")")) n ∙ drop-length-append t (codes ")") in
    let l : leb 1 (length (t ++ codes ")")) ≡ true = ground (arith, length-append t (codes ")")) in
    rw (l, ends_with) (rw (d, ends_with) refl)

inner-parentheses : (c : Text) → inner (codes "(" ++ c ++ codes ")") ≡ c
inner-parentheses c =
    ap (λ k. take k (c ++ codes ")")) (omega (arith, length-append c (codes ")")))
    ∙ take-length-append c (codes ")")

requested_key-parentheses :
    (c : Text)
    → requested_key (some (codes "(" ++ c ++ codes ")")) ≡ (
        if c =t= codes "*"
        then some none
        else if mem_text c error_categories
        then some (some c)
        else none)
unfolding starts_with
requested_key-parentheses c =
    rw (star_parentheses c, requested_key)
      (rw (ends_with-parentheses c, requested_key) (rw (inner-parentheses c, requested_key) refl))

reaches-covers :
    (c : Text) (line : ℕ) (category : Text) (l : ℕ)
    → elim (if c =t= codes "*"
        then some none
        else if mem_text c error_categories
        then some (some c)
        else none) [ none ↦ false | some k ↦ reaches k line category l ]
      ≡ (covers (some c) category && l == line)
reaches-covers c line category l = ground arith

-- the comment in terms of the groups that its pattern closes
nolint_reaches-Found :
    (m : At) (next : Bool) (inside : Option Text) (n : ℕ) (category : Text) (l : ℕ)
    → Found next inside m
    → nolint_reaches (some m) n category l
      ≡ (covers inside category && l == (if next then n + 1 else n))
nolint_reaches-Found m next none n category l (g1, g2) =
    rw (g2, nolint_reaches) (rw (g1, nolint_reaches) refl)
nolint_reaches-Found m next (some c) n category l (g1, g2) =
    rw (g2, nolint_reaches)
      (rw (requested_key-parentheses c, nolint_reaches)
        (reaches-covers c (suppressed_line_of n m) category l
          ∙ ap (λ b. covers (some c) category && l == (if b then n + 1 else n)) g1))

-- A line holds a NOLINT comment behind `// `, with no N in front of it: `NOLINT`, or `NOLINTNEXTLINE`,
-- and then parentheses around a text that is not empty and closes none, or no parentheses, and behind
-- it neither a word character nor an opening parenthesis. With signed filters and `Error` for a
-- handler the line is parsed, and besides what was suppressed exactly this is: on the line, or for
-- `NOLINTNEXTLINE` on the next one, all categories where there are no parentheses or a star in them,
-- and the category in them where it is a known one.
pub parse_nolint_suppressions-nolint :
    (filename before after : Text) (next : Bool) (inside : Option Text) (n : ℕ) (w : World)
    (category : Text) (l : ℕ)
    → All (λ c. c ≢ b'N') before
    → IsFollowed inside after
    → AllSigned w.lint.filters
    → (w' : World) × (parse_nolint_suppressions error filename
          (before ++ codes "// " ++ nolint next inside ++ after)
          n
          w
        ≡ some w')
      × (is_error_suppressed_by_nolint w' category l ≡ (
          (covers inside category && l == (if next then n + 1 else n))
          || is_error_suppressed_by_nolint w category l))
parse_nolint_suppressions-nolint filename before after next inside n w category l no_n follows
      signed =
    let line = before ++ codes "// " ++ nolint next inside ++ after in
    let (m, at, found) = search-nolint before after next inside no_n follows in
    let returns : Returns error w =
      λ r. let (w', e, _, _, _, _, _) = error_lem r w signed in (w', e) in
    let (w', done) = parse_nolint_suppressions_total error w returns filename line n in
    let reached =
      parse_nolint_suppressions_lem error error-KeepsSuppressions filename line n w w' category l
        done in
    let here =
      ap (λ o. nolint_reaches o n category l || is_error_suppressed_by_nolint w category l) at in
    let read =
      ap (λ b. b || is_error_suppressed_by_nolint w category l)
        (nolint_reaches-Found m next inside n category l found) in
    (w', done, reached ∙ here ∙ read)
