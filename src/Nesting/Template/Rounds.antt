-- ===== src/Nesting/Template/Rounds.antt =====
-- About the rounds of the search for a template argument list.
use lamp.Prelude.{
  ℕ, zero, suc, ◌+◌, ◌-◌, ◌≤◌, ◌<◌, Bool, true, false, Option, none, some, List, [], ◌∷◌, ◌≡◌, inl,
  inr, refl, sym, ap, arith, leb, ◌==◌, if◌then◌else◌, length, get_elem?, get_or, drop, length-drop,
  drop_of_get_elem?, if_rule, some_eq, Option-cases, get_elem?_of_lt,
}
use mathlib.Core.Path.{subst}
use lamp.Text.{Text, codes}
use lamp.Regex
use lamp.Regex.{At}
use lamp.Regex.Classes.{one_of}
use lamp.Regex.Reads.{match-Reads}
use lamp.Regex.Length.{Reads-Advances}
use lamp.Cleanse.Raw.{group_text}
use lamp.Expression.{Place, close_expression}
use lamp.Expression.Advance.{Ahead, close_expression-Ahead}
use lamp.Nesting.Template.{token_pattern, weight, in_template_from, in_template_argument_list}

weight-drop_zero : (lines : List Text) (m : ℕ) → weight (drop m lines) ≤ weight lines
weight-drop_zero lines zero = omega arith
weight-drop_zero [] (suc m) = omega arith
weight-drop_zero (l ∷ ls) (suc m) = omega (arith, weight-drop_zero ls m)

weight-drop : (lines : List Text) (m n : ℕ) → n ≤ m → weight (drop m lines) ≤ weight (drop n lines)
weight-drop lines m zero h = weight-drop_zero lines m
weight-drop lines zero (suc n) h = absurd (omega arith)
weight-drop [] (suc m) (suc n) h = omega arith
weight-drop (l ∷ ls) (suc m) (suc n) h = weight-drop ls m n (omega arith)

-- the token stands within the text
token_pattern-length :
    (t : Text) (m : At)
    → Regex.match token_pattern t ≡ some m
    → (1 ≤ length m.before) × (length m.before ≤ length t)
token_pattern-length t m h =
    let begin : At = record { before = []; rest = t; groups = [] } in
    let (e, l) = Reads-Advances token_pattern begin m (match-Reads token_pattern t m h) in
    (omega arith, omega arith)

abbrev pub room : Option Text → ℕ
room none = 0
room (some l) = length l

-- the position stands in its line
abbrev pub IsWithin : List Text → ℕ → ℕ → Type 0
IsWithin elided linenum position = position ≤ room (get_elem? elided linenum)

abbrev Answers : Option Bool → Type 0
Answers o = (b : Bool) × (o ≡ some b)

-- Every round moves on, so it answers on enough rounds.
in_template_from-Answers :
    (f : ℕ) (elided : List Text) (linenum position : ℕ)
    → IsWithin elided linenum position
    → weight (drop linenum elided) < f + position
    → Answers (in_template_from f elided linenum position)
unfolding in_template_from
in_template_from-Answers zero elided linenum position within h =
    absurd (elim (Option-cases (get_elem? elided linenum)) [
      | inl e ↦ omega (arith, subst (λ o. position ≤ room o) e within)
      | inr (line, at) ↦ omega (
        arith,
        subst (λ o. position ≤ room o) at within,
        ap weight (drop_of_get_elem? linenum elided at),
      )
    ])
in_template_from-Answers (suc f) elided linenum position within h =
    elim (Option-cases (get_elem? elided linenum)) [
      | inl e ↦ rw (e, in_template_from) (false, refl)
      | inr (line, at) ↦
          let here = subst (λ o. position ≤ room o) at within in
          let e = drop_of_get_elem? linenum elided at in
          let below : weight (drop (suc linenum) elided) < f = omega (arith, ap weight e) in
          rw (at, in_template_from)
            (matched line at (Regex.match token_pattern (drop position line))
              (token_pattern-length (drop position line)) here below
              (λ n p w h'. in_template_from-Answers f elided n p w h'))
    ]
  where
    closed :
        (o : Option Place) (p0 : ℕ)
        → (q : Place) × (o ≡ some q) × Ahead elided linenum p0 q
        → position ≤ p0
        → weight (drop (suc linenum) elided) < f
        → ((n p : ℕ)
            → IsWithin elided n p
            → weight (drop n elided) < f + p
            → Answers (in_template_from f elided n p))
        → Answers (elim o [
          | none ↦ none
          | some q ↦ elim q.pos [
            | none ↦ some false
            | some end_pos ↦ in_template_from f elided q.linenum end_pos
          ]
        ])
    closed none p0 (q, e, a) moved below ih = cc
    closed (some q) p0 (q', e, a) moved below ih = elim (Option-cases q.pos) [
      | inl e' ↦ rw e' (false, refl)
      | inr (p, e') ↦
          let (at, bound, further) = subst (Ahead elided linenum p0) (sym (some_eq e)) a p e' in
          rw e' (
            ih q.linenum p (subst (λ o. p ≤ room o) (sym at) bound) (elim further [
              | inl (same, more) ↦ rw same (omega arith)
              | inr later ↦ omega (arith, weight-drop elided q.linenum (suc linenum))
            ]))
    ]

    matched :
        (line : Text)
        → get_elem? elided linenum ≡ some line
        → (o : Option At)
        → ((m : At)
            → o ≡ some m
            → (1 ≤ length m.before) × (length m.before ≤ length (drop position line)))
        → position ≤ length line
        → weight (drop (suc linenum) elided) < f
        → ((n p : ℕ)
            → IsWithin elided n p
            → weight (drop n elided) < f + p
            → Answers (in_template_from f elided n p))
        → Answers (elim o [
          | none ↦ in_template_from f elided (suc linenum) 0
          | some m ↦
              let token = get_or (group_text m 1) 0 0 in
              let position' = position + length m.before in
              let closed : Option Bool = elim (close_expression elided linenum (position' - 1)) [
                | none ↦ none
                | some q ↦ elim q.pos [
                  | none ↦ some false
                  | some end_pos ↦ in_template_from f elided q.linenum end_pos
                ]
              ] in
              if one_of (codes "{};") token
              then some false
              else if one_of (codes ">=[].") token
              then some true
              else if token == b'<'
              then closed
              else if leb (length line) (position' + 1)
              then in_template_from f elided (suc linenum) 0
              else in_template_from f elided linenum (position' + 1)
        ])
    matched line at none l here below ih = ih (suc linenum) 0 (omega arith) (omega arith)
    matched line at (some m) l here below ih =
        let token = get_or (group_text m 1) 0 0 in
        let position' = position + length m.before in
        let (low, high) = l m refl in
        let inside : position' ≤ length line = omega (arith, length-drop position line) in
        let next_line = ih (suc linenum) 0 (omega arith) (omega arith) in
        let here' = ap weight (drop_of_get_elem? linenum elided at) in
        if_rule Answers (one_of (codes "{};") token) _ _ (λ _. (false, refl))
          λ _.
            if_rule Answers (one_of (codes ">=[].") token) _ _ (λ _. (true, refl))
              λ _.
                if_rule Answers (token == b'<') _ _
                  (λ _.
                    let (c, at') = get_elem?_of_lt line (position' - 1) (omega arith) in
                    closed (close_expression elided linenum (position' - 1)) (position' - 1)
                      (close_expression-Ahead elided linenum (position' - 1) c line at at'
                        (omega arith))
                      (omega arith) below ih)
                  λ _.
                    if_rule Answers (leb (length line) (position' + 1)) _ _ (λ _. next_line)
                      λ short.
                        let more : position' + 1 < length line = ground arith in
                        ih linenum (position' + 1)
                          (subst (λ o. position' + 1 ≤ room o) (sym at) (omega arith)) (omega arith)

pub in_template_argument_list-Answers :
    (elided : List Text) (linenum position : ℕ)
    → IsWithin elided linenum position
    → (b : Bool) × (in_template_argument_list elided linenum position ≡ some b)
unfolding in_template_argument_list
in_template_argument_list-Answers elided linenum position within =
    in_template_from-Answers (weight (drop linenum elided) + 1) elided linenum position within
      (omega arith)
