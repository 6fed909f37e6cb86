-- ===== src/Cleanse/StringLoop.antt =====
-- About the loop of `_CollapseStrings` and the lengths of the copies of the lines in `CleansedLines`.
use lamp.Prelude.{
  ℕ, zero, suc, ◌+◌, ◌≤◌, ◌<◌, true, false, not, Option, none, some, List, [], ◌∷◌, ◌++◌, ◌≡◌, ◌==◌,
  refl, ap, ◌∙◌, arith, is_some, if◌then◌else◌, length, drop, map, length-drop, length-map, if_rule,
}
use mathlib.Core.Option
use lamp.Text.{Text, codes, ◌=t=◌, find, replace}
use lamp.Regex
use lamp.Regex.{Re, chr, seq, star, group, eol, At, close_group, group_of}
use lamp.Regex.Skip.{has_other}
use lamp.Cleanse.{cleanse_comments}
use lamp.Cleanse.RawLoop.{Returns, cleanse_raw_strings-Returns}
use lamp.Cleanse.Raw.{group_text}
use lamp.Cleanse.StringPattern.{
  quote_pattern-groups, literal_pattern-length, number_pattern-nil, literal_pattern-is_some,
}
use lamp.Cleanse.Lines.{
  quote_pattern, number_pattern, literal_pattern, collapse_string, collapse_char, collapse_round,
  collapse_from, collapse_strings, include_pattern, escapes_pattern, CleansedLines, collapse_lines,
  init_cleansed_lines,
}

-- A round gives a text, and what is left is shorter.
abbrev Shortens : Text → Option Text → Type 0
Shortens elided none = Unit
Shortens elided (some rest) = length rest < length elided

abbrev Collapses : Text → Option (Text × Option Text) → Type 0
Collapses elided o = (r : Text × Option Text) × (o ≡ some r) × Shortens elided r.1

module _ (head tail elided : Text) (long : length head + length tail + 1 ≤ length elided) where
  collapse_string-Collapses : Collapses elided (some (collapse_string head tail elided))
  unfolding collapse_string
  collapse_string-Collapses = after (find tail (codes "\""))
    where
      after :
          (o : Option ℕ)
          → Collapses elided (
              some (elim o [
                | some second_quote ↦ (head ++ codes "\"\"", some (drop (second_quote + 1) tail))
                | none ↦ (elided, none)
              ]))
      after none = (_, refl, tt)
      after (some i) = (_, refl, omega (arith, length-drop (i + 1) tail))

  collapse_char-Collapses :
      has_other (λ c. not (c == b'\n')) tail ≡ false
      → Collapses elided (collapse_char head tail elided)
  unfolding collapse_char
  collapse_char-Collapses same_line =
      if_rule (Collapses elided) (is_some (Regex.search number_pattern head)) _ _
        (λ number.
          literal (Regex.match literal_pattern (b'\'' ∷ tail))
            (literal_pattern-is_some tail same_line) (literal_pattern-length (b'\'' ∷ tail))
            (head_long head number))
        (λ _. quote (find tail (codes "'")))
    where
      head_long : (t : Text) → is_some (Regex.search number_pattern t) ≡ true → 1 ≤ length t
      head_long [] h = let e = number_pattern-nil in cc
      head_long (c ∷ t) h = omega arith

      literal :
          (o : Option At)
          → is_some o ≡ true
          → ((m : At) → o ≡ some m → length (group_text m 2) ≤ length (b'\'' ∷ tail))
          → 1 ≤ length head
          → Collapses elided (elim o [
            | none ↦ none
            | some m ↦ some (head ++ replace (group_text m 1) (codes "'") [], some (group_text m 2))
          ])
      literal none h l n = cc
      literal (some m) h l n = let l' = l m refl in (_, refl, omega arith)

      quote :
          (o : Option ℕ)
          → Collapses elided (elim o [
            | some second_quote ↦ some (head ++ codes "''", some (drop (second_quote + 1) tail))
            | none ↦ some (elided, none)
          ])
      quote none = (_, refl, tt)
      quote (some i) = (_, refl, omega (arith, length-drop (i + 1) tail))

collapse_round-Collapses : (elided : Text) → Collapses elided (collapse_round elided)
unfolding collapse_round
collapse_round-Collapses elided =
    after (Regex.match quote_pattern elided) (quote_pattern-groups elided)
  where
    after :
        (o : Option At)
        → ((m : At)
            → o ≡ some m
            → (length (group_text m 1) + length (group_text m 3) + 1 ≤ length elided)
              × (has_other (λ c. not (c == b'\n')) (group_text m 3) ≡ false))
        → Collapses elided (elim o [
          | none ↦ some (elided, none)
          | some m ↦
              if group_text m 2 =t= codes "\""
              then some (collapse_string (group_text m 1) (group_text m 3) elided)
              else collapse_char (group_text m 1) (group_text m 3) elided
        ])
    after none h = (_, refl, tt)
    after (some m) h =
        let (long, same_line) = h m refl in
        let head = group_text m 1 in
        let tail = group_text m 3 in
        if_rule (Collapses elided) (group_text m 2 =t= codes "\"") _ _
          (λ _. collapse_string-Collapses head tail elided long)
          (λ _. collapse_char-Collapses head tail elided long same_line)

collapse_from-some :
    (f : ℕ) (elided : Text) → length elided < f → (t : Text) × (collapse_from f elided ≡ some t)
unfolding collapse_from
collapse_from-some zero elided h = absurd (omega arith)
collapse_from-some (suc f) elided h =
    let (r, e, shorter) = collapse_round-Collapses elided in
    rw (e, collapse_from) (after r shorter (λ t l. collapse_from-some f t l))
  where
    after :
        (r : Text × Option Text)
        → Shortens elided r.1
        → ((t : Text) → length t < f → (u : Text) × (collapse_from f t ≡ some u))
        → (t : Text) × (elim r.1 [
          | none ↦ some r.0
          | some rest ↦ Option.map (λ t. r.0 ++ t) (collapse_from f rest)
        ]
            ≡ some t)
    after (t, none) shorter ih = (t, refl)
    after (t, some rest) shorter ih = let (u, e) = ih rest (omega arith) in (t ++ u, rw e refl)

collapse_strings-some : (elided : Text) → (t : Text) × (collapse_strings elided ≡ some t)
unfolding collapse_strings
collapse_strings-some elided =
    if_rule (λ o. (t : Text) × (o ≡ some t)) (is_some (Regex.match include_pattern elided)) _ _
      (λ _. (elided, refl))
      (λ _.
        let t = Regex.sub escapes_pattern [] elided in
        collapse_from-some (length t + 1) t (omega arith))

collapse_lines-Returns : (lines : List Text) → Returns lines (collapse_lines lines)
unfolding collapse_lines
collapse_lines-Returns [] = ([], refl, refl)
collapse_lines-Returns (l ∷ ls) =
    let (t, e) = collapse_strings-some l in
    let (rest, e', same) = collapse_lines-Returns ls in
    (cleanse_comments t ∷ rest, rw (e, collapse_lines) (rw (e', collapse_lines) refl), ap suc same)

-- The four copies of the lines are made for every list of lines, and each has the length of the
-- list, which is the number kept.
pub init_cleansed_lines-length :
    (lines : List Text)
    → (c : CleansedLines) × (init_cleansed_lines lines ≡ some c)
      × (c.raw_lines ≡ lines)
      × (c.num_lines ≡ length lines)
      × (length c.elided ≡ length lines)
      × (length c.lines ≡ length lines)
      × (length c.lines_without_raw_strings ≡ length lines)
unfolding init_cleansed_lines
init_cleansed_lines-length lines =
    let (without, e, same) = cleanse_raw_strings-Returns lines in
    let (elided, e', same') = collapse_lines-Returns without in
    (
      record {
        elided = elided;
        lines = map cleanse_comments without;
        raw_lines = lines;
        num_lines = length lines;
        lines_without_raw_strings = without;
      },
      rw (e, init_cleansed_lines) (rw (e', init_cleansed_lines) refl),
      refl,
      refl,
      same' ∙ same,
      length-map cleanse_comments without ∙ same,
      same,
    )
