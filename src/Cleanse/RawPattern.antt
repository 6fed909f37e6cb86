-- ===== src/Cleanse/RawPattern.antt =====
-- What the patterns of `CleanseRawStrings` read.
use lamp.Prelude.{
  suc, ◌+◌, ◌≤◌, true, Option, none, some, [], ◌∷◌, ◌++◌, ◌≡◌, inl, inr, refl, ap, ◌∙◌, arith,
  is_some, is_some-map, if◌then◌else◌, length, length-append, some_eq, Bool-cases, ==_iff, ◌==◌,
}
use mathlib.Core.Path.{subst}
use lamp.Text.{Text, codes, find, starts_with, is_space}
use lamp.Regex.Skip.{has_other, star-is_some}
use lamp.Regex
use lamp.Regex.{Re, star, lazy_star, At, group_of}
use lamp.Regex.Classes.{lit, alts, dot}
use lamp.Regex.Reads.{match-Reads}
use lamp.Regex.Length.{Reads-Advances, Reads-groups, closed_text, length-closed_text}
use lamp.Cleanse.Raw.{
  raw_string_pattern, leading_space_pattern, commented_prefix_pattern, delimiter_char, group_text,
  find_raw_string,
}

abbrev start : Text → At
start line = record { before = []; rest = line; groups = [] }

abbrev quote_prefixes : Re
quote_prefixes = alts (lit "R" ∷ lit "u8R" ∷ lit "uR" ∷ lit "UR" ∷ lit "LR" ∷ [])

-- What stands before a raw string and what stands behind its beginning make the line shorter by a
-- letter, a quote and a parenthesis at least.
raw_string_pattern-length :
    (line : Text) (m : At)
    → Regex.match raw_string_pattern line ≡ some m
    → length (group_text m 1) + length (group_text m 3) + 3 ≤ length line
unfolding group_of
raw_string_pattern-length line m h =
    let (
      s1,
      b,
      (
        s2,
        (m1, r1, e2),
        (s3, e3, (s4, p, (s5, q, (s6, (m2, r2, e6), (s7, o, (s8, (m3, r3, e8), e)))))),
      ),
    ) =
      match-Reads raw_string_pattern line m h in
    let a = closed_text s1 m1 in
    let d = closed_text s5 m2 in
    let z = closed_text s7 m3 in
    let groups : m.groups ≡ (3, z) ∷ (2, d) ∷ (1, a) ∷ m1.groups =
      ap (λ (x : At). x.groups) (e ∙ e8)
      ∙ ap (◌∷◌ (3, z)) (
          Reads-groups (star dot) s7 m3 refl r3
          ∙ Reads-groups (lit "(") s6 s7 refl o
          ∙ ap (λ (x : At). x.groups) e6)
      ∙ ap (λ gs. (3, z) ∷ (2, d) ∷ gs)
          (Reads-groups (star delimiter_char) s5 m2 refl r2
            ∙ Reads-groups (lit "\"") s4 s5 refl q
            ∙ Reads-groups quote_prefixes s3 s4 refl p
            ∙ ap (λ (x : At). x.groups) (e3 ∙ e2)) in
    let rest1 = ap (λ (x : At). length x.rest) b in
    let rest3 = ap (λ (x : At). length x.rest) (e3 ∙ e2) in
    let rest6 = ap (λ (x : At). length x.rest) e6 in
    rw groups (
      omega (
        arith,
        rest1,
        rest3,
        rest6,
        length-closed_text (lazy_star dot) s1 m1 r1,
        length-closed_text (star dot) s7 m3 r3,
        (Reads-Advances quote_prefixes s3 s4 p).1,
        (Reads-Advances (lit "\"") s4 s5 q).1,
        (Reads-Advances (star delimiter_char) s5 m2 r2).1,
        (Reads-Advances (lit "(") s6 s7 o).1,
      ))

-- The delimiter that ends a raw string begins with a parenthesis.
abbrev pub IsDelimiter : Option Text → Type 0
IsDelimiter none = Unit
IsDelimiter (some d) = (t : Text) × (d ≡ b')' ∷ t) × (1 ≤ length t)

pub find_raw_string-length :
    (line before delimiter behind : Text)
    → find_raw_string line ≡ some (before, delimiter, behind)
    → IsDelimiter (some delimiter) × (length before + length behind + 3 ≤ length line)
unfolding find_raw_string
find_raw_string-length line before delimiter behind h =
    after (Regex.match raw_string_pattern line) (raw_string_pattern-length line) h
  where
    after :
        (o : Option At)
        → ((m : At)
            → o ≡ some m
            → length (group_text m 1) + length (group_text m 3) + 3 ≤ length line)
        → ◌≡◌ {A = Option (Text × Text × Text)}
            (elim o [
              | none ↦ none
              | some m ↦
                  if is_some (Regex.match commented_prefix_pattern (group_text m 1))
                  then none
                  else some
                      (group_text m 1, codes ")" ++ group_text m 2 ++ codes "\"", group_text m 3)
            ])
            (some (before, delimiter, behind))
        → IsDelimiter (some delimiter) × (length before + length behind + 3 ≤ length line)
    after none l h' = cc
    after (some m) l h' =
        let commented = is_some (Regex.match commented_prefix_pattern (group_text m 1)) in
        elim (Bool-cases commented) [
          | inl b ↦ let h'' = rw b at h' in cc
          | inr b ↦
              let e = some_eq (rw b at h') in
              subst
                (λ (x : Text × Text × Text).
                  IsDelimiter (some x.1) × (length x.0 + length x.2 + 3 ≤ length line))
                e
                (
                  (
                    group_text m 2 ++ codes "\"",
                    refl,
                    omega (arith, length-append (group_text m 2) (codes "\"")),
                  ),
                  l m refl,
                )
        ]

-- A line that holds a delimiter holds its parenthesis, which is no space.
pub find-has_other :
    (line t : Text) → is_some (find line (b')' ∷ t)) ≡ true → has_other is_space line ≡ true
unfolding find starts_with
find-has_other [] t h = cc
find-has_other (c ∷ line) t h = elim (Bool-cases (c == b')')) [
  | inl e ↦ let i = (==_iff c b')').0 e in rw i refl
  | inr e ↦
      let later = rw (e, is_some-map suc (find line (b')' ∷ t))) at h in
      ground (arith, find-has_other line t later)
]

pub leading_space_pattern-is_some :
    (line : Text)
    → has_other is_space line ≡ true
    → is_some (Regex.match leading_space_pattern line) ≡ true
unfolding Regex.match Regex.matches
leading_space_pattern-is_some line h =
    star-is_some is_space [] line [] _ h λ b c r gs e. rw (e, is_some) refl
