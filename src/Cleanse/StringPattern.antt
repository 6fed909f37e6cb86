-- ===== src/Cleanse/StringPattern.antt =====
-- What the patterns of `_CollapseStrings` read.
use lamp.Prelude.{
  ◌+◌, ◌≤◌, true, false, not, Option, some, [], ◌∷◌, ◌≡◌, ◌==◌, refl, ap, ◌∙◌, arith, is_some,
  length,
}
use lamp.Text.{Text, is_word}
use lamp.Regex
use lamp.Regex.{Re, chr, seq, star, group, eol, At, close_group, group_of}
use lamp.Regex.Classes.{lit, among, except, opt, dot}
use lamp.Regex.Skip.{has_other, star_all, star_none, closed_text-has_other}
use lamp.Regex.Reads.{match-Reads}
use lamp.Regex.Length.{Reads-Advances, Reads-groups, closed_text, length-closed_text}
use lamp.Cleanse.Raw.{group_text}
use lamp.Cleanse.Lines.{quote_pattern, number_pattern, literal_pattern}

-- The quote takes a character of its own.
pub quote_pattern-groups :
    (line : Text) (m : At)
    → Regex.match quote_pattern line ≡ some m
    → (length (group_text m 1) + length (group_text m 3) + 1 ≤ length line)
      × (has_other (λ c. not (c == b'\n')) (group_text m 3) ≡ false)
unfolding group_of
quote_pattern-groups line m h =
    let (s1, b, (s2, (m1, r1, e2), (s3, (m2, r2, e3), (s4, (m3, r3, e4), e)))) =
      match-Reads quote_pattern line m h in
    let a = closed_text s1 m1 in
    let q = closed_text s2 m2 in
    let z = closed_text s3 m3 in
    let groups : m.groups ≡ (3, z) ∷ (2, q) ∷ (1, a) ∷ m1.groups =
      ap (λ (x : At). x.groups) (e ∙ e4)
      ∙ ap (◌∷◌ (3, z)) (Reads-groups (star dot) s3 m3 refl r3 ∙ ap (λ (x : At). x.groups) e3)
      ∙ ap (λ gs. (3, z) ∷ (2, q) ∷ gs)
          (Reads-groups (among "'\"") s2 m2 refl r2 ∙ ap (λ (x : At). x.groups) e2) in
    let rest1 = ap (λ (x : At). length x.rest) b in
    let rest2 = ap (λ (x : At). length x.rest) e2 in
    let rest3 = ap (λ (x : At). length x.rest) e3 in
    rw groups (
      omega (
        arith,
        rest1,
        rest2,
        rest3,
        length-closed_text (star (except "'\"")) s1 m1 r1,
        length-closed_text (star dot) s3 m3 r3,
        (Reads-Advances (among "'\"") s2 m2 r2).1,
      ),
      closed_text-has_other (λ c. not (c == b'\n')) s3 m3 r3,
    )

pub literal_pattern-length :
    (line : Text) (m : At)
    → Regex.match literal_pattern line ≡ some m
    → length (group_text m 2) ≤ length line
unfolding group_of
literal_pattern-length line m h =
    let (s1, b, (s2, (m1, r1, e2), (s3, (m2, r2, e3), e))) = match-Reads literal_pattern line m h in
    let z = closed_text s2 m2 in
    let groups : m.groups ≡ (2, z) ∷ m2.groups = ap (λ (x : At). x.groups) (e ∙ e3) in
    let rest1 = ap (λ (x : At). length x.rest) b in
    let rest2 = ap (λ (x : At). length x.rest) e2 in
    rw groups (
      omega (
        arith,
        rest1,
        rest2,
        (Reads-Advances (star (seq (opt (lit "'")) (chr is_word))) s1 m1 r1).1,
        length-closed_text (star dot) s2 m2 r2,
      ))

-- A number is not found in an empty text.
pub number_pattern-nil : is_some (Regex.search number_pattern []) ≡ false
unfolding Regex.search
number_pattern-nil = refl

pub literal_pattern-is_some :
    (tail : Text)
    → has_other (λ c. not (c == b'\n')) tail ≡ false
    → is_some (Regex.match literal_pattern (b'\'' ∷ tail)) ≡ true
unfolding Regex.match Regex.matches
literal_pattern-is_some tail h =
    let begin : At = record { before = []; rest = b'\'' ∷ tail; groups = [] } in
    let s = close_group 1 begin begin in
    let word : At → Option At =
      λ m. Regex.matches (seq (group 2 (star dot)) eol) (close_group 1 begin m) some in
    let all : At → Option At = λ m. Regex.matches eol (close_group 2 s m) some in
    star_none (seq (opt (lit "'")) (chr is_word)) begin word
      (star_all (λ c. not (c == b'\n')) [] (b'\'' ∷ tail) s.groups all h (λ b. refl))
