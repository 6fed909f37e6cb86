-- ===== src/Nesting/Update/Lengths.antt =====
-- What the patterns of `NestingState.Update` leave of a line is shorter than the line.
use lamp.Prelude.{
  ℕ, ◌+◌, ◌≤◌, ◌<◌, true, ◌||◌, ◌==◌, Option, none, some, ◌∷◌, ◌≡◌, refl, ap, ◌∙◌, arith, length,
  drop, length-drop, some_eq,
}
use lamp.Text.{Text, codes, find, is_word}
use lamp.Regex
use lamp.Regex.{At, chr, seq, alt, star, group, group_of}
use lamp.Regex.Classes.{lit, among, except, space, dot, opt, plus}
use lamp.Regex.Reads.{match-Reads}
use lamp.Regex.Length.{Reads-Advances, Reads-groups, closed_text, length-closed_text}
use lamp.Cleanse.Raw.{group_text}
use lamp.Nesting.{Block}
use lamp.Nesting.Blocks.{namespace_block}
use lamp.Nesting.Heads.{namespace_pattern, read_namespace, class_pattern, class_head}
use lamp.Nesting.Update.{brace_pattern}

pub namespace_pattern-length :
    (line : Text) (m : At)
    → Regex.match namespace_pattern line ≡ some m
    → length (group_text m 2) < length line
unfolding group_of
namespace_pattern-length line m h =
    let (s1, b, (s2, r2, (s3, r3, (s4, r4, (s5, r5, (s6, r6, (s7, (m7, r7, e7), e))))))) =
      match-Reads namespace_pattern line m h in
    let groups : m.groups ≡ (2, closed_text s6 m7) ∷ m7.groups =
      ap (λ (x : At). x.groups) (e ∙ e7) in
    let rest1 = ap (λ (x : At). length x.rest) b in
    let rest4 = ap (λ (x : At). length x.rest) r4 in
    rw groups (
      omega (
        arith,
        rest1,
        rest4,
        (Reads-Advances (star space) s1 s2 r2).1,
        (Reads-Advances (lit "namespace") s2 s3 r3).1,
        (Reads-Advances (star space) s4 s5 r5).1,
        (Reads-Advances (opt (group 1 (plus (chr (λ c. c == b':' || is_word c))))) s5 s6 r6).1,
        length-closed_text (star dot) s6 m7 r7,
      ))

pub brace_pattern-length :
    (line : Text) (m : At)
    → Regex.match brace_pattern line ≡ some m
    → length (group_text m 2) < length line
unfolding group_of
brace_pattern-length line m h =
    let (s1, b, (s2, r2, (s3, (m3, r3, e3), (s4, (m4, r4, e4), e)))) =
      match-Reads brace_pattern line m h in
    let groups : m.groups ≡ (2, closed_text s3 m4) ∷ m4.groups =
      ap (λ (x : At). x.groups) (e ∙ e4) in
    let rest1 = ap (λ (x : At). length x.rest) b in
    let rest3 = ap (λ (x : At). length x.rest) e3 in
    rw groups (
      omega (
        arith,
        rest1,
        rest3,
        (Reads-Advances (star (except "{;)}")) s1 s2 r2).1,
        (Reads-Advances (among "{;)}") s2 m3 r3).1,
        length-closed_text (star dot) s3 m4 r4,
      ))

pub read_namespace-length :
    (linenum : ℕ) (line : Text) (rest : Text) (b : Block)
    → read_namespace linenum line ≡ some (rest, b)
    → length rest < length line
unfolding read_namespace
read_namespace-length linenum line rest b h =
    after (Regex.match namespace_pattern line) (namespace_pattern-length line) h
  where
    cut :
        (t name : Text) (o : Option ℕ)
        → length t < length line
        → ◌≡◌ {A = Option (Text × Block)}
            (elim o [
              | none ↦ some (t, namespace_block name linenum)
              | some i ↦
                  some (
                    drop (i + 1) t,
                    record (namespace_block name linenum) { seen_open_brace = true },
                  )
            ])
            (some (rest, b))
        → length rest < length line
    cut t name none l e = let e' = ap (λ (x : Text × Block). length x.0) (some_eq e) in omega arith
    cut t name (some i) l e =
        let e' = ap (λ (x : Text × Block). length x.0) (some_eq e) in
        omega (arith, length-drop (i + 1) t)

    after :
        (o : Option At)
        → ((m : At) → o ≡ some m → length (group_text m 2) < length line)
        → ◌≡◌ {A = Option (Text × Block)}
            (elim o [
              | none ↦ none
              | some m ↦ elim (find (group_text m 2) (codes "{")) [
                | none ↦ some (group_text m 2, namespace_block (group_text m 1) linenum)
                | some i ↦ some (
                  drop (i + 1) (group_text m 2),
                  record (namespace_block (group_text m 1) linenum) { seen_open_brace = true },
                )
              ]
            ])
            (some (rest, b))
        → length rest < length line
    after none l e = cc
    after (some m) l e =
        cut (group_text m 2) (group_text m 1) (find (group_text m 2) (codes "{")) (l m refl) e

pub class_pattern-length :
    (line : Text) (m : At)
    → Regex.match class_pattern line ≡ some m
    → length (group_text m 1) ≤ length line
unfolding group_of
class_pattern-length line m h =
    let (s1, b, (s2, (m2, r2, e2), (s3, (m3, r3, e3), e))) = match-Reads class_pattern line m h in
    let groups : m.groups ≡ (4, closed_text s2 m3) ∷ (1, closed_text s1 m2) ∷ m2.groups =
      ap (λ (x : At). x.groups) (e ∙ e3)
      ∙ ap (◌∷◌ (4, closed_text s2 m3))
          (Reads-groups (star dot) s2 m3 refl r3 ∙ ap (λ (x : At). x.groups) e2) in
    let rest1 = ap (λ (x : At). length x.rest) b in
    rw groups (omega (arith, rest1, length-closed_text class_head s1 m2 r2))
