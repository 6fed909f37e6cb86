-- ===== src/Regex/Behind.antt =====
-- The character behind a group.
use lamp.Prelude.{
  ℕ, Bool, some, ◌∷◌, ◌++◌, ◌≡◌, sym, ap, ◌∙◌, arith, length, length-append, get_elem?,
  get_elem?-length-append,
}
use mathlib.Core.Path.{subst}
use lamp.Text.{Text}
use lamp.Regex
use lamp.Regex.{Re, At, chr, seq, group, bol, group_of}
use lamp.Regex.Reads.{match-Reads}
use lamp.Regex.Length.{closed_text, length-closed_text, Reads-IsBefore}
use lamp.Cleanse.Raw.{group_text}

-- `^(r)c` for a class of characters `c`: one of them stands behind the group.
pub behind_group :
    (r : Re) (p : ℕ → Bool) (t : Text) (m : At)
    → Regex.match (seq bol (seq (group 1 r) (chr p))) t ≡ some m
    → (c : ℕ) × (get_elem? t (length (group_text m 1)) ≡ some c)
unfolding group_of
behind_group r p t m h =
    let (s1, b, (s2, (m2, r2, e2), (c, rest, h3, e3, e4))) =
      match-Reads (seq bol (seq (group 1 r) (chr p))) t m h in
    let (t1, e1) = Reads-IsBefore r s1 m2 r2 in
    let groups : m.groups ≡ (1, closed_text s1 m2) ∷ m2.groups =
      ap (λ (x : At). x.groups) e4 ∙ ap (λ (x : At). x.groups) e2 in
    let left : m2.rest ≡ c ∷ rest = sym (ap (λ (x : At). x.rest) e2) ∙ e3 in
    let split : t ≡ t1 ++ c ∷ rest =
      sym (ap (λ (x : At). x.rest) b) ∙ e1 ∙ ap (λ x. t1 ++ x) left in
    let long : length (closed_text s1 m2) ≡ length t1 =
      omega (arith, ap length e1, length-append t1 m2.rest, length-closed_text r s1 m2 r2) in
    (
      c,
      rw groups (
          rw long (
            subst (λ x. get_elem? x (length t1) ≡ some c) (sym split)
              (get_elem?-length-append t1 c rest))),
    )
