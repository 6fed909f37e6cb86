-- ===== src/Suppress/Comment.antt =====
-- What the pattern of `ParseNolintSuppressions` (build_support/cpplint.py) finds in a line with a
-- NOLINT comment.
use lamp.Prelude.{
  ℕ, ◌-◌, Bool, true, false, not, ◌||◌, Option, none, some, is_some, ◌⊎◌, List, [], ◌∷◌, ◌++◌, ◌≡◌,
  ◌≢◌, refl, ap, ◌∙◌, arith, ◌==◌, if◌then◌else◌, length, take, All, All-append, inl, inr,
  append_assoc,
}
use mathlib.Core.List.{append-nil, reverse, reverse-append, reverse-cons}
use mathlib.Core.Path.{subst}
use lamp.Text.{Text, codes, is_word}
use lamp.Regex
use lamp.Regex.{Re, At, chr, seq, star, close_group, group, word_boundary, matches, group_of}
use lamp.Regex.Classes.{lit, except, plus, opt, seqs, one_of}
use lamp.Regex.Skip.{has_other, star_max, IsStop, read_text}
use lamp.Regex.Search.{BeginsWith, search-skip, opt-some, opt-none, chr-taken, word_boundary-after}
use lamp.Suppress.{nolint_pattern}

-- what stands in the parentheses of a comment, if it has some
abbrev pub in_parentheses : Option Text → Text
in_parentheses none = []
in_parentheses (some c) = codes "(" ++ c ++ codes ")"

-- `NOLINT` or `NOLINTNEXTLINE`, and the parentheses
abbrev pub nolint : Bool → Option Text → Text
nolint next inside =
    codes "NOLINT" ++ (if next then codes "NEXTLINE" else []) ++ in_parentheses inside

-- What the parentheses hold is not empty, and has no closing one; if there are none, neither a
-- word character nor an opening one follows.
abbrev pub IsFollowed : Option Text → Text → Type 0
IsFollowed none after = IsStop (λ c. is_word c || c == b'(') after
IsFollowed (some c) after = (c ≢ []) × All (λ d. d ≢ b')') c

abbrev parentheses_group : Re
parentheses_group = group 2 (seqs (lit "(" ∷ plus (except ")") ∷ lit ")" ∷ []))

abbrev parentheses : Re
parentheses = opt parentheses_group

nolint_pattern-BeginsWith : BeginsWith nolint_pattern (λ c. c == b'N')
unfolding matches
nolint_pattern-BeginsWith b c t h = ground arith

no_n : (t : Text) → All (λ c. c ≢ b'N') t → All (λ c. (c == b'N') ≡ false) t
no_n [] h = tt
no_n (c ∷ t) (h, hs) = (ground arith, no_n t hs)

none_closing :
    (c : Text) → All (λ d. d ≢ b')') c → has_other (λ d. not (one_of (codes ")") d)) c ≡ false
none_closing [] h = refl
none_closing (d ∷ c) (h, hs) = ground (arith, none_closing c hs)

-- the groups that the parentheses close
abbrev with_group : Option Text → List (ℕ × Text) → List (ℕ × Text)
with_group none gs = gs
with_group (some c) gs = (2, codes "(" ++ c ++ codes ")") ∷ gs

group_text :
    (b c : Text) (d : ℕ)
    → reverse (
        take
          (length (b')' ∷ (reverse c ++ d ∷ b'(' ∷ b)) - length b)
          (b')' ∷ (reverse c ++ d ∷ b'(' ∷ b)))
      ≡ b'(' ∷ d ∷ (c ++ b')' ∷ [])
group_text b c d =
    let t = b'(' ∷ d ∷ (c ++ b')' ∷ []) in
    let e : reverse t ++ b ≡ b')' ∷ (reverse c ++ d ∷ b'(' ∷ b) =
      simp (reverse-cons, reverse-append, append_assoc) in
    subst (λ x. reverse (take (length x - length b) x) ≡ t) e (read_text t b)

parentheses_group-matches :
    (b c after : Text) (d : ℕ) (gs : List (ℕ × Text))
    → d ≢ b')'
    → All (λ d. d ≢ b')') c
    → matches parentheses_group
        (record { before = b; rest = b'(' ∷ d ∷ (c ++ b')' ∷ after); groups = gs })
        some
      ≡ some (record {
        before = b')' ∷ (reverse c ++ d ∷ b'(' ∷ b);
        rest = after;
        groups = (2, b'(' ∷ d ∷ (c ++ b')' ∷ [])) ∷ gs;
      })
unfolding matches
parentheses_group-matches b c after d gs h hs =
    let is_other : ℕ → Bool = λ d. not (one_of (codes ")") d) in
    let inner : Re = seqs (star (chr is_other) ∷ lit ")" ∷ []) in
    let opened : Text = b'(' ∷ b in
    let s : At = record { before = b; rest = b'(' ∷ d ∷ (c ++ b')' ∷ after); groups = gs } in
    let close : At → Option At = λ m. some (close_group 2 s m) in
    chr-taken is_other inner opened (c ++ b')' ∷ after) d gs close (ground arith)
    ∙ star_max is_other (d ∷ opened) c (b')' ∷ after) gs _ _ (none_closing c hs) refl (
        ap
          (λ g. some (record {
            before = b')' ∷ (reverse c ++ d ∷ b'(' ∷ b);
            rest = after;
            groups = (2, g) ∷ gs;
          }))
          (group_text b c d))

parentheses-matches :
    (e : ℕ) (b : Text) (gs : List (ℕ × Text)) (inside : Option Text) (after : Text)
    → is_word e ≡ true
    → IsFollowed inside after
    → (m : At) × (matches
          (seq word_boundary parentheses)
          (record { before = e ∷ b; rest = in_parentheses inside ++ after; groups = gs })
          some
        ≡ some m)
      × (m.groups ≡ with_group inside gs)
parentheses-matches e b gs none [] w h =
    let s : At = record { before = e ∷ b; rest = []; groups = gs } in
    (
      s,
      word_boundary-after parentheses e b [] gs some w tt
          ∙ opt-none parentheses_group s some (unfold matches in refl),
      refl,
    )
parentheses-matches e b gs none (a ∷ after) w h =
    let s : At = record { before = e ∷ b; rest = a ∷ after; groups = gs } in
    let no_word : is_word a ≡ false = ground arith in
    (
      s,
      word_boundary-after parentheses e b (a ∷ after) gs some w no_word
          ∙ opt-none parentheses_group s some (unfold matches in ground arith),
      refl,
    )
parentheses-matches e b gs (some []) after w (h, hs) = absurd (h refl)
parentheses-matches e b gs (some (d ∷ c)) after w (_, (h, hs)) =
    let s : At = record { before = e ∷ b; rest = b'(' ∷ d ∷ (c ++ b')' ∷ after); groups = gs } in
    let m : At = record {
      before = b')' ∷ (reverse c ++ d ∷ b'(' ∷ e ∷ b);
      rest = after;
      groups = (2, b'(' ∷ d ∷ (c ++ b')' ∷ [])) ∷ gs;
    } in
    (
      m,
      rw (append_assoc c (b')' ∷ []) after) (
          word_boundary-after parentheses e b (b'(' ∷ d ∷ (c ++ b')' ∷ after)) gs some w refl
          ∙ opt-some parentheses_group s some m
              (parentheses_group-matches (e ∷ b) c after d gs h hs)),
      refl,
    )

-- behind `NOLINT`
abbrev read_nolint : Text → Text
read_nolint b = reverse (codes "NOLINT") ++ b

abbrev next_line : Re
next_line = group 1 (lit "NEXTLINE")

abbrev behind_nolint : Re
behind_nolint = seq (opt next_line) (seq word_boundary parentheses)

next_line-none :
    (b after : Text) (inside : Option Text) (k : At → Option At)
    → IsFollowed inside after
    → matches next_line
        (record { before = b; rest = in_parentheses inside ++ after; groups = [] })
        k
      ≡ none
unfolding matches
next_line-none b [] none k h = refl
next_line-none b (a ∷ after) none k h = ground arith
next_line-none b after (some c) k h = refl

-- what the groups hold that a comment closes
abbrev pub Found : Bool → Option Text → At → Type 0
Found next inside m =
    (is_some (group_of m 1) ≡ next)
    × (group_of m 2 ≡ elim inside [ none ↦ none | some c ↦ some (codes "(" ++ c ++ codes ")") ])

Found-groups :
    (next : Bool) (inside : Option Text) (gs : List (ℕ × Text)) (m : At)
    → m.groups ≡ with_group inside gs
    → ((next ≡ true) × (t : Text) × (gs ≡ (1, t) ∷ [])) ⊎ ((next ≡ false) × (gs ≡ []))
    → Found next inside m
unfolding group_of
Found-groups next none gs m e (inl (n, t, f)) =
    rw (e, group_of) (rw (f, group_of) (rw n (refl, refl)))
Found-groups next none gs m e (inr (n, f)) = rw (e, group_of) (rw (f, group_of) (rw n (refl, refl)))
Found-groups next (some c) gs m e (inl (n, t, f)) =
    rw (e, group_of) (rw (f, group_of) (rw n (refl, refl)))
Found-groups next (some c) gs m e (inr (n, f)) =
    rw (e, group_of) (rw (f, group_of) (rw n (refl, refl)))

behind_nolint-matches :
    (b after : Text) (next : Bool) (inside : Option Text)
    → IsFollowed inside after
    → (m : At) × (matches behind_nolint
          (record {
            before = read_nolint b;
            rest = (if next then codes "NEXTLINE" else []) ++ in_parentheses inside ++ after;
            groups = [];
          })
          some
        ≡ some m)
      × Found next inside m
unfolding matches
behind_nolint-matches b after true inside h =
    let tail : At → Option At = λ s'. matches (seq word_boundary parentheses) s' some in
    let b' : Text = reverse (codes "NEXTLIN") ++ read_nolint b in
    let rest : Text = in_parentheses inside ++ after in
    let s : At = record { before = read_nolint b; rest = codes "NEXTLINE" ++ rest; groups = [] } in
    let s8 : At = record { before = b'E' ∷ b'; rest = rest; groups = [] } in
    let gs = (close_group 1 s s8).groups in
    let (m, e, g) = parentheses-matches b'E' b' gs inside after refl h in
    (m, opt-some next_line s tail m e, Found-groups true inside gs m g (inl (refl, _, refl)))
behind_nolint-matches b after false inside h =
    let tail : At → Option At = λ s'. matches (seq word_boundary parentheses) s' some in
    let s : At = record {
      before = read_nolint b;
      rest = in_parentheses inside ++ after;
      groups = [];
    } in
    let (m, e, g) =
      parentheses-matches b'T' (reverse (codes "NOLIN") ++ b) [] inside after refl h in
    (
      m,
      opt-none next_line s tail (next_line-none (read_nolint b) after inside tail h) ∙ e,
      Found-groups false inside [] m g (inr (refl, refl)),
    )

-- In a line with a NOLINT comment behind `// `, in front of which there is no N, the search finds the
-- comment: the first group says whether it is for the next line, the second is what stands in its
-- parentheses.
pub search-nolint :
    (before after : Text) (next : Bool) (inside : Option Text)
    → All (λ c. c ≢ b'N') before
    → IsFollowed inside after
    → (m : At) × (Regex.search nolint_pattern (before ++ codes "// " ++ nolint next inside ++ after)
        ≡ some m)
      × Found next inside m
unfolding matches
search-nolint before after next inside h g =
    let b : Text = codes " //" ++ reverse before in
    let (m, e, found) = behind_nolint-matches b after next inside g in
    let t : Text = before ++ codes "// " in
    let u : Text = nolint next inside ++ after in
    let line : before ++ codes "// " ++ nolint next inside ++ after ≡ t ++ u =
      append_assoc t (nolint next inside) after in
    let behind : reverse t ++ [] ≡ b =
      append-nil (reverse t) ∙ reverse-append before (codes "// ") in
    let other : All (λ c. (c == b'N') ≡ false) t =
      All-append (λ c. (c == b'N') ≡ false) before (codes "// ") (no_n before h)
        (refl, (refl, (refl, tt))) in
    (
      m,
      rw line (
          search-skip nolint_pattern (λ c. c == b'N') t u m nolint_pattern-BeginsWith other
            (rw behind e)),
      found,
    )
