-- ===== src/Nesting/Bodies/Braces.antt =====
-- The loop over the braces of a line follows their depth.
use lamp.Prelude.{
  ℕ, zero, suc, Bool, true, false, not, ◌||◌, ◌==◌, Option, none, some, [], ◌∷◌, ◌++◌, ◌≡◌, inl,
  inr, refl, sym, ap, ◌∙◌, arith, get_or, Bool-cases, Option-cases, ==_iff, is_some, if◌then◌else◌,
  map,
}
use mathlib.Core.Path.{subst}
use mathlib.Core.List.{reverse, append-nil}
use lamp.Text.{Text, codes}
use lamp.Logged.{Logged}
use lamp.Regex
use lamp.Regex.{At, seq, star, group, eol, group_of, close_group}
use lamp.Regex.Classes.{one_of, among, dot}
use lamp.Regex.Reads.{match-Reads}
use lamp.Regex.Skip.{has_other, star_max, IsStop, Rounds-rest, read_text}
use lamp.Cleanse.Raw.{group_text}
use lamp.Cleanse.Lines.{CleansedLines}
use lamp.Nesting.{
  Block, block, extern_c, block_asm, block_info, push, pop, NestingState, Stack, seen_open_brace,
}
use lamp.Nesting.Blocks.{check_end}
use lamp.Nesting.Heads.{asm_pattern}
use lamp.Nesting.Update.{brace_pattern, extern_pattern, consume_token, open_brace}
use lamp.Nesting.Bodies.{depth, bare, Deeper, IsOneLine}

abbrev pub not_brace : ℕ → Bool
not_brace c = not (one_of (codes "{;)}") c)

-- A line up to its first brace, semicolon or closing parenthesis.
pub cut :
    (line : Text)
    → (pre : Text) × (rest : Text) × (line ≡ pre ++ rest)
      × (has_other not_brace pre ≡ false)
      × IsStop not_brace rest
cut [] = ([], [], refl, refl, tt)
cut (c ∷ line) = elim (Bool-cases (not_brace c)) [
  | inl e ↦
      let (pre, rest, h, free, stop) = cut line in
      (c ∷ pre, rest, ap (◌∷◌ c) h, rw (e, has_other) free, stop)
  | inr e ↦ ([], c ∷ line, refl, refl, e)
]

has_other_in :
    (p : ℕ → Bool) (t : Text) (c : ℕ) (r : Text) → p c ≡ false → has_other p (t ++ c ∷ r) ≡ true
has_other_in p [] c r h = rw (h, has_other) refl
has_other_in p (d ∷ t) c r h = ground (arith, has_other_in p t c r h)

pub brace_pattern-none :
    (line : Text) → has_other not_brace line ≡ false → Regex.match brace_pattern line ≡ none
brace_pattern-none line h = elim (Option-cases (Regex.match brace_pattern line)) [
  | inl e ↦ e
  | inr (m, e) ↦
      let (s1, b, (s2, r2, (s3, (m3, (c, r, h3, e3, e4), _), _))) =
        match-Reads brace_pattern line m e in
      let (t, e2) = Rounds-rest not_brace r2 in
      let e1 = ap (λ (x : At). x.rest) b in
      let found = has_other_in not_brace t c r (rw h3 refl) in
      let at : line ≡ t ++ c ∷ r = sym e1 ∙ e2 ∙ ap (λ x. t ++ x) e3 in
      let free = subst (λ x. has_other not_brace x ≡ false) at h in cc
]

not-false : (b : Bool) → not b ≡ false → b ≡ true
not-false true h = refl
not-false false h = cc

taken :
    (b : Bool) (o : Option At) {v : At}
    → b ≡ true
    → o ≡ some v
    → elim b [ true ↦ o | false ↦ none ] ≡ some v
taken true o e h = h
taken false o e h = cc

abbrev pub Found : Text → ℕ → Text → Type 0
Found line c r =
    (m : At) × (Regex.match brace_pattern line ≡ some m)
    × (group_text m 2 ≡ r)
    × (get_or (group_text m 1) 0 0 ≡ c)

pub brace_pattern-some :
    (pre : Text) (c : ℕ) (r : Text)
    → has_other not_brace pre ≡ false
    → not_brace c ≡ false
    → IsOneLine r
    → Found (pre ++ c ∷ r) c r
unfolding Regex.match Regex.matches group_of
brace_pattern-some pre c r h stop l =
    let b = reverse pre ++ [] in
    let here : At = record { before = b; rest = c ∷ r; groups = [] } in
    let past : At = record { before = c ∷ b; rest = r; groups = [] } in
    let inside = close_group 1 here past in
    let v : At =
      close_group 2 inside
        (record { before = reverse r ++ c ∷ b; rest = []; groups = inside.groups }) in
    let tail : At → Option At = λ m. Regex.matches eol (close_group 2 inside m) some in
    let head : At → Option At =
      λ m. Regex.matches (seq (group 1 (among "{;)}")) (seq (group 2 (star dot)) eol)) m some in
    let is_brace : one_of (codes "{;)}") c ≡ true = not-false (one_of (codes "{;)}") c) stop in
    let after : Regex.matches (star dot)
          (record { before = c ∷ b; rest = r; groups = inside.groups }) tail
        ≡ some v =
      subst
        (λ x.
          Regex.matches (star dot) (record { before = c ∷ b; rest = x; groups = inside.groups })
            tail
          ≡ some v)
        (append-nil r)
        (star_max (λ x. not (x == b'\n')) (c ∷ b) r [] inside.groups tail v l tt refl) in
    (
      v,
      star_max not_brace [] pre (c ∷ r) [] head v h stop
          (taken (one_of (codes "{;)}") c) (Regex.matches (star dot) inside tail) is_brace after),
      read_text r (c ∷ b),
      ap (λ x. get_or x 0 0) (read_text (c ∷ []) b),
    )

pub depth-append :
    (n : ℕ) (pre r : Text) → has_other not_brace pre ≡ false → depth n (pre ++ r) ≡ depth n r
unfolding depth
depth-append n [] r h = refl
depth-append n (c ∷ pre) r h = ground (arith, depth-append n pre r)

pub IsOneLine-append : (pre r : Text) → IsOneLine (pre ++ r) → IsOneLine r
IsOneLine-append [] r h = h
IsOneLine-append (c ∷ pre) r h = IsOneLine-append pre r (ground arith)

seen-bare : (st : Stack) → seen_open_brace (map bare st) ≡ seen_open_brace st
seen-bare [] = refl
seen-bare (b ∷ st) = refl

one_of_three :
    (P : NestingState → Type 0) (x y : Bool) (s t u : NestingState)
    → P s
    → P t
    → P u
    → P (if x then s else if y then t else u)
one_of_three P true y s t u p q r = p
one_of_three P false true s t u p q r = q
one_of_three P false false s t u p q r = r

-- The loop makes no report and leaves the stack so much deeper.
abbrev pub Leads : Stack → ℕ → Logged NestingState → Type 0
Leads base d o = (s' : NestingState) × (o ≡ some (s', [])) × Deeper d base s'.stack

module _ (base : Stack) (seen : seen_open_brace base ≡ true) where
  pub Deeper-seen : (n : ℕ) (st : Stack) → Deeper n base st → seen_open_brace st ≡ true
  Deeper-seen zero st h = sym (seen-bare st) ∙ ap seen_open_brace h ∙ seen-bare base ∙ seen
  Deeper-seen (suc n) [] h = absurd h
  Deeper-seen (suc n) (b ∷ st) ((s, k), h) = rw s refl

  module _ (filename : Text) (clean_lines : CleansedLines) (linenum : ℕ) where
    opened :
        (n : ℕ) (line : Text) (st : Stack) (s : NestingState)
        → Deeper n base st
        → Deeper (suc n) base (open_brace linenum line (record s { stack = st })).stack
    unfolding open_brace
    opened n line st s h =
        let e = Deeper-seen n st h in
        let t : NestingState = record s { stack = st } in
        let code = block_info linenum true block false in
        let asm : Block = record code { inline_asm = block_asm } in
        rw (e, open_brace)
          (one_of_three (λ (u : NestingState). Deeper (suc n) base u.stack)
            (is_some (Regex.match extern_pattern line)) (is_some (Regex.match asm_pattern line))
            (push (block_info linenum true extern_c false) t) (push asm t) (push code t)
            ((refl, inr refl), h) ((refl, inl refl), h) ((refl, inl refl), h))

    abbrev pub Token : ℕ → Text → ℕ → Text → NestingState → Type 0
    Token d line c r s =
        (m : ℕ) × (s' : NestingState) × (consume_token filename clean_lines linenum line c s
          ≡ (s', []))
        × (depth m r ≡ some d)
        × Deeper m base s'.stack

    closing :
        (n d : ℕ) (line r : Text) (st : Stack) (s : NestingState)
        → depth n (b'}' ∷ r) ≡ some d
        → Deeper n base st
        → Token d line b'}' r (record s { stack = st })
    unfolding consume_token depth check_end
    closing zero d line r st s h k = cc
    closing (suc n) d line r [] s h k = absurd k
    closing (suc n) d line r (b ∷ st) s h ((_, inl e), k) =
        (n, pop (record s { stack = b ∷ st }), rw (e, check_end) refl, h, k)
    closing (suc n) d line r (b ∷ st) s h ((_, inr e), k) =
        (n, pop (record s { stack = b ∷ st }), rw (e, check_end) refl, h, k)

    pub token :
        (n d : ℕ) (line : Text) (c : ℕ) (r : Text) (st : Stack) (s : NestingState)
        → not_brace c ≡ false
        → depth n (c ∷ r) ≡ some d
        → Deeper n base st
        → Token d line c r (record s { stack = st })
    unfolding consume_token depth
    token n d line c r st s stop h k = elim (Bool-cases (c == b'{')) [
      | inl e ↦ (
        suc n,
        open_brace linenum line (record s { stack = st }),
        rw (e, consume_token) refl,
        rw (e, depth) at h,
        opened n line st s k,
      )
      | inr e ↦ elim (Bool-cases (c == b'}')) [
        | inl e' ↦
            let i = (==_iff c b'}').0 e' in
            subst (λ x. Token d line x r (record s { stack = st })) (sym i)
              (closing n d line r st s (subst (λ x. depth n (x ∷ r) ≡ some d) i h) k)
        | inr e' ↦
            let h1 = rw (e, depth) at h in
            let h2 = rw (e', depth) at h1 in
            let other : (c == b';' || c == b')') ≡ true = ground arith in
            (
              n,
              record s { stack = st },
              rw (e, consume_token)
                  (rw (other, consume_token) (rw (Deeper-seen n st k, consume_token) refl)),
              h2,
              k,
            )
      ]
    ]
