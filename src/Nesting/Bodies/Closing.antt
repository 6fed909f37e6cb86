-- ===== src/Nesting/Bodies/Closing.antt =====
-- Closing braces empty the stack of `NestingState`.
use lamp.Prelude.{
  ℕ, zero, suc, ◌+◌, ◌≤◌, not, none, some, [], ◌∷◌, ◌≡◌, refl, arith, inl, inr, Option-cases,
  if_rule, length, get_elem?, get_elem?-in,
}
use mathlib.Core.Path.{subst}
use lamp.Text.{Text}
use lamp.Logged.{logged, ◌>>=◌}
use lamp.Regex
use lamp.Cleanse.Lines.{CleansedLines}
use lamp.Nesting.{
  Block, Kind, block, extern_c, class_info, namespace_info, NestingState, Stack, modify_top,
  on_head, seen_open_brace,
}
use lamp.Nesting.Blocks.{check_begin}
use lamp.Nesting.Preprocessor.{is_if, is_else, is_endif}
use lamp.Nesting.Heads.{
  namespace_pattern, class_pattern, access_pattern, update_access, count_parentheses,
}
use lamp.Nesting.Update.{
  remember_top, consume_token, consume_braces, begin_block, finish_update, update_blocks, update,
}
use lamp.Nesting.Update.Total.{update_total}
use lamp.Nesting.Update.Blocks.{Keeps, Keeps-logged, Keeps->>=}
use lamp.Nesting.Update.Invariant.{Succeeds}
use lamp.Nesting.Regions.{IsPlain}
use lamp.Nesting.Bodies.{IsOneLine}
use lamp.Nesting.Bodies.Braces.{brace_pattern-none, brace_pattern-some}
use lamp.Nesting.Bodies.Lines.{
  consume_namespaces-none, consume_class-none, update_preprocessor-IsPlain, remember_top-stack,
}

-- so many closing braces
abbrev pub closing : ℕ → Text
closing zero = []
closing (suc n) = b'}' ∷ closing n

closing-IsOneLine : (n : ℕ) → IsOneLine (closing n)
closing-IsOneLine zero = refl
closing-IsOneLine (suc n) = closing-IsOneLine n

abbrev IsAtMost : ℕ → NestingState → Type 0
IsAtMost n s = length s.stack ≤ n

abbrev IsEmpty : NestingState → Type 0
IsEmpty s = s.stack ≡ []

length-zero : (st : Stack) → length st ≤ 0 → st ≡ []
length-zero [] h = refl
length-zero (b ∷ st) h = absurd (omega arith)

length-on_head : (f : Block → Block) (st : Stack) → length (on_head f st) ≡ length st
length-on_head f [] = refl
length-on_head f (b ∷ st) = refl

consume_token-closing :
    (filename : Text) (clean_lines : CleansedLines) (linenum n : ℕ) (line : Text) (s : NestingState)
    → IsAtMost (suc n) s
    → Keeps (IsAtMost n) (some (consume_token filename clean_lines linenum line b'}' s))
unfolding consume_token
consume_token-closing filename clean_lines linenum n line s h = of_stack s.stack h
  where
    of_stack :
        (st : Stack)
        → length st ≤ suc n
        → Keeps
            (IsAtMost n)
            (some (consume_token filename clean_lines linenum line b'}' (record s { stack = st })))
    of_stack [] l = omega arith
    of_stack (b ∷ st) l = omega arith

consume_braces-closing :
    (f : ℕ) (filename : Text) (clean_lines : CleansedLines) (linenum n : ℕ) (s : NestingState)
    → IsAtMost n s
    → Keeps IsEmpty (consume_braces f filename clean_lines linenum (closing n) s)
unfolding consume_braces
consume_braces-closing zero filename clean_lines linenum n s h = tt
consume_braces-closing (suc f) filename clean_lines linenum zero s h =
    rw (brace_pattern-none [] refl, consume_braces) (length-zero s.stack h)
consume_braces-closing (suc f) filename clean_lines linenum (suc n) s h =
    let (m, e, e2, e1) = brace_pattern-some [] b'}' (closing n) refl refl (closing-IsOneLine n) in
    rw (e, consume_braces)
      (rw (e1, consume_braces)
        (rw (e2, consume_braces)
          (Keeps->>= (IsAtMost n) IsEmpty
            (some (consume_token filename clean_lines linenum (closing (suc n)) b'}' s))
            (consume_braces f filename clean_lines linenum (closing n))
            (consume_token-closing filename clean_lines linenum n (closing (suc n)) s h)
            (λ t k. consume_braces-closing f filename clean_lines linenum n t k))))

update_access-IsAtMost :
    (filename : Text) (linenum n : ℕ) (line : Text) (s : NestingState)
    → IsAtMost n s
    → Keeps (IsAtMost n) (some (update_access filename linenum line s))
unfolding update_access
update_access-IsAtMost filename linenum n line s h = of_stack s.stack h
  where
    of_stack :
        (st : Stack)
        → length st ≤ n
        → Keeps (IsAtMost n) (some (update_access filename linenum line (record s { stack = st })))
    of_stack [] l = l
    of_stack (b ∷ st) l = of_kind b.kind
      where
        of_kind :
            (k : Kind)
            → Keeps (IsAtMost n) (
                some (
                  update_access filename linenum line
                    (record s { stack = record b { kind = k } ∷ st })))
        of_kind block = l
        of_kind extern_c = l
        of_kind (namespace_info name) = l
        of_kind (class_info c) = elim (Option-cases (Regex.match access_pattern line)) [
          | inl e ↦ rw (e, update_access) l
          | inr (m, e) ↦ rw (e, update_access) l
        ]

no_head :
    (n : ℕ)
    → (Regex.match namespace_pattern (closing (suc n)) ≡ none)
      × (Regex.match class_pattern (closing (suc n)) ≡ none)
unfolding Regex.match Regex.matches
no_head n = (refl, refl)

closing-IsPlain : (n : ℕ) → IsPlain (closing (suc n))
unfolding is_if is_else is_endif Regex.match Regex.matches
closing-IsPlain n = (refl, refl, refl)

update_blocks-closing :
    (filename : Text) (clean_lines : CleansedLines) (linenum n : ℕ) (s : NestingState)
    → IsAtMost (suc n) s
    → Keeps IsEmpty (update_blocks filename clean_lines linenum (closing (suc n)) s)
unfolding update_blocks finish_update
update_blocks-closing filename clean_lines linenum n s h =
    let line = closing (suc n) in
    let t = modify_top (count_parentheses line) s in
    let l = length-on_head (count_parentheses line) s.stack in
    let begun : IsAtMost (suc n) (begin_block line t) =
      if_rule (IsAtMost (suc n)) (not (seen_open_brace t.stack)) (modify_top (check_begin line) t) t
        (λ _. omega (arith, length-on_head (check_begin line) t.stack)) (λ _. omega arith) in
    let finish =
      some (update_access filename linenum line (begin_block line t))
      >>= consume_braces (length line + 1) filename clean_lines linenum line in
    let rest : Keeps IsEmpty finish =
      Keeps->>= (IsAtMost (suc n)) IsEmpty
        (some (update_access filename linenum line (begin_block line t)))
        (consume_braces (length line + 1) filename clean_lines linenum line)
        (update_access-IsAtMost filename linenum (suc n) line (begin_block line t) begun)
        (λ u k.
          consume_braces-closing (length line + 1) filename clean_lines linenum (suc n) u k) in
    rw (consume_namespaces-none linenum line t (no_head n).0) (
      rw (consume_class-none clean_lines linenum line t (no_head n).1)
        (Keeps-logged IsEmpty [] (logged [] finish) (Keeps-logged IsEmpty [] finish rest)))

-- Whatever the stack has come to, a line of as many closing braces as there are blocks, and one at
-- least, empties it: `Update` returns, and no block is left.
pub update-closing :
    (filename : Text) (clean_lines : CleansedLines) (linenum n : ℕ) (s : NestingState)
    → get_elem? clean_lines.elided linenum ≡ some (closing (suc n))
    → length s.stack ≤ suc n
    → Succeeds (λ s'. s'.stack ≡ []) (update filename clean_lines linenum s)
unfolding update
update-closing filename clean_lines linenum n s at h =
    let t = remember_top s in
    let (s', rs, e) =
      update_total filename clean_lines linenum s (get_elem?-in clean_lines.elided linenum at) in
    let e' = rw (at, update) at e in
    let plain = update_preprocessor-IsPlain (closing (suc n)) t (closing-IsPlain n) in
    let l : IsAtMost (suc n) t = rw (remember_top-stack s.stack s) h in
    let kept = update_blocks-closing filename clean_lines linenum n t l in
    (s', rs, e, subst (Keeps IsEmpty) (rw plain at e') kept)
