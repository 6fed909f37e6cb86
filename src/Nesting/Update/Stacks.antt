-- ===== src/Nesting/Update/Stacks.antt =====
-- What `Update` does to the stack after `UpdatePreprocessor` is a matter of the stack alone.
use lamp.Prelude.{
  ℕ, zero, suc, ◌+◌, Option, none, some, List, [], ◌∷◌, ◌≡◌, refl, ap, arith, length, get_or,
}
use mathlib.Core.Path.{subst}
use lamp.Text.{Text}
use lamp.Logged.{ret, ◌>>=◌, Related, Related->>=}
use lamp.Regex
use lamp.Regex.{At}
use lamp.Cleanse.Raw.{group_text}
use lamp.Cleanse.Lines.{CleansedLines}
use lamp.Nesting.{Block, NestingState, PreprocessorInfo, Stack, push, modify_top, on_head}
use lamp.Nesting.Heads.{
  update_access, consume_class, consume_namespaces, count_parentheses, read_namespace,
}
use lamp.Nesting.Update.{
  open_brace, consume_token, consume_braces, finish_update, update_blocks, begin_block,
  brace_pattern,
}

abbrev pub with : Stack → NestingState → NestingState
with st s = record s { stack = st }

-- The stacks agree, and the first state has the stack of conditionals given.
abbrev pub Agree : List PreprocessorInfo → NestingState → NestingState → Type 0
Agree pp s s' = (s.stack ≡ s'.stack) × (s.pp_stack ≡ pp)

module _ (pp : List PreprocessorInfo) where
  -- A property of two states with one stack.
  general :
      (P : NestingState → NestingState → Type 0)
      → ((st : Stack) (s s' : NestingState) → s.pp_stack ≡ pp → P (with st s) (with st s'))
      → (s s' : NestingState) → Agree pp s s'
      → P s s'
  general P h s s' (e, p) = subst (λ x. P s (with x s')) e (h s.stack s s' p)

  open_brace-Agree :
      (linenum : ℕ) (line : Text) (st : Stack) (s s' : NestingState)
      → s.pp_stack ≡ pp
      → Agree pp (open_brace linenum line (with st s)) (open_brace linenum line (with st s'))
  unfolding open_brace
  open_brace-Agree linenum line st s s' p = ground arith

  consume_token-Agree :
      (filename : Text) (clean_lines : CleansedLines) (linenum : ℕ) (line : Text) (token : ℕ)
      (s s' : NestingState)
      → Agree pp s s'
      → Related
          (Agree pp)
          (some (consume_token filename clean_lines linenum line token s))
          (some (consume_token filename clean_lines linenum line token s'))
  unfolding consume_token
  consume_token-Agree filename clean_lines linenum line token =
      general
        (λ s s'.
          Related (Agree pp) (some (consume_token filename clean_lines linenum line token s))
            (some (consume_token filename clean_lines linenum line token s')))
        tokens
    where
      tokens :
          (st : Stack) (s s' : NestingState)
          → s.pp_stack ≡ pp
          → Related
              (Agree pp)
              (some (consume_token filename clean_lines linenum line token (with st s)))
              (some (consume_token filename clean_lines linenum line token (with st s')))
      tokens [] s s' p = ground (arith, open_brace-Agree linenum line [] s s' p)
      tokens (b ∷ st) s s' p = ground (arith, open_brace-Agree linenum line (b ∷ st) s s' p)

  consume_braces-Agree :
      (f : ℕ) (filename : Text) (clean_lines : CleansedLines) (linenum : ℕ) (line : Text)
      (s s' : NestingState)
      → Agree pp s s'
      → Related
          (Agree pp)
          (consume_braces f filename clean_lines linenum line s)
          (consume_braces f filename clean_lines linenum line s')
  unfolding consume_braces
  consume_braces-Agree zero filename clean_lines linenum line s s' h = tt
  consume_braces-Agree (suc f) filename clean_lines linenum line s s' h =
      after (Regex.match brace_pattern line) (consume_braces-Agree f filename clean_lines linenum)
    where
      after :
          (o : Option At)
          → ((l : Text) (t t' : NestingState)
              → Agree pp t t'
              → Related
                  (Agree pp)
                  (consume_braces f filename clean_lines linenum l t)
                  (consume_braces f filename clean_lines linenum l t'))
          → Related
              (Agree pp)
              (elim o [
                | none ↦ ret s
                | some m ↦
                    some (
                      consume_token filename clean_lines linenum line
                        (get_or (group_text m 1) 0 0)
                        s)
                    >>= consume_braces f filename clean_lines linenum (group_text m 2)
              ])
              (elim o [
                | none ↦ ret s'
                | some m ↦
                    some (
                      consume_token filename clean_lines linenum line
                        (get_or (group_text m 1) 0 0)
                        s')
                    >>= consume_braces f filename clean_lines linenum (group_text m 2)
              ])
      after none ih = (h, refl)
      after (some m) ih =
          let token = get_or (group_text m 1) 0 0 in
          Related->>= (Agree pp) (Agree pp)
            (some (consume_token filename clean_lines linenum line token s))
            (some (consume_token filename clean_lines linenum line token s'))
            (consume_braces f filename clean_lines linenum (group_text m 2))
            (consume_braces f filename clean_lines linenum (group_text m 2))
            (consume_token-Agree filename clean_lines linenum line token s s' h)
            (ih (group_text m 2))

  -- the state with what is left of the line
  abbrev AgreeBeside : (Text × NestingState) → (Text × NestingState) → Type 0
  AgreeBeside x y = (x.0 ≡ y.0) × Agree pp x.1 y.1

  update_access-Agree :
      (filename : Text) (linenum : ℕ) (line : Text) (s s' : NestingState)
      → Agree pp s s'
      → Related
          (Agree pp)
          (some (update_access filename linenum line s))
          (some (update_access filename linenum line s'))
  unfolding update_access
  update_access-Agree filename linenum line =
      general
        (λ s s'.
          Related (Agree pp) (some (update_access filename linenum line s))
            (some (update_access filename linenum line s')))
        tops
    where
      tops :
          (st : Stack) (s s' : NestingState)
          → s.pp_stack ≡ pp
          → Related
              (Agree pp)
              (some (update_access filename linenum line (with st s)))
              (some (update_access filename linenum line (with st s')))
      tops [] s s' p = ground arith
      tops (b ∷ st) s s' p = ground arith

  modify_top-Agree :
      (f : Block → Block) (s s' : NestingState)
      → Agree pp s s'
      → Agree pp (modify_top f s) (modify_top f s')
  modify_top-Agree f s s' (e, p) = (ap (on_head f) e, p)

  begin_block-Agree :
      (elided : Text) (s s' : NestingState)
      → Agree pp s s'
      → Agree pp (begin_block elided s) (begin_block elided s')
  begin_block-Agree elided =
      general (λ s s'. Agree pp (begin_block elided s) (begin_block elided s')) tops
    where
      tops :
          (st : Stack) (s s' : NestingState)
          → s.pp_stack ≡ pp
          → Agree pp (begin_block elided (with st s)) (begin_block elided (with st s'))
      tops [] s s' p = ground arith
      tops (b ∷ st) s s' p = ground arith

  finish_update-Agree :
      (filename : Text) (clean_lines : CleansedLines) (linenum : ℕ) (elided line : Text)
      (s s' : NestingState)
      → Agree pp s s'
      → Related
          (Agree pp)
          (finish_update filename clean_lines linenum elided line s)
          (finish_update filename clean_lines linenum elided line s')
  unfolding finish_update
  finish_update-Agree filename clean_lines linenum elided line s s' h =
      let f = consume_braces (length line + 1) filename clean_lines linenum line in
      let b = begin_block elided s in
      let b' = begin_block elided s' in
      Related->>= (Agree pp) (Agree pp) (some (update_access filename linenum line b))
        (some (update_access filename linenum line b')) f f
        (update_access-Agree filename linenum line b b' (begin_block-Agree elided s s' h))
        (consume_braces-Agree (length line + 1) filename clean_lines linenum line)

  consume_namespaces-Agree :
      (f linenum : ℕ) (line : Text) (s s' : NestingState)
      → Agree pp s s'
      → Related AgreeBeside
          (consume_namespaces f linenum line s)
          (consume_namespaces f linenum line s')
  unfolding consume_namespaces
  consume_namespaces-Agree zero linenum line s s' h = tt
  consume_namespaces-Agree (suc f) linenum line s s' (e, p) =
      after (read_namespace linenum line)
        λ l b. consume_namespaces-Agree f linenum l (push b s) (push b s') (ap (◌∷◌ b) e, p)
    where
      after :
          (o : Option (Text × Block))
          → ((l : Text) (b : Block)
              → Related AgreeBeside
                  (consume_namespaces f linenum l (push b s))
                  (consume_namespaces f linenum l (push b s')))
          → Related AgreeBeside
              (elim o [
                | none ↦ ret (line, s)
                | some n ↦ consume_namespaces f linenum n.0 (push n.1 s)
              ])
              (elim o [
                | none ↦ ret (line, s')
                | some n ↦ consume_namespaces f linenum n.0 (push n.1 s')
              ])
      after none ih = ((refl, (e, p)), refl)
      after (some (l, b)) ih = ih l b

  consume_class-Agree :
      (clean_lines : CleansedLines) (linenum : ℕ) (line : Text) (s s' : NestingState)
      → Agree pp s s'
      → Related AgreeBeside
          (consume_class clean_lines linenum line s)
          (consume_class clean_lines linenum line s')
  unfolding consume_class
  consume_class-Agree clean_lines linenum line =
      general
        (λ s s'.
          Related AgreeBeside (consume_class clean_lines linenum line s)
            (consume_class clean_lines linenum line s'))
        stacks
    where
      stacks :
          (st : Stack) (s s' : NestingState)
          → s.pp_stack ≡ pp
          → Related AgreeBeside
              (consume_class clean_lines linenum line (with st s))
              (consume_class clean_lines linenum line (with st s'))
      stacks st s s' p = ground arith

  pub update_blocks-Agree :
      (filename : Text) (clean_lines : CleansedLines) (linenum : ℕ) (line : Text)
      (s s' : NestingState)
      → Agree pp s s'
      → Related
          (Agree pp)
          (update_blocks filename clean_lines linenum line s)
          (update_blocks filename clean_lines linenum line s')
  unfolding update_blocks
  update_blocks-Agree filename clean_lines linenum line s s' h =
      let t = modify_top (count_parentheses line) s in
      let t' = modify_top (count_parentheses line) s' in
      let class = λ (r : Text × NestingState). consume_class clean_lines linenum r.0 r.1 in
      let finish =
        λ (q : Text × NestingState). finish_update filename clean_lines linenum line q.0 q.1 in
      let n = length line + 1 in
      Related->>= AgreeBeside (Agree pp) (consume_namespaces n linenum line t)
        (consume_namespaces n linenum line t') (λ r. class r >>= finish) (λ r. class r >>= finish)
        (consume_namespaces-Agree n linenum line t t'
          (modify_top-Agree (count_parentheses line) s s' h))
        λ r r' (e, g).
          Related->>= AgreeBeside (Agree pp) (class r) (class r') finish finish
            (subst (λ l. Related AgreeBeside (class r) (consume_class clean_lines linenum l r'.1)) e
              (consume_class-Agree clean_lines linenum r.0 r.1 r'.1 g))
            λ q q' (e', g').
              subst
                (λ l.
                  Related (Agree pp) (finish q)
                    (finish_update filename clean_lines linenum line l q'.1))
                e' (finish_update-Agree filename clean_lines linenum line q.0 q.1 q'.1 g')
