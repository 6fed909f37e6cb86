-- ===== src/Nesting/Update/Invariant.antt =====
-- `Update` keeps the invariant of the blocks, over a whole file.
use lamp.Prelude.{
  ℕ, zero, suc, ◌+◌, ◌≤◌, ◌<◌, Bool, true, false, not, Option, none, some, List, [], ◌∷◌, ◌++◌, ◌≡◌,
  refl, ap, arith, if◌then◌else◌, if_rule, some_eq, Option-cases, inl, inr, length, get_elem?_of_lt,
  All, drop,
}
use mathlib.Core.Path.{subst}
use lamp.Text.{Text, codes, find}
use lamp.State.{Report}
use lamp.Logged.{Logged, ret, ◌>>=◌}
use lamp.Int.{is_pos}
use lamp.Regex
use lamp.Regex.{At}
use lamp.Cleanse.Raw.{group_text}
use lamp.Cleanse.Lines.{CleansedLines}
use lamp.Nesting.{Block, NestingState, Stack, push, modify_top, on_top, seen_open_brace}
use lamp.Nesting.Blocks.{check_begin, class_block, namespace_block}
use lamp.Nesting.Preprocessor.{update_preprocessor}
use lamp.Nesting.Heads.{
  read_namespace, namespace_pattern, consume_namespaces, class_pattern, consume_class,
  update_access, count_parentheses,
}
use lamp.Nesting.Template.{in_template_argument_list}
use lamp.Nesting.Update.{
  remember_top, consume_braces, begin_block, finish_update, update_blocks, update,
}
use lamp.Nesting.Update.Total.{update_total}
use lamp.Nesting.Update.Blocks.{
  IsWell, IsWellState, Keeps, Keeps->>=, IsWell-suc, IsWellInfo-suc,
  update_preprocessor-IsWellState, on_head-IsWell, check_begin-IsWell, update_access-IsWell,
}
use lamp.Nesting.Update.Tokens.{count_parentheses-IsWell, consume_braces-IsKept}
use lamp.Nesting.Regions.{updates}

read_namespace-IsWell :
    (linenum : ℕ) (line rest : Text) (b : Block)
    → read_namespace linenum line ≡ some (rest, b)
    → IsWell (suc linenum) b
unfolding read_namespace
read_namespace-IsWell linenum line rest b e = of_match (Regex.match namespace_pattern line) e
  where
    is :
        (t : Text) (c : Block)
        → IsWell (suc linenum) c
        → ◌≡◌ {A = Option (Text × Block)} (some (t, c)) (some (rest, b))
        → IsWell (suc linenum) b
    is t c w e' = subst (IsWell (suc linenum)) (ap (λ (x : Text × Block). x.1) (some_eq e')) w

    of_find :
        (t name : Text) (o : Option ℕ)
        → ◌≡◌ {A = Option (Text × Block)}
            (elim o [
              | none ↦ some (t, namespace_block name linenum)
              | some i ↦
                  some (
                    drop (i + 1) t,
                    record (namespace_block name linenum) { seen_open_brace = true },
                  )
            ])
            (some (rest, b))
        → IsWell (suc linenum) b
    of_find t name none e' = is t (namespace_block name linenum) (omega arith, refl) e'
    of_find t name (some i) e' =
        is (drop (i + 1) t) (record (namespace_block name linenum) { seen_open_brace = true })
          (omega arith, refl) e'

    of_match :
        (o : Option At)
        → ◌≡◌ {A = Option (Text × Block)}
            (elim o [
              | none ↦ none
              | some m ↦ elim (find (group_text m 2) (codes "{")) [
                | none ↦ some (group_text m 2, namespace_block (group_text m 1) linenum)
                | some i ↦ some (
                  drop (i + 1) (group_text m 2),
                  record (namespace_block (group_text m 1) linenum) { seen_open_brace = true },
                )
              ]
            ])
            (some (rest, b))
        → IsWell (suc linenum) b
    of_match none e' = cc
    of_match (some m) e' =
        of_find (group_text m 2) (group_text m 1) (find (group_text m 2) (codes "{")) e'

module _ (filename : Text) (clean_lines : CleansedLines) (linenum : ℕ) where
  -- the state in a pair with what is left of the line
  abbrev IsKeptWith : Text × NestingState → Type 0
  IsKeptWith r = IsWellState (suc linenum) r.1

  consume_namespaces-IsKept :
      (f : ℕ) (line : Text) (s : NestingState)
      → IsWellState (suc linenum) s
      → Keeps IsKeptWith (consume_namespaces f linenum line s)
  unfolding consume_namespaces
  consume_namespaces-IsKept zero line s h = tt
  consume_namespaces-IsKept (suc f) line s (hs, hp) =
      elim (Option-cases (read_namespace linenum line)) [
        | inl e ↦ rw (e, consume_namespaces) (hs, hp)
        | inr ((rest, b), e) ↦
            rw (e, consume_namespaces)
              (consume_namespaces-IsKept f rest (push b s)
                ((read_namespace-IsWell linenum line rest b e, hs), hp))
      ]

  class_block-IsWell :
      (name class_or_struct : Text)
      → IsWell (suc linenum) (class_block name class_or_struct clean_lines linenum)
  unfolding class_block
  class_block-IsWell name class_or_struct = (omega arith, refl)

  consume_class-IsKept :
      (line : Text) (s : NestingState)
      → IsWellState (suc linenum) s
      → Keeps IsKeptWith (consume_class clean_lines linenum line s)
  unfolding consume_class
  consume_class-IsKept line s (hs, hp) = elim (Option-cases (Regex.match class_pattern line)) [
    | inl e ↦ rw (e, consume_class) (hs, hp)
    | inr (m, e) ↦
        rw (e, consume_class)
          (if_rule (Keeps IsKeptWith) (on_top (λ b. not (is_pos 0 b.open_parentheses)) s.stack)
            (ret (line, s)) _ (λ _. (hs, hp))
            (λ _.
              answered m
                (in_template_argument_list clean_lines.elided linenum (length (group_text m 1)))))
  ]
    where
      answered :
          (m : At) (o : Option Bool)
          → Keeps IsKeptWith (elim o [
            | none ↦ none
            | some inside ↦
                if inside
                then ret (line, s)
                else ret (
                  group_text m 4,
                  push (class_block (group_text m 3) (group_text m 2) clean_lines linenum) s,
                )
          ])
      answered m none = tt
      answered m (some true) = (hs, hp)
      answered m (some false) = ((class_block-IsWell (group_text m 3) (group_text m 2), hs), hp)

  begin_block-IsKept :
      (elided : Text) (s : NestingState)
      → IsWellState (suc linenum) s
      → IsWellState (suc linenum) (begin_block elided s)
  begin_block-IsKept elided s (hs, hp) =
      if_rule (IsWellState (suc linenum)) (not (seen_open_brace s.stack))
        (modify_top (check_begin elided) s) s
        (λ _. (
          on_head-IsWell (suc linenum) (check_begin elided) s.stack
              (check_begin-IsWell (suc linenum) elided) hs,
          hp,
        ))
        (λ _. (hs, hp))

  update_blocks-IsKept :
      (line : Text) (s : NestingState)
      → IsWellState (suc linenum) s
      → Keeps (IsWellState (suc linenum)) (update_blocks filename clean_lines linenum line s)
  unfolding update_blocks finish_update
  update_blocks-IsKept line s (hs, hp) =
      Keeps->>= IsKeptWith (IsWellState (suc linenum))
        (consume_namespaces (length line + 1) linenum line (modify_top (count_parentheses line) s))
        (λ r. consume_class clean_lines linenum r.0 r.1 >>= λ q.
          finish_update filename clean_lines linenum line q.0 q.1)
        (consume_namespaces-IsKept (length line + 1) line (modify_top (count_parentheses line) s) (
          on_head-IsWell (suc linenum) (count_parentheses line) s.stack
              (count_parentheses-IsWell (suc linenum) line) hs,
          hp,
        ))
        (λ r k.
          Keeps->>= IsKeptWith (IsWellState (suc linenum))
            (consume_class clean_lines linenum r.0 r.1)
            (λ q. finish_update filename clean_lines linenum line q.0 q.1)
            (consume_class-IsKept r.0 r.1 k)
            (λ q k'.
              let t = begin_block line q.1 in
              Keeps->>= (IsWellState (suc linenum)) (IsWellState (suc linenum))
                (some (update_access filename linenum q.0 t))
                (consume_braces (length q.0 + 1) filename clean_lines linenum q.0)
                (update_access-IsWell (suc linenum) filename linenum q.0 t
                  (begin_block-IsKept line q.1 k'))
                (λ u l.
                  consume_braces-IsKept filename clean_lines linenum (length q.0 + 1) q.0 u l)))

remember_top-IsWellState :
    (n : ℕ) (s : NestingState) → IsWellState n s → IsWellState n (remember_top s)
remember_top-IsWellState n s (hs, hp) = of_stack s.stack hs
  where
    of_stack :
        (st : Stack) → All (IsWell n) st → IsWellState n (remember_top (record s { stack = st }))
    of_stack [] h = (h, hp)
    of_stack (b ∷ st) h = (h, hp)

-- a result that is there, without an exception
abbrev pub Succeeds : (NestingState → Type 0) → Logged NestingState → Type 0
Succeeds P o = (s' : NestingState) × (reports : List Report) × (o ≡ some (s', reports)) × P s'

update-IsWellState :
    (filename : Text) (clean_lines : CleansedLines) (linenum : ℕ) (s : NestingState)
    → linenum < length clean_lines.elided
    → IsWellState linenum s
    → Succeeds (IsWellState (suc linenum)) (update filename clean_lines linenum s)
unfolding update
update-IsWellState filename clean_lines linenum s l (hs, hp) =
    let (line, at) = get_elem?_of_lt clean_lines.elided linenum l in
    let (s', rs, e) = update_total filename clean_lines linenum s l in
    let later : IsWellState (suc linenum) s =
      (IsWell-suc linenum s.stack hs, IsWellInfo-suc linenum s.pp_stack hp) in
    let kept =
      update_blocks-IsKept filename clean_lines linenum line
        (update_preprocessor line (remember_top s))
        (update_preprocessor-IsWellState (suc linenum) line (remember_top s)
          (remember_top-IsWellState (suc linenum) s later)) in
    let e' = rw (at, update) at e in (s', rs, e, subst (Keeps (IsWellState (suc linenum))) e' kept)

-- The updates for the lines of a file from a line on, in a well-formed state, return, and their state is
-- well-formed: each block on the stack, and on the stacks that conditionals put aside, begins at a line
-- in front of the one reached, a block of code has its brace and is not checked for its
-- indentation, a class or namespace is.
pub updates-IsWellState :
    (filename : Text) (clean_lines : CleansedLines) (n linenum : ℕ) (s : NestingState)
    → linenum + n ≤ length clean_lines.elided
    → IsWellState linenum s
    → Succeeds (IsWellState (linenum + n)) (updates filename clean_lines n linenum s)
unfolding updates
updates-IsWellState filename clean_lines zero linenum s l h =
    let e : linenum ≡ linenum + 0 = omega arith in (s, [], refl, subst (λ k. IsWellState k s) e h)
updates-IsWellState filename clean_lines (suc n) linenum s l h =
    let (t, rs, e, k) = update-IsWellState filename clean_lines linenum s (omega arith) h in
    let (u, qs, e', k') =
      updates-IsWellState filename clean_lines n (suc linenum) t (omega arith) k in
    let same : suc linenum + n ≡ linenum + suc n = omega arith in
    (u, rs ++ qs, rw e (rw e' refl), subst (λ j. IsWellState j u) same k')
