-- ===== src/Nesting/Update/Tokens.antt =====
-- The loop over the braces of a line keeps the invariant of the blocks.
use lamp.Prelude.{
  ℕ, zero, suc, ◌<◌, true, false, not, some, [], ◌∷◌, refl, arith, if◌then◌else◌, if_rule, is_some,
  Option-cases, ◌==◌, ◌||◌, inl, inr, get_or, All,
}
use lamp.Text.{Text}
use lamp.Regex
use lamp.Regex.{At}
use lamp.Cleanse.Raw.{group_text}
use lamp.Cleanse.Lines.{CleansedLines}
use lamp.Nesting.{
  block_asm, Block, block, extern_c, NestingState, Stack, block_info, push, pop, modify_top,
  seen_open_brace,
}
use lamp.Nesting.Blocks.{check_end}
use lamp.Nesting.Heads.{asm_pattern, count_parentheses}
use lamp.Nesting.Update.{
  extern_pattern, mark_seen, open_brace, consume_token, consume_braces, brace_pattern,
}
use lamp.Nesting.Update.Blocks.{IsWell, IsWellState, IsSound-seen, Keeps, Keeps->>=, on_head-IsWell}

pub count_parentheses-IsWell :
    (n : ℕ) (line : Text) (b : Block) → IsWell n b → IsWell n (count_parentheses line b)
unfolding count_parentheses
count_parentheses-IsWell n line b h = h

mark_seen-IsWell : (n : ℕ) (b : Block) → IsWell n b → IsWell n (mark_seen b)
mark_seen-IsWell n b (l, h) =
    (l, IsSound-seen b.kind b.seen_open_brace b.check_namespace_indentation h)

pop-IsWellState : (n : ℕ) (s : NestingState) → IsWellState n s → IsWellState n (pop s)
pop-IsWellState n s (hs, hp) = of_stack s.stack hs
  where
    of_stack : (st : Stack) → All (IsWell n) st → IsWellState n (pop (record s { stack = st }))
    of_stack [] h = (h, hp)
    of_stack (b ∷ st) (w, h) = (h, hp)

module _ (filename : Text) (clean_lines : CleansedLines) (linenum : ℕ) where
  -- of the blocks that begin up to the line
  abbrev pub IsKept : NestingState → Type 0
  IsKept s = IsWellState (suc linenum) s

  here : linenum < suc linenum
  here = omega arith

  open_brace-IsKept :
      (line : Text) (s : NestingState) → IsKept s → IsKept (open_brace linenum line s)
  unfolding open_brace
  open_brace-IsKept line s (hs, hp) =
      let code = block_info linenum true block false in
      let asm : Block = record code { inline_asm = block_asm } in
      if_rule IsKept (not (seen_open_brace s.stack)) (modify_top mark_seen s) _
        (λ _.
          (on_head-IsWell (suc linenum) mark_seen s.stack (mark_seen-IsWell (suc linenum)) hs, hp))
        (λ _.
          if_rule IsKept (is_some (Regex.match extern_pattern line))
            (push (block_info linenum true extern_c false) s) _
            (λ _. (((here, (refl, refl)), hs), hp))
            (λ _.
              if_rule IsKept (is_some (Regex.match asm_pattern line)) (push asm s) (push code s)
                (λ _. (((here, (refl, refl)), hs), hp)) (λ _. (((here, (refl, refl)), hs), hp))))

  consume_token-IsKept :
      (line : Text) (token : ℕ) (s : NestingState)
      → IsKept s
      → Keeps IsKept (some (consume_token filename clean_lines linenum line token s))
  unfolding consume_token
  consume_token-IsKept line token s h =
      if_rule (λ r. Keeps IsKept (some r)) (token == b'{') (open_brace linenum line s, []) _
        (λ _. open_brace-IsKept line s h)
        (λ _.
          if_rule (λ r. Keeps IsKept (some r)) (token == b';' || token == b')')
            (if not (seen_open_brace s.stack) then pop s else s, []) _
            (λ _.
              if_rule IsKept (not (seen_open_brace s.stack)) (pop s) s
                (λ _. pop-IsWellState (suc linenum) s h) (λ _. h))
            (λ _. closed s.stack))
    where
      closed :
          (st : Stack)
          → Keeps IsKept (
              some (elim st [
                | [] ↦ (s, [])
                | b ∷ st ↦ (pop s, check_end filename clean_lines linenum b)
              ]))
      closed [] = h
      closed (b ∷ st) = pop-IsWellState (suc linenum) s h

  pub consume_braces-IsKept :
      (f : ℕ) (line : Text) (s : NestingState)
      → IsKept s
      → Keeps IsKept (consume_braces f filename clean_lines linenum line s)
  unfolding consume_braces
  consume_braces-IsKept zero line s h = tt
  consume_braces-IsKept (suc f) line s h = elim (Option-cases (Regex.match brace_pattern line)) [
    | inl e ↦ rw (e, consume_braces) h
    | inr (m, e) ↦
        let token = get_or (group_text m 1) 0 0 in
        rw (e, consume_braces)
          (Keeps->>= IsKept IsKept (some (consume_token filename clean_lines linenum line token s))
            (consume_braces f filename clean_lines linenum (group_text m 2))
            (consume_token-IsKept line token s h)
            (λ t k. consume_braces-IsKept f (group_text m 2) t k))
  ]
