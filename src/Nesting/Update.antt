-- ===== src/Nesting/Update.antt =====
-- `NestingState.Update` (build_support/cpplint.py).
pub mod Stacks
pub mod Lengths
pub mod Total
pub mod Blocks
pub mod Tokens
pub mod Invariant
pub mod Completed
use lamp.Prelude.{
  ℕ, zero, suc, ◌+◌, ◌-◌, Bool, true, false, not, ◌&&◌, ◌||◌, Option, none, some, List, [], ◌∷◌,
  ◌++◌, leb, ◌==◌, if◌then◌else◌, is_some, length, get_elem?, get_or, drop,
}
use mathlib.Core.Option
use lamp.Text.{Text, codes, concat, count, find, ◌=t=◌, is_space, is_word, is_upper}
use lamp.State.{Report}
use lamp.Logged.{Logged, ret, ◌>>=◌}
use lamp.Int.{ℤ, pos, sub_ℕ, ◌+ℤ◌, is_pos}
use lamp.Regex
use lamp.Regex.{Re, chr, seq, alt, star, group, bol, eol, word_boundary}
use lamp.Regex.Classes.{one_of, lit, among, except, space, word, dot, plus, opt, seqs, alts}
use lamp.Cleanse.Raw.{group_text}
use lamp.Cleanse.Lines.{CleansedLines}
use lamp.Expression.{Place, close_expression}
use lamp.Nesting.{
  Asm, no_asm, inside_asm, end_asm, block_asm, Block, block, extern_c, class_info, namespace_info,
  ClassInfo, NestingState, block_info, on_top, seen_open_brace, push, pop, modify_top, Stack,
}
use lamp.Nesting.Blocks.{
  class_block, namespace_block, check_begin, check_end, class_name, spaces_pattern, report,
}
use lamp.Nesting.Preprocessor.{update_preprocessor}
use lamp.Nesting.Heads.{
  asm_pattern, count_parentheses, consume_namespaces, consume_class, update_access,
}

abbrev pub remember_top : NestingState → NestingState
remember_top s = elim s.stack [
  | [] ↦ record s { previous_stack_top = none; previous_index = none }
  | b ∷ st ↦ record s { previous_stack_top = some b; previous_index = some (length st) }
]

-- `^[^{;)}]*([{;)}])(.*)$`
abbrev pub brace_pattern : Re
brace_pattern =
    seqs (bol ∷ star (except "{;)}") ∷ group 1 (among "{;)}") ∷ group 2 (star dot) ∷ eol ∷ [])

-- `^extern\s*"[^"]*"\s*\{`
abbrev pub extern_pattern : Re
extern_pattern = seqs (
    bol
    ∷ lit "extern"
    ∷ star space
    ∷ lit "\""
    ∷ star (except "\"")
    ∷ lit "\""
    ∷ star space
    ∷ lit "{"
    ∷ [])

abbrev pub mark_seen : Block → Block
mark_seen b = record b { seen_open_brace = true }

-- an opening brace in front of which the line reads so
unfoldable pub open_brace : ℕ → Text → NestingState → NestingState
open_brace linenum line s =
    if not (seen_open_brace s.stack)
    then modify_top mark_seen s
    else if is_some (Regex.match extern_pattern line)
    then push (block_info linenum true extern_c false) s
    else if is_some (Regex.match asm_pattern line)
    then push (record (block_info linenum true block false) { inline_asm = block_asm }) s
    else push (block_info linenum true block false) s

-- one token
unfoldable pub consume_token :
    Text → CleansedLines → ℕ → Text → ℕ → NestingState → NestingState × List Report
unfolding open_brace
consume_token filename clean_lines linenum line token s =
    if token == b'{'
    then (open_brace linenum line s, [])
    else if token == b';' || token == b')'
    then (if not (seen_open_brace s.stack) then pop s else s, [])
    else (elim s.stack [
      | [] ↦ (s, [])
      | b ∷ st ↦ (pop s, check_end filename clean_lines linenum b)
    ])

-- The loop over the braces, semicolons and closing parentheses; `none` if the rounds run out.
unfoldable pub consume_braces :
    ℕ → Text → CleansedLines → ℕ → Text → NestingState → Logged NestingState
unfolding consume_token
consume_braces zero filename clean_lines linenum line s = none
consume_braces (suc f) filename clean_lines linenum line s = elim (Regex.match brace_pattern line) [
  | none ↦ ret s
  | some m ↦
      some (consume_token filename clean_lines linenum line (get_or (group_text m 1) 0 0) s)
      >>= consume_braces f filename clean_lines linenum (group_text m 2)
]

-- the call of `CheckBegin`
abbrev pub begin_block : Text → NestingState → NestingState
begin_block elided s =
    if not (seen_open_brace s.stack) then modify_top (check_begin elided) s else s

-- What `Update` does once namespaces and a class are consumed: `CheckBegin`, the access, the braces.
unfoldable pub finish_update :
    Text → CleansedLines → ℕ → Text → Text → NestingState → Logged NestingState
unfolding update_access consume_braces
finish_update filename clean_lines linenum elided line s =
    some (update_access filename linenum line (begin_block elided s))
    >>= consume_braces (length line + 1) filename clean_lines linenum line

-- what `Update` does after `UpdatePreprocessor`
unfoldable pub update_blocks : Text → CleansedLines → ℕ → Text → NestingState → Logged NestingState
unfolding count_parentheses consume_namespaces consume_class finish_update
update_blocks filename clean_lines linenum line s =
    consume_namespaces (length line + 1) linenum line (modify_top (count_parentheses line) s)
    >>= λ r. consume_class clean_lines linenum r.0 r.1 >>= λ q.
        finish_update filename clean_lines linenum line q.0 q.1

-- `none` is the `IndexError` of a line that is not there, or rounds that run out.
unfoldable pub update : Text → CleansedLines → ℕ → NestingState → Logged NestingState
unfolding update_blocks
update filename clean_lines linenum s = elim (get_elem? clean_lines.elided linenum) [
  | none ↦ none
  | some line ↦
      update_blocks filename clean_lines linenum line (update_preprocessor line (remember_top s))
]
