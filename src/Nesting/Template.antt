-- ===== src/Nesting/Template.antt =====
-- `NestingState.InTemplateArgumentList` (build_support/cpplint.py).
pub mod Rounds
use lamp.Prelude.{
  ℕ, zero, suc, ◌+◌, ◌-◌, Bool, true, false, not, ◌&&◌, ◌||◌, Option, none, some, List, [], ◌∷◌,
  ◌++◌, leb, ◌==◌, if◌then◌else◌, is_some, length, get_elem?, get_or, drop,
}
use mathlib.Core.Option
use lamp.Text.{Text, codes, concat, count, find, ◌=t=◌, is_space, is_word, is_upper}
use lamp.State.{Report}
use lamp.Logged.{Logged, ret, ◌>>=◌}
use lamp.Int.{ℤ, pos, sub_ℕ, ◌+ℤ◌, is_pos}
use lamp.Regex
use lamp.Regex.{Re, chr, seq, alt, star, group, bol, eol, word_boundary}
use lamp.Regex.Classes.{one_of, lit, among, except, space, word, dot, plus, opt, seqs, alts}
use lamp.Cleanse.Raw.{group_text}
use lamp.Cleanse.Lines.{CleansedLines}
use lamp.Expression.{Place, close_expression}
use lamp.Nesting.{
  Asm, no_asm, inside_asm, end_asm, block_asm, Block, block, extern_c, class_info, namespace_info,
  ClassInfo, NestingState, block_info, on_top, seen_open_brace, push, pop, modify_top, Stack,
}
use lamp.Nesting.Blocks.{
  class_block, namespace_block, check_begin, check_end, class_name, spaces_pattern, report,
}
use lamp.Nesting.Preprocessor.{update_preprocessor}

-- `^[^{};=\[\]\.<>]*(.)`
abbrev pub token_pattern : Re
token_pattern = seqs (bol ∷ star (except "{};=[].<>") ∷ group 1 dot ∷ [])

-- the number of characters left, and of lines
abbrev pub weight : List Text → ℕ
weight [] = 0
weight (l ∷ ls) = length l + 1 + weight ls

-- `none` if the rounds run out.
unfoldable pub in_template_from : ℕ → List Text → ℕ → ℕ → Option Bool
in_template_from zero elided linenum position = none
in_template_from (suc f) elided linenum position = elim (get_elem? elided linenum) [
  | none ↦ some false
  | some line ↦ elim (Regex.match token_pattern (drop position line)) [
    | none ↦ in_template_from f elided (suc linenum) 0
    | some m ↦
        let token = get_or (group_text m 1) 0 0 in
        let position' = position + length m.before in
        let next_line = in_template_from f elided (suc linenum) 0 in
        let next = in_template_from f elided linenum (position' + 1) in
        let closed : Option Bool = elim (close_expression elided linenum (position' - 1)) [
          | none ↦ none
          | some q ↦ elim q.pos [
            | none ↦ some false
            | some end_pos ↦ in_template_from f elided q.linenum end_pos
          ]
        ] in
        if one_of (codes "{};") token
        then some false
        else if one_of (codes ">=[].") token
        then some true
        else if token == b'<'
        then closed
        else if leb (length line) (position' + 1)
        then next_line
        else next
  ]
]

unfoldable pub in_template_argument_list : List Text → ℕ → ℕ → Option Bool
unfolding in_template_from
in_template_argument_list elided linenum position =
    in_template_from (weight (drop linenum elided) + 1) elided linenum position
