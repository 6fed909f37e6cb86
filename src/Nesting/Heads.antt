-- ===== src/Nesting/Heads.antt =====
-- What `NestingState.Update` reads at the front of a line (build_support/cpplint.py): parentheses and
-- assembly, namespaces, a class, an access keyword.
use lamp.Prelude.{
  ℕ, zero, suc, ◌+◌, true, not, ◌&&◌, ◌||◌, Option, none, some, List, [], ◌∷◌, ◌==◌, if◌then◌else◌,
  is_some, length, drop,
}
use lamp.Text.{Text, codes, concat, count, find, is_space, is_word, is_upper}
use lamp.State.{Report}
use lamp.Logged.{Logged, ret}
use lamp.Int.{ℤ, sub_ℕ, ◌+ℤ◌, is_pos}
use lamp.Regex
use lamp.Regex.{Re, chr, seq, alt, star, group, bol, eol, word_boundary}
use lamp.Regex.Classes.{one_of, lit, among, except, space, word, dot, plus, opt, seqs, alts}
use lamp.Cleanse.Raw.{group_text}
use lamp.Cleanse.Lines.{CleansedLines}
use lamp.Nesting.{
  Asm, no_asm, inside_asm, end_asm, block_asm, Block, block, extern_c, class_info, namespace_info,
  ClassInfo, NestingState, on_top, push,
}
use lamp.Nesting.Blocks.{class_block, namespace_block, class_name, spaces_pattern, report}
use lamp.Nesting.Template.{in_template_argument_list}

-- `^\s*(?:asm|_asm|__asm|__asm__)(?:\s+(volatile|__volatile__))?\s*[{(]`
abbrev pub asm_pattern : Re
asm_pattern = seqs (
    bol
    ∷ star space
    ∷ alts (lit "asm" ∷ lit "_asm" ∷ lit "__asm" ∷ lit "__asm__" ∷ [])
    ∷ opt (seq (plus space) (group 1 (alt (lit "volatile") (lit "__volatile__"))))
    ∷ star space
    ∷ among "{("
    ∷ [])

unfoldable pub next_asm : Text → ℤ → ℤ → Asm → Asm
next_asm line depth_change depth inside_asm = if is_pos 0 depth then end_asm else inside_asm
next_asm line depth_change depth block_asm = block_asm
next_asm line depth_change depth no_asm =
    if not (is_pos 0 depth_change) && is_pos 1 depth && is_some (Regex.match asm_pattern line)
    then inside_asm
    else no_asm
next_asm line depth_change depth end_asm =
    if not (is_pos 0 depth_change) && is_pos 1 depth && is_some (Regex.match asm_pattern line)
    then inside_asm
    else no_asm

unfoldable pub count_parentheses : Text → Block → Block
unfolding ◌+ℤ◌ next_asm
count_parentheses line b =
    let depth_change = sub_ℕ (count line (codes "(")) (count line (codes ")")) in
    let depth = b.open_parentheses +ℤ depth_change in
    record b {
      open_parentheses = depth;
      inline_asm = next_asm line depth_change depth b.inline_asm;
    }

-- `^\s*namespace\b\s*([:\w]+)?(.*)$`
abbrev pub namespace_pattern : Re
namespace_pattern = seqs (
    bol
    ∷ star space
    ∷ lit "namespace"
    ∷ word_boundary
    ∷ star space
    ∷ opt (group 1 (plus (chr (λ c. c == b':' || is_word c))))
    ∷ group 2 (star dot)
    ∷ eol
    ∷ [])

-- A namespace that the line begins with: what is left of the line, and the block.
unfoldable pub read_namespace : ℕ → Text → Option (Text × Block)
read_namespace linenum line = elim (Regex.match namespace_pattern line) [
  | none ↦ none
  | some m ↦
      let rest = group_text m 2 in
      let b = namespace_block (group_text m 1) linenum in
      elim (find rest (codes "{")) [
        | none ↦ some (rest, b)
        | some i ↦ some (drop (i + 1) rest, record b { seen_open_brace = true })
      ]
]

-- The loop over the namespaces that the line begins with: what is left of the line, and the state;
-- `none` if the rounds run out.
unfoldable pub consume_namespaces : ℕ → ℕ → Text → NestingState → Logged (Text × NestingState)
unfolding read_namespace
consume_namespaces zero linenum line s = none
consume_namespaces (suc f) linenum line s = elim (read_namespace linenum line) [
  | none ↦ ret (line, s)
  | some n ↦ consume_namespaces f linenum n.0 (push n.1 s)
]

-- `\s*(?:template\s*<[\w\s<>,:=]*>\s*)?(class|struct)\s+(?:[A-Z_]+\s+)*(\w+(?:::\w+)*)`
abbrev pub class_head : Re
class_head = seqs (
    star space
    ∷ opt (
        seqs (
          lit "template"
          ∷ star space
          ∷ lit "<"
          ∷ star (chr (λ c. is_word c || is_space c || one_of (codes "<>,:=") c))
          ∷ lit ">"
          ∷ star space
          ∷ []))
    ∷ group 2 (alt (lit "class") (lit "struct"))
    ∷ plus space
    ∷ star (seq (plus (chr (λ c. is_upper c || c == b'_'))) (plus space))
    ∷ group 3 (seq (plus word) (star (seq (lit "::") (plus word))))
    ∷ [])

-- `^(head)(.*)$`, with the head above
abbrev pub class_pattern : Re
class_pattern = seqs (bol ∷ group 1 class_head ∷ group 4 (star dot) ∷ eol ∷ [])

unfoldable pub consume_class :
    CleansedLines → ℕ → Text → NestingState → Logged (Text × NestingState)
unfolding in_template_argument_list class_block
consume_class clean_lines linenum line s = elim (Regex.match class_pattern line) [
  | none ↦ ret (line, s)
  | some m ↦
      if on_top (λ b. not (is_pos 0 b.open_parentheses)) s.stack
      then ret (line, s)
      else (elim (in_template_argument_list clean_lines.elided linenum (length (group_text m 1))) [
        | none ↦ none
        | some inside ↦
            if inside
            then ret (line, s)
            else ret (
              group_text m 4,
              push (class_block (group_text m 3) (group_text m 2) clean_lines linenum) s,
            )
      ])
]

-- `^(.*)\b(public|private|protected|signals)(\s+(?:slots\s*)?)?:(?:[^:]|$)`
abbrev pub access_pattern : Re
access_pattern = seqs (
    bol
    ∷ group 1 (star dot)
    ∷ word_boundary
    ∷ group 2 (alts (lit "public" ∷ lit "private" ∷ lit "protected" ∷ lit "signals" ∷ []))
    ∷ opt (group 3 (seq (plus space) (opt (seq (lit "slots") (star space)))))
    ∷ lit ":"
    ∷ alt (except ":") eol
    ∷ [])

unfoldable pub access_reports : Text → ℕ → ClassInfo → Text → Text → Text → List Report
access_reports filename linenum c indent access slots =
    if not (length indent == c.class_indent + 1) && is_some (Regex.match spaces_pattern indent)
    then report filename linenum (codes "whitespace/indent") 3 (
        concat (access ∷ slots ∷ codes ": should be indented +1 space inside " ∷ class_name c ∷ []))
      ∷ []
    else []

unfoldable pub update_access : Text → ℕ → Text → NestingState → NestingState × List Report
unfolding access_reports
update_access filename linenum line s = elim s.stack [
  | [] ↦ (s, [])
  | b ∷ st ↦ elim b.kind [
    | class_info c ↦ elim (Regex.match access_pattern line) [
      | none ↦ (s, [])
      | some m ↦ (
        record s {
          stack = record b { kind = class_info (record c { access = group_text m 2 }) } ∷ st;
        },
        access_reports filename linenum c (group_text m 1) (group_text m 2) (group_text m 3),
      )
    ]
    | block ↦ (s, [])
    | extern_c ↦ (s, [])
    | namespace_info name ↦ (s, [])
  ]
]
