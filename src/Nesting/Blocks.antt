-- ===== src/Nesting/Blocks.antt =====
-- `_ClassInfo.__init__`, and the methods `CheckBegin` and `CheckEnd` of the classes of blocks
-- (build_support/cpplint.py).
use lamp.Prelude.{
  ℕ, zero, suc, ◌+◌, ◌-◌, Bool, true, false, not, ◌&&◌, ◌||◌, none, some, List, [], ◌∷◌, ◌++◌, ltb,
  ◌==◌, if◌then◌else◌, is_some, length, get_or, drop,
}
use lamp.Text.{Text, codes, concat, count, ◌=t=◌, is_space}
use lamp.State.{Report}
use lamp.Int.{ℤ, pos, sub_ℕ, ◌+ℤ◌, is_pos}
use lamp.Regex
use lamp.Regex.{Re, chr, seq, alt, star, group, bol, eol, word_boundary}
use lamp.Regex.Classes.{one_of, exactly, lit, except, space, non_space, dot, plus, seqs}
use lamp.Cleanse.Raw.{group_text}
use lamp.Cleanse.Lines.{CleansedLines}
use lamp.Nesting.{Block, block, extern_c, class_info, namespace_info, ClassInfo, block_info}

-- `^( *)\S`
abbrev pub indent_pattern : Re
indent_pattern = seqs (bol ∷ group 1 (star (lit " ")) ∷ non_space ∷ [])

unfoldable pub get_indent_level : Text → ℕ
get_indent_level line = elim (Regex.match indent_pattern line) [
  | some indent ↦ length (group_text indent 1)
  | none ↦ 0
]

-- the loop that looks for the end of the class, from the lines that follow
unfoldable pub find_last_line : ℕ → ℤ → List Text → ℕ
unfolding ◌+ℤ◌
find_last_line i depth [] = 0
find_last_line i depth (line ∷ lines) =
    let depth' = depth +ℤ sub_ℕ (count line (codes "{")) (count line (codes "}")) in
    let later = find_last_line (suc i) depth' lines in if is_pos 0 depth' then i else later

unfoldable pub class_block : Text → Text → CleansedLines → ℕ → Block
unfolding get_indent_level find_last_line
class_block name class_or_struct clean_lines linenum =
    let is_struct = class_or_struct =t= codes "struct" in
    block_info linenum false
      (class_info (record {
        name = name;
        is_derived = false;
        access = if is_struct then codes "public" else codes "private";
        is_struct = is_struct;
        class_indent = get_indent_level (get_or clean_lines.raw_lines linenum []);
        last_line = find_last_line linenum (pos 0) (drop linenum clean_lines.elided);
      }))
      true

-- `_NamespaceInfo(name, linenum)`; no name is the empty one
abbrev pub namespace_block : Text → ℕ → Block
namespace_block name linenum = block_info linenum false (namespace_info name) true

-- `(^|[^:]):($|[^:])`
abbrev pub colon_pattern : Re
colon_pattern =
    seqs (group 1 (alt bol (except ":")) ∷ lit ":" ∷ group 2 (alt eol (except ":")) ∷ [])

unfoldable pub check_begin : Text → Block → Block
check_begin line b = elim b.kind [
  | class_info c ↦
      if is_some (Regex.search colon_pattern line)
      then record b { kind = class_info (record c { is_derived = true }) }
      else b
  | block ↦ b
  | extern_c ↦ b
  | namespace_info name ↦ b
]

-- `\b(DISALLOW_COPY_AND_ASSIGN|DISALLOW_IMPLICIT_CONSTRUCTORS)\(name\)`; a class's name is made of
-- words and colons, which stand for themselves in a pattern.
abbrev pub disallow_pattern : Text → Re
disallow_pattern name = seqs (
    word_boundary
    ∷ group 1 (alt (lit "DISALLOW_COPY_AND_ASSIGN") (lit "DISALLOW_IMPLICIT_CONSTRUCTORS"))
    ∷ lit "("
    ∷ exactly name
    ∷ lit ")"
    ∷ [])

-- `^\s*$` and `^( *)\}`
abbrev pub spaces_pattern : Re
spaces_pattern = seqs (bol ∷ star space ∷ eol ∷ [])

abbrev pub brace_indent_pattern : Re
brace_indent_pattern = seqs (bol ∷ group 1 (star (lit " ")) ∷ lit "}" ∷ [])

abbrev pub report : Text → ℕ → Text → ℕ → Text → Report
report filename linenum category confidence message = record {
  filename = filename;
  linenum = linenum;
  category = category;
  confidence = confidence;
  message = message;
}

-- the loop over the lines of the class from its end, `n` of them left
unfoldable pub check_disallow : Text → List Text → Text → ℕ → ℕ → Bool → List Report
check_disallow filename elided name starting_linenum zero seen = []
check_disallow filename elided name starting_linenum (suc n) seen =
    let i = starting_linenum + suc n in
    let line = get_or elided i [] in
    let seen' = seen || not (is_some (Regex.match spaces_pattern line)) in
    let later = check_disallow filename elided name starting_linenum n seen' in
    elim (Regex.search (disallow_pattern name) line) [
      | some m ↦
          if seen
          then report filename i (codes "readability/constructors") 3
              (concat (group_text m 1 ∷ codes " should be the last thing in the class" ∷ []))
            ∷ []
          else []
      | none ↦ later
    ]

abbrev pub class_name : ClassInfo → Text
class_name c = (if c.is_struct then codes "struct " else codes "class ") ++ c.name

unfoldable pub check_class_end : Text → CleansedLines → ℕ → Block → ClassInfo → List Report
unfolding check_disallow
check_class_end filename clean_lines linenum b c =
    check_disallow filename clean_lines.elided c.name b.starting_linenum
      (linenum - 1 - b.starting_linenum) false
    ++ elim (Regex.match brace_indent_pattern (get_or clean_lines.elided linenum [])) [
      | none ↦ []
      | some indent ↦
          if length (group_text indent 1) == c.class_indent
          then []
          else report filename linenum (codes "whitespace/indent") 3 (
              concat
                (codes "Closing brace should be aligned with beginning of " ∷ class_name c ∷ []))
            ∷ []
    ]

-- `^\s*};*\s*(//|/\*).*\bnamespace`, with what follows
abbrev pub namespace_end : Re → Re
namespace_end rest = seqs (
    bol
    ∷ star space
    ∷ lit "}"
    ∷ star (lit ";")
    ∷ star space
    ∷ group 1 (alt (lit "//") (lit "/*"))
    ∷ star dot
    ∷ word_boundary
    ∷ lit "namespace"
    ∷ rest
    ∷ [])

-- `[\*/\.\\\s]*$`
abbrev pub trailing_pattern : Re
trailing_pattern = seq (star (chr (λ c. one_of (codes "*/.\\") c || is_space c))) eol

-- `^\s*}.*\b(namespace anonymous|anonymous namespace)\b`
abbrev pub anonymous_pattern : Re
anonymous_pattern = seqs (
    bol
    ∷ star space
    ∷ lit "}"
    ∷ star dot
    ∷ word_boundary
    ∷ group 1 (alt (lit "namespace anonymous") (lit "anonymous namespace"))
    ∷ word_boundary
    ∷ [])

abbrev pub namespace_report : Text → ℕ → Text → Report
namespace_report filename linenum message =
    report filename linenum (codes "readability/namespace") 5 message

unfoldable pub check_namespace_end : Text → Text → ℕ → Block → Text → List Report
check_namespace_end filename line linenum b name =
    if ltb (linenum - b.starting_linenum) 10
      && not (is_some (Regex.match (namespace_end word_boundary) line))
    then []
    else elim name [
      | c ∷ cs ↦
          if is_some (
            Regex.match
              (namespace_end (seqs (plus space ∷ exactly (c ∷ cs) ∷ trailing_pattern ∷ []))) line)
          then []
          else namespace_report filename linenum (
              concat (
                codes "Namespace should be terminated with \"// namespace "
                ∷ (c ∷ cs)
                ∷ codes "\""
                ∷ []))
            ∷ []
      | [] ↦
          if is_some (Regex.match (namespace_end trailing_pattern) line)
          then []
          else if is_some (Regex.match anonymous_pattern line)
          then namespace_report filename linenum (
              concat (
                codes "Anonymous namespace should be terminated with \"// namespace\""
                ∷ codes " or \"// anonymous namespace\""
                ∷ []))
            ∷ []
          else namespace_report filename linenum
              (codes "Anonymous namespace should be terminated with \"// namespace\"")
            ∷ []
    ]

unfoldable pub check_end : Text → CleansedLines → ℕ → Block → List Report
unfolding check_class_end check_namespace_end
check_end filename clean_lines linenum b = elim b.kind [
  | block ↦ []
  | extern_c ↦ []
  | class_info c ↦ check_class_end filename clean_lines linenum b c
  | namespace_info name ↦
      check_namespace_end filename (get_or clean_lines.raw_lines linenum []) linenum b name
]
