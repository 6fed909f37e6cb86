-- ===== src/LineChecks/Namespaces.antt =====
-- `CheckForNamespaceIndentation` (build_support/cpplint.py), with the functions that it asks.
use lamp.Prelude.{
  ℕ, ◌-◌, Bool, false, not, ◌||◌, ◌&&◌, Option, none, some, List, [], ◌∷◌, ltb, ◌==◌, if◌then◌else◌,
  is_some, length, get_or,
}
use lamp.Text.{Text, codes}
use lamp.State.{Report}
use lamp.Regex
use lamp.Regex.{Re, seq, star, group, bol, eol, word_boundary}
use lamp.Regex.Classes.{lit, space, word, dot, plus, seqs}
use lamp.Nesting.{Block, NestingState, Stack, is_namespace_info}
use lamp.Nesting.Blocks.{report}

-- `^#define` and `\\$`
abbrev pub define_pattern : Re
define_pattern = seq bol (lit "#define")

abbrev pub continued_pattern : Re
continued_pattern = seq (lit "\\") eol

unfoldable pub is_macro_definition : List Text → ℕ → Bool
is_macro_definition lines linenum =
    is_some (Regex.search define_pattern (get_or lines linenum []))
    || (ltb 0 linenum && is_some (Regex.search continued_pattern (get_or lines (linenum - 1) [])))

-- `^\s*(\btemplate\b)*.*class\s+\w+;\s*$`
abbrev pub forward_class_pattern : Re
forward_class_pattern = seqs (
    bol
    ∷ star space
    ∷ star (group 1 (seqs (word_boundary ∷ lit "template" ∷ word_boundary ∷ [])))
    ∷ star dot
    ∷ lit "class"
    ∷ plus space
    ∷ plus word
    ∷ lit ";"
    ∷ star space
    ∷ eol
    ∷ [])

unfoldable pub is_forward_class_declaration : List Text → ℕ → Bool
is_forward_class_declaration lines linenum =
    is_some (Regex.match forward_class_pattern (get_or lines linenum []))

unfoldable pub is_block_in_name_space : Stack → Bool → Bool
is_block_in_name_space [] is_forward_declaration = false
is_block_in_name_space (b ∷ []) is_forward_declaration =
    if is_forward_declaration then is_namespace_info b else false
is_block_in_name_space (b ∷ c ∷ st) is_forward_declaration =
    if is_forward_declaration
    then is_namespace_info b
    else b.check_namespace_indentation && is_namespace_info c

unfoldable pub should_check_namespace_indentation : Stack → Bool → List Text → ℕ → Bool
unfolding is_macro_definition is_forward_class_declaration is_block_in_name_space
should_check_namespace_indentation st is_namespace_indent_item lines linenum =
    let is_forward_declaration = is_forward_class_declaration lines linenum in
    if not (is_namespace_indent_item || is_forward_declaration)
    then false
    else if is_macro_definition lines linenum
    then false
    else is_block_in_name_space st is_forward_declaration

-- `^\s+`
abbrev pub indented_pattern : Re
indented_pattern = seq bol (plus space)

unfoldable pub check_item_indentation_in_namespace : Text → List Text → ℕ → List Report
check_item_indentation_in_namespace filename lines linenum =
    if is_some (Regex.match indented_pattern (get_or lines linenum []))
    then report filename linenum (codes "runtime/indentation_namespace") 4
        (codes "Do not indent within a namespace")
      ∷ []
    else []

-- the object that `previous_stack_top` holds is the one at that place of the stack
abbrev pub is_at : ℕ → Option ℕ → Bool
is_at i none = false
is_at i (some j) = i == j

abbrev pub is_previous_namespace : Option Block → Bool
is_previous_namespace none = false
is_previous_namespace (some b) = is_namespace_info b

unfoldable pub is_indent_item : NestingState → Bool
is_indent_item s = elim s.stack [
  | [] ↦ false
  | b ∷ st ↦ elim st [
    | [] ↦ false
    | c ∷ below ↦
        b.check_namespace_indentation
        && is_previous_namespace s.previous_stack_top
        && is_at (length below) s.previous_index
  ]
]

unfoldable pub check_for_namespace_indentation : Text → NestingState → List Text → ℕ → List Report
unfolding is_indent_item should_check_namespace_indentation check_item_indentation_in_namespace
check_for_namespace_indentation filename s lines linenum =
    if should_check_namespace_indentation s.stack (is_indent_item s) lines linenum
    then check_item_indentation_in_namespace filename lines linenum
    else []
