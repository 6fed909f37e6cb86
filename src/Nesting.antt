-- ===== src/Nesting.antt =====
-- Classes `_BlockInfo`, `_ExternCInfo`, `_ClassInfo`, `_NamespaceInfo`, `_PreprocessorInfo` and
-- `NestingState` (build_support/cpplint.py): their data, and what is asked of the stack.
pub mod Blocks
pub mod Preprocessor
pub mod Template
pub mod Heads
pub mod Update
pub mod Regions
pub mod Bodies
use lamp.Prelude.{
  ℕ, zero, suc, ◌+◌, ◌-◌, Bool, true, false, not, ◌&&◌, ◌||◌, Option, none, some, List, [], ◌∷◌,
  ◌++◌, ltb, leb, ◌==◌, if◌then◌else◌, length,
}
use lamp.Text.{Text, codes, concat}
use lamp.State.{Report}
use lamp.Int.{ℤ, pos}

pub data Asm : Type 0 where
  no_asm inside_asm end_asm block_asm : Asm

pub record ClassInfo : Type 0 where
  pub name : Text
  pub is_derived : Bool
  pub access : Text
  pub is_struct : Bool
  pub class_indent : ℕ
  pub last_line : ℕ

-- the class of the object
pub data Kind : Type 0 where
  block extern_c : Kind
  class_info : ClassInfo → Kind
  namespace_info : Text → Kind

pub record Block : Type 0 where
  pub starting_linenum : ℕ
  pub seen_open_brace : Bool
  pub open_parentheses : ℤ
  pub inline_asm : Asm
  pub check_namespace_indentation : Bool
  pub kind : Kind

abbrev pub Stack : Type 0
Stack = List Block

pub record PreprocessorInfo : Type 0 where
  pub stack_before_if : Stack
  pub stack_before_else : Stack
  pub seen_else : Bool

-- The tops of the stacks come first. The object that `previous_stack_top` holds is at first the top
-- of the stack too: `previous_index` is its index in the stack, counted from the bottom, as long as
-- it stands there. Of the object itself the linter reads the class, which does not change.
pub record NestingState : Type 0 where
  pub stack : Stack
  pub previous_stack_top : Option Block
  pub previous_index : Option ℕ
  pub pp_stack : List PreprocessorInfo

abbrev pub init_nesting_state : NestingState
init_nesting_state = record {
  stack = [];
  previous_stack_top = none;
  previous_index = none;
  pp_stack = [];
}

-- `_BlockInfo(linenum, seen_open_brace)`, of that class
abbrev pub block_info : ℕ → Bool → Kind → Bool → Block
block_info linenum seen_open_brace kind check = record {
  starting_linenum = linenum;
  seen_open_brace = seen_open_brace;
  open_parentheses = pos 0;
  inline_asm = no_asm;
  check_namespace_indentation = check;
  kind = kind;
}

abbrev pub is_namespace_info : Block → Bool
is_namespace_info b = elim b.kind [
  | namespace_info name ↦ true
  | block ↦ false
  | extern_c ↦ false
  | class_info c ↦ false
]

abbrev pub is_class_info : Block → Bool
is_class_info b = elim b.kind [
  | class_info c ↦ true
  | block ↦ false
  | extern_c ↦ false
  | namespace_info name ↦ false
]

abbrev pub is_extern_c_info : Block → Bool
is_extern_c_info b = elim b.kind [
  | extern_c ↦ true
  | block ↦ false
  | class_info c ↦ false
  | namespace_info name ↦ false
]

-- `_BlockInfo.IsBlockInfo`
abbrev pub is_block_info : Block → Bool
is_block_info b = elim b.kind [
  | block ↦ true
  | extern_c ↦ false
  | class_info c ↦ false
  | namespace_info name ↦ false
]

abbrev pub is_no_asm : Asm → Bool
is_no_asm no_asm = true
is_no_asm inside_asm = false
is_no_asm end_asm = false
is_no_asm block_asm = false

-- a test of the top of the stack, which an empty stack fails
abbrev pub on_top : (Block → Bool) → Stack → Bool
on_top p [] = false
on_top p (b ∷ st) = p b

abbrev pub seen_open_brace : Stack → Bool
seen_open_brace st = not (on_top (λ b. not b.seen_open_brace) st)

abbrev pub in_namespace_body : Stack → Bool
in_namespace_body st = on_top is_namespace_info st

abbrev pub in_extern_c : Stack → Bool
in_extern_c st = on_top is_extern_c_info st

abbrev pub in_class_declaration : Stack → Bool
in_class_declaration st = on_top is_class_info st

abbrev pub in_asm_block : Stack → Bool
in_asm_block st = on_top (λ b. not (is_no_asm b.inline_asm)) st

-- `InnermostClass`
unfoldable pub innermost_class : Stack → Option ClassInfo
innermost_class [] = none
innermost_class (b ∷ st) =
    let below = innermost_class st in
    elim b.kind [
      | class_info c ↦ some c
      | block ↦ below
      | extern_c ↦ below
      | namespace_info name ↦ below
    ]

abbrev pub push : Block → NestingState → NestingState
push b s = record s { stack = b ∷ s.stack }

-- Where the object that `previous_stack_top` holds stands once only so many are left.
abbrev pub index_below : ℕ → Option ℕ → Option ℕ
index_below n none = none
index_below n (some i) = if ltb i n then some i else none

-- `stack.pop()`; the source asks first whether there is a top.
abbrev pub pop : NestingState → NestingState
pop s = elim s.stack [
  | [] ↦ s
  | b ∷ st ↦ record s { stack = st; previous_index = index_below (length st) s.previous_index }
]

-- a change of the top of the stack
abbrev pub on_head : (Block → Block) → Stack → Stack
on_head f [] = []
on_head f (b ∷ st) = f b ∷ st

abbrev pub modify_top : (Block → Block) → NestingState → NestingState
modify_top f s = record s { stack = on_head f s.stack }

-- The stack replaced by other objects.
abbrev pub replace_stack : Stack → NestingState → NestingState
replace_stack st s = record s { stack = st; previous_index = none }

abbrev pub incomplete_block : Text → Block → List Report
incomplete_block filename b = elim b.kind [
  | block ↦ []
  | extern_c ↦ []
  | class_info c ↦
      record {
        filename = filename;
        linenum = b.starting_linenum;
        category = codes "build/class";
        confidence = 5;
        message = concat (codes "Failed to find complete declaration of class " ∷ c.name ∷ []);
      }
      ∷ []
  | namespace_info name ↦
      record {
        filename = filename;
        linenum = b.starting_linenum;
        category = codes "build/namespaces";
        confidence = 5;
        message = concat (codes "Failed to find complete declaration of namespace " ∷ name ∷ []);
      }
      ∷ []
]

-- `CheckCompletedBlocks`: from the bottom of the stack to its top
unfoldable pub check_completed_blocks : Text → Stack → List Report
check_completed_blocks filename [] = []
check_completed_blocks filename (b ∷ st) =
    check_completed_blocks filename st ++ incomplete_block filename b
