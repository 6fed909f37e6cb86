-- ===== src/IncludeState.antt =====
-- Class `_IncludeState`: the includes seen and the section they are in (build_support/cpplint.py).
-- An index past the end of the lines yields the empty line; `linenum - 1` at 0 is the last line.
pub mod Order
pub mod Headers
use lamp.Prelude.{
  ℕ, zero, suc, ◌-◌, Bool, true, false, not, ◌&&◌, Option, none, some, List, [], ◌∷◌, ◌++◌, leb,
  if◌then◌else◌, is_some, length, get_or,
}
use lamp.Text.{Text, codes, ◌=t=◌, text_lt, mem_text, replace, lower, concat}
use lamp.Regex
use lamp.Regex.{Re, bol, star, word_boundary}
use lamp.Regex.Classes.{lit, space, seqs}

pub data HeaderType : Type 0 where
  c_sys_header cpp_sys_header likely_my_header possible_my_header other_header : HeaderType

pub data Section : Type 0 where
  initial_section my_h_section c_section cpp_section other_h_section : Section

-- the numbers of the sections
abbrev pub rank : Section → ℕ
rank initial_section = 0
rank my_h_section = 1
rank c_section = 2
rank cpp_section = 3
rank other_h_section = 4

abbrev pub type_name : HeaderType → Text
type_name c_sys_header = codes "C system header"
type_name cpp_sys_header = codes "C++ system header"
type_name likely_my_header = codes "header this file implements"
type_name possible_my_header = codes "header this file may implement"
type_name other_header = codes "other header"

abbrev pub section_name : Section → Text
section_name initial_section = codes "... nothing. (This can't be an error.)"
section_name my_h_section = codes "a header this file implements"
section_name c_section = codes "C system header"
section_name cpp_section = codes "C++ system header"
section_name other_h_section = codes "other header"

-- `_section` and `_last_header` stand beside the list of lists of headers with their lines.
pub record IncludeState : Type 0 where
  pub include_list : List (List (Text × ℕ))
  pub section : Section
  pub last_header : Text

find_in : Text → List (Text × ℕ) → Option ℕ
find_in header [] = none
find_in header ((h, n) ∷ hs) = if h =t= header then some n else find_in header hs

abbrev pub first_of_two : Option ℕ → Option ℕ → Option ℕ
first_of_two (some n) o = some n
first_of_two none o = o

find_in_sections : Text → List (List (Text × ℕ)) → Option ℕ
find_in_sections header [] = none
find_in_sections header (s ∷ ss) = first_of_two (find_in header s) (find_in_sections header ss)

-- The line of the first include of the header; `none` stands for -1.
unfoldable pub find_header : IncludeState → Text → Option ℕ
unfolding find_in_sections find_in
find_header s header = find_in_sections header s.include_list

-- `include_list[-1] = f(include_list[-1])`
on_last : (List (Text × ℕ) → List (Text × ℕ)) → List (List (Text × ℕ)) → List (List (Text × ℕ))
on_last f [] = []
on_last f (s ∷ []) = f s ∷ []
on_last f (s ∷ t ∷ ss) = s ∷ on_last f (t ∷ ss)

unfoldable pub reset_section : IncludeState → Text → IncludeState
unfolding on_last
reset_section s directive = record {
  include_list =
      if mem_text directive (codes "if" ∷ codes "ifdef" ∷ codes "ifndef" ∷ [])
      then s.include_list ++ [] ∷ []
      else if mem_text directive (codes "else" ∷ codes "elif" ∷ [])
      then on_last (λ _. []) s.include_list
      else s.include_list;
  section = initial_section;
  last_header = [];
}

-- `include_list[-1].append((include, linenum))`, as `CheckIncludeLine` does
unfoldable pub add_include : IncludeState → Text → ℕ → IncludeState
unfolding on_last
add_include s header linenum = record s {
  include_list = on_last (λ hs. hs ++ (header, linenum) ∷ []) s.include_list;
}

abbrev pub init_include_state : IncludeState
init_include_state = record { include_list = [] ∷ []; section = initial_section; last_header = [] }

abbrev pub set_last_header : IncludeState → Text → IncludeState
set_last_header s header_path = record s { last_header = header_path }

unfoldable pub canonicalize_alphabetical_order : Text → Text
canonicalize_alphabetical_order header_path =
    lower (replace (replace header_path (codes "-inl.h") (codes ".h")) (codes "-") (codes "_"))

-- `^\s*#\s*include\b`
abbrev include_line_pattern : Re
include_line_pattern =
    seqs (bol ∷ star space ∷ lit "#" ∷ star space ∷ lit "include" ∷ word_boundary ∷ [])

abbrev line_before : List Text → ℕ → Text
line_before lines zero = get_or lines (length lines - 1) []
line_before lines (suc n) = get_or lines n []

unfoldable pub is_in_alphabetical_order : IncludeState → List Text → ℕ → Text → Bool
is_in_alphabetical_order s elided linenum header_path = not (
    text_lt header_path s.last_header
    && is_some (Regex.match include_line_pattern (line_before elided linenum)))

abbrev pub order_message : HeaderType → Section → Text
order_message t s = concat (codes "Found " ∷ type_name t ∷ codes " after " ∷ section_name s ∷ [])

-- The section after a header, or `none` where the message is returned.
abbrev pub next_section : Section → HeaderType → Option Section
next_section s c_sys_header = if leb (rank s) (rank c_section) then some c_section else none
next_section s cpp_sys_header = if leb (rank s) (rank cpp_section) then some cpp_section else none
next_section s likely_my_header =
    some (if leb (rank s) (rank my_h_section) then my_h_section else other_h_section)
next_section s possible_my_header =
    some (if leb (rank s) (rank my_h_section) then my_h_section else other_h_section)
next_section s other_header = some other_h_section

abbrev same_section : Section → Section → Bool
same_section s t = leb (rank s) (rank t) && leb (rank t) (rank s)

-- The state after it, and the message: the empty text if the header is in order.
unfoldable pub check_next_include_order : IncludeState → HeaderType → IncludeState × Text
check_next_include_order s t = elim (next_section s.section t) [
  | none ↦ (record s { last_header = [] }, order_message t s.section)
  | some section ↦ (
    record s {
      section = section;
      last_header = if same_section s.section section then s.last_header else [];
    },
    [],
  )
]
