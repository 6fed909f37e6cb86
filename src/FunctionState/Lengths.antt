-- ===== src/FunctionState/Lengths.antt =====
-- `CheckForFunctionLengths` (build_support/cpplint.py): the check that follows the functions of a file.
use lamp.Prelude.{
  ℕ, Bool, true, false, not, ◌||◌, Option, none, some, List, [], ◌∷◌, ◌++◌, if◌then◌else◌, is_some,
  get_elem?, drop,
}
use mathlib.Core.List.{reverse}
use mathlib.Core.Option
use lamp.Text.{Text, codes, ◌=t=◌, lstrip, is_space, is_upper}
use lamp.State.{Report}
use lamp.Regex
use lamp.Regex.{Re, chr, alt, star, group, bol, eol, group_of}
use lamp.Regex.Classes.{one_of, lit, space, word, dot, plus, seqs, alts}
use lamp.FunctionState.{FunctionState, begin, count_line, end, check}

-- `(\w(\w|::|\*|\&|\s)*)\(`
abbrev pub declaration_pattern : Re
declaration_pattern = seqs (
    group 1
      (seqs (word ∷ star (group 2 (alts (word ∷ lit "::" ∷ lit "*" ∷ lit "&" ∷ space ∷ []))) ∷ []))
    ∷ lit "("
    ∷ [])

-- `[A-Z_]+$`
abbrev pub macro_pattern : Re
macro_pattern = seqs (plus (chr (λ c. is_upper c || one_of (codes "_") c)) ∷ eol ∷ [])

-- `(;|})`
abbrev pub trivial_pattern : Re
trivial_pattern = group 1 (alt (lit ";") (lit "}"))

-- `((\w|:)*)\(`
abbrev pub name_pattern : Re
name_pattern = seqs (group 1 (star (group 2 (alt word (lit ":")))) ∷ lit "(" ∷ [])

-- `(\(.*\))`
abbrev pub parameters_pattern : Re
parameters_pattern = group 1 (seqs (lit "(" ∷ star dot ∷ lit ")" ∷ []))

-- `^\}\s*$` and `^\s*$`
abbrev pub end_pattern : Re
end_pattern = seqs (bol ∷ lit "}" ∷ star space ∷ eol ∷ [])

abbrev pub blank_pattern : Re
blank_pattern = seqs (bol ∷ star space ∷ eol ∷ [])

abbrev pub take_word : Text → Text
take_word [] = []
take_word (c ∷ s) = if is_space c then [] else c ∷ take_word s

-- `s.split()[-1]`; `none` is the `IndexError` of a text of spaces.
unfoldable pub last_word : Text → Option Text
last_word s = elim (take_word (lstrip (reverse s))) [ [] ↦ none | c ∷ t ↦ some (reverse (c ∷ t)) ]

-- `starting_func`
unfoldable pub starts_function : Text → Option Bool
unfolding last_word
starts_function line = elim (Regex.match declaration_pattern line) [
  | none ↦ some false
  | some m ↦
      Option.map
        (λ function_name.
          function_name =t= codes "TEST"
          || function_name =t= codes "TEST_F"
          || not (is_some (Regex.match macro_pattern function_name)))
        (Option.bind (group_of m 1) last_word)
]

-- the name that `Begin` is called with; `none` is the `AttributeError` of a line with no name
unfoldable pub function_of : Text → Text → Option Text
function_of line joined_line =
    Option.map
      (λ name.
        if is_some (Regex.match (lit "TEST") name)
        then (elim (Regex.search parameters_pattern joined_line) [
          | none ↦ name
          | some m ↦ name ++ Option.get_or (group_of m 1) []
        ])
        else name ++ codes "()")
      (Option.bind (Regex.search name_pattern line) (λ m. group_of m 1))

-- What the search for the body finds.
pub data Found : Type 0 where
  -- no body
  nothing : Found
  -- a declaration or a trivial function
  trivial : Found
  -- a function of that name
  body : Text → Found

unfoldable pub find_body : Text → Text → List Text → Option Found
unfolding function_of
find_body line joined_line [] = some nothing
find_body line joined_line (start_line ∷ rest) =
    let joined = joined_line ++ codes " " ++ lstrip start_line in
    let later = find_body line joined rest in
    if is_some (Regex.search trivial_pattern start_line)
    then some trivial
    else if is_some (Regex.search (lit "{") start_line)
    then Option.map body (function_of line joined)
    else later

abbrev pub missing_body : Text → ℕ → Report
missing_body filename linenum = record {
  filename = filename;
  linenum = linenum;
  category = codes "readability/fn_size";
  confidence = 5;
  message = codes "Lint failed to find start of function body.";
}

abbrev pub begin_found : Text → ℕ → FunctionState → Found → FunctionState × Option Report
begin_found filename linenum s nothing = (s, some (missing_body filename linenum))
begin_found filename linenum s trivial = (s, none)
begin_found filename linenum s (body function) = (begin s function, none)

unfoldable pub is_end : Text → Bool
is_end line = is_some (Regex.match end_pattern line)

unfoldable pub is_blank : Text → Bool
is_blank line = is_some (Regex.match blank_pattern line)

-- The state and the report, at the verbosity of the linter; `none` is an exception.
unfoldable pub check_for_function_lengths :
    ℕ → Text → List Text → ℕ → FunctionState → Option (FunctionState × Option Report)
unfolding starts_function find_body is_end is_blank
check_for_function_lengths verbose filename lines linenum s = elim (get_elem? lines linenum) [
  | none ↦ none
  | some line ↦ elim (starts_function line) [
    | none ↦ none
    | some true ↦
        Option.map (begin_found filename linenum s) (find_body line [] (drop linenum lines))
    | some false ↦
        if is_end line
        then some (end s, check verbose s filename linenum)
        else if not (is_blank line)
        then some (count_line s, none)
        else some (s, none)
  ]
]
