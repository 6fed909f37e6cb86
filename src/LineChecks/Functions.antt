-- ===== src/LineChecks/Functions.antt =====
-- `IsDerivedFunction`, `IsOutOfLineMethodDefinition` and `IsInitializerList`
-- (build_support/cpplint.py): what the lines up to a line say of it.
pub mod Initializers
use lamp.Prelude.{
  ℕ, zero, suc, ◌-◌, Bool, true, false, ◌||◌, Option, none, some, List, [], ◌∷◌, ltb, if◌then◌else◌,
  is_some, length, get_or, drop,
}
use lamp.Text.{Text}
use lamp.Regex
use lamp.Regex.{Re, At, chr, seq, star, group, bol, eol, word_boundary}
use lamp.Regex.Classes.{lit, among, except, space, word, dot, plus, seqs}
use lamp.Cleanse.Raw.{group_text}
use lamp.Expression.{close_expression}

-- `[^()]*\w+`, and `^([^()]*\w+)\(`
abbrev pub function_name : Re
function_name = seq (star (except "()")) (plus word)

abbrev pub function_pattern : Re
function_pattern = seqs (bol ∷ group 1 function_name ∷ lit "(" ∷ [])

-- `\boverride\b`
abbrev pub override_pattern : Re
override_pattern = seqs (word_boundary ∷ lit "override" ∷ word_boundary ∷ [])

-- so many lines are read, back from a line
abbrev pub lines_back : ℕ → ℕ
lines_back linenum = if ltb linenum 10 then suc linenum else 10

-- `n` lines are left, from line `i` back; `none` is an exception.
unfoldable pub derived_from : ℕ → List Text → ℕ → Option Bool
derived_from zero elided i = some false
derived_from (suc n) elided i =
    let before = derived_from n elided (i - 1) in
    elim (Regex.match function_pattern (get_or elided i [])) [
      | none ↦ before
      | some m ↦ elim (close_expression elided i (length (group_text m 1))) [
        | none ↦ none
        | some q ↦ elim q.pos [
          | none ↦ some false
          | some closing_paren ↦
              some (is_some (Regex.search override_pattern (drop closing_paren q.line)))
        ]
      ]
    ]

unfoldable pub is_derived_function : List Text → ℕ → Option Bool
unfolding derived_from
is_derived_function elided linenum = derived_from (lines_back linenum) elided linenum

-- `^[^()]*\w+::\w+\(`
abbrev pub method_pattern : Re
method_pattern = seqs (bol ∷ star (except "()") ∷ plus word ∷ lit "::" ∷ plus word ∷ lit "(" ∷ [])

unfoldable pub method_from : ℕ → List Text → ℕ → Bool
method_from zero elided i = false
method_from (suc n) elided i =
    let before = method_from n elided (i - 1) in
    let line = get_or elided i [] in
    if is_some (Regex.match function_pattern line)
    then is_some (Regex.match method_pattern line)
    else before

unfoldable pub is_out_of_line_method_definition : List Text → ℕ → Bool
unfolding method_from
is_out_of_line_method_definition elided linenum = method_from (lines_back linenum) elided linenum

-- `^(.*)\{\s*$`, `\s:\s*\w+[({]`, `\}\s*,\s*$` and `[{};]\s*$`
abbrev pub body_pattern : Re
body_pattern = seqs (bol ∷ group 1 (star dot) ∷ lit "{" ∷ star space ∷ eol ∷ [])

abbrev pub initializer_pattern : Re
initializer_pattern = seqs (space ∷ lit ":" ∷ star space ∷ plus word ∷ among "({" ∷ [])

abbrev pub member_pattern : Re
member_pattern = seqs (lit "}" ∷ star space ∷ lit "," ∷ star space ∷ eol ∷ [])

abbrev pub end_of_code_pattern : Re
end_of_code_pattern = seqs (among "{};" ∷ star space ∷ eol ∷ [])

unfoldable pub without_body : Text → Text
without_body line = elim (Regex.match body_pattern line) [
  | none ↦ line
  | some remove_function_body ↦ group_text remove_function_body 1
]

-- what a line says, if it says it
unfoldable pub initializer_verdict : Text → Option Bool
initializer_verdict line =
    if is_some (Regex.search initializer_pattern line) || is_some (Regex.search member_pattern line)
    then some true
    else if is_some (Regex.search end_of_code_pattern line)
    then some false
    else none

-- the lines from `i` back to line 2
unfoldable pub initializer_from : List Text → ℕ → Bool
unfolding initializer_verdict
initializer_from elided zero = false
initializer_from elided (suc zero) = false
initializer_from elided (suc (suc i)) =
    let before = initializer_from elided (suc i) in
    elim (initializer_verdict (get_or elided (suc (suc i)) [])) [ some b ↦ b | none ↦ before ]

unfoldable pub is_initializer_list : List Text → ℕ → Bool
unfolding without_body initializer_from initializer_verdict
is_initializer_list elided linenum =
    if ltb 1 linenum
    then (elim (initializer_verdict (without_body (get_or elided linenum []))) [
      | some b ↦ b
      | none ↦ initializer_from elided (linenum - 1)
    ])
    else false
