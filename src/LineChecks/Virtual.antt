-- ===== src/LineChecks/Virtual.antt =====
-- `CheckRedundantVirtual` and `CheckRedundantOverrideOrFinal` (build_support/cpplint.py).
pub mod Reports
use lamp.Prelude.{
  ℕ, zero, suc, ◌+◌, ◌-◌, ◌≤◌, ◌<◌, Bool, true, false, not, ◌||◌, ◌&&◌, Option, none, some, List,
  [], ◌∷◌, ◌++◌, ◌≡◌, ◌⊎◌, inl, inr, refl, arith, ltb, ◌==◌, if◌then◌else◌, is_some, length,
  get_elem?, get_or, drop,
}
use mathlib.Core.Option
use lamp.Text.{Text, codes, concat}
use lamp.State.{Report}
use lamp.Regex
use lamp.Regex.{Re, seq, alt, star, group, bol, eol, word_boundary}
use lamp.Regex.Classes.{lit, except, space, dot, non_word, plus, seqs, alts}
use lamp.Cleanse.Raw.{group_text}
use lamp.Expression.{Place, close_expression}
use lamp.Nesting.Blocks.{report}

-- `^(.*)(\bvirtual\b)(.*)$`
abbrev pub virtual_pattern : Re
virtual_pattern = seqs (
    bol
    ∷ group 1 (star dot)
    ∷ group 2 (seqs (word_boundary ∷ lit "virtual" ∷ word_boundary ∷ []))
    ∷ group 3 (star dot)
    ∷ eol
    ∷ [])

abbrev pub access_words : Re
access_words = group 1 (alts (lit "public" ∷ lit "protected" ∷ lit "private" ∷ []))

-- `\b(public|protected|private)\s+$` and `^\s+(public|protected|private)\b`
abbrev pub access_before : Re
access_before = seqs (word_boundary ∷ access_words ∷ plus space ∷ eol ∷ [])

abbrev pub access_behind : Re
access_behind = seqs (bol ∷ plus space ∷ access_words ∷ word_boundary ∷ [])

-- `^.*[^:]:[^:].*$`
abbrev pub column_pattern : Re
column_pattern = seqs (bol ∷ star dot ∷ except ":" ∷ lit ":" ∷ except ":" ∷ star dot ∷ eol ∷ [])

-- `^([^(]*)\(`
abbrev pub parameter_list_pattern : Re
parameter_list_pattern = seqs (bol ∷ group 1 (star (except "(")) ∷ lit "(" ∷ [])

-- `\b(override|final)\b` and `[^\w]\s*$`
abbrev pub specifier_pattern : Re
specifier_pattern =
    seqs (word_boundary ∷ group 1 (alt (lit "override") (lit "final")) ∷ word_boundary ∷ [])

abbrev pub no_word_end : Re
no_word_end = seqs (non_word ∷ star space ∷ eol ∷ [])

-- The end of the parameter list, sought in `n` lines: the number of its line, and the position; no
-- position if there is no list, or no end. `none` is an exception.
unfoldable pub end_of_parameters : ℕ → List Text → ℕ → ℕ → Option (Option (ℕ × ℕ))
end_of_parameters zero elided start_line start_col = some none
end_of_parameters (suc n) elided start_line start_col =
    let later = end_of_parameters n elided (suc start_line) 0 in
    elim (Regex.match parameter_list_pattern (drop start_col (get_or elided start_line []))) [
      | none ↦ later
      | some parameter_list ↦
          Option.map (λ (q : Place). Option.map (λ p. (q.linenum, p)) q.pos)
            (close_expression elided start_line (start_col + length (group_text parameter_list 1)))
    ]

abbrev pub redundant_virtual : Text → ℕ → Text → Report
redundant_virtual filename linenum specifier =
    report filename linenum (codes "readability/inheritance") 4 (
      concat (
        codes "\"virtual\" is redundant since function is "
        ∷ codes "already declared as \""
        ∷ specifier
        ∷ codes "\""
        ∷ []))

-- the loop over the lines behind the parameters, `n` of them left
unfoldable pub find_specifiers : ℕ → Text → ℕ → List Text → ℕ → ℕ → List Report
find_specifiers zero filename linenum elided i end_col = []
find_specifiers (suc n) filename linenum elided i end_col =
    let line = drop end_col (get_or elided i []) in
    let later = find_specifiers n filename linenum elided (suc i) 0 in
    elim (Regex.search specifier_pattern line) [
      | none ↦ []
      | some m ↦ redundant_virtual filename linenum (group_text m 1) ∷ []
    ]
    ++ (if is_some (Regex.search no_word_end line) then [] else later)

-- so many lines at most are read
abbrev pub lines_left : List Text → ℕ → ℕ
lines_left elided i = if ltb (i + 3) (length elided) then 3 else length elided - i

unfoldable pub check_redundant_virtual : Text → List Text → ℕ → Option (List Report)
unfolding end_of_parameters find_specifiers
check_redundant_virtual filename elided linenum = elim (get_elem? elided linenum) [
  | none ↦ none
  | some line ↦ elim (Regex.match virtual_pattern line) [
    | none ↦ some []
    | some virtual ↦
        if is_some (Regex.search access_before (group_text virtual 1))
          || is_some (Regex.match access_behind (group_text virtual 3))
          || is_some (Regex.match column_pattern line)
        then some []
        else (elim (end_of_parameters (lines_left elided linenum) elided linenum
            (length (group_text virtual 2))) [
              | none ↦ none
              | some end ↦ elim end [
                | none ↦ some []
                | some e ↦
                    some (find_specifiers (lines_left elided e.0) filename linenum elided e.0 e.1)
              ]
            ])
  ]
]

-- `s.rfind(c)` for one character
unfoldable pub rfind : Text → ℕ → Option ℕ
rfind [] c = none
rfind (d ∷ s) c = elim (rfind s c) [
  | some i ↦ some (suc i)
  | none ↦ if d == c then some 0 else none
]

abbrev pub whole_word : Text → Re
whole_word w = seqs (word_boundary ∷ Regex.Classes.exactly w ∷ word_boundary ∷ [])

-- the text where the specifiers stand
unfoldable pub declarator_fragment : List Text → ℕ → Option Text
unfolding rfind
declarator_fragment elided linenum =
    let line = get_or elided linenum [] in
    elim (rfind line b')') [
      | some declarator_end ↦ some (drop declarator_end line)
      | none ↦
          if ltb 1 linenum && is_some (rfind (get_or elided (linenum - 1) []) b')')
          then some line
          else none
    ]

unfoldable pub check_redundant_override_or_final : Text → List Text → ℕ → List Report
unfolding declarator_fragment
check_redundant_override_or_final filename elided linenum =
    elim (declarator_fragment elided linenum) [
      | none ↦ []
      | some fragment ↦
          if is_some (Regex.search (whole_word (codes "override")) fragment)
            && is_some (Regex.search (whole_word (codes "final")) fragment)
          then report filename linenum (codes "readability/inheritance") 4 (
              concat (
                codes "\"override\" is redundant since function is "
                ∷ codes "already declared as \"final\""
                ∷ []))
            ∷ []
          else []
    ]
