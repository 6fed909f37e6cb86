-- ===== src/LineChecks/Virtual/Reports.antt =====
-- `CheckRedundantVirtual` returns, and where its reports stand.
use lamp.Prelude.{
  ℕ, zero, suc, ◌+◌, ◌≤◌, ◌<◌, Bool, true, false, ◌||◌, Option, none, some, List, [], ◌∷◌, ◌++◌,
  ◌≡◌, inl, inr, refl, sym, ◌∙◌, arith, ◌==◌, if◌then◌else◌, if_rule, length, get_or,
  get_elem?_of_lt, get_elem?-in, get_or_of_get_elem?, get_elem?-drop, drop, is_some, All,
  Option-cases,
}
use mathlib.Core.Option
use lamp.Text.{Text}
use lamp.State.{Report}
use lamp.Regex
use lamp.Regex.Behind.{behind_group}
use lamp.Regex.{At, star, group_of}
use lamp.Regex.Classes.{except}
use lamp.Cleanse.Raw.{group_text}
use lamp.Expression.Advance.{close_expression-Ahead}
use lamp.LineChecks.Virtual.{
  parameter_list_pattern, specifier_pattern, no_word_end, end_of_parameters, find_specifiers,
  lines_left, virtual_pattern, access_before, access_behind, column_pattern,
  check_redundant_virtual, redundant_virtual,
}

end_of_parameters_total :
    (n : ℕ) (elided : List Text) (start_line start_col : ℕ)
    → start_line + n ≤ length elided
    → (r : Option (ℕ × ℕ)) × (end_of_parameters n elided start_line start_col ≡ some r)
unfolding end_of_parameters
end_of_parameters_total zero elided start_line start_col h = (none, refl)
end_of_parameters_total (suc n) elided start_line start_col h =
    let (line, at) = get_elem?_of_lt elided start_line (omega arith) in
    let here = get_or_of_get_elem? elided start_line [] at in
    elim (Option-cases (Regex.match parameter_list_pattern (drop start_col line))) [
      | inl e ↦
          let (r, e') = end_of_parameters_total n elided (suc start_line) 0 (omega arith) in
          (r, rw (here, end_of_parameters) (rw (e, end_of_parameters) e'))
      | inr (m, e) ↦
          let (c, at') =
            behind_group (star (except "(")) (λ d. d == b'(') (drop start_col line) m e in
          let at'' = sym (get_elem?-drop start_col (length (group_text m 1)) line) ∙ at' in
          let inside = get_elem?-in line (start_col + length (group_text m 1)) at'' in
          let (q, e', _) =
            close_expression-Ahead elided start_line (start_col + length (group_text m 1)) c line at
              at'' (omega arith) in
          (
            Option.map (λ p. (q.linenum, p)) q.pos,
            rw (here, end_of_parameters) (rw (e, end_of_parameters) (rw e' refl)),
          )
    ]

-- a report on the line where `virtual` stands
abbrev pub IsOn : ℕ → Report → Type 0
IsOn linenum r = r.linenum ≡ linenum

find_specifiers_lem :
    (n : ℕ) (filename : Text) (linenum : ℕ) (elided : List Text) (i end_col : ℕ)
    → All (IsOn linenum) (find_specifiers n filename linenum elided i end_col)
      × (length (find_specifiers n filename linenum elided i end_col) ≤ n)
unfolding find_specifiers
find_specifiers_lem zero filename linenum elided i end_col = (tt, omega arith)
find_specifiers_lem (suc n) filename linenum elided i end_col =
    both (Regex.search specifier_pattern (drop end_col (get_or elided i [])))
      (is_some (Regex.search no_word_end (drop end_col (get_or elided i []))))
      (find_specifiers n filename linenum elided (suc i) 0)
      (find_specifiers_lem n filename linenum elided (suc i) 0)
  where
    both :
        (o : Option At) (b : Bool) (later : List Report)
        → All (IsOn linenum) later × (length later ≤ n)
        → All (IsOn linenum) (
            elim o [ none ↦ [] | some m ↦ redundant_virtual filename linenum (group_text m 1) ∷ [] ]
            ++ (if b then [] else later))
          × (length (
                elim o [
                  | none ↦ []
                  | some m ↦ redundant_virtual filename linenum (group_text m 1) ∷ []
                ]
                ++ (if b then [] else later))
              ≤ suc n)
    both none true later (h, l) = (tt, omega arith)
    both none false later (h, l) = (h, omega arith)
    both (some m) true later (h, l) = ((refl, tt), omega arith)
    both (some m) false later (h, l) = ((refl, h), omega arith)

lines_left_lem :
    (elided : List Text) (i : ℕ) → i ≤ length elided → i + lines_left elided i ≤ length elided
lines_left_lem elided i h = ground arith

at_most_3 : (elided : List Text) (i : ℕ) → lines_left elided i ≤ 3
at_most_3 elided i = ground arith

-- a result with at most three reports, all on that line
abbrev pub IsVerdict : ℕ → Option (List Report) → Type 0
IsVerdict linenum o = (rs : List Report) × (o ≡ some rs) × All (IsOn linenum) rs × (length rs ≤ 3)

-- For a line of the file `CheckRedundantVirtual` returns, with at most three reports, all on that line.
pub check_redundant_virtual_total :
    (filename : Text) (elided : List Text) (linenum : ℕ)
    → linenum < length elided
    → IsVerdict linenum (check_redundant_virtual filename elided linenum)
unfolding check_redundant_virtual
check_redundant_virtual_total filename elided linenum h =
    let (line, at) = get_elem?_of_lt elided linenum h in
    rw (at, check_redundant_virtual) (of_virtual line (Regex.match virtual_pattern line))
  where
    nothing : IsVerdict linenum (some [])
    nothing = ([], refl, tt, omega arith)

    of_end :
        (o : Option (Option (ℕ × ℕ)))
        → (r : Option (ℕ × ℕ)) × (o ≡ some r)
        → IsVerdict linenum (elim o [
          | none ↦ none
          | some end ↦ elim end [
            | none ↦ some []
            | some e ↦
                some (find_specifiers (lines_left elided e.0) filename linenum elided e.0 e.1)
          ]
        ])
    of_end none (r, e) = cc
    of_end (some none) (r, e) = nothing
    of_end (some (some (i, c))) (r, e) =
        let (on, l) = find_specifiers_lem (lines_left elided i) filename linenum elided i c in
        let l' = at_most_3 elided i in (_, refl, on, omega arith)

    of_virtual :
        (line : Text) (o : Option At)
        → IsVerdict linenum (elim o [
          | none ↦ some []
          | some virtual ↦
              if is_some (Regex.search access_before (group_text virtual 1))
                || is_some (Regex.match access_behind (group_text virtual 3))
                || is_some (Regex.match column_pattern line)
              then some []
              else (elim (end_of_parameters
                  (lines_left elided linenum)
                  elided
                  linenum
                  (length (group_text virtual 2))) [
                    | none ↦ none
                    | some end ↦ elim end [
                      | none ↦ some []
                      | some e ↦
                          some (
                            find_specifiers (lines_left elided e.0) filename linenum elided e.0 e.1)
                    ]
                  ])
        ])
    of_virtual line none = nothing
    of_virtual line (some virtual) =
        if_rule (IsVerdict linenum)
          (is_some (Regex.search access_before (group_text virtual 1))
            || is_some (Regex.match access_behind (group_text virtual 3))
            || is_some (Regex.match column_pattern line))
          _ _ (λ _. nothing)
          (λ _.
            of_end
              (end_of_parameters (lines_left elided linenum) elided linenum
                (length (group_text virtual 2)))
              (end_of_parameters_total (lines_left elided linenum) elided linenum
                (length (group_text virtual 2)) (lines_left_lem elided linenum (omega arith))))
