-- ===== src/Tests/Nesting.antt =====
-- The stack of blocks.
use lamp.Prelude.{
  ℕ, zero, suc, true, false, Option, none, some, List, [], ◌∷◌, ◌++◌, ◌<◌, ◌≡◌, refl, map, arith,
  length, All,
}
use lamp.Text.{Text, codes, find, ◌=t=◌, count, concat}
use lamp.State.{Report}
use lamp.Regex
use lamp.Expression.{close_expression, drop_angles, ends_in_operator, end_step, scan_end}
use lamp.Cleanse.Lines.{CleansedLines}
use lamp.Nesting.{
  NestingState, init_nesting_state, block_info, Kind, Block, block, class_info, namespace_info,
  check_completed_blocks,
}
use lamp.Nesting.Blocks.{check_end, check_begin, class_block}
use lamp.Nesting.Preprocessor.{update_preprocessor, is_if, is_else, is_endif}
use lamp.Nesting.Template.{in_template_argument_list}
use lamp.Nesting.Update.{update, update_blocks}
use lamp.Nesting.Update.Total.{update_total}
use lamp.Nesting.Regions.{
  Region, nothing, line_then, conditional, endif, else_then, lines_of, IsRegion, shown,
  with_conditionals, effect, updates,
}
use lamp.Nesting.Regions.Machine.{updates-effect}
use lamp.Nesting.Bodies.{depth, IsQuiet, Deeper}
use lamp.Nesting.Bodies.Closing.{update-closing}
use lamp.Nesting.Bodies.Lines.{updates-depth}
use lamp.Nesting.Update.Blocks.{IsWellState}
use lamp.Nesting.Update.Invariant.{Succeeds, updates-IsWellState}
use lamp.Nesting.Update.Completed.{check_completed_blocks-updates}
use lamp.Logged.{ret, ◌>>=◌}

nesting : Unit {0}
unfolding ◌=t=◌ find count Regex.match Regex.search Regex.group_of check_end check_begin class_block
    check_completed_blocks update_preprocessor is_if is_else is_endif update update_blocks
    in_template_argument_list close_expression drop_angles ends_in_operator end_step scan_end
nesting = tt

-- the updates for all lines in turn
run : CleansedLines → ℕ → ℕ → NestingState → Option (NestingState × List Report)
run c zero i s = some (s, [])
run c (suc n) i s = elim (update (codes "a.cc") c i s) [
  | none ↦ none
  | some r ↦ elim (run c n (suc i) r.0) [ none ↦ none | some q ↦ some (q.0, r.1 ++ q.1) ]
]

abbrev program : List Text
program =
    codes "namespace a {"
    ∷ codes "class B : public C {"
    ∷ codes " public:"
    ∷ codes "  int f() { return 0; }"
    ∷ codes "#if X"
    ∷ codes "  void g() {"
    ∷ codes "#else"
    ∷ codes "  void h() {"
    ∷ codes "#endif"
    ∷ []

outcome : Option (NestingState × List Report)
unfolding run
outcome =
    run
      (record {
        elided = program;
        lines = program;
        raw_lines = program;
        num_lines = 9;
        lines_without_raw_strings = program;
      })
      9 0 init_nesting_state

-- the classes of the blocks, and the lines where they begin
abbrev shape : Option (NestingState × List Report) → Option (List (Kind × ℕ) × List Report)
shape none = none
shape (some r) = some (map (λ (b : Block). (b.kind, b.starting_linenum)) r.0.stack, r.1)

nesting_test :
    shape outcome
    ≡ some (
      (block, 5)
          ∷ (
            class_info (record {
              name = codes "B";
              is_derived = true;
              access = codes "public";
              is_struct = false;
              class_indent = 0;
              last_line = 0;
            }),
            1,
          )
          ∷ (namespace_info (codes "a"), 0)
          ∷ [],
      [],
    )
unfolding nesting outcome
nesting_test = refl

abbrev file_of : List Text → CleansedLines
file_of ls = record {
  elided = ls;
  lines = ls;
  raw_lines = ls;
  num_lines = length ls;
  lines_without_raw_strings = ls;
}

abbrev two_heads : Region
two_heads =
    conditional (codes "#if X") (line_then (codes "void g() {") nothing)
      (else_then (codes "#else") (line_then (codes "void h() {") nothing) (endif (codes "#endif")))
      (line_then (codes "}") nothing)

two_heads-IsRegion : IsRegion two_heads
unfolding nesting IsRegion
two_heads-IsRegion = (
  refl,
  ((refl, refl, refl), tt),
  ((refl, refl), ((refl, refl, refl), tt), (refl, refl, refl)),
  ((refl, refl, refl), tt),
)

updates_example :
    (updates (codes "a.cc") (file_of (lines_of two_heads)) 6 0 init_nesting_state >>= λ t.
    ret (shown t))
    ≡ (effect (codes "a.cc") (file_of (lines_of two_heads)) two_heads 0 [] >>= λ st.
        ret (with_conditionals [] st))
unfolding lines_of
updates_example =
    updates-effect (codes "a.cc") (file_of (lines_of two_heads)) two_heads [] 0 init_nesting_state
      refl two_heads-IsRegion

update_total_example :
    (s' : NestingState) × (reports : List Report) × (update
        (codes "a.cc")
        (file_of program)
        1
        init_nesting_state
      ≡ some (s', reports))
update_total_example =
    update_total (codes "a.cc") (file_of program) 1 init_nesting_state (omega arith)

abbrev body : List Text
body = codes "  if (x) {" ∷ codes "    y(); } else {" ∷ codes "  }" ∷ codes "  f([&] {" ∷ []

abbrev in_namespace : NestingState
in_namespace = record init_nesting_state {
  stack = block_info 0 true (namespace_info (codes "a")) true ∷ [];
}

body-IsQuiet : All IsQuiet body
unfolding nesting
body-IsQuiet = (
  ((refl, refl, refl), refl, refl, refl, refl),
  (
    ((refl, refl, refl), refl, refl, refl, refl),
    (
      ((refl, refl, refl), refl, refl, refl, refl),
      (((refl, refl, refl), refl, refl, refl, refl), tt),
    ),
  ),
)

body-depth : depth 0 (concat body) ≡ some 1
unfolding depth concat
body-depth = refl

updates-depth_example :
    (s' : NestingState) × (updates (codes "a.cc") (file_of body) 4 0 in_namespace ≡ some (s', []))
    × Deeper 1 in_namespace.stack s'.stack
updates-depth_example =
    updates-depth (codes "a.cc") (file_of body) body [] 0 1 in_namespace refl body-IsQuiet
      body-depth refl

updates-IsWellState_example :
    Succeeds (IsWellState 2) (updates (codes "a.cc") (file_of program) 2 0 init_nesting_state)
updates-IsWellState_example =
    updates-IsWellState (codes "a.cc") (file_of program) 2 0 init_nesting_state (omega arith)
      (tt, tt)

check_completed_blocks_example :
    Succeeds
      (λ s'. All (λ (r : Report). r.linenum < 9) (check_completed_blocks (codes "a.cc") s'.stack))
      (updates (codes "a.cc") (file_of program) 9 0 init_nesting_state)
check_completed_blocks_example = check_completed_blocks-updates (codes "a.cc") (file_of program)

update-closing_example :
    Succeeds
      (λ s'. s'.stack ≡ [])
      (update (codes "a.cc") (file_of (codes "}}" ∷ [])) 0 in_namespace)
update-closing_example =
    update-closing (codes "a.cc") (file_of (codes "}}" ∷ [])) 0 1 in_namespace refl (omega arith)
