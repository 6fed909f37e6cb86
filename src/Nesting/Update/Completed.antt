-- ===== src/Nesting/Update/Completed.antt =====
-- What `CheckCompletedBlocks` reports at the end of a file.
use lamp.Prelude.{ℕ, ◌+◌, ◌<◌, [], ◌∷◌, ◌≡◌, arith, length, All, All-append}
use mathlib.Core.Path.{subst}
use lamp.Text.{Text}
use lamp.State.{Report}
use lamp.Cleanse.Lines.{CleansedLines}
use lamp.Nesting.{
  Block, Kind, block, extern_c, class_info, namespace_info, init_nesting_state, Stack,
  incomplete_block, check_completed_blocks,
}
use lamp.Nesting.Update.Blocks.{IsWell}
use lamp.Nesting.Regions.{updates}
use lamp.Nesting.Update.Invariant.{Succeeds, updates-IsWellState}

incomplete_block-IsBefore :
    (filename : Text) (n : ℕ) (b : Block)
    → IsWell n b
    → All (λ (r : Report). r.linenum < n) (incomplete_block filename b)
incomplete_block-IsBefore filename n b (l, _) = of_kind b.kind
  where
    of_kind :
        (k : Kind)
        → All (λ (r : Report). r.linenum < n) (incomplete_block filename (record b { kind = k }))
    of_kind block = tt
    of_kind extern_c = tt
    of_kind (class_info c) = (l, tt)
    of_kind (namespace_info name) = (l, tt)

check_completed_blocks-IsBefore :
    (filename : Text) (n : ℕ) (st : Stack)
    → All (IsWell n) st
    → All (λ (r : Report). r.linenum < n) (check_completed_blocks filename st)
unfolding check_completed_blocks
check_completed_blocks-IsBefore filename n [] h = tt
check_completed_blocks-IsBefore filename n (b ∷ st) (w, h) =
    All-append (λ (r : Report). r.linenum < n) (check_completed_blocks filename st)
      (incomplete_block filename b) (check_completed_blocks-IsBefore filename n st h)
      (incomplete_block-IsBefore filename n b w)

-- For every file the updates for all lines return, and each report of `CheckCompletedBlocks` on the state
-- that they lead to names a line of the file.
pub check_completed_blocks-updates :
    (filename : Text) (clean_lines : CleansedLines)
    → Succeeds
        (λ s'.
          All
            (λ (r : Report). r.linenum < length clean_lines.elided)
            (check_completed_blocks filename s'.stack))
        (updates filename clean_lines (length clean_lines.elided) 0 init_nesting_state)
check_completed_blocks-updates filename clean_lines =
    let n = length clean_lines.elided in
    let (s', rs, e, (h, _)) =
      updates-IsWellState filename clean_lines n 0 init_nesting_state (omega arith) (tt, tt) in
    let h' = subst (λ k. All (IsWell k) s'.stack) (let same : 0 + n ≡ n = omega arith in same) h in
    (s', rs, e, check_completed_blocks-IsBefore filename n s'.stack h')
