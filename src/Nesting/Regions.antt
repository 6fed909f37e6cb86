-- ===== src/Nesting/Regions.antt =====
-- What conditional compilation does to the stack: only the first branch counts. The conditionals of
-- a file are a tree, and the reference is an evaluation of that tree which keeps no stack of them.
pub mod Machine
use lamp.Prelude.{
  ℕ, zero, suc, ◌+◌, Bool, true, false, Option, none, some, List, [], ◌∷◌, ◌++◌, ◌≡◌, ◌⊎◌, inl, inr,
  refl, sym, ap, ◌∙◌, arith, length, get_elem?, drop, append-nil, append_assoc, length-append,
  drop-cons,
}
use mathlib.Core.Path.{subst, fun_ext}
use lamp.Text.{Text}
use lamp.State.{Report}
use lamp.Logged.{Logged, ret, ◌>>=◌, >>=_assoc, >>=_ret, logged-nil, Related, Related->>=}
use lamp.Cleanse.Lines.{CleansedLines}
use lamp.Nesting.{NestingState, PreprocessorInfo, Stack}
use lamp.Nesting.Preprocessor.{is_if, is_else, is_endif, update_preprocessor}
use lamp.Nesting.Update.{remember_top, update_blocks, update}
use lamp.Nesting.Update.Stacks.{Agree, update_blocks-Agree}

mutual
  pub data Region : Type 0 where
    nothing : Region
    line_then : Text → Region → Region
    -- the line of the `#if`, the first branch, the others, what follows
    conditional : Text → Region → Branches → Region → Region

  pub data Branches : Type 0 where
    endif : Text → Branches
    else_then : Text → Region → Branches → Branches

unfoldable mutual
  pub lines_of : Region → List Text
  lines_of nothing = []
  lines_of (line_then l r) = l ∷ lines_of r
  lines_of (conditional l first branches after) =
      l ∷ (lines_of first ++ (branch_lines branches ++ lines_of after))

  pub branch_lines : Branches → List Text
  branch_lines (endif l) = l ∷ []
  branch_lines (else_then l r branches) = l ∷ (lines_of r ++ branch_lines branches)

-- no directive of conditional compilation
abbrev pub IsPlain : Text → Type 0
IsPlain l = (is_if l ≡ false) × (is_else l ≡ false) × (is_endif l ≡ false)

abbrev pub IsElse : Text → Type 0
IsElse l = (is_if l ≡ false) × (is_else l ≡ true)

abbrev pub IsEndif : Text → Type 0
IsEndif l = (is_if l ≡ false) × (is_else l ≡ false) × (is_endif l ≡ true)

-- The lines of a tree are the directives that they stand for.
unfoldable mutual
  pub IsRegion : Region → Type 0
  IsRegion nothing = Unit
  IsRegion (line_then l r) = IsPlain l × IsRegion r
  IsRegion (conditional l first branches after) =
      (is_if l ≡ true) × IsRegion first × IsBranches branches × IsRegion after

  pub IsBranches : Branches → Type 0
  IsBranches (endif l) = IsEndif l
  IsBranches (else_then l r branches) = IsElse l × IsRegion r × IsBranches branches

-- a state without what it remembers of the line before
abbrev pub shown : NestingState → Stack × List PreprocessorInfo
shown t = (t.stack, t.pp_stack)

abbrev pub with_conditionals : List PreprocessorInfo → Stack → Stack × List PreprocessorInfo
with_conditionals pp st = (st, pp)

module _ (filename : Text) (clean_lines : CleansedLines) where
  abbrev pub alone : Stack → NestingState
  alone st = record { stack = st; previous_stack_top = none; previous_index = none; pp_stack = [] }

  -- what a line does to a stack, whatever conditionals it stands in
  unfoldable pub line_effect : ℕ → Text → Stack → Logged Stack
  line_effect linenum line st =
      update_blocks filename clean_lines linenum line (alone st) >>= λ s. ret s.stack

  -- The branches behind the first are read with the stack in front of the conditional, for their
  -- reports; the stack of the first branch is kept.
  unfoldable mutual
    pub effect : Region → ℕ → Stack → Logged Stack
    effect nothing linenum st = ret st
    effect (line_then l r) linenum st = line_effect linenum l st >>= effect r (suc linenum)
    effect (conditional l first branches after) linenum st =
        let i = suc linenum + length (lines_of first) in
        line_effect linenum l st >>= λ begun. effect first (suc linenum) begun >>= λ kept.
        branches_effect branches i st kept >>= effect after (i + length (branch_lines branches))

    pub branches_effect : Branches → ℕ → Stack → Stack → Logged Stack
    branches_effect (endif l) linenum saved kept = line_effect linenum l kept
    branches_effect (else_then l r branches) linenum saved kept =
        line_effect linenum l saved >>= λ begun. effect r (suc linenum) begun >>= λ _.
        branches_effect branches (suc linenum + length (lines_of r)) saved kept

  -- the updates for so many lines in turn
  unfoldable pub updates : ℕ → ℕ → NestingState → Logged NestingState
  updates zero linenum s = ret s
  updates (suc n) linenum s = update filename clean_lines linenum s >>= updates n (suc linenum)
