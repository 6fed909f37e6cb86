-- ===== src/Nesting/Preprocessor.antt =====
-- `NestingState.UpdatePreprocessor` (build_support/cpplint.py).
use lamp.Prelude.{Bool, true, false, [], ◌∷◌, if◌then◌else◌, is_some}
use lamp.Text.{Text}
use lamp.Regex
use lamp.Regex.{Re, star, group, bol, word_boundary}
use lamp.Regex.Classes.{lit, space, seqs, alts}
use lamp.Nesting.{NestingState, replace_stack}

-- `^\s*#\s*` and a directive's names, and `\b`
abbrev pub directive : Re → Re
directive names = seqs (bol ∷ star space ∷ lit "#" ∷ star space ∷ names ∷ word_boundary ∷ [])

unfoldable pub is_if : Text → Bool
is_if line =
    is_some
      (Regex.match (directive (group 1 (alts (lit "if" ∷ lit "ifdef" ∷ lit "ifndef" ∷ [])))) line)

unfoldable pub is_else : Text → Bool
is_else line =
    is_some (Regex.match (directive (group 1 (alts (lit "else" ∷ lit "elif" ∷ [])))) line)

unfoldable pub is_endif : Text → Bool
is_endif line = is_some (Regex.match (directive (lit "endif")) line)

-- The copies of the stack are other objects than those of the stack.
unfoldable pub update_preprocessor : Text → NestingState → NestingState
update_preprocessor line s =
    if is_if line
    then record s {
      pp_stack =
          record { stack_before_if = s.stack; stack_before_else = []; seen_else = false }
          ∷ s.pp_stack;
    }
    else if is_else line
    then (elim s.pp_stack [
      | [] ↦ s
      | p ∷ ps ↦ replace_stack p.stack_before_if (record s {
        pp_stack =
            (if p.seen_else then p else record p { seen_else = true; stack_before_else = s.stack })
            ∷ ps;
      })
    ])
    else if is_endif line
    then (elim s.pp_stack [
      | [] ↦ s
      | p ∷ ps ↦
          if p.seen_else
          then replace_stack p.stack_before_else (record s { pp_stack = ps })
          else record s { pp_stack = ps }
    ])
    else s
