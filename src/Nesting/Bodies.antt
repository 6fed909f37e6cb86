-- ===== src/Nesting/Bodies.antt =====
-- What `NestingState.Update` does to lines of code that declare nothing: the stack follows the
-- braces. The reference counts them character by character.
pub mod Braces
pub mod Lines
pub mod Closing
use lamp.Prelude.{
  ℕ, zero, suc, ◌+◌, Bool, true, false, not, Option, none, some, List, [], ◌∷◌, ◌++◌, ◌≡◌, ◌⊎◌,
  ◌==◌, if◌then◌else◌, map,
}
use lamp.Text.{Text}
use lamp.Int.{pos}
use lamp.Regex
use lamp.Regex.Skip.{has_other}
use lamp.Nesting.{Block, Stack, block, extern_c, no_asm}
use lamp.Nesting.Heads.{namespace_pattern, class_pattern, access_pattern}
use lamp.Nesting.Regions.{IsPlain}

-- How deep the braces of a text lead from a depth; `none` where one closes more than were open.
unfoldable pub depth : ℕ → Text → Option ℕ
depth n [] = some n
depth n (c ∷ t) =
    let deeper = depth (suc n) t in
    let same = depth n t in
    if c == b'{'
    then deeper
    else if c == b'}'
    then (elim n [ zero ↦ none | suc k ↦ depth k t ])
    else same

-- a block without what `Update` counts in it
abbrev pub bare : Block → Block
bare b = record b { open_parentheses = pos 0; inline_asm = no_asm }

-- a block of code, whose brace is seen
abbrev pub IsCode : Block → Type 0
IsCode b = (b.seen_open_brace ≡ true) × ((b.kind ≡ block) ⊎ (b.kind ≡ extern_c))

-- so many blocks of code on a stack like the one given
abbrev pub Deeper : ℕ → Stack → Stack → Type 0
Deeper zero base st = map bare st ≡ map bare base
Deeper (suc d) base [] = ⊥
Deeper (suc d) base (b ∷ st) = IsCode b × Deeper d base st

abbrev pub IsOneLine : Text → Type 0
IsOneLine line = has_other (λ c. not (c == b'\n')) line ≡ false

-- No directive, no namespace, no class and no access keyword.
abbrev pub IsQuiet : Text → Type 0
IsQuiet line =
    IsPlain line
    × (Regex.match namespace_pattern line ≡ none)
    × (Regex.match class_pattern line ≡ none)
    × (Regex.match access_pattern line ≡ none)
    × IsOneLine line
