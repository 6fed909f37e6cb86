-- ===== src/LineChecks/Blank.antt =====
-- `IsBlankLine`, `GetPreviousNonBlankLine` and `CheckSectionSpacing` (build_support/cpplint.py).
use lamp.Prelude.{
  ℕ, zero, suc, ◌+◌, ◌-◌, ◌≤◌, ◌<◌, Bool, true, false, not, ◌||◌, ◌&&◌, Option, none, some, List,
  [], ◌∷◌, ◌≡◌, inl, inr, refl, arith, ltb, leb, if◌then◌else◌, is_some, length, get_elem?, get_or,
  get_elem?_of_lt, get_or_of_get_elem?, Bool-cases, ==_iff, ◌==◌, sym, all,
}
use mathlib.Core.Path.{subst}
use lamp.Text.{Text, codes, concat, is_space}
use lamp.State.{Report}
use lamp.Regex
use lamp.Regex.{Re, seq, alt, star, group, eol, word_boundary}
use lamp.Regex.Classes.{lit, space, seqs, alts}
use lamp.Cleanse.Raw.{group_text}
use lamp.Nesting.{Block, ClassInfo}
use lamp.Nesting.Blocks.{report}

-- `not line or line.isspace()`
unfoldable pub is_blank_line : Text → Bool
is_blank_line line = all is_space line

-- The last line that is not blank, with its number, or `none` for the number -1. A result of `none` is
-- the `IndexError` of a line that is not there.
unfoldable pub get_previous_non_blank_line : List Text → ℕ → Option (Text × Option ℕ)
unfolding is_blank_line
get_previous_non_blank_line elided zero = some ([], none)
get_previous_non_blank_line elided (suc prevlinenum) =
    let before = get_previous_non_blank_line elided prevlinenum in
    elim (get_elem? elided prevlinenum) [
      | none ↦ none
      | some prevline ↦ if is_blank_line prevline then before else some (prevline, some prevlinenum)
    ]

-- The lines from one number up to another, both apart, are blank.
abbrev pub AreBlank : List Text → ℕ → ℕ → Type 0
AreBlank elided from to = (j : ℕ) → from ≤ j → j < to → is_blank_line (get_or elided j []) ≡ true

abbrev pub IsPrevious : List Text → ℕ → Text × Option ℕ → Type 0
IsPrevious elided linenum (line, none) = (line ≡ []) × AreBlank elided 0 linenum
IsPrevious elided linenum (line, some i) =
    (i < linenum)
    × (get_elem? elided i ≡ some line)
    × (is_blank_line line ≡ false)
    × AreBlank elided (suc i) linenum

AreBlank-suc :
    (elided : List Text) (from n : ℕ)
    → AreBlank elided from n
    → is_blank_line (get_or elided n []) ≡ true
    → AreBlank elided from (suc n)
AreBlank-suc elided from n h e j a b = elim (Bool-cases (j == n)) [
  | inl q ↦
      let i = (==_iff j n).0 q in subst (λ k. is_blank_line (get_or elided k []) ≡ true) (sym i) e
  | inr q ↦ h j a (ground arith)
]

IsPrevious-suc :
    (elided : List Text) (n : ℕ) (r : Text × Option ℕ)
    → IsPrevious elided n r
    → is_blank_line (get_or elided n []) ≡ true
    → IsPrevious elided (suc n) r
IsPrevious-suc elided n (line, none) (e, h) b = (e, AreBlank-suc elided 0 n h b)
IsPrevious-suc elided n (line, some i) (l, a, nb, h) b =
    (omega arith, a, nb, AreBlank-suc elided (suc i) n h b)

-- For a line of the file, or the number after the last, the search returns: the last of the lines before
-- that is not blank, with its number, and all lines between are blank; or, where all lines before are
-- blank, the empty line and no number.
pub get_previous_non_blank_line_lem :
    (elided : List Text) (linenum : ℕ)
    → linenum ≤ length elided
    → (r : Text × Option ℕ) × (get_previous_non_blank_line elided linenum ≡ some r)
      × IsPrevious elided linenum r
unfolding get_previous_non_blank_line
get_previous_non_blank_line_lem elided zero h =
    (([], none), refl, (refl, λ j a b. absurd (omega arith)))
get_previous_non_blank_line_lem elided (suc n) h =
    let (r, e, p) = get_previous_non_blank_line_lem elided n (omega arith) in
    let (line, at) = get_elem?_of_lt elided n (omega arith) in
    let same = get_or_of_get_elem? elided n [] at in
    elim (Bool-cases (is_blank_line line)) [
      | inl b ↦ (
        r,
        rw (at, get_previous_non_blank_line) (rw (b, get_previous_non_blank_line) e),
        IsPrevious-suc elided n r p (rw same b),
      )
      | inr b ↦ (
        (line, some n),
        rw (at, get_previous_non_blank_line) (rw (b, get_previous_non_blank_line) refl),
        (omega arith, at, b, λ j x y. absurd (omega arith)),
      )
    ]

-- `\s*(public|protected|private):`
abbrev pub section_pattern : Re
section_pattern = seqs (
    star space
    ∷ group 1 (alts (lit "public" ∷ lit "protected" ∷ lit "private" ∷ []))
    ∷ lit ":"
    ∷ [])

-- `\b(class|struct)\b`, `\\$` and `\{\s*$`
abbrev pub class_word_pattern : Re
class_word_pattern =
    seqs (word_boundary ∷ group 1 (alt (lit "class") (lit "struct")) ∷ word_boundary ∷ [])

abbrev pub backslash_pattern : Re
backslash_pattern = seq (lit "\\") eol

abbrev pub brace_end_pattern : Re
brace_end_pattern = seqs (lit "{" ∷ star space ∷ eol ∷ [])

-- The first of `n` lines from `i` on that ends in an opening brace, if there is one.
unfoldable pub end_of_head : ℕ → ℕ → List Text → Option ℕ
end_of_head zero i lines = none
end_of_head (suc n) i lines =
    let later = end_of_head n (suc i) lines in
    if is_some (Regex.search brace_end_pattern (get_or lines i [])) then some i else later

unfoldable pub end_class_head : List Text → ℕ → ℕ → ℕ
unfolding end_of_head
end_class_head lines starting_linenum linenum =
    elim (end_of_head (linenum - starting_linenum) starting_linenum lines) [
      | none ↦ starting_linenum
      | some i ↦ i
    ]

-- for a class with its block
unfoldable pub check_section_spacing : Text → List Text → Block → ClassInfo → ℕ → List Report
unfolding is_blank_line end_class_head
check_section_spacing filename lines b c linenum =
    if leb c.last_line (b.starting_linenum + 24) || leb linenum b.starting_linenum
    then []
    else (elim (Regex.match section_pattern (get_or lines linenum [])) [
      | none ↦ []
      | some m ↦
          let prev_line = get_or lines (linenum - 1) [] in
          if not (is_blank_line prev_line)
            && not (is_some (Regex.search class_word_pattern prev_line))
            && not (is_some (Regex.search backslash_pattern prev_line))
            && ltb (end_class_head lines b.starting_linenum linenum) (linenum - 1)
          then report filename linenum (codes "whitespace/blank_line") 3 (
              concat
                (codes "\"" ∷ group_text m 1 ∷ codes ":\" should be preceded by a blank line" ∷ []))
            ∷ []
          else []
    ])
