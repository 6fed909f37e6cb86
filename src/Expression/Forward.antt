-- ===== src/Expression/Forward.antt =====
-- Where `CloseExpression` ends: past a bracket that closes the one that it began at.
use lamp.Prelude.{
  ℕ, suc, Bool, true, false, not, ◌||◌, none, some, List, [], ◌∷◌, ◌≡◌, ◌⊎◌, refl, sym, ap, ◌∙◌,
  arith, ◌==◌, if◌then◌else◌, length, get_elem?, take, drop, some_eq, drop-cons, drop_of_get_elem?,
  is_some,
}
use lamp.Text.{Text}
use mathlib.Core.Path.{subst}
use lamp.Regex
use lamp.Expression.{
  shift_pattern, is_open, LineResult, found, unclosed, open_at_end, Step, go, stop, before_is,
  ends_in_operator, end_step, scan_end, find_end_of_expression_in_line, Place, close_in, close_from,
  close_expression,
}
use lamp.Expression.Steps.{closes, RestsOn, StepSound, end_step-StepSound}

-- A position just past a character of the line that closes `b`, or a stack that rests on `b`.
abbrev pub LineSound : ℕ → Text → LineResult → Type 0
LineSound b line (found p) =
    (i : ℕ) × (c : ℕ) × (p ≡ suc i) × (get_elem? line i ≡ some c) × (closes b c ≡ true)
LineSound b line unclosed = Unit
LineSound b line (open_at_end st) = RestsOn b st

scan_end-LineSound :
    (b : ℕ) (line : Text) (i : ℕ) (cs : Text) (st : List ℕ)
    → RestsOn b st
    → drop i line ≡ cs
    → LineSound b line (scan_end line i cs st)
unfolding scan_end
scan_end-LineSound b line i [] st h e = h
scan_end-LineSound b line i (c ∷ cs) st h e =
    let (here, later, _) = drop-cons i line e in
    after (end_step line i c st) (end_step-StepSound b i c line st h) here
      (λ st' h'. scan_end-LineSound b line (suc i) cs st' h' later)
  where
    after :
        (s : Step)
        → StepSound b i c s
        → get_elem? line i ≡ some c
        → ((st' : List ℕ) → RestsOn b st' → LineSound b line (scan_end line (suc i) cs st'))
        → LineSound b line (elim s [ go st' ↦ scan_end line (suc i) cs st' | stop r ↦ r ])
    after (go st') k here ih = ih st' k
    after (stop (found p)) (at, k) here ih = (i, c, at, here, k)
    after (stop unclosed) k here ih = tt
    after (stop (open_at_end st')) k here ih = absurd k

find_end-LineSound :
    (b : ℕ) (line : Text) (st : List ℕ)
    → RestsOn b st
    → LineSound b line (find_end_of_expression_in_line line 0 st)
unfolding find_end_of_expression_in_line
find_end-LineSound b line st h = scan_end-LineSound b line 0 line st h refl

-- The position returned, if there is one, stands just past a character that closes `b`, on the
-- line that is returned with it.
abbrev pub PlaceSound : ℕ → List Text → Place → Type 0
PlaceSound b elided q =
    (p : ℕ)
    → q.pos ≡ some p
    → (get_elem? elided q.linenum ≡ some q.line)
      × (i : ℕ) × (c : ℕ) × (p ≡ suc i)
      × (get_elem? q.line i ≡ some c)
      × (closes b c ≡ true)

close_in-PlaceSound :
    (b : ℕ) (elided : List Text) (n : ℕ) (last : Text) (ls : List Text) (st : List ℕ)
    → RestsOn b st
    → drop (suc n) elided ≡ ls
    → PlaceSound b elided (close_in (length elided) n last ls st)
unfolding close_in
close_in-PlaceSound b elided n last [] st h e = λ p k. cc
close_in-PlaceSound b elided n last (l ∷ ls) [] h e = cc
close_in-PlaceSound b elided n last (l ∷ ls) (t ∷ st) h e =
    let (here, later, _) = drop-cons (suc n) elided e in
    after (find_end_of_expression_in_line l 0 (t ∷ st)) (find_end-LineSound b l (t ∷ st) h) here
      (λ st' h'. close_in-PlaceSound b elided (suc n) l ls st' h' later)
  where
    after :
        (r : LineResult)
        → LineSound b l r
        → get_elem? elided (suc n) ≡ some l
        → ((st' : List ℕ)
            → RestsOn b st'
            → PlaceSound b elided (close_in (length elided) (suc n) l ls st'))
        → PlaceSound b elided (elim r [
          | found p ↦ record { line = l; linenum = suc n; pos = some p }
          | unclosed ↦ record { line = l; linenum = length elided; pos = none }
          | open_at_end st' ↦ close_in (length elided) (suc n) l ls st'
        ])
    after (found p) (i, c, at, found_c, k) here ih =
        λ q e'. (here, i, c, sym (some_eq e') ∙ at, found_c, k)
    after unclosed k here ih = λ q e'. cc
    after (open_at_end st') k here ih = ih st' k

-- The search begins by putting the character on the stack: a bracket, or a `<` that is neither the
-- second of a shift operator nor an operator's name.
abbrev pub IsStart : Text → ℕ → ℕ → Type 0
IsStart line pos c =
    (is_open c ≡ true)
    ⊎ ((c ≡ b'<') × (before_is line pos b'<' ≡ false) × (ends_in_operator (take pos line) ≡ false))

end_step-IsStart :
    (line : Text) (pos c : ℕ) → IsStart line pos c → end_step line pos c [] ≡ go (c ∷ [])
unfolding end_step
end_step-IsStart line pos c h = ground arith

find_end-IsStart :
    (line : Text) (pos c : ℕ)
    → get_elem? line pos ≡ some c
    → IsStart line pos c
    → LineSound c line (find_end_of_expression_in_line line pos [])
unfolding find_end_of_expression_in_line scan_end
find_end-IsStart line pos c at start =
    let e = drop_of_get_elem? pos line at in
    rw (e, scan_end, end_step-IsStart line pos c start)
      (scan_end-LineSound c line (suc pos) (drop (suc pos) line) (c ∷ []) refl refl)

close_from-PlaceSound :
    (b : ℕ) (elided : List Text) (linenum : ℕ) (line : Text) (r : LineResult)
    → get_elem? elided linenum ≡ some line
    → LineSound b line r
    → PlaceSound b elided (close_from elided linenum line r)
close_from-PlaceSound b elided linenum line (found p) at (i, c, e, found_c, k) =
    λ q e'. (at, i, c, sym (some_eq e') ∙ e, found_c, k)
close_from-PlaceSound b elided linenum line unclosed at s = λ q e'. cc
close_from-PlaceSound b elided linenum line (open_at_end st) at s =
    close_in-PlaceSound b elided linenum line (drop (suc linenum) elided) st s refl

-- If `CloseExpression` is asked about an opening bracket, or about a `<` that is neither the second
-- of a shift operator nor an operator's name, and returns a position, then it returns the line of
-- that number, and just before the position stands a character that closes the bracket asked about.
pub close_expression_sound :
    (elided : List Text) (linenum pos c p : ℕ) (line : Text) (q : Place)
    → get_elem? elided linenum ≡ some line
    → get_elem? line pos ≡ some c
    → IsStart line pos c
    → close_expression elided linenum pos ≡ some q
    → q.pos ≡ some p
    → (get_elem? elided q.linenum ≡ some q.line)
      × (i : ℕ) × (d : ℕ) × (p ≡ suc i)
      × (get_elem? q.line i ≡ some d)
      × (closes c d ≡ true)
unfolding close_expression
close_expression_sound elided linenum pos c p line q at at' start h e =
    let r = find_end_of_expression_in_line line pos [] in
    let s =
      close_from-PlaceSound c elided linenum line r at (find_end-IsStart line pos c at' start) in
    after (not (is_open c || c == b'<') || is_some (Regex.match shift_pattern (drop pos line))) s
      (rw (at, at', close_expression) at h)
  where
    after :
        (refused : Bool)
        → PlaceSound c elided
            (close_from elided linenum line (find_end_of_expression_in_line line pos []))
        → (if refused
            then some (record { line = line; linenum = length elided; pos = none })
            else some (close_from elided linenum line (find_end_of_expression_in_line line pos [])))
          ≡ some q
        → (get_elem? elided q.linenum ≡ some q.line)
          × (i : ℕ) × (d : ℕ) × (p ≡ suc i)
          × (get_elem? q.line i ≡ some d)
          × (closes c d ≡ true)
    after true s h = let k = ap (λ (x : Place). x.pos) (some_eq h) in cc
    after false s h = subst (PlaceSound c elided) (some_eq h) s p e
