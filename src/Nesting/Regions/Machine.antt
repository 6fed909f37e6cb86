-- ===== src/Nesting/Regions/Machine.antt =====
-- About `Update` on the lines of conditionals: the stack of stacks against the reference evaluation.
use lamp.Prelude.{
  ℕ, suc, ◌+◌, true, false, none, some, List, [], ◌∷◌, ◌++◌, ◌≡◌, ◌⊎◌, inl, inr, refl, sym, ap, ◌∙◌,
  arith, length, drop, append-nil, drop-cons,
}
use mathlib.Core.Path.{subst, fun_ext}
use lamp.Text.{Text}
use lamp.Logged.{Logged, ret, ◌>>=◌, >>=_assoc, >>=_ret, logged-nil, Related, Related->>=}
use lamp.Cleanse.Lines.{CleansedLines}
use lamp.Nesting.{NestingState, PreprocessorInfo, Stack}
use lamp.Nesting.Preprocessor.{is_if, update_preprocessor}
use lamp.Nesting.Update.{remember_top, update_blocks, update}
use lamp.Nesting.Update.Stacks.{Agree, update_blocks-Agree}
use lamp.Nesting.Regions.{
  Region, nothing, line_then, conditional, Branches, endif, else_then, lines_of, branch_lines,
  IsPlain, IsElse, IsEndif, IsRegion, IsBranches, shown, with_conditionals, alone, line_effect,
  effect, branches_effect, updates,
}

module _ (filename : Text) (clean_lines : CleansedLines) where
  update_line : ℕ → Text → NestingState → Logged NestingState
  update_line linenum line s =
      update_blocks filename clean_lines linenum line (update_preprocessor line (remember_top s))

  run : List Text → ℕ → NestingState → Logged NestingState
  run [] linenum s = ret s
  run (l ∷ ls) linenum s = update_line linenum l s >>= run ls (suc linenum)

  run-append :
      (ls ms : List Text) (linenum : ℕ) (s : NestingState)
      → run (ls ++ ms) linenum s ≡ (run ls linenum s >>= run ms (linenum + length ls))
  unfolding run
  run-append [] ms linenum s =
      ap (λ i. run ms i s) (omega arith) ∙ sym (logged-nil (run ms (linenum + 0) s))
  run-append (l ∷ ls) ms linenum s =
      let i : suc linenum + length ls ≡ linenum + suc (length ls) = omega arith in
      ap (λ f. update_line linenum l s >>= f) (fun_ext (run-append ls ms (suc linenum)))
      ∙ sym (
          >>=_assoc (update_line linenum l s) (run ls (suc linenum))
            (run ms (suc linenum + length ls)))
      ∙ ap (λ i. (update_line linenum l s >>= run ls (suc linenum)) >>= run ms i) i

  -- the state has the stack, and the conditionals given
  abbrev Shows : List PreprocessorInfo → NestingState → Stack → Type 0
  Shows pp s st = (s.stack ≡ st) × (s.pp_stack ≡ pp)

  forget-Shows :
      (pp : List PreprocessorInfo) (m n : Logged NestingState)
      → Related (Agree pp) m n
      → Related (Shows pp) m (n >>= λ s. ret s.stack)
  forget-Shows pp none none h = h
  forget-Shows pp (some (a, rs)) (some (b, qs)) (h, e) = (h, e ∙ sym (append-nil qs))
  forget-Shows pp none (some (b, qs)) h = absurd h
  forget-Shows pp (some (a, rs)) none h = absurd h

  remember_top-Shows :
      (pp : List PreprocessorInfo) (s : NestingState) (st : Stack)
      → Shows pp s st
      → Shows pp (remember_top s) st
  remember_top-Shows pp s st h = ground arith

  line-Shows :
      (pp : List PreprocessorInfo) (linenum : ℕ) (line : Text) (s : NestingState) (st : Stack)
      → Shows pp (update_preprocessor line (remember_top s)) st
      → Related
          (Shows pp)
          (update_line linenum line s)
          (line_effect filename clean_lines linenum line st)
  unfolding update_line line_effect
  line-Shows pp linenum line s st h =
      let t = update_preprocessor line (remember_top s) in
      forget-Shows pp (update_blocks filename clean_lines linenum line t)
        (update_blocks filename clean_lines linenum line (alone filename clean_lines st))
        (update_blocks-Agree pp filename clean_lines linenum line t (alone filename clean_lines st)
          h)

  plain-Shows :
      (pp : List PreprocessorInfo) (l : Text) (s : NestingState) (st : Stack)
      → IsPlain l
      → Shows pp s st
      → Shows pp (update_preprocessor l s) st
  unfolding update_preprocessor
  plain-Shows pp l s st h g = ground arith

  abbrev opened : Stack → PreprocessorInfo
  opened st = record { stack_before_if = st; stack_before_else = []; seen_else = false }

  if-Shows :
      (pp : List PreprocessorInfo) (l : Text) (s : NestingState) (st : Stack)
      → is_if l ≡ true
      → Shows pp s st
      → Shows (opened st ∷ pp) (update_preprocessor l s) st
  unfolding update_preprocessor
  if-Shows pp l s st h (e, p) = rw h (e, ground arith)

  -- in a branch of a conditional, with the stacks in front of it and to be kept
  abbrev Inside : List PreprocessorInfo → Stack → Stack → NestingState → Type 0
  Inside pp saved kept s =
      (p : PreprocessorInfo) × (s.pp_stack ≡ p ∷ pp)
      × (p.stack_before_if ≡ saved)
      × (((p.seen_else ≡ false) × (s.stack ≡ kept))
          ⊎ ((p.seen_else ≡ true) × (p.stack_before_else ≡ kept)))

  remember_top-Inside :
      (pp : List PreprocessorInfo) (saved kept : Stack) (s : NestingState)
      → Inside pp saved kept s
      → Inside pp saved kept (remember_top s)
  remember_top-Inside pp saved kept s (p, e, b, h) = (p, ground arith, b, ground arith)

  endif-Shows :
      (pp : List PreprocessorInfo) (l : Text) (saved kept : Stack) (s : NestingState)
      → IsEndif l
      → Inside pp saved kept s
      → Shows pp (update_preprocessor l s) kept
  unfolding update_preprocessor
  endif-Shows pp l saved kept s h (p, e, b, g) = ground arith

  else-Shows :
      (pp : List PreprocessorInfo) (l : Text) (saved kept : Stack) (s : NestingState)
      → IsElse l
      → Inside pp saved kept s
      → (p : PreprocessorInfo) × Shows (p ∷ pp) (update_preprocessor l s) saved
        × (p.stack_before_if ≡ saved)
        × (p.seen_else ≡ true)
        × (p.stack_before_else ≡ kept)
  unfolding update_preprocessor
  else-Shows pp l saved kept s h (p, e, b, inl (unseen, k)) =
      (record p { seen_else = true; stack_before_else = s.stack }, ground arith, b, refl, k)
  else-Shows pp l saved kept s h (p, e, b, inr (seen, k)) = (p, ground arith, b, seen, k)

  after-append :
      (pp : List PreprocessorInfo) (ls ms : List Text) (linenum : ℕ) (s : NestingState)
      (n : Logged Stack)
      → Related (Shows pp) (run ls linenum s >>= run ms (linenum + length ls)) n
      → Related (Shows pp) (run (ls ++ ms) linenum s) n
  after-append pp ls ms linenum s n h =
      subst (λ m. Related (Shows pp) m n) (sym (run-append ls ms linenum s)) h

  mutual
    unfolding lines_of IsRegion effect run

    run-effect :
        (r : Region) (pp : List PreprocessorInfo) (linenum : ℕ) (s : NestingState) (st : Stack)
        → IsRegion r
        → Shows pp s st
        → Related (Shows pp) (run (lines_of r) linenum s) (effect filename clean_lines r linenum st)
    run-effect nothing pp linenum s st h g = (g, refl)
    run-effect (line_then l r) pp linenum s st (p, h) g =
        Related->>= (Shows pp) (Shows pp) (update_line linenum l s)
          (line_effect filename clean_lines linenum l st) (run (lines_of r) (suc linenum))
          (effect filename clean_lines r (suc linenum))
          (line-Shows pp linenum l s st
            (plain-Shows pp l (remember_top s) st p (remember_top-Shows pp s st g)))
          (λ s1 st1 g1. run-effect r pp (suc linenum) s1 st1 h g1)
    run-effect (conditional l first branches after) pp linenum s st (p, hf, hb, ha) g =
        let inner = opened st ∷ pp in
        let front = lines_of first in
        let back = branch_lines branches in
        let i = suc linenum + length front in
        let tail = λ (kept : Stack).
          branches_effect filename clean_lines branches i st kept
          >>= effect filename clean_lines after (i + length back) in
        Related->>= (Shows inner) (Shows pp) (update_line linenum l s)
          (line_effect filename clean_lines linenum l st)
          (run (front ++ (back ++ lines_of after)) (suc linenum))
          (λ begun. effect filename clean_lines first (suc linenum) begun >>= tail)
          (line-Shows inner linenum l s st
            (if-Shows pp l (remember_top s) st p (remember_top-Shows pp s st g)))
          λ s1 begun g1.
            after-append pp front (back ++ lines_of after) (suc linenum) s1
              (effect filename clean_lines first (suc linenum) begun >>= tail)
              (Related->>= (Shows inner) (Shows pp) (run front (suc linenum) s1)
                (effect filename clean_lines first (suc linenum) begun)
                (run (back ++ lines_of after) i) tail
                (run-effect first inner (suc linenum) s1 begun hf g1)
                λ s2 kept g2. after-append pp back (lines_of after) i s2 (tail kept) (
                  Related->>= (Shows pp) (Shows pp) (run back i s2)
                    (branches_effect filename clean_lines branches i st kept)
                    (run (lines_of after) (i + length back))
                    (effect filename clean_lines after (i + length back))
                    (run-branches branches pp i s2 st kept hb
                      (opened st, g2.1, refl, inl (refl, g2.0)))
                    λ s3 st3 g3. run-effect after pp (i + length back) s3 st3 ha g3))

    run-branches :
        (b : Branches) (pp : List PreprocessorInfo) (linenum : ℕ) (s : NestingState)
        (saved kept : Stack)
        → IsBranches b
        → Inside pp saved kept s
        → Related
            (Shows pp)
            (run (branch_lines b) linenum s)
            (branches_effect filename clean_lines b linenum saved kept)
    run-branches (endif l) pp linenum s saved kept h g =
        subst (λ m. Related (Shows pp) m (line_effect filename clean_lines linenum l kept))
          (sym (>>=_ret (update_line linenum l s)))
          (line-Shows pp linenum l s kept (
            endif-Shows pp l saved kept (remember_top s) h (remember_top-Inside pp saved kept s g)))
    run-branches (else_then l r b) pp linenum s saved kept (e, hr, hb) g =
        let (p, shows, before, seen, keeps) =
          else-Shows pp l saved kept (remember_top s) e (remember_top-Inside pp saved kept s g) in
        let inner = p ∷ pp in
        let i = suc linenum + length (lines_of r) in
        let tail = λ (_ : Stack). branches_effect filename clean_lines b i saved kept in
        Related->>= (Shows inner) (Shows pp) (update_line linenum l s)
          (line_effect filename clean_lines linenum l saved)
          (run (lines_of r ++ branch_lines b) (suc linenum))
          (λ begun. effect filename clean_lines r (suc linenum) begun >>= tail)
          (line-Shows inner linenum l s saved shows)
          λ s1 begun g1.
            after-append pp (lines_of r) (branch_lines b) (suc linenum) s1
              (effect filename clean_lines r (suc linenum) begun >>= tail)
              (Related->>= (Shows inner) (Shows pp) (run (lines_of r) (suc linenum) s1)
                (effect filename clean_lines r (suc linenum) begun) (run (branch_lines b) i) tail
                (run-effect r inner (suc linenum) s1 begun hr g1)
                λ s2 st2 g2.
                  run-branches b pp i s2 saved kept hb (p, g2.1, before, inr (seen, keeps)))

  updates-run :
      (lines more : List Text) (linenum : ℕ)
      → drop linenum clean_lines.elided ≡ lines ++ more
      → (s : NestingState)
      → updates filename clean_lines (length lines) linenum s ≡ run lines linenum s
  unfolding updates run update update_line
  updates-run [] more linenum e s = refl
  updates-run (l ∷ lines) more linenum e s =
      let (here, later, _) = drop-cons linenum clean_lines.elided e in
      rw (here, update)
        (ap (λ f. update_line linenum l s >>= f)
          (fun_ext (updates-run lines more (suc linenum) later)))

  Shows-eq :
      (pp : List PreprocessorInfo) (m : Logged NestingState) (n : Logged Stack)
      → Related (Shows pp) m n
      → (m >>= λ t. ret (shown t)) ≡ (n >>= λ st. ret (with_conditionals pp st))
  Shows-eq pp none none h = refl
  Shows-eq pp (some (t, rs)) (some (st, qs)) ((e, p), q) =
      rw e (rw p (ap (λ x. some ((st, pp), x ++ [])) q))
  Shows-eq pp none (some (st, qs)) h = absurd h
  Shows-eq pp (some (t, rs)) none h = absurd h

-- The updates for lines whose conditionals are well nested: the stack, the conditionals still open
-- and the reports are those of the reference, which reads the branches behind the first one with the
-- stack in front of the conditional and drops the stack that they leave. As many conditionals are
-- open afterwards as before.
pub updates-effect :
    (filename : Text) (clean_lines : CleansedLines) (r : Region) (more : List Text) (linenum : ℕ)
    (s : NestingState)
    → drop linenum clean_lines.elided ≡ lines_of r ++ more
    → IsRegion r
    → (updates filename clean_lines (length (lines_of r)) linenum s >>= λ t. ret (shown t)) ≡ (
        effect filename clean_lines r linenum s.stack >>= λ st.
        ret (with_conditionals s.pp_stack st))
updates-effect filename clean_lines r more linenum s e h =
    rw (updates-run filename clean_lines (lines_of r) more linenum e s) (
      Shows-eq filename clean_lines s.pp_stack (run filename clean_lines (lines_of r) linenum s)
        (effect filename clean_lines r linenum s.stack)
        (run-effect filename clean_lines r s.pp_stack linenum s s.stack h (refl, refl)))
