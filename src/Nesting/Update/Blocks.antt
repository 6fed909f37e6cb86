-- ===== src/Nesting/Update/Blocks.antt =====
-- An invariant of the blocks that `Update` keeps.
use lamp.Prelude.{
  ℕ, suc, ◌<◌, Bool, true, false, none, some, List, [], ◌∷◌, ◌≡◌, refl, arith, if◌then◌else◌,
  if_rule, is_some, Option-cases, inl, inr, All,
}
use lamp.Text.{Text}
use lamp.State.{Report}
use lamp.Logged.{Logged, logged, ◌>>=◌}
use lamp.Regex
use lamp.Regex.{At}
use lamp.Nesting.{
  Block, Kind, block, extern_c, class_info, namespace_info, NestingState, PreprocessorInfo, Stack,
  replace_stack, on_head,
}
use lamp.Nesting.Blocks.{colon_pattern, check_begin}
use lamp.Nesting.Preprocessor.{is_if, is_else, is_endif, update_preprocessor}
use lamp.Nesting.Heads.{update_access, access_pattern}

-- A block of code has its brace and is not checked for its indentation, a class or namespace is.
abbrev pub IsSound : Kind → Bool → Bool → Type 0
IsSound block seen check = (seen ≡ true) × (check ≡ false)
IsSound extern_c seen check = (seen ≡ true) × (check ≡ false)
IsSound (class_info c) seen check = check ≡ true
IsSound (namespace_info name) seen check = check ≡ true

-- a sound block, which begins in front of that line
abbrev pub IsWell : ℕ → Block → Type 0
IsWell n b =
    (b.starting_linenum < n) × IsSound b.kind b.seen_open_brace b.check_namespace_indentation

-- of a stack put aside for `#else` and `#endif`
abbrev pub IsWellInfo : ℕ → PreprocessorInfo → Type 0
IsWellInfo n p = All (IsWell n) p.stack_before_if × All (IsWell n) p.stack_before_else

abbrev pub IsWellState : ℕ → NestingState → Type 0
IsWellState n s = All (IsWell n) s.stack × All (IsWellInfo n) s.pp_stack

-- where a result is a state, it is well-formed
abbrev pub Keeps {ℓ} : {A : Type ℓ} → (A → Type 0) → Logged A → Type 0
Keeps P none = Unit
Keeps P (some (a, rs)) = P a

pub Keeps-logged {ℓ} :
    {A : Type ℓ} (P : A → Type 0) (rs : List Report) (m : Logged A)
    → Keeps P m
    → Keeps P (logged rs m)
Keeps-logged P rs none h = h
Keeps-logged P rs (some (a, qs)) h = h

pub Keeps->>= {ℓ κ} :
    {A : Type ℓ} {B : Type κ} (P : A → Type 0) (Q : B → Type 0) (m : Logged A) (f : A → Logged B)
    → Keeps P m
    → ((a : A) → P a → Keeps Q (f a))
    → Keeps Q (m >>= f)
Keeps->>= P Q none f h k = tt
Keeps->>= P Q (some (a, rs)) f h k = Keeps-logged Q rs (f a) (k a h)

-- lines later
pub IsWell-suc : (n : ℕ) (st : Stack) → All (IsWell n) st → All (IsWell (suc n)) st
IsWell-suc n [] h = tt
IsWell-suc n (b ∷ st) ((l, k), h) = ((omega arith, k), IsWell-suc n st h)

pub IsWellInfo-suc :
    (n : ℕ) (pp : List PreprocessorInfo) → All (IsWellInfo n) pp → All (IsWellInfo (suc n)) pp
IsWellInfo-suc n [] h = tt
IsWellInfo-suc n (p ∷ pp) ((a, b), h) =
    ((IsWell-suc n p.stack_before_if a, IsWell-suc n p.stack_before_else b), IsWellInfo-suc n pp h)

pub update_preprocessor-IsWellState :
    (n : ℕ) (line : Text) (s : NestingState)
    → IsWellState n s
    → IsWellState n (update_preprocessor line s)
unfolding update_preprocessor
update_preprocessor-IsWellState n line s (hs, hp) =
    if_rule (IsWellState n) (is_if line) _ _ (λ _. begun)
      (λ _.
        if_rule (IsWellState n) (is_else line) _ _ (λ _. on_else s.pp_stack hp)
          (λ _.
            if_rule (IsWellState n) (is_endif line) _ s (λ _. on_endif s.pp_stack hp)
              (λ _. (hs, hp))))
  where
    begun : IsWellState n (record s {
      pp_stack =
          record { stack_before_if = s.stack; stack_before_else = []; seen_else = false }
          ∷ s.pp_stack;
    })
    begun = (hs, ((hs, tt), hp))

    on_else :
        (pp : List PreprocessorInfo)
        → All (IsWellInfo n) pp
        → IsWellState n (elim pp [
          | [] ↦ s
          | p ∷ ps ↦ replace_stack p.stack_before_if (record s {
            pp_stack =
                (if p.seen_else
                  then p
                  else record p { seen_else = true; stack_before_else = s.stack })
                ∷ ps;
          })
        ])
    on_else [] h = (hs, hp)
    on_else (p ∷ ps) (h, k) = (
      h.0,
      (
        if_rule (IsWellInfo n) p.seen_else p
            (record p { seen_else = true; stack_before_else = s.stack }) (λ _. h) (λ _. (h.0, hs)),
        k,
      ),
    )

    on_endif :
        (pp : List PreprocessorInfo)
        → All (IsWellInfo n) pp
        → IsWellState n (elim pp [
          | [] ↦ s
          | p ∷ ps ↦
              if p.seen_else
              then replace_stack p.stack_before_else (record s { pp_stack = ps })
              else record s { pp_stack = ps }
        ])
    on_endif [] h = (hs, hp)
    on_endif (p ∷ ps) ((a, b), k) =
        if_rule (IsWellState n) p.seen_else
          (replace_stack p.stack_before_else (record s { pp_stack = ps }))
          (record s { pp_stack = ps }) (λ _. (b, k)) (λ _. (hs, k))

pub on_head-IsWell :
    (n : ℕ) (f : Block → Block) (st : Stack)
    → ((b : Block) → IsWell n b → IsWell n (f b))
    → All (IsWell n) st
    → All (IsWell n) (on_head f st)
on_head-IsWell n f [] k h = tt
on_head-IsWell n f (b ∷ st) k (w, h) = (k b w, h)

pub IsSound-seen : (k : Kind) (seen check : Bool) → IsSound k seen check → IsSound k true check
IsSound-seen block seen check (_, h) = (refl, h)
IsSound-seen extern_c seen check (_, h) = (refl, h)
IsSound-seen (class_info c) seen check h = h
IsSound-seen (namespace_info name) seen check h = h

pub check_begin-IsWell :
    (n : ℕ) (line : Text) (b : Block) → IsWell n b → IsWell n (check_begin line b)
unfolding check_begin
check_begin-IsWell n line b (l, h) = of_kind b.kind h
  where
    of_kind :
        (k : Kind)
        → IsSound k b.seen_open_brace b.check_namespace_indentation
        → IsWell n (check_begin line (record b { kind = k }))
    of_kind block h = (l, h)
    of_kind extern_c h = (l, h)
    of_kind (namespace_info name) h = (l, h)
    of_kind (class_info c) h =
        if_rule (IsWell n) (is_some (Regex.search colon_pattern line))
          (record b { kind = class_info (record c { is_derived = true }) })
          (record b { kind = class_info c }) (λ _. (l, h)) (λ _. (l, h))

pub update_access-IsWell :
    (n : ℕ) (filename : Text) (linenum : ℕ) (line : Text) (s : NestingState)
    → IsWellState n s
    → Keeps (IsWellState n) (some (update_access filename linenum line s))
unfolding update_access
update_access-IsWell n filename linenum line s (hs, hp) = of_stack s.stack hs
  where
    of_stack :
        (st : Stack)
        → All (IsWell n) st
        → Keeps
            (IsWellState n)
            (some (update_access filename linenum line (record s { stack = st })))
    of_stack [] h = (tt, hp)
    of_stack (b ∷ st) ((l, k), h) = of_kind b.kind k
      where
        of_kind :
            (k : Kind)
            → IsSound k b.seen_open_brace b.check_namespace_indentation
            → Keeps (IsWellState n) (
                some (
                  update_access filename linenum line
                    (record s { stack = record b { kind = k } ∷ st })))
        of_kind block k = (((l, k), h), hp)
        of_kind extern_c k = (((l, k), h), hp)
        of_kind (namespace_info name) k = (((l, k), h), hp)
        of_kind (class_info c) k = elim (Option-cases (Regex.match access_pattern line)) [
          | inl e ↦ rw (e, update_access) (((l, k), h), hp)
          | inr (m, e) ↦ rw (e, update_access) (((l, k), h), hp)
        ]
