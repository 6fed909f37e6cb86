-- ===== src/LintState/Filters.antt =====
-- About the filters of `_CppLintState`: what `AddFilters` accepts, and their backup.
use lamp.Prelude.{
  true, none, List, [], ◌∷◌, ◌++◌, ◌≡◌, ◌↔◌, refl, sym, ◌∙◌, append-nil, append_assoc, arith, All,
  All-append,
}
use lamp.Text.{Text, strip, split, starts_with}
use lamp.State.{CppLintState, default_filters}
use lamp.LintState.{
  append_filters, is_filter, check_filters, add_filters, set_filters, backup_filters,
  restore_filters,
}

-- every filter begins with a sign
abbrev pub AllSigned : List Text → Type 0
AllSigned = All (λ f. is_filter f ≡ true)

-- the filters named by a comma-separated text, stripped, without the empty ones
abbrev pub named : List Text → List Text
named [] = []
named (f ∷ fs) = elim (strip f) [ [] ↦ named fs | c ∷ t ↦ (c ∷ t) ∷ named fs ]

check_filters_iff : (fs : List Text) → (check_filters fs ≡ none) ↔ AllSigned fs
unfolding check_filters
check_filters_iff [] = (λ _. tt, λ _. refl)
check_filters_iff (f ∷ fs) = ground (arith, check_filters_iff fs)

append_filters-named : (fs gs : List Text) → append_filters fs gs ≡ fs ++ named gs
unfolding append_filters
append_filters-named fs [] = sym (append-nil fs)
append_filters-named fs (g ∷ gs) = after (strip g) (λ hs. append_filters-named hs gs)
  where
    after :
        (t : Text)
        → ((hs : List Text) → append_filters hs gs ≡ hs ++ named gs)
        → (elim t [ [] ↦ append_filters fs gs | c ∷ u ↦ append_filters (fs ++ (c ∷ u) ∷ []) gs ])
          ≡ fs ++ (elim t [ [] ↦ named gs | c ∷ u ↦ (c ∷ u) ∷ named gs ])
    after [] ih = ih fs
    after (c ∷ u) ih = ih (fs ++ (c ∷ u) ∷ []) ∙ append_assoc fs _ _

AllSigned-append_left : (xs ys : List Text) → AllSigned (xs ++ ys) → AllSigned ys
AllSigned-append_left [] ys h = h
AllSigned-append_left (x ∷ xs) ys (_, h) = AllSigned-append_left xs ys h

default_filters-AllSigned : AllSigned default_filters
unfolding starts_with
default_filters-AllSigned = (refl, tt)

-- `SetFilters` raises no error exactly when every filter that the text names begins with a sign;
-- then the filters are the default ones followed by those named, in order.
pub set_filters_lem :
    (s : CppLintState) (text : Text)
    → ((set_filters s text).0.filters ≡ default_filters ++ named (split text b','))
      × (((set_filters s text).1 ≡ none) ↔ AllSigned (named (split text b',')))
unfolding set_filters
set_filters_lem s text =
    let names = named (split text b',') in
    let appended = append_filters-named default_filters (split text b',') in
    (
      appended,
      rw appended (
        λ e.
            AllSigned-append_left default_filters names
              ((check_filters_iff (default_filters ++ names)).0 e),
        λ h. (check_filters_iff (default_filters ++ names)).1 (
            All-append (λ f. is_filter f ≡ true) default_filters names default_filters-AllSigned h),
      ),
    )

-- A later `AddFilters`, with an error or not, is undone by `RestoreFilters` after `BackupFilters`.
pub restore_filters-add_filters :
    (s : CppLintState) (text : Text)
    → (restore_filters (add_filters (backup_filters s) text).0) ≡ backup_filters s
unfolding add_filters
restore_filters-add_filters s text = refl
