-- ===== src/IncludeState/Headers.antt =====
-- What `FindHeader` finds, and the canonical form of a header's path (build_support/cpplint.py).
use lamp.Prelude.{
  ℕ, false, ◌≡◌, ◌≢◌, ◌≤◌, ◌↔◌, zero, suc, inl, inr, refl, sym, length, length-append, Bool-cases,
  ap, ◌∙◌, arith, List, [], ◌∷◌, ◌++◌, ◌==◌, if◌then◌else◌, map, some, none,
}
use mathlib.Core.Path.{subst}
use lamp.Text.{starts_with, replace_from, Text, codes, ◌=t=◌, mem_text, replace, to_lower, lower}
use lamp.Text.Laws.{replace_char, starts_with-split}
use lamp.IncludeState.{
  IncludeState, first_of_two, find_in, find_in_sections, find_header, on_last, reset_section,
  add_include, canonicalize_alphabetical_order,
}

find_in-append :
    (header h : Text) (n : ℕ) (hs : List (Text × ℕ))
    → find_in header (hs ++ (h, n) ∷ [])
      ≡ first_of_two (find_in header hs) (if h =t= header then some n else none)
unfolding find_in
find_in-append header h n [] = refl
find_in-append header h n ((k, m) ∷ hs) = ground (arith, find_in-append header h n hs)

find_in_sections-on_last :
    (header h : Text) (n : ℕ) (ss : List (List (Text × ℕ)))
    → ss ≢ []
    → find_in_sections header (on_last (λ hs. hs ++ (h, n) ∷ []) ss)
      ≡ first_of_two (find_in_sections header ss) (if h =t= header then some n else none)
unfolding find_in_sections on_last
find_in_sections-on_last header h n [] ne = absurd (ne refl)
find_in_sections-on_last header h n (s ∷ []) ne = ground (arith, find_in-append header h n s)
find_in_sections-on_last header h n (s ∷ t ∷ ss) ne =
    ground (arith, find_in_sections-on_last header h n (t ∷ ss) cc)

find_in_sections-new :
    (header : Text) (ss : List (List (Text × ℕ)))
    → find_in_sections header (ss ++ [] ∷ []) ≡ find_in_sections header ss
unfolding find_in_sections find_in
find_in_sections-new header [] = refl
find_in_sections-new header (s ∷ ss) = ground (arith, find_in_sections-new header ss)

-- Once a list of includes is open, an include that is recorded is found at its line unless the same
-- header was recorded before, and every other header is found where it was.
pub find_header-add_include :
    (s : IncludeState) (h header : Text) (n : ℕ)
    → s.include_list ≢ []
    → find_header (add_include s h n) header
      ≡ first_of_two (find_header s header) (if h =t= header then some n else none)
unfolding find_header add_include
find_header-add_include s h header n ne = find_in_sections-on_last header h n s.include_list ne

-- A section reset at any directive but `else` and `elif` forgets no include.
pub find_header-reset_section :
    (s : IncludeState) (directive header : Text)
    → mem_text directive (codes "else" ∷ codes "elif" ∷ []) ≡ false
    → find_header (reset_section s directive) header ≡ find_header s header
unfolding find_header reset_section
find_header-reset_section s directive header h =
    ground (arith, find_in_sections-new header s.include_list)

abbrev pub inl_header : Text
inl_header = codes "-inl.h"

abbrev pub canonical_char : ℕ → ℕ
canonical_char c = if c == b'-' then b'_' else to_lower c

-- The canonical form as one pass from left to right: "-inl.h" loses its "-inl", and of the other
-- characters a dash becomes an underscore and a capital letter a small one.
pub data Canonical : Text → Text → Type 0 where
  nothing_left : Canonical [] []
  inl_suffix : {p q : Text} → Canonical p q → Canonical (inl_header ++ p) (codes ".h" ++ q)
  character :
      {c : ℕ} {p q : Text}
      → starts_with (c ∷ p) inl_header ≡ false
      → Canonical p q
      → Canonical (c ∷ p) (canonical_char c ∷ q)

canonicalize-map :
    (p : Text)
    → canonicalize_alphabetical_order p
      ≡ map to_lower (map (λ c. if c == b'-' then b'_' else c) (replace p inl_header (codes ".h")))
unfolding canonicalize_alphabetical_order lower
canonicalize-map p = ap (map to_lower) (replace_char b'-' b'_' _)

canonicalize-inl_header :
    (p : Text)
    → canonicalize_alphabetical_order (inl_header ++ p)
      ≡ codes ".h" ++ canonicalize_alphabetical_order p
unfolding replace replace_from starts_with
canonicalize-inl_header p = rw (canonicalize-map (inl_header ++ p), canonicalize-map p) refl

canonicalize-cons :
    (c : ℕ) (p : Text)
    → starts_with (c ∷ p) inl_header ≡ false
    → canonicalize_alphabetical_order (c ∷ p) ≡ canonical_char c ∷ canonicalize_alphabetical_order p
unfolding replace replace_from starts_with
canonicalize-cons c p h = rw (canonicalize-map, canonicalize-map) (rw h (ground arith))

Canonical-eq : {p q : Text} → Canonical p q → canonicalize_alphabetical_order p ≡ q
unfolding canonicalize_alphabetical_order lower replace replace_from
Canonical-eq nothing_left = refl
Canonical-eq (inl_suffix {p} {q} h) =
    canonicalize-inl_header p ∙ ap (λ x. codes ".h" ++ x) (Canonical-eq h)
Canonical-eq (character {c} {p} {q} n h) =
    canonicalize-cons c p n ∙ ap (λ x. canonical_char c ∷ x) (Canonical-eq h)

canonicalize-Canonical :
    (n : ℕ) (p : Text) → length p ≤ n → Canonical p (canonicalize_alphabetical_order p)
unfolding canonicalize_alphabetical_order lower replace replace_from
canonicalize-Canonical n [] l = nothing_left
canonicalize-Canonical zero (c ∷ p) l = absurd (omega arith)
canonicalize-Canonical (suc n) (c ∷ p) l = elim (Bool-cases (starts_with (c ∷ p) inl_header)) [
  | inl e ↦
      let (t, split) = starts_with-split (c ∷ p) inl_header e in
      let shorter : length t ≤ n = omega (arith, ap length split, length-append inl_header t) in
      subst (λ x. Canonical x (canonicalize_alphabetical_order x)) (sym split)
        (subst (Canonical (inl_header ++ t)) (sym (canonicalize-inl_header t))
          (inl_suffix (canonicalize-Canonical n t shorter)))
  | inr e ↦
      subst (Canonical (c ∷ p)) (sym (canonicalize-cons c p e))
        (character e (canonicalize-Canonical n p (omega arith)))
]

-- The three replacements of `CanonicalizeAlphabeticalOrder` give one text exactly if the pass from
-- left to right gives it, which at "-inl.h" keeps ".h", and elsewhere turns a dash into an
-- underscore and a capital letter into the small one.
pub canonicalize_alphabetical_order_iff :
    (p q : Text) → (canonicalize_alphabetical_order p ≡ q) ↔ Canonical p q
canonicalize_alphabetical_order_iff p q = (
  λ e. subst (Canonical p) e (canonicalize-Canonical (length p) p (omega arith)),
  λ h. Canonical-eq h,
)
