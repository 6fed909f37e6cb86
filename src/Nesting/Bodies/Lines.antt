-- ===== src/Nesting/Bodies/Lines.antt =====
-- The updates for lines of code that declare nothing.
use lamp.Prelude.{
  ℕ, zero, suc, ◌+◌, ◌<◌, true, false, Option, none, some, List, [], ◌∷◌, ◌++◌, ◌≡◌, refl, sym, ap,
  ◌∙◌, arith, length, length-append, append-nil, get_elem?, drop, drop-cons, some_eq, All,
  Bool-cases, inl, inr, ◌==◌,
}
use mathlib.Core.Path.{subst}
use lamp.Text.{Text, concat}
use lamp.Logged.{ret}
use lamp.Regex
use lamp.Regex.Skip.{has_other, IsStop}
use lamp.Cleanse.Lines.{CleansedLines}
use lamp.Nesting.{
  Kind, block, extern_c, class_info, namespace_info, NestingState, Stack, seen_open_brace, on_head,
  modify_top,
}
use lamp.Nesting.Heads.{
  namespace_pattern, class_pattern, access_pattern, count_parentheses, consume_namespaces,
  read_namespace, consume_class, update_access,
}
use lamp.Nesting.Preprocessor.{update_preprocessor}
use lamp.Nesting.Update.{
  consume_braces, begin_block, finish_update, update_blocks, update, remember_top,
}
use lamp.Nesting.Regions.{IsPlain, updates}
use lamp.Nesting.Bodies.{depth, Deeper, IsOneLine, IsQuiet}
use lamp.Nesting.Bodies.Braces.{
  not_brace, cut, brace_pattern-none, brace_pattern-some, depth-append, IsOneLine-append, Leads,
  Deeper-seen, token,
}

depth-free : (n : ℕ) (t : Text) → has_other not_brace t ≡ false → depth n t ≡ some n
unfolding depth
depth-free n t h = ap (depth n) (sym (append-nil t)) ∙ depth-append n t [] h

module _ (base : Stack) (seen : seen_open_brace base ≡ true) (filename : Text)
    (clean_lines : CleansedLines) (linenum : ℕ) where
  round :
      (f n d : ℕ) (pre rest : Text) (s : NestingState)
      → length (pre ++ rest) < suc f
      → IsOneLine (pre ++ rest)
      → depth n (pre ++ rest) ≡ some d
      → Deeper n base s.stack
      → has_other not_brace pre ≡ false
      → IsStop not_brace rest
      → ((m : ℕ) (r : Text) (t : NestingState)
          → length r < f
          → IsOneLine r
          → depth m r ≡ some d
          → Deeper m base t.stack
          → Leads base d (consume_braces f filename clean_lines linenum r t))
      → Leads base d (consume_braces (suc f) filename clean_lines linenum (pre ++ rest) s)
  unfolding consume_braces
  round f n d pre [] s l one h k free stop ih =
      let free' = subst (λ x. has_other not_brace x ≡ false) (sym (append-nil pre)) free in
      let same : n ≡ d = some_eq (sym (depth-free n (pre ++ []) free') ∙ h) in
      rw (brace_pattern-none (pre ++ []) free', consume_braces)
        (s, refl, subst (λ m. Deeper m base s.stack) same k)
  round f n d pre (c ∷ r) s l one h k free stop ih =
      let one' = IsOneLine-append (c ∷ []) r (IsOneLine-append pre (c ∷ r) one) in
      let (m, e, e2, e1) = brace_pattern-some pre c r free stop one' in
      let (j, t, et, ej, kj) =
        token base seen filename clean_lines linenum n d (pre ++ c ∷ r) c r s.stack s stop
          (sym (depth-append n pre (c ∷ r) free) ∙ h) k in
      let (u, eu, ku) = ih j r t (omega (arith, length-append pre (c ∷ r))) one' ej kj in
      rw (e, consume_braces)
        (rw (e1, consume_braces)
          (rw (e2, consume_braces) (rw (et, consume_braces) (u, rw eu refl, ku))))

  consume_braces-Leads :
      (f n d : ℕ) (line : Text) (s : NestingState)
      → length line < f
      → IsOneLine line
      → depth n line ≡ some d
      → Deeper n base s.stack
      → Leads base d (consume_braces f filename clean_lines linenum line s)
  consume_braces-Leads zero n d line s l one h k = absurd (omega arith)
  consume_braces-Leads (suc f) n d line s l one h k =
      let (pre, rest, e, free, stop) = cut line in
      subst (λ x. Leads base d (consume_braces (suc f) filename clean_lines linenum x s)) (sym e)
        (round f n d pre rest s (subst (λ x. length x < suc f) e l) (subst IsOneLine e one)
          (subst (λ x. depth n x ≡ some d) e h) k free stop
          (λ m r t. consume_braces-Leads f m d r t))

closed_split :
    (n : ℕ) (t u : Text) {d : ℕ}
    → ((k : ℕ) → depth k (t ++ u) ≡ some d → (m : ℕ) × (depth k t ≡ some m) × (depth m u ≡ some d))
    → ◌≡◌ {A = Option ℕ} (elim n [ zero ↦ none | suc k ↦ depth k (t ++ u) ]) (some d)
    → (m : ℕ) × ◌≡◌ {A = Option ℕ} (elim n [ zero ↦ none | suc k ↦ depth k t ]) (some m)
      × (depth m u ≡ some d)
closed_split zero t u ih h = cc
closed_split (suc k) t u ih h = ih k h

depth-split :
    (n : ℕ) (t u : Text) {d : ℕ}
    → depth n (t ++ u) ≡ some d
    → (m : ℕ) × (depth n t ≡ some m) × (depth m u ≡ some d)
unfolding depth
depth-split n [] u h = (n, refl, h)
depth-split n (c ∷ t) u h = elim (Bool-cases (c == b'{')) [
  | inl e ↦
      let h1 = rw (e, depth) at h in
      let (m, a, b) = depth-split (suc n) t u h1 in (m, rw (e, depth) a, b)
  | inr e ↦ elim (Bool-cases (c == b'}')) [
    | inl e' ↦
        let h1 = rw (e, depth) at h in
        let h2 = rw (e', depth) at h1 in
        let (m, a, b) = closed_split n t u (λ k. depth-split k t u) h2 in
        (m, rw (e, depth) (rw (e', depth) a), b)
    | inr e' ↦
        let h1 = rw (e, depth) at h in
        let h2 = rw (e', depth) at h1 in
        let (m, a, b) = depth-split n t u h2 in (m, rw (e, depth) (rw (e', depth) a), b)
  ]
]

count_parentheses-Deeper :
    (base : Stack) (line : Text) (n : ℕ) (st : Stack)
    → Deeper n base st
    → Deeper n base (on_head (count_parentheses line) st)
unfolding count_parentheses
count_parentheses-Deeper base line zero [] h = h
count_parentheses-Deeper base line zero (b ∷ st) h = h
count_parentheses-Deeper base line (suc n) [] h = h
count_parentheses-Deeper base line (suc n) (b ∷ st) h = h

pub consume_namespaces-none :
    (linenum : ℕ) (line : Text) (s : NestingState)
    → Regex.match namespace_pattern line ≡ none
    → consume_namespaces (length line + 1) linenum line s ≡ ret (line, s)
unfolding consume_namespaces read_namespace
consume_namespaces-none linenum line s h =
    let e : length line + 1 ≡ suc (length line) = omega arith in
    rw e (rw (h, read_namespace, consume_namespaces) refl)

pub consume_class-none :
    (clean_lines : CleansedLines) (linenum : ℕ) (line : Text) (s : NestingState)
    → Regex.match class_pattern line ≡ none
    → consume_class clean_lines linenum line s ≡ ret (line, s)
unfolding consume_class
consume_class-none clean_lines linenum line s h = rw (h, consume_class) refl

update_access-none :
    (filename : Text) (linenum : ℕ) (line : Text) (st : Stack) (s : NestingState)
    → Regex.match access_pattern line ≡ none
    → update_access filename linenum line (record s { stack = st }) ≡ (record s { stack = st }, [])
unfolding update_access
update_access-none filename linenum line [] s h = refl
update_access-none filename linenum line (b ∷ st) s h = of_kind b.kind
  where
    of_kind :
        (k : Kind)
        → update_access filename linenum line (record s { stack = record b { kind = k } ∷ st })
          ≡ (record s { stack = record b { kind = k } ∷ st }, [])
    of_kind block = refl
    of_kind extern_c = refl
    of_kind (namespace_info name) = refl
    of_kind (class_info c) = rw (h, update_access) refl

begin_block-seen :
    (elided : Text) (s : NestingState) → seen_open_brace s.stack ≡ true → begin_block elided s ≡ s
begin_block-seen elided s h = rw h refl

pub update_preprocessor-IsPlain :
    (line : Text) (s : NestingState) → IsPlain line → update_preprocessor line s ≡ s
unfolding update_preprocessor
update_preprocessor-IsPlain line s (a, b, c) =
    rw (a, update_preprocessor) (rw (b, update_preprocessor) (rw (c, update_preprocessor) refl))

pub remember_top-stack :
    (st : Stack) (s : NestingState) → (remember_top (record s { stack = st })).stack ≡ st
remember_top-stack [] s = refl
remember_top-stack (b ∷ st) s = refl

module _ (base : Stack) (seen : seen_open_brace base ≡ true) (filename : Text)
    (clean_lines : CleansedLines) where
  update_blocks-Leads :
      (linenum n d : ℕ) (line : Text) (s : NestingState)
      → IsQuiet line
      → depth n line ≡ some d
      → Deeper n base s.stack
      → Leads base d (update_blocks filename clean_lines linenum line s)
  unfolding update_blocks finish_update
  update_blocks-Leads linenum n d line s (plain, no_namespace, no_class, no_access, one) h k =
      let t = modify_top (count_parentheses line) s in
      let kt = count_parentheses-Deeper base line n s.stack k in
      let (u, e, ku) =
        consume_braces-Leads base seen filename clean_lines linenum (length line + 1) n d line t
          (omega arith) one h kt in
      rw (consume_namespaces-none linenum line t no_namespace) (
        rw (consume_class-none clean_lines linenum line t no_class) (
          rw (begin_block-seen line t (Deeper-seen base seen n t.stack kt))
            (rw (update_access-none filename linenum line t.stack t no_access) (u, rw e refl, ku))))

  update-Leads :
      (linenum n d : ℕ) (line : Text) (s : NestingState)
      → get_elem? clean_lines.elided linenum ≡ some line
      → IsQuiet line
      → depth n line ≡ some d
      → Deeper n base s.stack
      → Leads base d (update filename clean_lines linenum s)
  unfolding update
  update-Leads linenum n d line s at quiet h k =
      let t = remember_top s in
      rw (at, update)
        (rw (update_preprocessor-IsPlain line t quiet.0) (
          update_blocks-Leads linenum n d line t quiet h
            (subst (Deeper n base) (sym (remember_top-stack s.stack s)) k)))

  updates-Leads :
      (lines more : List Text) (linenum n d : ℕ) (s : NestingState)
      → drop linenum clean_lines.elided ≡ lines ++ more
      → All IsQuiet lines
      → depth n (concat lines) ≡ some d
      → Deeper n base s.stack
      → Leads base d (updates filename clean_lines (length lines) linenum s)
  unfolding updates depth concat
  updates-Leads [] more linenum n d s e quiet h k =
      (s, refl, subst (λ m. Deeper m base s.stack) (some_eq h) k)
  updates-Leads (line ∷ lines) more linenum n d s e (q, quiet) h k =
      let (at, e', l) = drop-cons linenum clean_lines.elided e in
      let (m, hm, h') = depth-split n line (concat lines) h in
      let (t, et, kt) = update-Leads linenum n m line s at q hm k in
      let (u, eu, ku) = updates-Leads lines more (suc linenum) m d t e' quiet h' kt in
      rw et (rw eu (u, refl, ku))

-- From a state whose innermost block has its brace, the updates for lines that hold no directive of
-- conditional compilation, no namespace or class at the front, no access keyword and no line break, and whose
-- braces, counted from depth 0, never close more than they opened and lead to depth `d`, return and
-- make no report; the stack then holds `d` blocks of code more, and what was on it, but for the
-- counts of parentheses and the state of assembly.
pub updates-depth :
    (filename : Text) (clean_lines : CleansedLines) (lines more : List Text) (linenum d : ℕ)
    (s : NestingState)
    → drop linenum clean_lines.elided ≡ lines ++ more
    → All IsQuiet lines
    → depth 0 (concat lines) ≡ some d
    → seen_open_brace s.stack ≡ true
    → (s' : NestingState) × (updates filename clean_lines (length lines) linenum s ≡ some (s', []))
      × Deeper d s.stack s'.stack
updates-depth filename clean_lines lines more linenum d s e quiet h seen =
    updates-Leads s.stack seen filename clean_lines lines more linenum 0 d s e quiet h refl
