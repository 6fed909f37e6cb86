-- ===== src/Nesting/Update/Total.antt =====
-- About the rounds of the loops in `NestingState.Update`.
use lamp.Prelude.{
  ℕ, zero, suc, ◌+◌, ◌≤◌, ◌<◌, Bool, true, false, not, Option, none, some, List, [], ◌++◌, ◌≡◌, inl,
  inr, refl, sym, arith, if◌then◌else◌, length, get_elem?, get_or, get_elem?_of_lt, if_rule,
  Option-cases,
}
use mathlib.Core.Path.{subst}
use lamp.Text.{Text}
use lamp.State.{Report}
use lamp.Int.{is_pos}
use lamp.Logged.{Logged, ret, ◌>>=◌}
use lamp.Regex
use lamp.Regex.{At, chr, seq, alt, star, group, group_of}
use lamp.Cleanse.Raw.{group_text}
use lamp.Cleanse.Lines.{CleansedLines}
use lamp.Nesting.{NestingState, push, on_top, modify_top}
use lamp.Nesting.Blocks.{class_block}
use lamp.Nesting.Preprocessor.{update_preprocessor}
use lamp.Nesting.Template.{in_template_argument_list}
use lamp.Nesting.Template.Rounds.{room, in_template_argument_list-Answers}
use lamp.Nesting.Heads.{
  read_namespace, consume_namespaces, class_pattern, consume_class, update_access,
  count_parentheses,
}
use lamp.Nesting.Update.{
  brace_pattern, consume_token, consume_braces, finish_update, begin_block, update_blocks, update,
  remember_top,
}
use lamp.Nesting.Update.Lengths.{brace_pattern-length, read_namespace-length, class_pattern-length}

-- A result, with a property of its value.
abbrev Yields {ℓ} : {A : Type ℓ} → (A → Type 0) → Logged A → Type ℓ
Yields {A = A} P o = (a : A) × (rs : List Report) × (o ≡ some (a, rs)) × P a

Yields->>= {ℓ κ} :
    {A : Type ℓ} {B : Type κ} (P : A → Type 0) (Q : B → Type 0) (m : Logged A) (f : A → Logged B)
    → Yields P m
    → ((a : A) → P a → Yields Q (f a))
    → Yields Q (m >>= f)
Yields->>= P Q m f (a, rs, e, p) h =
    let (b, qs, e', q) = h a p in (b, rs ++ qs, rw e (rw e' refl), q)

consume_namespaces-Yields :
    (f linenum : ℕ) (line : Text) (s : NestingState)
    → length line < f
    → Yields
        (λ (r : Text × NestingState). length r.0 ≤ length line)
        (consume_namespaces f linenum line s)
unfolding consume_namespaces
consume_namespaces-Yields zero linenum line s h = absurd (omega arith)
consume_namespaces-Yields (suc f) linenum line s h =
    elim (Option-cases (read_namespace linenum line)) [
      | inl e ↦ rw (e, consume_namespaces) ((line, s), [], refl, omega arith)
      | inr ((rest, b), e) ↦
          let shorter = read_namespace-length linenum line rest b e in
          let ((l, t), rs, e', h') =
            consume_namespaces-Yields f linenum rest (push b s) (omega arith) in
          rw (e, consume_namespaces) ((l, t), rs, e', omega arith)
    ]

consume_class-Yields :
    (clean_lines : CleansedLines) (linenum : ℕ) (full line : Text) (s : NestingState)
    → get_elem? clean_lines.elided linenum ≡ some full
    → length line ≤ length full
    → Yields (λ (r : Text × NestingState). Unit {0}) (consume_class clean_lines linenum line s)
unfolding consume_class
consume_class-Yields clean_lines linenum full line s at h =
    after (Regex.match class_pattern line) (class_pattern-length line)
  where
    answered :
        (m : At) (o : Option Bool)
        → (b : Bool) × (o ≡ some b)
        → Yields
            (λ (r : Text × NestingState). Unit {0})
            (elim o [
              | none ↦ none
              | some inside ↦
                  if inside
                  then ret (line, s)
                  else ret (
                    group_text m 4,
                    push (class_block (group_text m 3) (group_text m 2) clean_lines linenum) s,
                  )
            ])
    answered m none (b, e) = cc
    answered m (some true) (b, e) = (_, [], refl, tt)
    answered m (some false) (b, e) = (_, [], refl, tt)

    after :
        (o : Option At)
        → ((m : At) → o ≡ some m → length (group_text m 1) ≤ length line)
        → Yields
            (λ (r : Text × NestingState). Unit {0})
            (elim o [
              | none ↦ ret (line, s)
              | some m ↦
                  if on_top (λ b. not (is_pos 0 b.open_parentheses)) s.stack
                  then ret (line, s)
                  else (elim (in_template_argument_list clean_lines.elided linenum
                      (length (group_text m 1))) [
                        | none ↦ none
                        | some inside ↦
                            if inside
                            then ret (line, s)
                            else ret (
                              group_text m 4,
                              push
                                  (class_block
                                    (group_text m 3)
                                    (group_text m 2)
                                    clean_lines
                                    linenum)
                                  s,
                            )
                      ])
            ])
    after none l = (_, [], refl, tt)
    after (some m) l =
        if_rule (Yields (λ (r : Text × NestingState). Unit {0}))
          (on_top (λ b. not (is_pos 0 b.open_parentheses)) s.stack) _ _ (λ _. (_, [], refl, tt))
          (λ _.
            answered m
              (in_template_argument_list clean_lines.elided linenum (length (group_text m 1)))
              (in_template_argument_list-Answers clean_lines.elided linenum
                (length (group_text m 1))
                (subst (λ o. length (group_text m 1) ≤ room o) (sym at)
                  (let l' = l m refl in omega arith))))

consume_braces-Yields :
    (f : ℕ) (filename : Text) (clean_lines : CleansedLines) (linenum : ℕ) (line : Text)
    (s : NestingState)
    → length line < f
    → Yields
        (λ (s' : NestingState). Unit {0})
        (consume_braces f filename clean_lines linenum line s)
unfolding consume_braces
consume_braces-Yields zero filename clean_lines linenum line s h = absurd (omega arith)
consume_braces-Yields (suc f) filename clean_lines linenum line s h =
    after (Regex.match brace_pattern line) (brace_pattern-length line)
      (λ l t. consume_braces-Yields f filename clean_lines linenum l t)
  where
    after :
        (o : Option At)
        → ((m : At) → o ≡ some m → length (group_text m 2) < length line)
        → ((l : Text) (t : NestingState)
            → length l < f
            → Yields
                (λ (s' : NestingState). Unit {0})
                (consume_braces f filename clean_lines linenum l t))
        → Yields
            (λ (s' : NestingState). Unit {0})
            (elim o [
              | none ↦ ret s
              | some m ↦
                  some (
                    consume_token filename clean_lines linenum line (get_or (group_text m 1) 0 0) s)
                  >>= consume_braces f filename clean_lines linenum (group_text m 2)
            ])
    after none l ih = (s, [], refl, tt)
    after (some m) l ih =
        let l' = l m refl in
        let (t, rs) =
          consume_token filename clean_lines linenum line (get_or (group_text m 1) 0 0) s in
        let (u, qs, e, _) = ih (group_text m 2) t (omega arith) in (u, rs ++ qs, rw e refl, tt)

-- For a line of the file `Update` returns: the loops over namespaces, over template arguments and
-- over braces end, and `CloseExpression` is asked only at characters that there are.
pub update_total :
    (filename : Text) (clean_lines : CleansedLines) (linenum : ℕ) (s : NestingState)
    → linenum < length clean_lines.elided
    → (s' : NestingState) × (reports : List Report) × (update filename clean_lines linenum s
        ≡ some (s', reports))
unfolding update update_blocks finish_update
update_total filename clean_lines linenum s h =
    let (line, at) = get_elem?_of_lt clean_lines.elided linenum h in
    let t = update_preprocessor line (remember_top s) in
    let class = λ (r : Text × NestingState). consume_class clean_lines linenum r.0 r.1 in
    let finish =
      λ (q : Text × NestingState). finish_update filename clean_lines linenum line q.0 q.1 in
    let none_of = λ (q : Text × NestingState). Unit {0} in
    let (s', rs, e, _) =
      Yields->>= (λ (r : Text × NestingState). length r.0 ≤ length line)
        (λ (s' : NestingState). Unit {0})
        (consume_namespaces (length line + 1) linenum line (modify_top (count_parentheses line) t))
        (λ r. class r >>= finish)
        (consume_namespaces-Yields (length line + 1) linenum line
          (modify_top (count_parentheses line) t) (omega arith))
        λ r shorter.
          Yields->>= none_of (λ (s' : NestingState). Unit {0}) (class r) finish
            (consume_class-Yields clean_lines linenum line r.0 r.1 at shorter)
            λ q _.
              let (u, qs) = update_access filename linenum q.0 (begin_block line q.1) in
              let (v, more, e', _) =
                consume_braces-Yields (length q.0 + 1) filename clean_lines linenum q.0 u
                  (omega arith) in
              (v, qs ++ more, rw e' refl, tt) in
    (s', rs, rw (at, update) e)
