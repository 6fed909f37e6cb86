-- ===== src/Regex/Length.antt =====
-- How much a match reads, and which groups it closes.
use lamp.Prelude.{
  ℕ, ◌+◌, ◌-◌, ◌≤◌, Bool, true, false, ◌&&◌, ◌≡◌, inl, inr, refl, ap, ◌∙◌, arith, leb,
  if◌then◌else◌, [], ◌∷◌, ◌++◌, sym, append_assoc, length, take, length-reverse, length-take,
}
use mathlib.Core.List.{reverse}
use lamp.Text.{Text}
use lamp.Regex.{
  Re, eps, chr, seq, alt, star, lazy_star, group, bol, eol, word_boundary, ahead, not_ahead, At,
}
use lamp.Regex.Reads.{Rounds, done, round, ReadsChar, Reads}

-- the fewest characters that a match reads
abbrev pub min_length : Re → ℕ
min_length eps = 0
min_length (chr p) = 1
min_length (seq a b) = min_length a + min_length b
min_length (alt a b) = if leb (min_length a) (min_length b) then min_length a else min_length b
min_length (star r) = 0
min_length (lazy_star r) = 0
min_length (group n r) = min_length r
min_length bol = 0
min_length eol = 0
min_length word_boundary = 0
min_length (ahead r) = 0
min_length (not_ahead r) = 0

-- What is read is put behind the position, and is at least `n` characters.
abbrev pub Advances : ℕ → At → At → Type 0
Advances n s s' =
    (length s'.before + length s'.rest ≡ length s.before + length s.rest)
    × (n + length s'.rest ≤ length s.rest)

Advances-refl : (s s' : At) → s' ≡ s → Advances 0 s s'
Advances-refl s s' e = (ap (λ (x : At). length x.before + length x.rest) e, rw e (omega arith))

Advances-ReadsChar : (p : ℕ → Bool) (s s' : At) → ReadsChar p s s' → Advances 1 s s'
Advances-ReadsChar p s s' (c, r, h, e, e') = rw e' (rw e (omega arith, omega arith))

Advances-Rounds :
    (R : At → At → Type 0)
    → ((s s' : At) → R s s' → (n : ℕ) × Advances n s s')
    → {s s' : At} → Rounds R s s'
    → Advances 0 s s'
Advances-Rounds R step (done s) = (refl, omega arith)
Advances-Rounds R step (round {s = s} {t = t} r rs) =
    let (n, (e, h)) = step s t r in
    let (e', h') = Advances-Rounds R step rs in (omega arith, omega arith)

pub Reads-Advances : (r : Re) (s s' : At) → Reads r s s' → Advances (min_length r) s s'
Reads-Advances eps s s' h = Advances-refl s s' h
Reads-Advances (chr p) s s' h = Advances-ReadsChar p s s' h
Reads-Advances (seq a b) s s' (m, h, g) =
    let (e, l) = Reads-Advances a s m h in
    let (e', l') = Reads-Advances b m s' g in (omega arith, omega arith)
Reads-Advances (alt a b) s s' (inl h) = let (e, l) = Reads-Advances a s s' h in (e, ground arith)
Reads-Advances (alt a b) s s' (inr h) = let (e, l) = Reads-Advances b s s' h in (e, ground arith)
Reads-Advances (star r) s s' h =
    Advances-Rounds (Reads r) (λ t u g. (min_length r, Reads-Advances r t u g)) h
Reads-Advances (lazy_star r) s s' h =
    Advances-Rounds (Reads r) (λ t u g. (min_length r, Reads-Advances r t u g)) h
Reads-Advances (group n r) s s' (m, h, e) = let (e', l) = Reads-Advances r s m h in rw e (e', l)
Reads-Advances bol s s' h = Advances-refl s s' h
Reads-Advances eol s s' h = Advances-refl s s' h
Reads-Advances word_boundary s s' h = Advances-refl s s' h
Reads-Advances (ahead r) s s' (gs, h) = rw h (refl, omega arith)
Reads-Advances (not_ahead r) s s' h = Advances-refl s s' h

-- no group is closed in a match
abbrev pub closes_none : Re → Bool
closes_none eps = true
closes_none (chr p) = true
closes_none (seq a b) = closes_none a && closes_none b
closes_none (alt a b) = closes_none a && closes_none b
closes_none (star r) = closes_none r
closes_none (lazy_star r) = closes_none r
closes_none (group n r) = false
closes_none bol = true
closes_none eol = true
closes_none word_boundary = true
closes_none (ahead r) = false
closes_none (not_ahead r) = true

&&-true : (a b : Bool) → (a && b) ≡ true → (a ≡ true) × (b ≡ true)
&&-true a b h = ground arith

Rounds-groups :
    (R : At → At → Type 0)
    → ((s s' : At) → R s s' → s'.groups ≡ s.groups)
    → {s s' : At} → Rounds R s s'
    → s'.groups ≡ s.groups
Rounds-groups R step (done s) = refl
Rounds-groups R step (round {s = s} {t = t} r rs) = Rounds-groups R step rs ∙ step s t r

pub Reads-groups : (r : Re) (s s' : At) → closes_none r ≡ true → Reads r s s' → s'.groups ≡ s.groups
Reads-groups eps s s' p h = ap (λ (x : At). x.groups) h
Reads-groups (chr q) s s' p (c, r, _, _, e) = ap (λ (x : At). x.groups) e
Reads-groups (seq a b) s s' p (m, h, g) =
    let (x, y) = &&-true (closes_none a) (closes_none b) p in
    Reads-groups b m s' y g ∙ Reads-groups a s m x h
Reads-groups (alt a b) s s' p (inl h) =
    Reads-groups a s s' (&&-true (closes_none a) (closes_none b) p).0 h
Reads-groups (alt a b) s s' p (inr h) =
    Reads-groups b s s' (&&-true (closes_none a) (closes_none b) p).1 h
Reads-groups (star r) s s' p h = Rounds-groups (Reads r) (λ t u g. Reads-groups r t u p g) h
Reads-groups (lazy_star r) s s' p h = Rounds-groups (Reads r) (λ t u g. Reads-groups r t u p g) h
Reads-groups (group n r) s s' p h = cc
Reads-groups bol s s' p h = ap (λ (x : At). x.groups) h
Reads-groups eol s s' p h = ap (λ (x : At). x.groups) h
Reads-groups word_boundary s s' p h = ap (λ (x : At). x.groups) h
Reads-groups (ahead r) s s' p h = cc
Reads-groups (not_ahead r) s s' p h = ap (λ (x : At). x.groups) h

abbrev pub closed_text : At → At → Text
closed_text s m = reverse (take (length m.before - length s.before) m.before)

-- A closed group holds as many characters as it read.
pub length-closed_text :
    (r : Re) (s m : At) → Reads r s m → length (closed_text s m) + length m.rest ≡ length s.rest
length-closed_text r s m h =
    let (e, l) = Reads-Advances r s m h in
    let n = length m.before - length s.before in
    omega (arith, length-reverse (take n m.before), length-take n m.before)

-- What a match reads stands in front of what is left.
abbrev pub IsBefore : At → At → Type 0
IsBefore s m = (t : Text) × (s.rest ≡ t ++ m.rest)

IsBefore-trans : (s m u : At) → IsBefore s m → IsBefore m u → IsBefore s u
IsBefore-trans s m u (t, e) (t', e') =
    (t ++ t', e ∙ ap (λ x. t ++ x) e' ∙ sym (append_assoc t t' u.rest))

IsBefore-same : (s m : At) → m ≡ s → IsBefore s m
IsBefore-same s m e = ([], sym (ap (λ (x : At). x.rest) e))

Rounds-IsBefore :
    (R : At → At → Type 0)
    → ((s m : At) → R s m → IsBefore s m)
    → {s m : At} → Rounds R s m
    → IsBefore s m
Rounds-IsBefore R step (done s) = ([], refl)
Rounds-IsBefore R step (round {s = s} {t = t} {u = u} r rs) =
    IsBefore-trans s t u (step s t r) (Rounds-IsBefore R step rs)

pub Reads-IsBefore : (r : Re) (s m : At) → Reads r s m → IsBefore s m
Reads-IsBefore eps s m h = IsBefore-same s m h
Reads-IsBefore (chr p) s m (c, r, h, e, e') =
    (c ∷ [], e ∙ ap (◌∷◌ c) (sym (ap (λ (x : At). x.rest) e')))
Reads-IsBefore (seq a b) s m (u, h, g) =
    IsBefore-trans s u m (Reads-IsBefore a s u h) (Reads-IsBefore b u m g)
Reads-IsBefore (alt a b) s m (inl h) = Reads-IsBefore a s m h
Reads-IsBefore (alt a b) s m (inr h) = Reads-IsBefore b s m h
Reads-IsBefore (star r) s m h = Rounds-IsBefore (Reads r) (Reads-IsBefore r) h
Reads-IsBefore (lazy_star r) s m h = Rounds-IsBefore (Reads r) (Reads-IsBefore r) h
Reads-IsBefore (group n r) s m (u, h, e) =
    IsBefore-trans s u m (Reads-IsBefore r s u h) ([], sym (ap (λ (x : At). x.rest) e))
Reads-IsBefore bol s m h = IsBefore-same s m h
Reads-IsBefore eol s m h = IsBefore-same s m h
Reads-IsBefore word_boundary s m h = IsBefore-same s m h
Reads-IsBefore (ahead r) s m (gs, h) = ([], sym (ap (λ (x : At). x.rest) h))
Reads-IsBefore (not_ahead r) s m h = IsBefore-same s m h
