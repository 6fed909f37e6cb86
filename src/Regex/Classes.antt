-- ===== src/Regex/Classes.antt =====
-- Short forms in which the patterns of the source are written.
use lamp.Prelude.{ℕ, String, Bool, not, ◌||◌, ◌&&◌, List, [], ◌∷◌, ◌==◌, leb}
use lamp.Text.{Text, codes, is_space, is_word, is_digit}
use lamp.Regex.{Re, eps, chr, seq, alt, star}

-- the characters of a text, and those that are not in it
abbrev pub one_of : Text → ℕ → Bool
one_of [] c = not (c == c)
one_of (d ∷ ds) c = c == d || one_of ds c

-- `[...]` and `[^...]`
abbrev pub among : String → Re
among s = chr (one_of (codes s))

abbrev pub except : String → Re
except s = chr (λ c. not (one_of (codes s) c))

-- a text, character for character
abbrev pub exactly : Text → Re
exactly [] = eps
exactly (c ∷ []) = chr (λ d. d == c)
exactly (c ∷ s) = seq (chr (λ d. d == c)) (exactly s)

abbrev pub lit : String → Re
lit s = exactly (codes s)

-- `r+` and `r?`
abbrev pub plus : Re → Re
plus r = seq r (star r)

abbrev pub opt : Re → Re
opt r = alt r eps

-- `\s`, `\S`, `\w`, `\W`, `\d` and `.`
abbrev pub space : Re
space = chr is_space

abbrev pub non_space : Re
non_space = chr (λ c. not (is_space c))

abbrev pub word : Re
word = chr is_word

abbrev pub non_word : Re
non_word = chr (λ c. not (is_word c))

abbrev pub digit : Re
digit = chr is_digit

abbrev pub dot : Re
dot = chr (λ c. not (c == b'\n'))

-- a class with a range
abbrev pub between : ℕ → ℕ → ℕ → Bool
between lo hi c = leb lo c && leb c hi

-- the parts in order, and the first of the alternatives that matches
abbrev pub seqs : List Re → Re
seqs [] = eps
seqs (r ∷ []) = r
seqs (r ∷ rs) = seq r (seqs rs)

abbrev pub alts : List Re → Re
alts [] = eps
alts (r ∷ []) = r
alts (r ∷ rs) = alt r (alts rs)
