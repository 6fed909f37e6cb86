-- ===== src/Text.antt =====
-- The operations of Python's `str` that the linter uses, over the code points of a text.
-- Character classes are those of the ASCII characters.
pub mod Laws
use Prim.Native.Char.{code}
use lamp.Prelude.{
  ℕ, zero, suc, ◌+◌, ◌-◌, ◌/◌, ◌%◌, String, Bool, true, false, not, ◌&&◌, ◌||◌, Option, none, some,
  List, [], ◌∷◌, ◌++◌, map, ltb, leb, ◌==◌, if◌then◌else◌, length, take, drop, any,
}
use mathlib.Core.List.{reverse}
use mathlib.Core.Option

abbrev pub Text : Type 0
Text = List ℕ

abbrev pub codes : String → Text
codes String.[] = []
codes (String.◌∷◌ c s) = code c ∷ codes s

infix 50 ◌=t=◌
-- `==` of two texts
unfoldable pub ◌=t=◌ : Text → Text → Bool
[] =t= [] = true
(c ∷ s) =t= (d ∷ t) = c == d && s =t= t
_ =t= _ = false

-- `<` of two texts: the order of their code points
unfoldable pub text_lt : Text → Text → Bool
text_lt [] [] = false
text_lt [] (d ∷ t) = true
text_lt (c ∷ s) [] = false
text_lt (c ∷ s) (d ∷ t) = ltb c d || (c == d && text_lt s t)

-- `s in xs`
unfoldable pub mem_text : Text → List Text → Bool
unfolding ◌=t=◌
mem_text s [] = false
mem_text s (t ∷ ts) = s =t= t || mem_text s ts

unfoldable pub starts_with : Text → Text → Bool
starts_with s [] = true
starts_with [] (d ∷ p) = false
starts_with (c ∷ s) (d ∷ p) = c == d && starts_with s p

unfoldable pub ends_with : Text → Text → Bool
unfolding ◌=t=◌
ends_with s p = leb (length p) (length s) && drop (length s - length p) s =t= p

-- `s.find(p)`; `none` stands for -1
unfoldable pub find : Text → Text → Option ℕ
unfolding starts_with
find [] p = if starts_with [] p then some 0 else none
find (c ∷ s) p =
    let later = find s p in if starts_with (c ∷ s) p then some 0 else Option.map suc later

-- `s.find(p, start)`
unfoldable pub find_from : Text → Text → ℕ → Option ℕ
unfolding find
find_from s p start = Option.map (λ i. i + start) (find (drop start s) p)

-- The number of texts `p` found from left to right without overlap; `skip` characters belong to
-- the one found last. `p` is not empty.
unfoldable pub count_from : ℕ → Text → Text → ℕ
unfolding starts_with
count_from skip p [] = 0
count_from (suc k) p (c ∷ s) = count_from k p s
count_from zero p (c ∷ s) =
    let here = suc (count_from (length p - 1) p s) in
    let later = count_from zero p s in if starts_with (c ∷ s) p then here else later

-- `s.count(p)`
unfoldable pub count : Text → Text → ℕ
unfolding count_from
count s p = count_from zero p s

unfoldable pub replace_from : ℕ → Text → Text → Text → Text
unfolding starts_with
replace_from skip old new [] = []
replace_from (suc k) old new (c ∷ s) = replace_from k old new s
replace_from zero old new (c ∷ s) =
    let here = new ++ replace_from (length old - 1) old new s in
    let later = c ∷ replace_from zero old new s in if starts_with (c ∷ s) old then here else later

-- `s.replace(old, new)`, where `old` is not empty
unfoldable pub replace : Text → Text → Text → Text
unfolding replace_from
replace s old new = replace_from zero old new s

-- `str.isspace` of one character
abbrev pub is_space : ℕ → Bool
is_space c = (leb 9 c && leb c 13) || (leb 28 c && leb c 32)

abbrev pub is_digit : ℕ → Bool
is_digit c = leb b'0' c && leb c b'9'

abbrev pub is_upper : ℕ → Bool
is_upper c = leb b'A' c && leb c b'Z'

abbrev pub is_lower : ℕ → Bool
is_lower c = leb b'a' c && leb c b'z'

-- the class `\w`
abbrev pub is_word : ℕ → Bool
is_word c = is_digit c || is_upper c || is_lower c || c == b'_'

unfoldable pub lstrip : Text → Text
lstrip [] = []
lstrip (c ∷ s) = let rest = lstrip s in if is_space c then rest else c ∷ s

unfoldable pub rstrip : Text → Text
unfolding lstrip
rstrip s = reverse (lstrip (reverse s))

unfoldable pub strip : Text → Text
unfolding rstrip
strip s = rstrip (lstrip s)

abbrev pub to_lower : ℕ → ℕ
to_lower c = if is_upper c then c + 32 else c

-- `s.lower()`
unfoldable pub lower : Text → Text
lower s = map to_lower s

split_onto : ℕ → Text → Text → List Text
split_onto sep cur [] = reverse cur ∷ []
split_onto sep cur (c ∷ s) =
    let closed = reverse cur ∷ split_onto sep [] s in
    let longer = split_onto sep (c ∷ cur) s in if c == sep then closed else longer

-- `s.split(sep)` at a separator of one character
unfoldable pub split : Text → ℕ → List Text
unfolding split_onto
split s sep = split_onto sep [] s

decimal_from : ℕ → ℕ → Text → Text
decimal_from zero n acc = acc
decimal_from (suc fuel) n acc =
    let more = decimal_from fuel (n / 10) ((b'0' + n % 10) ∷ acc) in
    if ltb n 10 then (b'0' + n) ∷ acc else more

-- `%d` of a number; each round drops a digit, so `n + 1` rounds suffice
unfoldable pub decimal : ℕ → Text
unfolding decimal_from
decimal n = decimal_from (n + 1) n []

-- `"%s..." % ...` with its parts in order
unfoldable pub concat : List Text → Text
concat [] = []
concat (t ∷ ts) = t ++ concat ts
