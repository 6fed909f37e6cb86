-- ===== src/Extensions/Partition.antt =====
-- Every extension is one of a header or one of a source.
use lamp.Prelude.{
  Bool, not, ◌&&◌, ◌||◌, List, [], ◌∷◌, ◌++◌, ◌≡◌, refl, ap, ◌∙◌, arith, Bool-cases, inl, inr, map,
}
use lamp.Text.{Text, ◌=t=◌, mem_text, strip}
use lamp.Text.Laws.{split-cons}
use lamp.Dict.{=t=_iff}
use lamp.Extensions.{
  Extensions, has_h, valid_headers, keep, get_header_extensions, is_header_extension,
  get_all_extensions, get_non_header_extensions, is_source_extension, or_default, default_sources,
  process_extensions_option, process_hpp_headers_option, parse_extensions,
}

mem_text-append :
    (s : Text) (xs ys : List Text) → mem_text s (xs ++ ys) ≡ (mem_text s xs || mem_text s ys)
unfolding mem_text
mem_text-append s [] ys = refl
mem_text-append s (x ∷ xs) ys = ground (arith, mem_text-append s xs ys)

mem_text-keep :
    (p : Text → Bool) (s : Text) (xs : List Text) → mem_text s (keep p xs) ≡ (p s && mem_text s xs)
unfolding mem_text keep
mem_text-keep p s [] = ground arith
mem_text-keep p s (x ∷ xs) = elim (Bool-cases (s =t= x)) [
  | inl e ↦ let same = ap p ((=t=_iff s x).0 e) in ground (arith, e, same, mem_text-keep p s xs)
  | inr e ↦ ground (arith, e, mem_text-keep p s xs)
]

and_comm : (a b : Bool) → (a && b) ≡ (b && a)
and_comm a b = ground arith

split_or : (h r : Bool) {a k : Bool} → a ≡ (h || r) → k ≡ (not h && a) → a ≡ (h || k)
split_or h r e e' = ground arith

-- Whatever the options are, an extension is one of a source exactly if it is one of the allowed and not
-- that of a header; and it is one of the allowed exactly if it is one of a header or of a source.
pub extensions_partition :
    (e : Text) (s : Extensions)
    → (is_source_extension e s
        ≡ (mem_text e (get_all_extensions s) && not (is_header_extension e s)))
      × (mem_text e (get_all_extensions s) ≡ (is_header_extension e s || is_source_extension e s))
unfolding is_source_extension get_non_header_extensions get_all_extensions is_header_extension
extensions_partition e s =
    let headers = get_header_extensions s in
    let sources = or_default s.valid_extensions default_sources in
    let kept = mem_text-keep (λ x. not (mem_text x headers)) e (headers ++ sources) in
    let all = mem_text-append e headers sources in
    (
      kept ∙ and_comm (not (mem_text e headers)) (mem_text e (headers ++ sources)),
      split_or (mem_text e headers) (mem_text e sources) all kept,
    )

or_default-cons :
    (xs ys : List Text) {t : Text} {ts : List Text} → xs ≡ t ∷ ts → or_default xs ys ≡ xs
or_default-cons [] ys h = cc
or_default-cons (x ∷ xs) ys h = refl

named_or : (h m : Bool) {a b : Bool} → a ≡ (h && m) → b ≡ m → (a || b) ≡ m
named_or h m e e' = ground arith

module _ (e : Text) where
  headers-cons :
      (xs hpp : List Text) {t : Text} {ts : List Text}
      → hpp ≡ []
      → xs ≡ t ∷ ts
      → mem_text e (get_header_extensions (record { hpp_headers = hpp; valid_extensions = xs }))
        ≡ (has_h e && mem_text e xs)
  unfolding get_header_extensions valid_headers
  headers-cons [] hpp h k = cc
  headers-cons (x ∷ xs) [] h k = mem_text-keep has_h e (x ∷ xs)
  headers-cons (x ∷ xs) (y ∷ hpp) h k = cc

  -- Where no header extensions were given: after `--headers` the header extensions are those that its
  -- value names; after `--extensions` they are those named that hold an h, and the extensions
  -- allowed are those named.
  pub options_lem :
      (val : Text) (s : Extensions)
      → s.hpp_headers ≡ []
      → (is_header_extension e (process_hpp_headers_option val s)
          ≡ mem_text e (parse_extensions val))
        × (is_header_extension e (process_extensions_option val s)
            ≡ (has_h e && mem_text e (parse_extensions val)))
        × (mem_text e (get_all_extensions (process_extensions_option val s))
            ≡ mem_text e (parse_extensions val))
  unfolding get_header_extensions is_header_extension get_all_extensions process_hpp_headers_option
      process_extensions_option parse_extensions
  options_lem val s h =
      let (t, ts, cut) = split-cons val b',' in
      let named = ap (map strip) cut in
      let headers = headers-cons (parse_extensions val) s.hpp_headers h named in
      let all =
        mem_text-append e (get_header_extensions (process_extensions_option val s))
          (or_default (parse_extensions val) default_sources) in
      let sources =
        ap (mem_text e) (or_default-cons (parse_extensions val) default_sources named) in
      (
        ap (mem_text e)
            (or_default-cons (parse_extensions val) (valid_headers s.valid_extensions) named),
        headers,
        all ∙ named_or (has_h e) (mem_text e (parse_extensions val)) headers sources,
      )
