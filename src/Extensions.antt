-- ===== src/Extensions.antt =====
-- The extensions of the files to lint (build_support/cpplint.py): `ProcessHppHeadersOption`,
-- `ProcessExtensionsOption`, and the functions that read them. A set is a list of its elements.
pub mod Partition
use lamp.Prelude.{Bool, not, List, [], ◌∷◌, ◌++◌, map, ◌==◌, if◌then◌else◌, is_some}
use mathlib.Core.List.{filter}
use lamp.Text.{Text, codes, split, strip, find, mem_text}

-- `_hpp_headers` and `_valid_extensions`
pub record Extensions : Type 0 where
  pub hpp_headers : List Text
  pub valid_extensions : List Text

abbrev pub init_extensions : Extensions
init_extensions = record { hpp_headers = []; valid_extensions = [] }

-- `{ext.strip() for ext in val.split(",")}`
unfoldable pub parse_extensions : Text → List Text
parse_extensions val = map strip (split val b',')

-- No `ValueError` is raised by `split` and `strip`.
unfoldable pub process_hpp_headers_option : Text → Extensions → Extensions
unfolding parse_extensions
process_hpp_headers_option val s = record s { hpp_headers = parse_extensions val }

unfoldable pub process_extensions_option : Text → Extensions → Extensions
unfolding parse_extensions
process_extensions_option val s = record s { valid_extensions = parse_extensions val }

abbrev pub default_headers : List Text
default_headers =
    codes "h" ∷ codes "hh" ∷ codes "hpp" ∷ codes "hxx" ∷ codes "h++" ∷ codes "cuh" ∷ []

abbrev pub default_sources : List Text
default_sources = codes "c" ∷ codes "cc" ∷ codes "cpp" ∷ codes "cxx" ∷ codes "c++" ∷ codes "cu" ∷ []

-- `"h" in h`
abbrev pub has_h : Text → Bool
has_h e = is_some (find e (codes "h"))

abbrev pub or_default : List Text → List Text → List Text
or_default [] d = d
or_default (e ∷ es) d = e ∷ es

unfoldable pub keep : (Text → Bool) → List Text → List Text
keep p [] = []
keep p (e ∷ es) = let rest = keep p es in if p e then e ∷ rest else rest

-- the headers among the valid extensions, if there are any
unfoldable pub valid_headers : List Text → List Text
unfolding keep
valid_headers [] = default_headers
valid_headers (e ∷ es) = keep has_h (e ∷ es)

unfoldable pub get_header_extensions : Extensions → List Text
unfolding valid_headers
get_header_extensions s = or_default s.hpp_headers (valid_headers s.valid_extensions)

unfoldable pub is_header_extension : Text → Extensions → Bool
is_header_extension e s = mem_text e (get_header_extensions s)

unfoldable pub get_all_extensions : Extensions → List Text
get_all_extensions s = get_header_extensions s ++ or_default s.valid_extensions default_sources

unfoldable pub get_non_header_extensions : Extensions → List Text
unfolding keep
get_non_header_extensions s = keep (λ e. not (is_header_extension e s)) (get_all_extensions s)

-- `_IsSourceExtension`
unfoldable pub is_source_extension : Text → Extensions → Bool
is_source_extension e s = mem_text e (get_non_header_extensions s)
