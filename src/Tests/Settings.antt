-- ===== src/Tests/Settings.antt =====
-- The extensions of the files to lint.
use lamp.Prelude.{not, ◌&&◌, ◌||◌, [], ◌∷◌, ◌≡◌, refl}
use lamp.Text.{codes, split, strip, find, mem_text}
use lamp.Extensions.{
  Extensions, init_extensions, has_h, parse_extensions, process_extensions_option,
  process_hpp_headers_option, is_header_extension, get_all_extensions, get_non_header_extensions,
  get_header_extensions, is_source_extension,
}
use lamp.Extensions.Partition.{extensions_partition, options_lem}

abbrev given : Extensions
given = record { hpp_headers = []; valid_extensions = codes "hpp" ∷ codes "cc" ∷ [] }

extensions_test : get_non_header_extensions given ≡ codes "cc" ∷ []
unfolding get_non_header_extensions get_all_extensions get_header_extensions is_header_extension
    find mem_text
extensions_test = refl

parse_test : parse_extensions (codes "hpp, cc") ≡ codes "hpp" ∷ codes "cc" ∷ []
unfolding parse_extensions split strip
parse_test = refl

extensions_partition_example :
    (is_source_extension (codes "cc") given ≡ (
      mem_text (codes "cc") (get_all_extensions given)
      && not (is_header_extension (codes "cc") given)))
    × (mem_text (codes "cc") (get_all_extensions given)
        ≡ (is_header_extension (codes "cc") given || is_source_extension (codes "cc") given))
extensions_partition_example = extensions_partition (codes "cc") given

options_example :
    (is_header_extension
        (codes "hpp")
        (process_hpp_headers_option (codes "hpp, cc") init_extensions)
      ≡ mem_text (codes "hpp") (parse_extensions (codes "hpp, cc")))
    × (is_header_extension
          (codes "hpp")
          (process_extensions_option (codes "hpp, cc") init_extensions)
        ≡ (has_h (codes "hpp") && mem_text (codes "hpp") (parse_extensions (codes "hpp, cc"))))
    × (mem_text
          (codes "hpp")
          (get_all_extensions (process_extensions_option (codes "hpp, cc") init_extensions))
        ≡ mem_text (codes "hpp") (parse_extensions (codes "hpp, cc")))
options_example = options_lem (codes "hpp") (codes "hpp, cc") init_extensions refl
