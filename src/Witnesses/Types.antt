-- ===== src/Witnesses/Types.antt =====
-- The theorems about file types at a concrete catalog.
use weavatrix_scan.Common.{◌≡◌, refl, some, List, [], ◌∷◌}
use weavatrix_scan.Text.{Bytes, bytes}
use weavatrix_scan.FileTypes.{
  FileTypePattern, extension, include, exclude, NamedFileTypes, get_definition, with_defaults,
}
use weavatrix_scan.FileTypes.LastWins.{with_defaults-keeps}

abbrev own_rust : List FileTypePattern
own_rust = extension (bytes "rs") ∷ extension (bytes "ron") ∷ []

abbrev catalog : NamedFileTypes
catalog = record {
  definitions = (bytes "rust", own_rust) ∷ [];
  selections = include (bytes "rust") ∷ exclude (bytes "rust") ∷ [];
}

abbrev small_table : List (List Bytes × List Bytes)
small_table = (bytes "rust" ∷ [], bytes "*.rs" ∷ []) ∷ (bytes "toml" ∷ [], bytes "*.toml" ∷ []) ∷ []

with_defaults-keeps_example :
    get_definition (bytes "rust") (with_defaults small_table catalog).definitions ≡ some own_rust
with_defaults-keeps_example = with_defaults-keeps small_table catalog (bytes "rust") own_rust refl
