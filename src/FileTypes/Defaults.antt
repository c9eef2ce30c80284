-- ===== src/FileTypes/Defaults.antt =====
-- The table of default types (src/default_file_types.rs), in three parts, and the catalog that it makes.
mod Front
mod Middle
mod Back
use weavatrix_scan.Common.{List, ◌++◌}
use weavatrix_scan.Text.{Bytes}
use weavatrix_scan.FileTypes.{NamedFileTypes, new_types, with_defaults}
use weavatrix_scan.FileTypes.Defaults.Front.{default_types_front}
use weavatrix_scan.FileTypes.Defaults.Middle.{default_types_middle}
use weavatrix_scan.FileTypes.Defaults.Back.{default_types_back}

abbrev default_file_types : List (List Bytes × List Bytes)
default_file_types = default_types_front ++ (default_types_middle ++ default_types_back)

-- `NamedFileTypes::defaults`.
abbrev default_catalog : NamedFileTypes
default_catalog = with_defaults default_file_types new_types
