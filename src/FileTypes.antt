-- ===== src/FileTypes.antt =====
-- Named groups of file patterns (src/file_types.rs): a map from names to sets of patterns, and selections
-- of which the last one that matches decides.
pub mod LastWins
mod Defaults
use weavatrix_scan.Common.{
  ℕ, Bool, true, false, not, ◌&&◌, ◌||◌, Option, none, some, List, [], ◌∷◌, ◌++◌, ◌==◌, ltb, any,
  map, Ordering, if◌then◌else◌,
}
use weavatrix_scan.Text.{
  Bytes, bytes, slash, backslash, text_eq, text_cmp, strip_prefix, contains_byte, rsplit_once,
  is_empty,
}
use weavatrix_scan.Ignore.Matcher.{eq_ignore_ascii_case, lower, glob_matches}
use weavatrix_scan.Ignore.Rules.{file_name as last_name}
use weavatrix_scan.Hash.{Hasher, write}

pub data FileTypePattern : Type 0 where
  extension : Bytes → FileTypePattern
  glob : Bytes → FileTypePattern

pub data FileTypeSelection : Type 0 where
  include : Bytes → FileTypeSelection
  exclude : Bytes → FileTypeSelection

pub data FileTypeMatch : Type 0 where
  included excluded unmatched : FileTypeMatch

-- The definitions stand in the order of their names, a set of patterns in that of the patterns.
pub record NamedFileTypes : Type 0 where
  pub definitions : List (Bytes × List FileTypePattern)
  pub selections : List FileTypeSelection

-- `path.file_name()` and `path.extension()` of the path that is matched, with `none` where they are missing
-- or not UTF-8.
pub record PathNames : Type 0 where
  pub file_name : Option Bytes
  pub extension : Option Bytes

abbrev extension_part : Option (Bytes × Bytes) → Option Bytes
extension_part none = none
extension_part (some ([], after)) = none
extension_part (some (c ∷ cs, after)) = some after

-- The names of a path of UTF-8 text: behind the last slash, and behind the last dot of that name unless the
-- name starts with it.
abbrev pub names_of : Bytes → PathNames
names_of path = record {
  file_name = some (last_name path);
  extension = extension_part (rsplit_once b'.' (last_name path));
}

abbrev pattern_cmp : FileTypePattern → FileTypePattern → Ordering
pattern_cmp (extension a) (extension b) = text_cmp a b
pattern_cmp (extension a) (glob b) = Ordering.lt
pattern_cmp (glob a) (extension b) = Ordering.gt
pattern_cmp (glob a) (glob b) = text_cmp a b

abbrev insert_pattern : FileTypePattern → List FileTypePattern → List FileTypePattern
insert_pattern pattern [] = pattern ∷ []
insert_pattern pattern (other ∷ others) = elim (pattern_cmp pattern other) [
  | Ordering.lt ↦ pattern ∷ other ∷ others
  | Ordering.eq ↦ other ∷ others
  | Ordering.gt ↦ other ∷ insert_pattern pattern others
]

abbrev insert_patterns : List FileTypePattern → List FileTypePattern → List FileTypePattern
insert_patterns [] set = set
insert_patterns (pattern ∷ patterns) set = insert_patterns patterns (insert_pattern pattern set)

-- `BTreeMap::insert`, `get` and `entry(..).or_insert_with(..)`.
abbrev pub insert_definition {ℓ} : {A : Type ℓ} → Bytes → A → List (Bytes × A) → List (Bytes × A)
insert_definition name value [] = (name, value) ∷ []
insert_definition name value ((key, old) ∷ rest) = elim (text_cmp name key) [
  | Ordering.lt ↦ (name, value) ∷ (key, old) ∷ rest
  | Ordering.eq ↦ (key, value) ∷ rest
  | Ordering.gt ↦ (key, old) ∷ insert_definition name value rest
]

abbrev pub get_definition {ℓ} : {A : Type ℓ} → Bytes → List (Bytes × A) → Option A
get_definition name [] = none
get_definition name ((key, value) ∷ rest) =
    let found = get_definition name rest in if text_eq key name then some value else found

abbrev is_known {ℓ} : {A : Type ℓ} → Option A → Bool
is_known none = false
is_known (some a) = true

abbrev lower_all : Bytes → Bytes
lower_all = map lower

abbrev trim_dots : Bytes → Bytes
trim_dots [] = []
trim_dots (c ∷ cs) = let rest = trim_dots cs in if c == b'.' then rest else c ∷ cs

-- `normalized_extension`.
abbrev normalized_extension : Bytes → Bytes
normalized_extension text = lower_all (trim_dots text)

abbrev to_slash : ℕ → ℕ
to_slash c = if c == backslash then slash else c

abbrev is_plain_extension : Bytes → Bool
is_plain_extension text =
    not (contains_byte b'.' text)
    && not (
        any (λ c. (c == b'*') || ((c == b'?') || ((c == b'[') || ((c == b'{') || (c == slash)))))
          text)

abbrev extension_or_glob : Bytes → Option Bytes → FileTypePattern
extension_or_glob normalized none = glob normalized
extension_or_glob normalized (some extension_part) =
    if is_plain_extension extension_part
    then extension (normalized_extension extension_part)
    else glob normalized

-- `pattern_from_glob`.
unfoldable pub pattern_from_glob : Bytes → FileTypePattern
pattern_from_glob pattern =
    let normalized = map to_slash pattern in
    extension_or_glob normalized (strip_prefix (b'*' ∷ b'.' ∷ []) normalized)

abbrev pub new_types : NamedFileTypes
new_types = record { definitions = []; selections = [] }

abbrev or_insert_all :
    List Bytes
    → List FileTypePattern
    → List (Bytes × List FileTypePattern)
    → List (Bytes × List FileTypePattern)
or_insert_all [] parsed definitions = definitions
or_insert_all (name ∷ names) parsed definitions = or_insert_all names parsed (
    if is_known (get_definition name definitions)
    then definitions
    else insert_definition name parsed definitions)

abbrev add_defaults :
    List (List Bytes × List Bytes)
    → List (Bytes × List FileTypePattern)
    → List (Bytes × List FileTypePattern)
add_defaults [] definitions = definitions
add_defaults ((names, patterns) ∷ groups) definitions =
    add_defaults groups
      (or_insert_all names (insert_patterns (map pattern_from_glob patterns) []) definitions)

-- `NamedFileTypes::with_defaults`, over the table of default types.
unfoldable pub with_defaults : List (List Bytes × List Bytes) → NamedFileTypes → NamedFileTypes
with_defaults table types = record types { definitions = add_defaults table types.definitions }

-- `NamedFileTypes::with_type`.
abbrev with_type : Bytes → List Bytes → NamedFileTypes → NamedFileTypes
with_type name extensions types = record types {
  definitions =
      insert_definition name
        (insert_patterns (map (λ e. extension (normalized_extension e)) extensions) [])
        types.definitions;
}

-- `NamedFileTypes::with_globs`.
abbrev with_globs : Bytes → List Bytes → NamedFileTypes → NamedFileTypes
with_globs name patterns types = record types {
  definitions =
      insert_definition name (insert_patterns (map pattern_from_glob patterns) [])
        types.definitions;
}

abbrev extend_set : Option (List FileTypePattern) → List FileTypePattern → List FileTypePattern
extend_set none set = set
extend_set (some patterns) set = insert_patterns patterns set

abbrev composed :
    List (Bytes × List FileTypePattern) → List Bytes → List FileTypePattern → List FileTypePattern
composed definitions [] set = set
composed definitions (name ∷ names) set =
    composed definitions names (extend_set (get_definition name definitions) set)

-- `NamedFileTypes::with_composed_type`.
abbrev with_composed_type : Bytes → List Bytes → NamedFileTypes → NamedFileTypes
with_composed_type name components types = record types {
  definitions = insert_definition name (composed types.definitions components []) types.definitions;
}

-- `NamedFileTypes::select`.
abbrev select : List Bytes → NamedFileTypes → NamedFileTypes
select names types = record types { selections = map include names }

-- `NamedFileTypes::negate`.
abbrev negate : List Bytes → NamedFileTypes → NamedFileTypes
negate names types = record types { selections = types.selections ++ map exclude names }

abbrev is_active : NamedFileTypes → Bool
is_active types = not (is_empty types.selections)

-- `NamedFileTypes::contains`.
abbrev contains_type : Bytes → NamedFileTypes → Bool
contains_type name types = is_known (get_definition name types.definitions)

abbrev is_include : FileTypeSelection → Bool
is_include (include name) = true
is_include (exclude name) = false

abbrev has_includes : NamedFileTypes → Bool
has_includes types = any is_include types.selections

abbrev extension_is : Bytes → Option Bytes → Bool
extension_is expected none = false
extension_is expected (some actual) =
    text_eq actual expected || eq_ignore_ascii_case actual expected

abbrev name_matches : Bytes → Option Bytes → Bool
name_matches pattern none = false
name_matches pattern (some name) = glob_matches pattern name

abbrev pattern_matches : PathNames → Bytes → FileTypePattern → Bool
pattern_matches names relative (extension expected) = extension_is expected names.extension
pattern_matches names relative (glob pattern) =
    if contains_byte slash pattern
    then glob_matches pattern relative
    else name_matches pattern names.file_name

-- `matches_any`.
abbrev matches_any : List FileTypePattern → PathNames → Bytes → Bool
matches_any patterns names relative = any (pattern_matches names relative) patterns

abbrev selected_name : FileTypeSelection → Bytes
selected_name (include name) = name
selected_name (exclude name) = name

abbrev decision_of : FileTypeSelection → FileTypeMatch
decision_of (include name) = included
decision_of (exclude name) = excluded

abbrev group_matches : Option (List FileTypePattern) → PathNames → Bytes → Bool
group_matches none names relative = false
group_matches (some patterns) names relative = matches_any patterns names relative

abbrev pub selection_matches : NamedFileTypes → PathNames → Bytes → FileTypeSelection → Bool
selection_matches types names relative selection =
    group_matches (get_definition (selected_name selection) types.definitions) names relative

abbrev pub matched_loop :
    NamedFileTypes → PathNames → Bytes → List FileTypeSelection → FileTypeMatch → FileTypeMatch
matched_loop types names relative [] so_far = so_far
matched_loop types names relative (selection ∷ selections) so_far =
    matched_loop types names relative selections
      (if selection_matches types names relative selection then decision_of selection else so_far)

-- `NamedFileTypes::matched`.
unfoldable pub matched_type : NamedFileTypes → PathNames → Bytes → FileTypeMatch
matched_type types names relative = matched_loop types names relative types.selections unmatched

abbrev write_pattern : Hasher → FileTypePattern → Hasher
write_pattern hasher (extension value) = write (write (write hasher (1 ∷ [])) value) (0 ∷ [])
write_pattern hasher (glob value) = write (write (write hasher (2 ∷ [])) value) (0 ∷ [])

abbrev write_patterns : Hasher → List FileTypePattern → Hasher
write_patterns hasher [] = hasher
write_patterns hasher (pattern ∷ patterns) = write_patterns (write_pattern hasher pattern) patterns

abbrev write_definitions : Hasher → List (Bytes × List FileTypePattern) → Hasher
write_definitions hasher [] = hasher
write_definitions hasher ((name, patterns) ∷ definitions) =
    write_definitions
      (write (write_patterns (write (write hasher name) (0 ∷ [])) patterns) (0xfe ∷ [])) definitions

abbrev write_selection : Hasher → FileTypeSelection → Hasher
write_selection hasher (include name) = write (write (write hasher (1 ∷ [])) name) (0xff ∷ [])
write_selection hasher (exclude name) = write (write (write hasher (2 ∷ [])) name) (0xff ∷ [])

abbrev write_selections : Hasher → List FileTypeSelection → Hasher
write_selections hasher [] = hasher
write_selections hasher (selection ∷ selections) =
    write_selections (write_selection hasher selection) selections

-- `NamedFileTypes::write_policy`.
abbrev write_policy : NamedFileTypes → Hasher → Hasher
write_policy types hasher =
    write_selections (write_definitions hasher types.definitions) types.selections
