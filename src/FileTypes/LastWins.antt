-- ===== src/FileTypes/LastWins.antt =====
-- Selections and definitions of file types (src/file_types.rs): which selection decides, and what defaults
-- leave alone.
use weavatrix_scan.Common.{
  ◌≡◌, refl, sym, ap, ◌∙◌, Bool, true, false, none, some, List, [], ◌∷◌, ◌⊎◌, inl, inr, map, any,
  Bool-cases, if_elim, if◌then◌else◌, Ordering,
}
use weavatrix_scan.Text.{Bytes, text_eq, text_cmp, contains_byte, slash}
use weavatrix_scan.Text.Laws.{eq_of_text_eq}
use weavatrix_scan.Text.Order.Laws.{eq_of_text_cmp}
use weavatrix_scan.Ignore.Matcher.{lower, glob_matches}
use weavatrix_scan.FileTypes.{
  extension, glob, include, exclude, included, excluded, FileTypePattern, FileTypeSelection,
  FileTypeMatch, unmatched, NamedFileTypes, PathNames, insert_definition, get_definition,
  with_defaults, add_defaults, or_insert_all, insert_patterns, pattern_from_glob, is_known,
}

-- The file fits the pattern: its extension is the expected one, whatever the case of the letters, or
-- the glob matches its path if it has a slash and its name if it has none.
abbrev pub fits : PathNames → Bytes → FileTypePattern → Bool
fits names relative (extension expected) = elim names.extension [
  | none ↦ false
  | some actual ↦ text_eq (map lower actual) (map lower expected)
]
fits names relative (glob pattern) = elim (contains_byte slash pattern) [
  | true ↦ glob_matches pattern relative
  | false ↦ elim names.file_name [ none ↦ false | some name ↦ glob_matches pattern name ]
]

-- The file is of the type: it fits one of the patterns that the name is defined by.
abbrev pub is_of_type : NamedFileTypes → PathNames → Bytes → Bytes → Bool
is_of_type types names relative name = elim (get_definition name types.definitions) [
  | none ↦ false
  | some patterns ↦ any (fits names relative) patterns
]

abbrev or_match : FileTypeMatch → FileTypeMatch → FileTypeMatch
or_match included other = included
or_match excluded other = excluded
or_match unmatched other = other

-- The last selection of a type that the file has decides: an inclusion for it, an exclusion against it.
unfoldable pub last_decision : (Bytes → Bool) → List FileTypeSelection → FileTypeMatch
last_decision has_type [] = unmatched
last_decision has_type (include name ∷ rest) =
    or_match (last_decision has_type rest) (if has_type name then included else unmatched)
last_decision has_type (exclude name ∷ rest) =
    or_match (last_decision has_type rest) (if has_type name then excluded else unmatched)

Ordering-cases : (o : Ordering) → (o ≡ Ordering.lt) ⊎ ((o ≡ Ordering.eq) ⊎ (o ≡ Ordering.gt))
Ordering-cases Ordering.lt = inl refl
Ordering-cases Ordering.eq = inr (inl refl)
Ordering-cases Ordering.gt = inr (inr refl)

-- A definition under another name is left alone.
get-insert_other {ℓ} :
    {A : Type ℓ} (name other : Bytes) (value : A) (definitions : List (Bytes × A))
    → text_eq other name ≡ false
    → get_definition name (insert_definition other value definitions)
      ≡ get_definition name definitions
get-insert_other name other value [] n = rw n refl
get-insert_other name other value ((key, old) ∷ rest) n =
    elim (Ordering-cases (text_cmp other key)) [
      | inl less ↦ rw (less, insert_definition, n) refl
      | inr (inl same) ↦
          let key_apart : text_eq key name ≡ false =
            ap (λ k. text_eq k name) (sym (eq_of_text_cmp other key same)) ∙ n in
          rw (same, insert_definition, key_apart) refl
      | inr (inr more) ↦ rw (more, insert_definition, get-insert_other name other value rest n) refl
    ]

-- The definition of a name that is known stays.
or_insert_all-keeps :
    (name : Bytes) (patterns : List FileTypePattern) (names : List Bytes)
    (parsed : List FileTypePattern) (definitions : List (Bytes × List FileTypePattern))
    → get_definition name definitions ≡ some patterns
    → get_definition name (or_insert_all names parsed definitions) ≡ some patterns
or_insert_all-keeps name patterns [] parsed definitions h = h
or_insert_all-keeps name patterns (other ∷ names) parsed definitions h =
    or_insert_all-keeps name patterns names parsed
      (if is_known (get_definition other definitions)
        then definitions
        else insert_definition other parsed definitions)
      (if_elim (λ d. get_definition name d ≡ some patterns)
        (is_known (get_definition other definitions)) definitions
        (insert_definition other parsed definitions) (λ e. h)
        (λ unknown. elim (Bool-cases (text_eq other name)) [
          | inl same ↦
              let known : is_known (get_definition other definitions) ≡ true =
                ap (λ n. is_known (get_definition n definitions)) (eq_of_text_eq other name same)
                ∙ ap is_known h in
              absurd (cc)
          | inr apart ↦ get-insert_other name other parsed definitions apart ∙ h
        ]))

add_defaults-keeps :
    (name : Bytes) (patterns : List FileTypePattern) (table : List (List Bytes × List Bytes))
    (definitions : List (Bytes × List FileTypePattern))
    → get_definition name definitions ≡ some patterns
    → get_definition name (add_defaults table definitions) ≡ some patterns
add_defaults-keeps name patterns [] definitions h = h
add_defaults-keeps name patterns ((names, globs) ∷ groups) definitions h =
    add_defaults-keeps name patterns groups
      (or_insert_all names (insert_patterns (map pattern_from_glob globs) []) definitions)
      (or_insert_all-keeps name patterns names (insert_patterns (map pattern_from_glob globs) [])
        definitions h)

-- Adding the default types keeps the patterns of every name that is already defined, whatever the table.
pub with_defaults-keeps :
    (table : List (List Bytes × List Bytes)) (types : NamedFileTypes) (name : Bytes)
    (patterns : List FileTypePattern)
    → get_definition name types.definitions ≡ some patterns
    → get_definition name (with_defaults table types).definitions ≡ some patterns
unfolding with_defaults
with_defaults-keeps table types name patterns h =
    add_defaults-keeps name patterns table types.definitions h
