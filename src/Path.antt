-- ===== src/Path.antt =====
-- src/path.rs: repository-relative paths and path prefixes. `src` covers `src` and `src/a.rs`, not
-- `src2`. A path is its bytes; a set of prefixes is a `BTreeSet<&str>` (Text/Order).
pub mod Cover
pub mod Collapse
use weavatrix_scan.Common.{
  ℕ, zero, suc, Bool, true, false, not, ◌&&◌, ◌||◌, Option, none, some, [], ◌∷◌, ltb, ◌==◌, length,
  get_elem?, if◌then◌else◌,
}
use weavatrix_scan.Text.{Bytes, slash, text_eq, starts_with, is_empty, rsplit_once}
use weavatrix_scan.Text.Order.{Texts, sort, dedup, member, set_insert}

-- `left.get(index) == Some(&byte)`.
abbrev pub is_byte : Option ℕ → ℕ → Bool
is_byte none c = false
is_byte (some x) c = x == c

unfoldable pub is_same_or_descendant : Bytes → Bytes → Bool
is_same_or_descendant path prefix =
    text_eq path prefix
    || (not (is_empty prefix)
        && (ltb (length prefix) (length path)
            && (is_byte (get_elem? path (length prefix)) slash && starts_with prefix path)))

-- The `while let` loop over the parents of `rest`. Each parent is shorter, so the length of the
-- path is fuel enough; the covering theorem shows that running out never decides the answer.
unfoldable pub covered_by_parents : ℕ → Bytes → Texts → Bool
covered_by_parents zero rest prefixes = false
covered_by_parents (suc fuel) rest prefixes = elim (rsplit_once slash rest) [
  | none ↦ false
  | some (parent, name) ↦
      let further = covered_by_parents fuel parent prefixes in
      if member parent prefixes then true else further
]

unfoldable pub path_covered_by_prefixes : Bytes → Texts → Bool
unfolding covered_by_parents
path_covered_by_prefixes path prefixes =
    if member path prefixes then true else covered_by_parents (length path) path prefixes

-- The loop over the sorted prefixes.
unfoldable pub collapse_loop : Texts → Texts → Texts
collapse_loop [] collapsed = collapsed
collapse_loop (prefix ∷ rest) collapsed = collapse_loop rest (
    if not (path_covered_by_prefixes prefix collapsed)
    then set_insert prefix collapsed
    else collapsed)

unfoldable pub collapse_path_prefixes : Texts → Texts
unfolding collapse_loop
collapse_path_prefixes prefixes = collapse_loop (dedup (sort prefixes)) []
