-- ===== src/Text/Order.antt =====
-- Sorting texts, and the ordered set of texts: `sort_unstable`, `dedup` and `BTreeSet<&str>`.
-- A set is the list of its texts in ascending order, the order in which it is iterated.
pub mod Laws
use weavatrix_scan.Common.{Bool, true, false, ◌||◌, List, [], ◌∷◌, Ordering, if◌then◌else◌, any}
use weavatrix_scan.Text.{Bytes, text_eq, text_cmp}

abbrev pub Texts : Type 0
Texts = List Bytes

-- `left <= right`.
abbrev pub text_leb : Bytes → Bytes → Bool
text_leb a b = elim (text_cmp a b) [ Ordering.gt ↦ false | _ ↦ true ]

-- `left < right`.
abbrev pub text_ltb : Bytes → Bytes → Bool
text_ltb a b = elim (text_cmp a b) [ Ordering.lt ↦ true | _ ↦ false ]

-- Puts a text in front of the first one that is not below it.
unfoldable pub insert_sorted : Bytes → Texts → Texts
insert_sorted x [] = x ∷ []
insert_sorted x (y ∷ ys) = if text_leb x y then x ∷ y ∷ ys else y ∷ insert_sorted x ys

-- `texts.sort_unstable()`; equal texts cannot be told apart.
unfoldable pub sort : Texts → Texts
unfolding insert_sorted
sort [] = []
sort (x ∷ xs) = insert_sorted x (sort xs)

abbrev pub dedup_from : Bytes → Texts → Texts
dedup_from x [] = x ∷ []
dedup_from x (y ∷ ys) = elim (text_eq x y) [ true ↦ dedup_from x ys | false ↦ x ∷ dedup_from y ys ]

-- `texts.dedup()`, which drops a text equal to the one kept before it.
unfoldable pub dedup : Texts → Texts
dedup [] = []
dedup (x ∷ xs) = dedup_from x xs

-- `set.contains(text)`.
abbrev pub member : Bytes → Texts → Bool
member x ys = any (λ y. text_eq x y) ys

-- `set.insert(text)`.
unfoldable pub set_insert : Bytes → Texts → Texts
set_insert x [] = x ∷ []
set_insert x (y ∷ ys) = elim (text_cmp x y) [
  | Ordering.lt ↦ x ∷ y ∷ ys
  | Ordering.eq ↦ y ∷ ys
  | Ordering.gt ↦ y ∷ set_insert x ys
]
