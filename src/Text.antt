-- ===== src/Text.antt =====
-- Strings and byte slices as lists of bytes, with the operations of Rust's `str` and `[u8]` that
-- the scanner calls. A `&str` is the list of its UTF-8 bytes.
pub mod Laws
pub mod Order
use Prim.Native.Char.{code}
use Prim.Native.String.{String}
use weavatrix_scan.Common.{
  ℕ, zero, suc, Bool, true, false, ◌&&◌, ◌||◌, Option, none, some, List, [], ◌∷◌, ◌++◌, ◌==◌,
  Ordering, compare, if◌then◌else◌,
}

abbrev pub Bytes : Type 0
Bytes = List ℕ

-- The bytes of an ASCII text.
abbrev pub bytes : String → Bytes
bytes String.[] = []
bytes (String.◌∷◌ c s) = code c ∷ bytes s

abbrev pub slash : ℕ
slash = b'/'

abbrev pub backslash : ℕ
backslash = 92

-- `left == right`.
abbrev pub text_eq : Bytes → Bytes → Bool
text_eq [] [] = true
text_eq [] (y ∷ ys) = false
text_eq (x ∷ xs) [] = false
text_eq (x ∷ xs) (y ∷ ys) = (x == y) && text_eq xs ys

-- `left.cmp(right)`, which compares byte by byte.
abbrev pub text_cmp : Bytes → Bytes → Ordering
text_cmp [] [] = Ordering.eq
text_cmp [] (y ∷ ys) = Ordering.lt
text_cmp (x ∷ xs) [] = Ordering.gt
text_cmp (x ∷ xs) (y ∷ ys) = elim (compare x y) [
  | Ordering.lt ↦ Ordering.lt
  | Ordering.eq ↦ text_cmp xs ys
  | Ordering.gt ↦ Ordering.gt
]

abbrev pub is_empty {ℓ} : {A : Type ℓ} → List A → Bool
is_empty [] = true
is_empty (x ∷ xs) = false

abbrev pub first {ℓ} : {A : Type ℓ} → List A → Option A
first [] = none
first (x ∷ xs) = some x

abbrev pub last {ℓ} : {A : Type ℓ} → List A → Option A
last [] = none
last (x ∷ []) = some x
last (x ∷ y ∷ ys) = last (y ∷ ys)

-- `text.strip_prefix(prefix)`.
abbrev pub strip_prefix : Bytes → Bytes → Option Bytes
strip_prefix [] ys = some ys
strip_prefix (x ∷ xs) [] = none
strip_prefix (x ∷ xs) (y ∷ ys) = elim (x == y) [ true ↦ strip_prefix xs ys | false ↦ none ]

-- `text.starts_with(prefix)`, with the prefix first.
abbrev pub starts_with : Bytes → Bytes → Bool
starts_with [] ys = true
starts_with (x ∷ xs) [] = false
starts_with (x ∷ xs) (y ∷ ys) = (x == y) && starts_with xs ys

-- `text.ends_with(suffix)`, with the suffix first.
abbrev pub ends_with : Bytes → Bytes → Bool
ends_with xs [] = text_eq xs []
ends_with xs (y ∷ ys) = text_eq xs (y ∷ ys) || ends_with xs ys

-- `text.contains(needle)`, with the needle first.
abbrev pub contains : Bytes → Bytes → Bool
contains xs [] = starts_with xs []
contains xs (y ∷ ys) = starts_with xs (y ∷ ys) || contains xs ys

-- `text.contains(byte)`.
abbrev pub contains_byte : ℕ → Bytes → Bool
contains_byte c [] = false
contains_byte c (x ∷ xs) = (x == c) || contains_byte c xs

-- One byte more in front of a text whose split is known.
abbrev pub rsplit_cons : ℕ → ℕ → Bytes → Option (Bytes × Bytes) → Option (Bytes × Bytes)
rsplit_cons c x xs none = if x == c then some ([], xs) else none
rsplit_cons c x xs (some (before, after)) = some (x ∷ before, after)

-- `text.rsplit_once(byte)`: what stands before and behind the last such byte.
unfoldable pub rsplit_once : ℕ → Bytes → Option (Bytes × Bytes)
rsplit_once c [] = none
rsplit_once c (x ∷ xs) = rsplit_cons c x xs (rsplit_once c xs)
