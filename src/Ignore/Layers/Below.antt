-- ===== src/Ignore/Layers/Below.antt =====
-- The paths below the directory of a layer (`candidate_for_base` of src/ignore/mod.rs).
use mathlib.Core.List.{append_assoc}
use weavatrix_scan.Common.{
  ◌≡◌, refl, sym, ap, ◌∙◌, Option, none, some, [], ◌∷◌, ◌++◌, ◌==◌, length, drop, if◌then◌else◌,
  Bool-cases, Option-cases, inl, inr, ==_refl, ==_iff,
}
use weavatrix_scan.Text.{Bytes, slash, starts_with, strip_prefix}
use weavatrix_scan.Ignore.Layers.{candidate_for_base, below_slash}

-- What stands behind the directory and its slash, in a path that begins with them; the root is no
-- text, and every path is below it.
abbrev pub part_below : Bytes → Bytes → Option Bytes
part_below path [] = some path
part_below path (b ∷ bs) =
    if starts_with (b ∷ bs ++ slash ∷ []) path
    then some (drop (length (b ∷ bs ++ slash ∷ [])) path)
    else none

below_slash_lem :
    (base path : Bytes)
    → below_slash (strip_prefix base path) ≡ (
        if starts_with (base ++ slash ∷ []) path
        then some (drop (length (base ++ slash ∷ [])) path)
        else none)
below_slash_lem [] [] = refl
below_slash_lem [] (y ∷ ys) = elim (Bool-cases (slash == y)) [
  | inl e ↦ rw (strip_prefix, e) refl
  | inr e ↦ rw (strip_prefix, e) refl
]
below_slash_lem (x ∷ xs) [] = refl
below_slash_lem (x ∷ xs) (y ∷ ys) = elim (Bool-cases (x == y)) [
  | inl e ↦ rw (strip_prefix, e) (below_slash_lem xs ys)
  | inr e ↦ rw (strip_prefix, e) refl
]

pub candidate_for_base_lem :
    (path base : Bytes) → candidate_for_base path base ≡ part_below path base
unfolding candidate_for_base
candidate_for_base_lem path [] = refl
candidate_for_base_lem path (b ∷ bs) = below_slash_lem (b ∷ bs) path

-- The path of which `candidate` is the part below the directory.
abbrev pub under : Bytes → Bytes → Bytes
under [] candidate = candidate
under (b ∷ bs) candidate = (b ∷ bs) ++ (slash ∷ candidate)

strip_prefix-append : (base rest : Bytes) → strip_prefix base (base ++ rest) ≡ some rest
strip_prefix-append [] rest = refl
strip_prefix-append (x ∷ xs) rest = rw (strip_prefix, ==_refl x) (strip_prefix-append xs rest)

pub candidate_for_base-under :
    (base candidate : Bytes) → candidate_for_base (under base candidate) base ≡ some candidate
unfolding candidate_for_base
candidate_for_base-under [] candidate = refl
candidate_for_base-under (b ∷ bs) candidate =
    rw (strip_prefix-append (b ∷ bs) (slash ∷ candidate)) refl

strip_prefix-some :
    (base path rest : Bytes) → strip_prefix base path ≡ some rest → path ≡ base ++ rest
strip_prefix-some [] path rest h = cc
strip_prefix-some (x ∷ xs) [] rest h = absurd (cc)
strip_prefix-some (x ∷ xs) (y ∷ ys) rest h = elim (Bool-cases (x == y)) [
  | inl e ↦
      let k = rw (strip_prefix, e) at h in
      let same : x ≡ y = (==_iff x y).0 e in let tail = strip_prefix-some xs ys rest k in cc
  | inr e ↦ let k = rw (strip_prefix, e) at h in absurd (cc)
]

pub under-candidate_for_base :
    (path base candidate : Bytes)
    → candidate_for_base path base ≡ some candidate
    → path ≡ under base candidate
unfolding candidate_for_base
under-candidate_for_base path [] candidate h = cc
under-candidate_for_base path (b ∷ bs) candidate h =
    elim (Option-cases (strip_prefix (b ∷ bs) path)) [
      | inl e ↦ let k = rw e at h in absurd (cc)
      | inr (rest, e) ↦
          let k = rw e at h in
          strip_prefix-some (b ∷ bs) path rest e
          ∙ ap (λ t. (b ∷ bs) ++ t) (strip_prefix-some (slash ∷ []) rest candidate k)
    ]

pub under-append :
    (base candidate more : Bytes) → under base (candidate ++ more) ≡ under base candidate ++ more
under-append [] candidate more = refl
under-append (b ∷ bs) candidate more = sym (append_assoc (b ∷ bs) (slash ∷ candidate) more)
