-- ===== src/Delta/Lookup.antt =====
-- Sorted manifests and the files that they have at a path.
use mathlib.Core.Path.{ap₂}
use weavatrix_scan.Common.{
  ◌≡◌, refl, ap, ◌∙◌, true, false, Option, none, some, List, [], ◌∷◌, All, All-imp, arith,
}
use weavatrix_scan.Text.{Bytes, text_eq}
use weavatrix_scan.Text.Order.{text_ltb}
use weavatrix_scan.Report.{ScannedFile}
use weavatrix_scan.Delta.{ModifiedFile}

-- The path stands before those of all the files.
abbrev pub Before : Bytes → List ScannedFile → Type 0
Before path files = All (λ f. text_ltb path f.relative ≡ true) files

-- The files stand in the order of their paths, and no path stands twice.
abbrev pub IsAscending : List ScannedFile → Type 0
IsAscending [] = Unit
IsAscending (f ∷ fs) = Before f.relative fs × IsAscending fs

-- The file that a manifest has at a path.
unfoldable pub look : Bytes → List ScannedFile → Option ScannedFile
look path [] = none
look path (f ∷ fs) = elim (text_eq path f.relative) [ true ↦ some f | false ↦ look path fs ]

abbrev front_if_absent : ScannedFile → Option ScannedFile → List ScannedFile → List ScannedFile
front_if_absent f none rest = f ∷ rest
front_if_absent f (some g) rest = rest

-- The files of one manifest at whose paths the other has none.
unfoldable pub only_in : List ScannedFile → List ScannedFile → List ScannedFile
only_in [] other = []
only_in (f ∷ files) other = front_if_absent f (look f.relative other) (only_in files other)

abbrev pair_with : ScannedFile → Option ScannedFile → List ModifiedFile → List ModifiedFile
pair_with f none rest = rest
pair_with f (some g) rest = record { previous = f; current = g } ∷ rest

-- The files that the manifests have at the same paths.
unfoldable pub common : List ScannedFile → List ScannedFile → List ModifiedFile
common [] current = []
common (f ∷ previous) current = pair_with f (look f.relative current) (common previous current)

pub text_ltb_trans :
    (a b c : Bytes) → text_ltb a b ≡ true → text_ltb b c ≡ true → text_ltb a c ≡ true
text_ltb_trans [] [] c h k = absurd (cc)
text_ltb_trans [] (y ∷ ys) [] h k = absurd (cc)
text_ltb_trans [] (y ∷ ys) (z ∷ zs) h k = refl
text_ltb_trans (x ∷ xs) [] c h k = absurd (cc)
text_ltb_trans (x ∷ xs) (y ∷ ys) [] h k = absurd (cc)
text_ltb_trans (x ∷ xs) (y ∷ ys) (z ∷ zs) h k = ground (arith, text_ltb_trans xs ys zs)

pub ltb→ne : (a b : Bytes) → text_ltb a b ≡ true → text_eq a b ≡ false
ltb→ne [] [] h = absurd (cc)
ltb→ne [] (y ∷ ys) h = refl
ltb→ne (x ∷ xs) [] h = refl
ltb→ne (x ∷ xs) (y ∷ ys) h = ground (arith, ltb→ne xs ys)

pub ltb_total : (a b : Bytes) → text_eq a b ≡ false → text_ltb a b ≡ false → text_ltb b a ≡ true
ltb_total [] [] h k = absurd (cc)
ltb_total [] (y ∷ ys) h k = absurd (cc)
ltb_total (x ∷ xs) [] h k = refl
ltb_total (x ∷ xs) (y ∷ ys) h k = ground (arith, ltb_total xs ys)

pub text_eq_comm : (a b : Bytes) → text_eq a b ≡ text_eq b a
text_eq_comm [] [] = refl
text_eq_comm [] (y ∷ ys) = refl
text_eq_comm (x ∷ xs) [] = refl
text_eq_comm (x ∷ xs) (y ∷ ys) = ground (arith, text_eq_comm xs ys)

pub Before-trans :
    (a b : Bytes) (files : List ScannedFile) → text_ltb a b ≡ true → Before b files → Before a files
Before-trans a b files h k = All-imp (λ f k'. text_ltb_trans a b f.relative h k') files k

-- A manifest has no file at a path that stands before its own.
pub look-Before :
    (path : Bytes) (files : List ScannedFile) → Before path files → look path files ≡ none
unfolding look
look-Before path [] h = refl
look-Before path (f ∷ fs) h = rw (ltb→ne path f.relative h.0, look) (look-Before path fs h.1)

pub only_in-nil : (files : List ScannedFile) → only_in files [] ≡ files
unfolding only_in look
only_in-nil [] = refl
only_in-nil (f ∷ fs) = ap (λ t. f ∷ t) (only_in-nil fs)

pub common-nil : (files : List ScannedFile) → common files [] ≡ []
unfolding common look
common-nil [] = refl
common-nil (f ∷ fs) = common-nil fs

module _ (h : ScannedFile) where
  -- A file in front whose path stands before the others is none of theirs.
  look-later :
      (f : ScannedFile) (files : List ScannedFile)
      → text_ltb h.relative f.relative ≡ true
      → look f.relative (h ∷ files) ≡ look f.relative files
  unfolding look
  look-later f files l =
      let other : text_eq f.relative h.relative ≡ false =
        text_eq_comm f.relative h.relative ∙ ltb→ne h.relative f.relative l in
      rw (other, look) refl

  pub only_in-later :
      (files other : List ScannedFile)
      → Before h.relative files
      → only_in files (h ∷ other) ≡ only_in files other
  unfolding only_in
  only_in-later [] other b = refl
  only_in-later (f ∷ fs) other b =
      ap₂ (front_if_absent f) (look-later f other b.0) (only_in-later fs other b.1)

  pub common-later :
      (files other : List ScannedFile)
      → Before h.relative files
      → common files (h ∷ other) ≡ common files other
  unfolding common
  common-later [] other b = refl
  common-later (f ∷ fs) other b =
      ap₂ (pair_with f) (look-later f other b.0) (common-later fs other b.1)

module _ (f : ScannedFile) (files other : List ScannedFile) where
  pub only_in-absent :
      look f.relative other ≡ none → only_in (f ∷ files) other ≡ f ∷ only_in files other
  unfolding only_in
  only_in-absent e = rw e refl

  pub only_in-present :
      (g : ScannedFile)
      → look f.relative other ≡ some g
      → only_in (f ∷ files) other ≡ only_in files other
  unfolding only_in
  only_in-present g e = rw e refl

  pub common-absent : look f.relative other ≡ none → common (f ∷ files) other ≡ common files other
  unfolding common
  common-absent e = rw e refl

  pub common-present :
      (g : ScannedFile)
      → look f.relative other ≡ some g
      → common (f ∷ files) other ≡ record { previous = f; current = g } ∷ common files other
  unfolding common
  common-present g e = rw e refl

pub look-head :
    (path : Bytes) (f : ScannedFile) (files : List ScannedFile)
    → text_eq path f.relative ≡ true
    → look path (f ∷ files) ≡ some f
unfolding look
look-head path f files e = rw (e, look) refl
