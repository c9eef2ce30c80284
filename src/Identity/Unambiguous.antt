-- ===== src/Identity/Unambiguous.antt =====
-- The text behind a revision determines what it was made of (src/scan_identity.rs).
use mathlib.Core.Path.{ap₂}
use weavatrix_scan.Common.{
  ℕ, ◌≤◌, ◌<◌, ◌^◌, ◌≡◌, ◌≢◌, refl, sym, ap, ◌∙◌, Bool, true, false, Option, none, some, List, [],
  ◌∷◌, ◌++◌, map, length, length-append, All, arith, ◌==◌, if◌then◌else◌,
}
use weavatrix_scan.Text.{Bytes}
use weavatrix_scan.Report.{ScannedFile, IgnoreSourceEvidence, IgnoreSourceKind, ScanTermination}
use weavatrix_scan.Identity.{
  le_bytes, kind_byte, termination_byte, bool_byte, hash_or_empty, revision_mark,
}
use weavatrix_scan.Identity.Stream.{put_file, put_source, put_files, put_sources, put_end, encoded}
use weavatrix_scan.Identity.Fields.{
  IsText, zero-IsSeparator, above-IsSeparator, tail_inj, cons_inj, field_inj, append_inj,
  length-le_bytes, le_bytes_inj, field_misread,
}

-- What a revision identifies of a file: a missing hash counts as an empty one.
abbrev pub identified : ScannedFile → Bytes × ℕ × Bytes
identified file = (file.relative, file.bytes, hash_or_empty file.content_hash)

pub record IsFile (file : ScannedFile) : Type 0 where
  pub path : IsText file.relative
  pub size : file.bytes < 2 ^ 64
  pub hash : IsText (hash_or_empty file.content_hash)

pub record IsSource (source : IgnoreSourceEvidence) : Type 0 where
  pub place : IsText source.location
  pub hash : IsText source.content_hash
  pub long : 8 ≤ length source.content_hash

put_file_inj :
    (f g : ScannedFile) (x y : Bytes)
    → IsFile f
    → IsFile g
    → put_file f x ≡ put_file g y
    → (identified f ≡ identified g) × (x ≡ y)
put_file_inj f g x y hf hg e =
    let (path, e1) = field_inj 0 f.relative g.relative _ _ zero-IsSeparator hf.path hg.path e in
    let (eight, e2) =
      append_inj (le_bytes 8 f.bytes) (le_bytes 8 g.bytes) _ _
        (length-le_bytes 8 f.bytes ∙ sym (length-le_bytes 8 g.bytes)) e1 in
    let (hash, e3) =
      field_inj 0xff (hash_or_empty f.content_hash) (hash_or_empty g.content_hash) x y
        (above-IsSeparator 0xff (omega arith)) hf.hash hg.hash (tail_inj e2) in
    let size = le_bytes_inj 8 f.bytes g.bytes hf.size hg.size eight in
    ((λ i. (path i, size i, hash i)), e3)

abbrev kind_of : ℕ → IgnoreSourceKind
kind_of n =
    if n == 1
    then IgnoreSourceKind.git_global
    else if n == 2
    then IgnoreSourceKind.git_exclude
    else if n == 3
    then IgnoreSourceKind.git_ignore
    else if n == 4
    then IgnoreSourceKind.dot_ignore
    else if n == 5
    then IgnoreSourceKind.custom
    else if n == 6
    then IgnoreSourceKind.explicit
    else IgnoreSourceKind.override

kind_of-kind_byte : (k : IgnoreSourceKind) → kind_of (kind_byte k) ≡ k
kind_of-kind_byte IgnoreSourceKind.git_global = refl
kind_of-kind_byte IgnoreSourceKind.git_exclude = refl
kind_of-kind_byte IgnoreSourceKind.git_ignore = refl
kind_of-kind_byte IgnoreSourceKind.dot_ignore = refl
kind_of-kind_byte IgnoreSourceKind.custom = refl
kind_of-kind_byte IgnoreSourceKind.explicit = refl
kind_of-kind_byte IgnoreSourceKind.override = refl

kind_byte-IsText : (k : IgnoreSourceKind) → IsText (kind_byte k ∷ [])
kind_byte-IsText k = ground arith

kind_byte_inj : (k l : IgnoreSourceKind) → kind_byte k ≡ kind_byte l → k ≡ l
kind_byte_inj k l e = sym (kind_of-kind_byte k) ∙ ap kind_of e ∙ kind_of-kind_byte l

put_source_inj :
    (s r : IgnoreSourceEvidence) (x y : Bytes)
    → IsSource s
    → IsSource r
    → put_source s x ≡ put_source r y
    → (s ≡ r) × (x ≡ y)
put_source_inj s r x y hs hr e =
    let (kinds, e1) =
      field_inj 0 (kind_byte s.kind ∷ []) (kind_byte r.kind ∷ []) _ _ zero-IsSeparator
        (kind_byte-IsText s.kind) (kind_byte-IsText r.kind) e in
    let kind = kind_byte_inj s.kind r.kind (cons_inj kinds).0 in
    let (place, e2) = field_inj 0 s.location r.location _ _ zero-IsSeparator hs.place hr.place e1 in
    let (hash, e3) =
      field_inj 0xfe s.content_hash r.content_hash x y (above-IsSeparator 0xfe (omega arith))
        hs.hash hr.hash e2 in
    ((λ i. record { kind = kind i; location = place i; content_hash = hash i }), e3)

-- An ignore source is not read as a file.
source_misread :
    (s : IgnoreSourceEvidence) (f : ScannedFile) (x y : Bytes)
    → IsSource s
    → IsFile f
    → put_source s x ≢ put_file f y
source_misread s f x y hs hf e =
    let (kinds, e1) =
      field_inj 0 (kind_byte s.kind ∷ []) f.relative _ _ zero-IsSeparator (kind_byte-IsText s.kind)
        hf.path e in
    field_misread s.location (le_bytes 8 f.bytes) s.content_hash (hash_or_empty f.content_hash) x y
      hs.place hs.hash hf.hash (omega (arith, length-le_bytes 8 f.bytes, hs.long)) e1

-- The end of the text has two bytes at most, a field of a file or a source more.
short_end : (p : Bool) (t : Option ScanTermination) → length (put_end p t) ≤ 2
short_end p none = omega arith
short_end p (some t) = omega arith

long_file : (f : ScannedFile) (x : Bytes) → 2 < length (put_file f x)
long_file f x =
    let rest = 0 ∷ (hash_or_empty f.content_hash ++ 0xff ∷ x) in
    omega (
      arith,
      length-append f.relative (0 ∷ (le_bytes 8 f.bytes ++ rest)),
      length-append (le_bytes 8 f.bytes) rest,
      length-le_bytes 8 f.bytes,
    )

long_source : (s : IgnoreSourceEvidence) (x : Bytes) → 2 < length (put_source s x)
long_source s x = omega (arith, length-append s.location (0 ∷ (s.content_hash ++ 0xfe ∷ x)))

too_long : (p : Bool) (t : Option ScanTermination) (x : Bytes) → 2 < length x → put_end p t ≢ x
too_long p t x h e = omega (arith, ap length e, short_end p t)

bool_byte_inj : (p q : Bool) → bool_byte p ≡ bool_byte q → p ≡ q
bool_byte_inj true true e = refl
bool_byte_inj true false e = absurd (omega (arith, e))
bool_byte_inj false true e = absurd (omega (arith, e))
bool_byte_inj false false e = refl

abbrev termination_of : ℕ → ScanTermination
termination_of n =
    if n == 1
    then ScanTermination.max_entries
    else if n == 2
    then ScanTermination.max_total_bytes
    else if n == 3
    then ScanTermination.timeout
    else ScanTermination.cancelled

termination_of-termination_byte : (t : ScanTermination) → termination_of (termination_byte t) ≡ t
termination_of-termination_byte ScanTermination.max_entries = refl
termination_of-termination_byte ScanTermination.max_total_bytes = refl
termination_of-termination_byte ScanTermination.timeout = refl
termination_of-termination_byte ScanTermination.cancelled = refl

put_end_inj :
    (p q : Bool) (t u : Option ScanTermination) → put_end p t ≡ put_end q u → (p ≡ q) × (t ≡ u)
put_end_inj p q none none e = (bool_byte_inj p q (cons_inj e).0, refl)
put_end_inj p q none (some u) e = absurd (omega (arith, ap length e))
put_end_inj p q (some t) none e = absurd (omega (arith, ap length e))
put_end_inj p q (some t) (some u) e =
    let (same, rest) = cons_inj e in
    (
      bool_byte_inj p q same,
      ap some (
          sym (termination_of-termination_byte t)
          ∙ ap termination_of (cons_inj rest).0
          ∙ termination_of-termination_byte u),
    )

-- The end of a text and the files in front of it.
put_files_inj :
    (fs gs : List ScannedFile) (p q : Bool) (t u : Option ScanTermination)
    → All IsFile fs
    → All IsFile gs
    → put_files fs (put_end p t) ≡ put_files gs (put_end q u)
    → (map identified fs ≡ map identified gs) × (p ≡ q) × (t ≡ u)
put_files_inj [] [] p q t u hf hg e =
    let (flag, reason) = put_end_inj p q t u e in (refl, flag, reason)
put_files_inj [] (g ∷ gs) p q t u hf hg e = absurd (too_long p t _ (long_file g _) e)
put_files_inj (f ∷ fs) [] p q t u hf hg e = absurd (too_long q u _ (long_file f _) (sym e))
put_files_inj (f ∷ fs) (g ∷ gs) p q t u hf hg e =
    let (same, rest) = put_file_inj f g _ _ hf.0 hg.0 e in
    let (others, flag, reason) = put_files_inj fs gs p q t u hf.1 hg.1 rest in
    (ap₂ (λ a b. a ∷ b) same others, flag, reason)

put_sources_inj :
    (ss rs : List IgnoreSourceEvidence) (fs gs : List ScannedFile) (p q : Bool)
    (t u : Option ScanTermination)
    → All IsSource ss
    → All IsSource rs
    → All IsFile fs
    → All IsFile gs
    → put_sources ss (put_files fs (put_end p t)) ≡ put_sources rs (put_files gs (put_end q u))
    → (ss ≡ rs) × (map identified fs ≡ map identified gs) × (p ≡ q) × (t ≡ u)
put_sources_inj [] [] fs gs p q t u hs hr hf hg e =
    let (files, flag, reason) = put_files_inj fs gs p q t u hf hg e in (refl, files, flag, reason)
put_sources_inj [] (r ∷ rs) [] gs p q t u hs hr hf hg e =
    absurd (too_long p t _ (long_source r _) e)
put_sources_inj [] (r ∷ rs) (f ∷ fs) gs p q t u hs hr hf hg e =
    absurd (source_misread r f _ _ hr.0 hf.0 (sym e))
put_sources_inj (s ∷ ss) [] fs [] p q t u hs hr hf hg e =
    absurd (too_long q u _ (long_source s _) (sym e))
put_sources_inj (s ∷ ss) [] fs (g ∷ gs) p q t u hs hr hf hg e =
    absurd (source_misread s g _ _ hs.0 hg.0 e)
put_sources_inj (s ∷ ss) (r ∷ rs) fs gs p q t u hs hr hf hg e =
    let (same, rest) = put_source_inj s r _ _ hs.0 hr.0 e in
    let (others, files, flag, reason) = put_sources_inj ss rs fs gs p q t u hs.1 hr.1 hf hg rest in
    (ap₂ (λ a b. a ∷ b) same others, files, flag, reason)

-- The text that a revision hashes determines the ignore sources, the files with their paths, sizes and
-- content hashes (a missing hash counts as an empty one), the portability flag and the termination.
-- Texts have no zero byte and no byte above 0xfd, sizes are below 2^64, and the content hash of an
-- ignore source has at least 8 bytes.
pub encoded_inj :
    (ss rs : List IgnoreSourceEvidence) (fs gs : List ScannedFile) (p q : Bool)
    (t u : Option ScanTermination)
    → All IsSource ss
    → All IsSource rs
    → All IsFile fs
    → All IsFile gs
    → encoded ss fs p t ≡ encoded rs gs q u
    → (ss ≡ rs) × (map identified fs ≡ map identified gs) × (p ≡ q) × (t ≡ u)
encoded_inj ss rs fs gs p q t u hs hr hf hg e =
    put_sources_inj ss rs fs gs p q t u hs hr hf hg
      (append_inj revision_mark revision_mark _ _ refl e).1
