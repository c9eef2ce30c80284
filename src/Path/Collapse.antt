-- ===== src/Path/Collapse.antt =====
-- The prefixes that collapsing keeps (src/path.rs).
use mathlib.Core.Path.{subst}
use weavatrix_scan.Common.{
  ◌≡◌, refl, sym, ◌∙◌, true, false, ◌||◌, [], ◌∷◌, ◌++◌, arith, any, All, inl, inr, ◌⊎◌, Bool-cases,
}
use weavatrix_scan.Text.{Bytes, slash, text_eq, starts_with}
use weavatrix_scan.Text.Laws.{
  text_eq_refl, eq_of_text_eq, starts_with_trans, starts_with-append_left, starts_with-append_right,
}
use weavatrix_scan.Text.Order.{Texts, sort, dedup, set_insert, text_leb}
use weavatrix_scan.Text.Order.Laws.{
  IsSorted, sort-IsSorted, dedup-IsSorted, any-sort, any-dedup, any-set_insert, All-set_insert,
  All-of_any, starts_with→leb, text_leb_antisym, text_leb_refl,
}
use weavatrix_scan.Path.{path_covered_by_prefixes, collapse_loop, collapse_path_prefixes}
use weavatrix_scan.Path.Cover.{is_under, path_covered_by_prefixes_lem}

-- How a path lies under a prefix.
under_cases :
    (a b : Bytes) → is_under a b ≡ true → (a ≡ b) ⊎ (starts_with (b ++ slash ∷ []) a ≡ true)
under_cases a b h = elim (Bool-cases (text_eq a b)) [
  | inl e ↦ inl (eq_of_text_eq a b e)
  | inr e ↦ inr (ground arith)
]

pub is_under_refl : (a : Bytes) → is_under a a ≡ true
is_under_refl a = ground (arith, text_eq_refl a)

pub is_under_trans :
    (a b c : Bytes) → is_under a b ≡ true → is_under b c ≡ true → is_under a c ≡ true
is_under_trans a b c h k = elim (under_cases a b h) [
  | inl e ↦ rw e k
  | inr s ↦ elim (under_cases b c k) [
    | inl e ↦ rw e at h
    | inr t ↦
        let longer = starts_with-append_right (c ++ slash ∷ []) b (slash ∷ []) t in
        let found = starts_with_trans (c ++ slash ∷ []) (b ++ slash ∷ []) a longer s in
        ground (arith, found)
  ]
]

under→leb : (a b : Bytes) → is_under a b ≡ true → text_leb b a ≡ true
under→leb a b h = elim (under_cases a b h) [
  | inl e ↦ rw e (text_leb_refl b)
  | inr s ↦ starts_with→leb b a (starts_with-append_left b (slash ∷ []) a s)
]

-- What lies under a covered prefix is covered.
under_covered :
    (path prefix : Bytes) (prefixes : Texts)
    → is_under path prefix ≡ true
    → any (is_under prefix) prefixes ≡ true
    → any (is_under path) prefixes ≡ true
under_covered path prefix [] h k = k
under_covered path prefix (q ∷ qs) h k =
    ground (arith, is_under_trans path prefix q h, under_covered path prefix qs h)

collapse_loop-covers :
    (path : Bytes) (rest collapsed : Texts)
    → any (is_under path) (collapse_loop rest collapsed)
      ≡ (any (is_under path) rest || any (is_under path) collapsed)
unfolding collapse_loop
collapse_loop-covers path [] collapsed = refl
collapse_loop-covers path (p ∷ rest) collapsed =
    elim (Bool-cases (path_covered_by_prefixes p collapsed)) [
      | inl e ↦
          let known : any (is_under p) collapsed ≡ true =
            sym (path_covered_by_prefixes_lem p collapsed) ∙ e in
          rw (e, collapse_loop)
            (ground (
              arith,
              collapse_loop-covers path rest collapsed,
              under_covered path p collapsed,
              known,
            ))
      | inr e ↦
          rw (e, collapse_loop)
            (ground (
              arith,
              collapse_loop-covers path rest (set_insert p collapsed),
              any-set_insert (is_under path) p collapsed,
            ))
    ]

-- A path is covered by the collapsed prefixes exactly if it lies under one of the given ones.
pub collapse_path_prefixes-covers :
    (path : Bytes) (prefixes : Texts)
    → path_covered_by_prefixes path (collapse_path_prefixes prefixes) ≡ any (is_under path) prefixes
unfolding collapse_path_prefixes
collapse_path_prefixes-covers path prefixes =
    rw
      (
        path_covered_by_prefixes_lem path (collapse_path_prefixes prefixes),
        collapse_loop-covers path (dedup (sort prefixes)) [],
        any-dedup (is_under path) (sort prefixes),
        any-sort (is_under path) prefixes,
      )
      (ground arith)

-- Neither path lies under the other.
abbrev pub Apart : Bytes → Bytes → Type 0
Apart a b = (is_under a b ≡ false) × (is_under b a ≡ false)

-- No text of the list lies under another one.
abbrev pub IsAntichain : Texts → Type 0
IsAntichain [] = Unit
IsAntichain (x ∷ xs) = All (Apart x) xs × IsAntichain xs

set_insert-IsAntichain :
    (x : Bytes) (ys : Texts) → All (Apart x) ys → IsAntichain ys → IsAntichain (set_insert x ys)
unfolding set_insert
set_insert-IsAntichain x [] h k = (tt, tt)
set_insert-IsAntichain x (y ∷ ys) h k =
    ground
      (arith, set_insert-IsAntichain x ys, All-set_insert (Apart y) x ys ((h.0).1, (h.0).0) k.0)

-- What the loop has kept precedes what it has yet to read.
collapse_loop-IsAntichain :
    (rest collapsed : Texts)
    → IsSorted rest
    → All (λ p. All (λ q. text_leb q p ≡ true) collapsed) rest
    → IsAntichain collapsed
    → IsAntichain (collapse_loop rest collapsed)
unfolding collapse_loop
collapse_loop-IsAntichain [] collapsed s b a = a
collapse_loop-IsAntichain (p ∷ rest) collapsed s b a =
    elim (Bool-cases (path_covered_by_prefixes p collapsed)) [
      | inl e ↦ rw (e, collapse_loop) (collapse_loop-IsAntichain rest collapsed s.1 b.1 a)
      | inr e ↦
          rw (e, collapse_loop)
            (collapse_loop-IsAntichain rest (set_insert p collapsed) s.1 (extend rest s.0 b.1) (
              set_insert-IsAntichain p collapsed
                (apart collapsed b.0 (
                  All-of_any (is_under p) collapsed
                    (sym (path_covered_by_prefixes_lem p collapsed) ∙ e)))
                a))
    ]
  where
    extend :
        (ps : Texts)
        → All (λ y. text_leb p y ≡ true) ps
        → All (λ y. All (λ q. text_leb q y ≡ true) collapsed) ps
        → All (λ y. All (λ q. text_leb q y ≡ true) (set_insert p collapsed)) ps
    extend [] h k = tt
    extend (y ∷ ys) h k =
        (All-set_insert (λ q. text_leb q y ≡ true) p collapsed h.0 k.0, extend ys h.1 k.1)

    not_above : (q : Bytes) → text_leb q p ≡ true → is_under p q ≡ false → is_under q p ≡ false
    not_above q le no_under = elim (Bool-cases (is_under q p)) [
      | inl u ↦
          let same = text_leb_antisym q p le (under→leb q p u) in
          let refl_under : is_under p p ≡ false = subst (λ t. is_under p t ≡ false) same no_under in
          absurd (ground (arith, is_under_refl p))
      | inr u ↦ u
    ]

    apart :
        (qs : Texts)
        → All (λ q. text_leb q p ≡ true) qs
        → All (λ q. is_under p q ≡ false) qs
        → All (Apart p) qs
    apart [] h k = tt
    apart (q ∷ qs) h k = ((k.0, not_above q h.0 k.0), apart qs h.1 k.1)

-- No collapsed prefix lies under another.
pub collapse_path_prefixes-IsAntichain :
    (prefixes : Texts) → IsAntichain (collapse_path_prefixes prefixes)
unfolding collapse_path_prefixes
collapse_path_prefixes-IsAntichain prefixes =
    let sorted = dedup (sort prefixes) in
    collapse_loop-IsAntichain sorted [] (dedup-IsSorted (sort prefixes) (sort-IsSorted prefixes))
      (nothing sorted) tt
  where
    nothing : (ps : Texts) → All (λ p. All (λ q. text_leb q p ≡ true) []) ps
    nothing [] = tt
    nothing (p ∷ ps) = (tt, nothing ps)
