-- ===== src/Text/Order/Laws.antt =====
-- The order of texts is total and transitive; sorting sorts; sorting, dropping repetitions and
-- inserting into a set keep what the texts satisfy.
use weavatrix_scan.Common.{
  ◌≡◌, refl, Bool, true, false, ◌||◌, [], ◌∷◌, Bool-cases, arith, inl, inr, Ordering, any, All,
  All-imp,
}
use weavatrix_scan.Text.{Bytes, text_eq, text_cmp, starts_with}
use weavatrix_scan.Text.Laws.{eq_of_text_eq}
use weavatrix_scan.Text.Order.{Texts, text_leb, insert_sorted, sort, dedup_from, dedup, set_insert}

pub text_leb_refl : (a : Bytes) → text_leb a a ≡ true
text_leb_refl [] = refl
text_leb_refl (x ∷ xs) = ground (arith, text_leb_refl xs)

pub text_leb_trans :
    (a b c : Bytes) → text_leb a b ≡ true → text_leb b c ≡ true → text_leb a c ≡ true
text_leb_trans [] [] c h k = k
text_leb_trans [] (y ∷ ys) [] h k = refl
text_leb_trans [] (y ∷ ys) (z ∷ zs) h k = refl
text_leb_trans (x ∷ xs) [] c h k = absurd (cc)
text_leb_trans (x ∷ xs) (y ∷ ys) [] h k = k
text_leb_trans (x ∷ xs) (y ∷ ys) (z ∷ zs) h k = ground (arith, text_leb_trans xs ys zs)

pub text_leb_total : (a b : Bytes) → text_leb a b ≡ false → text_leb b a ≡ true
text_leb_total [] [] h = refl
text_leb_total [] (y ∷ ys) h = absurd (cc)
text_leb_total (x ∷ xs) [] h = refl
text_leb_total (x ∷ xs) (y ∷ ys) h = ground (arith, text_leb_total xs ys)

pub eq_of_text_cmp : (a b : Bytes) → text_cmp a b ≡ Ordering.eq → a ≡ b
eq_of_text_cmp [] [] h = refl
eq_of_text_cmp [] (y ∷ ys) h = cc
eq_of_text_cmp (x ∷ xs) [] h = cc
eq_of_text_cmp (x ∷ xs) (y ∷ ys) h = ground (arith, eq_of_text_cmp xs ys)

module _ {κ} (P : Bytes → Type κ) where
  All-insert_sorted : (x : Bytes) (ys : Texts) → P x → All P ys → All P (insert_sorted x ys)
  unfolding insert_sorted
  All-insert_sorted x [] p h = (p, tt)
  All-insert_sorted x (y ∷ ys) p h = elim (Bool-cases (text_leb x y)) [
    | inl e ↦ rw e (p, h)
    | inr e ↦ rw e (h.0, All-insert_sorted x ys p h.1)
  ]

  All-sort : (xs : Texts) → All P xs → All P (sort xs)
  unfolding sort
  All-sort [] h = tt
  All-sort (x ∷ xs) h = All-insert_sorted x (sort xs) h.0 (All-sort xs h.1)

  All-dedup_from : (x : Bytes) (ys : Texts) → P x → All P ys → All P (dedup_from x ys)
  All-dedup_from x [] p h = (p, tt)
  All-dedup_from x (y ∷ ys) p h = elim (Bool-cases (text_eq x y)) [
    | inl e ↦ rw (e, dedup_from) (All-dedup_from x ys p h.1)
    | inr e ↦ rw (e, dedup_from) (p, All-dedup_from y ys h.0 h.1)
  ]

  pub All-set_insert : (x : Bytes) (ys : Texts) → P x → All P ys → All P (set_insert x ys)
  unfolding set_insert
  All-set_insert x [] p h = (p, tt)
  All-set_insert x (y ∷ ys) p h = ground (arith, All-set_insert x ys p)

-- Ascending, repetitions allowed.
abbrev pub IsSorted : Texts → Type 0
IsSorted [] = Unit
IsSorted (x ∷ xs) = All (λ y. text_leb x y ≡ true) xs × IsSorted xs

insert_sorted-IsSorted : (x : Bytes) (ys : Texts) → IsSorted ys → IsSorted (insert_sorted x ys)
unfolding insert_sorted
insert_sorted-IsSorted x [] h = (tt, tt)
insert_sorted-IsSorted x (y ∷ ys) h = elim (Bool-cases (text_leb x y)) [
  | inl e ↦ rw e ((e, All-imp (λ z. text_leb_trans x y z e) ys h.0), h)
  | inr e ↦ rw e (
    All-insert_sorted (λ z. text_leb y z ≡ true) x ys (text_leb_total x y e) h.0,
    insert_sorted-IsSorted x ys h.1,
  )
]

pub sort-IsSorted : (xs : Texts) → IsSorted (sort xs)
unfolding sort
sort-IsSorted [] = tt
sort-IsSorted (x ∷ xs) = insert_sorted-IsSorted x (sort xs) (sort-IsSorted xs)

dedup_from-IsSorted : (x : Bytes) (ys : Texts) → IsSorted (x ∷ ys) → IsSorted (dedup_from x ys)
dedup_from-IsSorted x [] h = h
dedup_from-IsSorted x (y ∷ ys) h = elim (Bool-cases (text_eq x y)) [
  | inl e ↦ rw (e, dedup_from) (dedup_from-IsSorted x ys ((h.0).1, (h.1).1))
  | inr e ↦
      rw (e, dedup_from)
        (
          All-dedup_from (λ z. text_leb x z ≡ true) y ys (h.0).0 (h.0).1,
          dedup_from-IsSorted y ys h.1,
        )
]

pub dedup-IsSorted : (xs : Texts) → IsSorted xs → IsSorted (dedup xs)
unfolding dedup
dedup-IsSorted [] h = tt
dedup-IsSorted (x ∷ xs) h = dedup_from-IsSorted x xs h

-- A test that looks for one text that passes gives the same answer afterwards.
module _ (test : Bytes → Bool) where
  any-insert_sorted :
      (x : Bytes) (ys : Texts) → any test (insert_sorted x ys) ≡ (test x || any test ys)
  unfolding insert_sorted
  any-insert_sorted x [] = refl
  any-insert_sorted x (y ∷ ys) = ground (arith, any-insert_sorted x ys)

  pub any-sort : (xs : Texts) → any test (sort xs) ≡ any test xs
  unfolding sort
  any-sort [] = refl
  any-sort (x ∷ xs) = ground (arith, any-insert_sorted x (sort xs), any-sort xs)

  any-dedup_from : (x : Bytes) (ys : Texts) → any test (dedup_from x ys) ≡ (test x || any test ys)
  any-dedup_from x [] = refl
  any-dedup_from x (y ∷ ys) =
      ground (arith, any-dedup_from x ys, any-dedup_from y ys, eq_of_text_eq x y)

  pub any-dedup : (xs : Texts) → any test (dedup xs) ≡ any test xs
  unfolding dedup
  any-dedup [] = refl
  any-dedup (x ∷ xs) = any-dedup_from x xs

  pub any-set_insert :
      (x : Bytes) (ys : Texts) → any test (set_insert x ys) ≡ (test x || any test ys)
  unfolding set_insert
  any-set_insert x [] = refl
  any-set_insert x (y ∷ ys) = ground (arith, any-set_insert x ys, eq_of_text_cmp x y)

pub text_leb_antisym : (a b : Bytes) → text_leb a b ≡ true → text_leb b a ≡ true → a ≡ b
text_leb_antisym [] [] h k = refl
text_leb_antisym [] (y ∷ ys) h k = absurd (cc)
text_leb_antisym (x ∷ xs) [] h k = absurd (cc)
text_leb_antisym (x ∷ xs) (y ∷ ys) h k = ground (arith, text_leb_antisym xs ys)

-- A text does not precede what it begins with.
pub starts_with→leb : (a b : Bytes) → starts_with a b ≡ true → text_leb a b ≡ true
starts_with→leb [] [] h = refl
starts_with→leb [] (y ∷ ys) h = refl
starts_with→leb (x ∷ xs) [] h = absurd (cc)
starts_with→leb (x ∷ xs) (y ∷ ys) h = ground (arith, starts_with→leb xs ys)

-- A text of a list is found by a test that it passes.
pub All-of_any :
    (test : Bytes → Bool) (xs : Texts) → any test xs ≡ false → All (λ x. test x ≡ false) xs
All-of_any test [] h = tt
All-of_any test (x ∷ xs) h =
    let t : (test x ≡ false) × (any test xs ≡ false) = ground arith in (t.0, All-of_any test xs t.1)
