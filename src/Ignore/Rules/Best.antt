-- ===== src/Ignore/Rules/Best.antt =====
-- The search loops of src/ignore/rules.rs: over ascending tables, the running best index is the
-- greatest index seen so far whose rule matches.
use mathlib.Core.Path.{subst}
use mathlib.Core.List.{reverse, reverse-cons}
use weavatrix_scan.Common.{
  ℕ, ◌≤◌, ◌<◌, ◌≡◌, refl, sym, ap, ◌⊎◌, inl, inr, Bool, true, false, Option, none, some, List, [],
  ◌∷◌, ◌++◌, arith, All, All-imp, All-append, All-reverse, Bool-cases, if◌then◌else◌,
}
use weavatrix_scan.Ignore.Rules.{find, at_most, best_loop, best_match, best_in, find_in}

-- The index stands in the table.
abbrev pub In : ℕ → List ℕ → Type 0
In i [] = ⊥
In i (x ∷ xs) = (i ≡ x) ⊎ In i xs

pub In-append_left : (i : ℕ) (xs ys : List ℕ) → In i xs → In i (xs ++ ys)
In-append_left i [] ys h = absurd h
In-append_left i (x ∷ xs) ys (inl e) = inl e
In-append_left i (x ∷ xs) ys (inr h) = inr (In-append_left i xs ys h)

pub In-append_right : (i : ℕ) (xs ys : List ℕ) → In i ys → In i (xs ++ ys)
In-append_right i [] ys h = h
In-append_right i (x ∷ xs) ys h = inr (In-append_right i xs ys h)

pub In-All {κ} : (P : ℕ → Type κ) (i : ℕ) (xs : List ℕ) → All P xs → In i xs → P i
In-All P i [] h k = absurd k
In-All P i (x ∷ xs) h (inl e) = subst P (sym e) h.0
In-All P i (x ∷ xs) h (inr k) = In-All P i xs h.1 k

abbrev pub IsAscending : List ℕ → Type 0
IsAscending [] = Unit
IsAscending (x ∷ xs) = All (λ y. x < y) xs × IsAscending xs

abbrev IsDescending : List ℕ → Type 0
IsDescending [] = Unit
IsDescending (x ∷ xs) = All (λ y. y < x) xs × IsDescending xs

IsDescending-append :
    (x : ℕ) (xs : List ℕ) → IsDescending xs → All (λ y. x < y) xs → IsDescending (xs ++ x ∷ [])
IsDescending-append x [] d h = (tt, tt)
IsDescending-append x (y ∷ ys) d h =
    (All-append (λ z. z < y) ys (x ∷ []) d.0 (h.0, tt), IsDescending-append x ys d.1 h.1)

reverse-IsDescending : (xs : List ℕ) → IsAscending xs → IsDescending (reverse xs)
reverse-IsDescending [] h = tt
reverse-IsDescending (x ∷ xs) h = rw (reverse-cons x xs) (
    IsDescending-append x (reverse xs) (reverse-IsDescending xs h.1)
      (All-reverse (λ y. x < y) xs h.0))

In-reverse : (i : ℕ) (xs : List ℕ) → In i xs → In i (reverse xs)
In-reverse i [] h = h
In-reverse i (x ∷ xs) (inl e) =
    rw (reverse-cons x xs) (In-append_right i (reverse xs) (x ∷ []) (inl e))
In-reverse i (x ∷ xs) (inr h) =
    rw (reverse-cons x xs) (In-append_left i (reverse xs) (x ∷ []) (In-reverse i xs h))

-- `best` is at least `i`.
abbrev pub Reaches : ℕ → Option ℕ → Type 0
Reaches i none = ⊥
Reaches i (some best) = i ≤ best

abbrev pub IsHit : (ℕ → Bool) → Option ℕ → Type 0
IsHit test none = Unit
IsHit test (some best) = test best ≡ true

-- `best` passes the test, and is the greatest index of `seen` that does, or a greater one.
pub record IsBest (test : ℕ → Bool) (seen : ℕ → Type 0) (best : Option ℕ) : Type 0 where
  pub hit : IsHit test best
  pub greatest : (i : ℕ) → seen i → test i ≡ true → Reaches i best

Reaches-at_most : (i x : ℕ) (best : Option ℕ) → i ≤ x → at_most x best ≡ true → Reaches i best
Reaches-at_most i x none le h = absurd (cc)
Reaches-at_most i x (some b) le h = ground arith

le-at_most : (i x : ℕ) (best : Option ℕ) → at_most x best ≡ false → Reaches i best → i ≤ x
le-at_most i x none h r = absurd r
le-at_most i x (some b) h r = ground arith

In-descending : (i x : ℕ) (xs : List ℕ) → All (λ y. y < x) xs → In i (x ∷ xs) → i ≤ x
In-descending i x xs d m =
    In-All (λ y. y ≤ x) i (x ∷ xs) (omega arith, All-imp (λ y h. omega (arith, h)) xs d) m

module _ (test : ℕ → Bool) where
  best_loop-IsBest :
      (seen : ℕ → Type 0) (xs : List ℕ) (best : Option ℕ)
      → IsDescending xs
      → IsBest test seen best
      → IsBest test (λ i. seen i ⊎ In i xs) (best_loop test xs best)
  unfolding best_loop
  best_loop-IsBest seen [] best d b = record {
    hit = b.hit;
    greatest = λ i s t. elim s [ inl s' ↦ b.greatest i s' t | inr n ↦ absurd n ];
  }
  best_loop-IsBest seen (x ∷ xs) best d b = elim (Bool-cases (at_most x best)) [
    | inl e ↦
        rw (e, best_loop)
          (record {
            hit = b.hit;
            greatest = λ i s t. elim s [
              | inl s' ↦ b.greatest i s' t
              | inr m ↦ Reaches-at_most i x best (In-descending i x xs d.0 m) e
            ];
          })
    | inr e ↦ elim (Bool-cases (test x)) [
      | inl found ↦
          rw (e, best_loop)
            (rw (found, best_loop)
              (record {
                hit = found;
                greatest = λ i s t. elim s [
                  | inl s' ↦ le-at_most i x best e (b.greatest i s' t)
                  | inr m ↦ In-descending i x xs d.0 m
                ];
              }))
      | inr missed ↦
          let ih = best_loop-IsBest seen xs best d.1 b in
          rw (e, best_loop)
            (rw (missed, best_loop)
              (record { hit = ih.hit; greatest = λ i s t. ih.greatest i (weaken i s t missed) t }))
    ]
  ]
    where
      weaken : (i : ℕ) → seen i ⊎ In i (x ∷ xs) → test i ≡ true → test x ≡ false → seen i ⊎ In i xs
      weaken i (inl s) t missed = inl s
      weaken i (inr (inl e)) t missed =
          let clash : test x ≡ true = subst (λ k. test k ≡ true) e t in absurd (cc)
      weaken i (inr (inr k)) t missed = inr k

  -- One table more has been searched.
  pub best_match-IsBest :
      (seen : ℕ → Type 0) (xs : List ℕ) (best : Option ℕ)
      → IsAscending xs
      → IsBest test seen best
      → IsBest test (λ i. seen i ⊎ In i xs) (best_match test xs best)
  unfolding best_match
  best_match-IsBest seen xs best a b =
      let done = best_loop-IsBest seen (reverse xs) best (reverse-IsDescending xs a) b in
      record {
        hit = done.hit;
        greatest = λ i s t.
            done.greatest i (elim s [ inl s' ↦ inl s' | inr m ↦ inr (In-reverse i xs m) ]) t;
      }

  find-best_loop : (xs : List ℕ) → find test xs ≡ best_loop test xs none
  unfolding find best_loop
  find-best_loop [] = refl
  find-best_loop (x ∷ xs) = ap (λ rest. if test x then some x else rest) (find-best_loop xs)

-- What a lookup in a table yields.
abbrev pub entries : Option (List ℕ) → List ℕ
entries none = []
entries (some indices) = indices

module _ (test : ℕ → Bool) where
  pub best_in-IsBest :
      (seen : ℕ → Type 0) (table : Option (List ℕ)) (best : Option ℕ)
      → IsAscending (entries table)
      → IsBest test seen best
      → IsBest test (λ i. seen i ⊎ In i (entries table)) (best_in test table best)
  best_in-IsBest seen none best a b = record {
    hit = b.hit;
    greatest = λ i s t. elim s [ inl s' ↦ b.greatest i s' t | inr n ↦ absurd n ];
  }
  best_in-IsBest seen (some xs) best a b = best_match-IsBest test seen xs best a b

  pub find_in-IsBest :
      (table : Option (List ℕ))
      → IsAscending (entries table)
      → IsBest test (λ i. In i (entries table)) (find_in test table)
  find_in-IsBest none a = record { hit = tt; greatest = λ i s t. absurd s }
  find_in-IsBest (some xs) a =
      let done =
        best_loop-IsBest test (λ _. ⊥) (reverse xs) none (reverse-IsDescending xs a)
          (record { hit = tt; greatest = λ i s t. absurd s }) in
      rw (find-best_loop test (reverse xs))
        (record { hit = done.hit; greatest = λ i s t. done.greatest i (inr (In-reverse i xs s)) t })
