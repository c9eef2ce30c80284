-- ===== src/Text/Laws.antt =====
-- What the string operations mean: equality, prefixes, suffixes and the split at the last byte.
use mathlib.Core.Path.{subst}
use weavatrix_scan.Common.{
  ℕ, ◌<◌, ◌≡◌, refl, ap, ◌↔◌, inl, inr, Bool, true, false, ◌&&◌, ◌||◌, Option, none, some, [], ◌∷◌,
  ◌++◌, ◌==◌, Bool-cases, arith, length, length-append,
}
use weavatrix_scan.Text.{Bytes, text_eq, starts_with, rsplit_once, rsplit_cons, contains_byte}

pub text_eq_refl : (xs : Bytes) → text_eq xs xs ≡ true
text_eq_refl [] = refl
text_eq_refl (x ∷ xs) = ground (arith, text_eq_refl xs)

pub eq_of_text_eq : (xs ys : Bytes) → text_eq xs ys ≡ true → xs ≡ ys
eq_of_text_eq [] [] h = refl
eq_of_text_eq [] (y ∷ ys) h = cc
eq_of_text_eq (x ∷ xs) [] h = cc
eq_of_text_eq (x ∷ xs) (y ∷ ys) h = ground (arith, eq_of_text_eq xs ys)

pub text_eq_iff : (xs ys : Bytes) → (text_eq xs ys ≡ true) ↔ (xs ≡ ys)
text_eq_iff xs ys = (eq_of_text_eq xs ys, λ e. rw e (text_eq_refl ys))

pub starts_with-append : (xs ys : Bytes) → starts_with xs (xs ++ ys) ≡ true
starts_with-append [] ys = refl
starts_with-append (x ∷ xs) ys = ground (arith, starts_with-append xs ys)

pub starts_with→append :
    (xs ys : Bytes) → starts_with xs ys ≡ true → (rest : Bytes) × (ys ≡ xs ++ rest)
starts_with→append [] ys h = (ys, refl)
starts_with→append (x ∷ xs) [] h = cc
starts_with→append (x ∷ xs) (y ∷ ys) h =
    let t : (starts_with xs ys ≡ true) × (x ≡ y) = ground arith in
    let (rest, e) = starts_with→append xs ys t.0 in (rest, cc)

-- What a split at the last `c` says of the text.
abbrev pub Splits : ℕ → Bytes → Option (Bytes × Bytes) → Type 0
Splits c xs none = contains_byte c xs ≡ false
Splits c xs (some (before, after)) =
    (◌≡◌ {A = Bytes} xs (before ++ c ∷ after)) × (contains_byte c after ≡ false)

Splits-cons :
    (c x : ℕ) (xs : Bytes) (r : Option (Bytes × Bytes))
    → Splits c xs r
    → Splits c (x ∷ xs) (rsplit_cons c x xs r)
Splits-cons c x xs none h = elim (Bool-cases (x == c)) [
  | inl e ↦ rw e (ground arith, h)
  | inr e ↦ rw e (rw e h)
]
Splits-cons c x xs (some (before, after)) h = (ap (λ t. x ∷ t) h.0, h.1)

-- A split puts the text together again, and finds the last `c` if there is one.
pub rsplit_once-Splits : (c : ℕ) (xs : Bytes) → Splits c xs (rsplit_once c xs)
unfolding rsplit_once
rsplit_once-Splits c [] = refl
rsplit_once-Splits c (x ∷ xs) = Splits-cons c x xs (rsplit_once c xs) (rsplit_once-Splits c xs)

-- The part in front of the last `c` is shorter than the text.
pub rsplit_once-lt :
    (c : ℕ) (xs : Bytes) {before after : Bytes}
    → rsplit_once c xs ≡ some (before, after)
    → length before < length xs
rsplit_once-lt c xs {before} {after} h =
    let parts : Splits c xs (some (before, after)) =
      subst (Splits c xs) h (rsplit_once-Splits c xs) in
    rw parts.0 (omega (arith, length-append before (c ∷ after)))

abbrev pub before_split : ℕ → Bytes → Option (Bytes × Bytes) → Bool
before_split c p none = false
before_split c p (some (before, _)) = text_eq before p || starts_with (p ++ c ∷ []) before

pub starts_with-append-nil : (c : ℕ) (p : Bytes) → starts_with (p ++ c ∷ []) [] ≡ false
starts_with-append-nil c [] = refl
starts_with-append-nil c (q ∷ qs) = refl

before_split-cons :
    (c q x : ℕ) (qs xs : Bytes) (r : Option (Bytes × Bytes))
    → starts_with (qs ++ c ∷ []) xs ≡ before_split c qs r
    → (q == x) && starts_with (qs ++ c ∷ []) xs ≡ before_split c (q ∷ qs) (rsplit_cons c x xs r)
before_split-cons c q x qs xs none h = ground arith
before_split-cons c q x qs xs (some (before, after)) h = ground arith

before_split-nil :
    (c x : ℕ) (xs : Bytes) (r : Option (Bytes × Bytes))
    → starts_with (c ∷ []) (x ∷ xs) ≡ before_split c [] (rsplit_cons c x xs r)
before_split-nil c x xs none = ground arith
before_split-nil c x xs (some (before, after)) = ground arith

-- A text begins with `p` and a `c` exactly if its part in front of the last `c` is `p` or so begins.
pub starts_with-rsplit :
    (c : ℕ) (p xs : Bytes) → starts_with (p ++ c ∷ []) xs ≡ before_split c p (rsplit_once c xs)
unfolding rsplit_once
starts_with-rsplit c p [] = starts_with-append-nil c p
starts_with-rsplit c [] (x ∷ xs) = before_split-nil c x xs (rsplit_once c xs)
starts_with-rsplit c (q ∷ qs) (x ∷ xs) =
    before_split-cons c q x qs xs (rsplit_once c xs) (starts_with-rsplit c qs xs)

pub starts_with_trans :
    (xs ys zs : Bytes)
    → starts_with xs ys ≡ true
    → starts_with ys zs ≡ true
    → starts_with xs zs ≡ true
starts_with_trans [] ys zs h k = refl
starts_with_trans (x ∷ xs) [] zs h k = absurd (cc)
starts_with_trans (x ∷ xs) (y ∷ ys) [] h k = k
starts_with_trans (x ∷ xs) (y ∷ ys) (z ∷ zs) h k = ground (arith, starts_with_trans xs ys zs)

pub starts_with-append_left :
    (xs ys zs : Bytes) → starts_with (xs ++ ys) zs ≡ true → starts_with xs zs ≡ true
starts_with-append_left [] ys zs h = refl
starts_with-append_left (x ∷ xs) ys [] h = h
starts_with-append_left (x ∷ xs) ys (z ∷ zs) h = ground (arith, starts_with-append_left xs ys zs)

pub starts_with-append_right :
    (xs ys zs : Bytes) → starts_with xs ys ≡ true → starts_with xs (ys ++ zs) ≡ true
starts_with-append_right [] ys zs h = refl
starts_with-append_right (x ∷ xs) [] zs h = absurd (cc)
starts_with-append_right (x ∷ xs) (y ∷ ys) zs h = ground (arith, starts_with-append_right xs ys zs)
