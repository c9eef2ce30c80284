-- ===== src/Path/Cover.antt =====
-- What the two prefix tests decide: a path lies under a prefix if it is the prefix or goes on with
-- a slash.
use mathlib.Core.Path.{fun_ext}
use weavatrix_scan.Common.{
  ℕ, zero, suc, ◌≤◌, ◌≡◌, refl, sym, ap, ◌∙◌, Bool, true, false, not, ◌&&◌, ◌||◌, List, [], ◌∷◌,
  ◌++◌, ltb, arith, length, get_elem?, any, inl, inr, Option-cases, if◌then◌else◌,
}
use weavatrix_scan.Text.{Bytes, slash, text_eq, starts_with, is_empty, rsplit_once}
use weavatrix_scan.Text.Laws.{
  starts_with-rsplit, rsplit_once-lt, before_split, starts_with-append-nil,
}
use weavatrix_scan.Text.Order.{Texts, member}
use weavatrix_scan.Path.{
  is_byte, is_same_or_descendant, covered_by_parents, path_covered_by_prefixes,
}

-- The path is the prefix, or the prefix, a slash, and more.
abbrev pub is_under : Bytes → Bytes → Bool
is_under path prefix = text_eq path prefix || starts_with (prefix ++ slash ∷ []) path

descendant_test :
    (prefix path : Bytes)
    → (ltb (length prefix) (length path)
        && (is_byte (get_elem? path (length prefix)) slash && starts_with prefix path))
      ≡ starts_with (prefix ++ slash ∷ []) path
descendant_test [] [] = refl
descendant_test [] (y ∷ ys) = ground arith
descendant_test (x ∷ xs) [] = ground arith
descendant_test (x ∷ xs) (y ∷ ys) = ground (arith, descendant_test xs ys)

-- `is_same_or_descendant` accepts exactly the prefix itself and, if the prefix is not empty, the
-- paths that go on behind it with a slash.
pub is_same_or_descendant_lem :
    (path prefix : Bytes)
    → is_same_or_descendant path prefix
      ≡ (text_eq path prefix || (not (is_empty prefix) && starts_with (prefix ++ slash ∷ []) path))
unfolding is_same_or_descendant
is_same_or_descendant_lem path prefix = rw (descendant_test prefix path)

any_ext : (f g : Bytes → Bool) → ((x : Bytes) → f x ≡ g x) → (xs : Texts) → any f xs ≡ any g xs
any_ext f g h xs = ap (λ t. any t xs) (fun_ext h)

any-false {ℓ} : {A : Type ℓ} (xs : List A) → any (λ x. false) xs ≡ false
any-false [] = refl
any-false (x ∷ xs) = any-false xs

any-or {ℓ} :
    {A : Type ℓ} (f g : A → Bool) (xs : List A) → any (λ x. f x || g x) xs ≡ (any f xs || any g xs)
any-or f g [] = refl
any-or f g (x ∷ xs) = ground (arith, any-or f g xs)

-- The loop looks at every proper parent.
covered_by_parents_lem :
    (fuel : ℕ) (rest : Bytes) (prefixes : Texts)
    → length rest ≤ fuel
    → covered_by_parents fuel rest prefixes ≡ any (λ p. starts_with (p ++ slash ∷ []) rest) prefixes
unfolding covered_by_parents
covered_by_parents_lem zero [] prefixes h =
    sym (any_ext _ _ (λ p. starts_with-append-nil slash p) prefixes ∙ any-false prefixes)
covered_by_parents_lem zero (x ∷ xs) prefixes h = absurd (omega arith)
covered_by_parents_lem (suc fuel) rest prefixes h = elim (Option-cases (rsplit_once slash rest)) [
  | inl e ↦
      rw (e, covered_by_parents)
        (sym (
          any_ext _ _ (λ p. starts_with-rsplit slash p rest ∙ ap (before_split slash p) e) prefixes
          ∙ any-false prefixes))
  | inr ((parent, name), e) ↦
      let shorter : length parent ≤ fuel = omega (arith, rsplit_once-lt slash rest e) in
      let ih = covered_by_parents_lem fuel parent prefixes shorter in
      let step =
        any_ext _ _ (λ p. starts_with-rsplit slash p rest ∙ ap (before_split slash p) e) prefixes
        ∙ any-or (text_eq parent) (λ p. starts_with (p ++ slash ∷ []) parent) prefixes in
      rw (e, covered_by_parents) (rw (step, ih) (or_else (member parent prefixes) _))
]
  where
    or_else : (a b : Bool) → (if a then true else b) ≡ (a || b)
    or_else true b = refl
    or_else false b = refl

-- A path is covered exactly if it is one of the prefixes or goes on behind one with a slash.
pub path_covered_by_prefixes_lem :
    (path : Bytes) (prefixes : Texts)
    → path_covered_by_prefixes path prefixes ≡ any (is_under path) prefixes
unfolding path_covered_by_prefixes
path_covered_by_prefixes_lem path prefixes =
    rw (covered_by_parents_lem (length path) path prefixes (omega arith))
      (rw (any-or (text_eq path) (λ p. starts_with (p ++ slash ∷ []) path) prefixes) (ground arith))
