-- ===== src/Glob/Step.antt =====
-- One step of the matcher of src/glob.rs, over any two kinds of answers: if the recursive calls
-- agree, the step does. With truth values for answers this is the plain recursion, with no table.
use mathlib.Core.Path.{subst}
use weavatrix_scan.Common.{
  ℕ, ◌+◌, ◌≤◌, ◌<◌, ◌≡◌, refl, Bool, true, false, not, ◌&&◌, Option, none, some, ◌==◌, leb, arith,
  length, get_elem?, get_elem?-lt, get_elem?-some, inl, inr, Option-cases, if◌then◌else◌,
}
use weavatrix_scan.Text.{Bytes, slash, backslash}
use weavatrix_scan.Path.{is_byte}
use weavatrix_scan.Glob.{
  Ops, double_star, class_arm, match_arm, skip_stars, character_class, is_component_byte, byte_eq,
}
use weavatrix_scan.Glob.Class.{Ends, character_class-Ends, character_class-value, skip_stars-bounds}

-- The operations keep a relation between answers; a call behind `and_also` is made if the test holds.
pub record Agree {X Y : Type 0} (left : Ops X) (right : Ops Y) (R : X → Y → Type 0) : Type 0 where
  pub on_ret : (b : Bool) → R (left.ret b) (right.ret b)
  pub on_and :
      (a : Bool) (x : X) (y : Y) → (a ≡ true → R x y) → R (left.and_also a x) (right.and_also a y)
  pub on_or : (x x' : X) (y y' : Y) → R x y → R x' y' → R (left.or_also x x') (right.or_also y y')

if_Agree :
    {X Y : Type 0} (R : X → Y → Type 0) (b : Bool) (x x' : X) (y y' : Y)
    → (b ≡ true → R x y)
    → (b ≡ false → R x' y')
    → R (if b then x else x') (if b then y else y')
if_Agree R true x x' y y' f g = f refl
if_Agree R false x x' y y' f g = g refl

component_byte-lt :
    (value : Bytes) (j : ℕ) → is_component_byte (get_elem? value j) ≡ true → j < length value
component_byte-lt value j h = elim (Option-cases (get_elem? value j)) [
  | inl e ↦ absurd (ground arith)
  | inr (c, e) ↦ get_elem?-lt value j e
]

is_byte-lt : (value : Bytes) (j c : ℕ) → is_byte (get_elem? value j) c ≡ true → j < length value
is_byte-lt value j c h = elim (Option-cases (get_elem? value j)) [
  | inl e ↦ absurd (ground arith)
  | inr (c, e) ↦ get_elem?-lt value j e
]

byte_eq-lt :
    (value pattern : Bytes) (j i : ℕ)
    → i < length pattern
    → byte_eq (get_elem? value j) (get_elem? pattern i) ≡ true
    → j < length value
byte_eq-lt value pattern j i h k = elim (Option-cases (get_elem? value j)) [
  | inl e ↦ let (c, e') = get_elem?-some pattern i h in absurd (cc (rw (e, e') at k))
  | inr (c, e) ↦ get_elem?-lt value j e
]

module _ {X Y : Type 0} (left : Ops X) (right : Ops Y) (R : X → Y → Type 0)
    (agree : Agree left right R) (pattern value : Bytes) (recx : ℕ → ℕ → X) (recy : ℕ → ℕ → Y)
    (i j : ℕ)
    (calls : (i' j' : ℕ)
      → i' ≤ length pattern
      → j' ≤ length value
      → i + j < i' + j'
      → R (recx i' j') (recy i' j')) where
  class_arm-Agree :
      (r : Option (Bool × ℕ))
      → character_class pattern value i j ≡ r
      → i < length pattern
      → R (class_arm left recx pattern value i j r) (class_arm right recy pattern value i j r)
  unfolding class_arm
  class_arm-Agree none e h = agree.on_and _ _ _ λ t.
      calls (i + 1) (j + 1) (omega arith) (omega (arith, is_byte-lt value j b'[' t)) (omega arith)
  class_arm-Agree (some (m, next)) e h =
      let ends : Ends pattern i (some (m, next)) =
        subst (Ends pattern i) e (character_class-Ends pattern value i j) in
      agree.on_and m _ _ λ _.
        calls next (j + 1) ends.1 (omega (arith, character_class-value pattern value i j e))
          (omega (arith, ends.0))

  double_star-Agree :
      i + 2 ≤ length pattern
      → j ≤ length value
      → R (double_star left recx pattern value i j) (double_star right recy pattern value i j)
  unfolding double_star
  double_star-Agree h k =
      let next = skip_stars (length pattern) pattern (i + 2) in
      let b = skip_stars-bounds (length pattern) pattern (i + 2) h in
      agree.on_or _ _ _ _
        (if_Agree R (is_byte (get_elem? pattern next) slash) _ _ _ _
          (λ t. calls (next + 1) j (omega (arith, is_byte-lt pattern next slash t)) k (omega arith))
          (λ _. calls next j b.1 k (omega arith)))
        (agree.on_and _ _ _ λ t. calls i (j + 1) (omega arith) (ground arith) (omega arith))

  pub match_arm-Agree :
      j ≤ length value
      → (o : Option ℕ) → get_elem? pattern i ≡ o
      → R (match_arm left recx pattern value i j o) (match_arm right recy pattern value i j o)
  unfolding match_arm
  match_arm-Agree k none e = agree.on_ret (j == length value)
  match_arm-Agree k (some c) e =
      let h : i < length pattern = get_elem?-lt pattern i e in
      if_Agree R ((c == b'*') && is_byte (get_elem? pattern (i + 1)) b'*') _ _ _ _
        (λ t.
          let t' : is_byte (get_elem? pattern (i + 1)) b'*' ≡ true = ground arith in
          double_star-Agree (omega (arith, is_byte-lt pattern (i + 1) b'*' t')) k)
        λ _.
          if_Agree R (c == b'*') _ _ _ _
            (λ _. agree.on_or _ _ _ _ (calls (i + 1) j (omega arith) k (omega arith)) (
              agree.on_and _ _ _ λ t.
                calls i (j + 1) (omega arith) (omega (arith, component_byte-lt value j t))
                  (omega arith)))
            λ _.
              if_Agree R (c == b'?') _ _ _ _
                (λ _. agree.on_and _ _ _ λ t.
                  calls (i + 1) (j + 1) (omega arith) (omega (arith, component_byte-lt value j t))
                    (omega arith))
                λ _.
                  if_Agree R (c == b'[') _ _ _ _
                    (λ _. class_arm-Agree (character_class pattern value i j) refl h)
                    λ _.
                      if_Agree R ((c == backslash) && not (leb (length pattern) (i + 1))) _ _ _ _
                        (λ t.
                          let inside : i + 1 < length pattern = ground arith in
                          agree.on_and _ _ _ λ t'.
                            calls (i + 2) (j + 1) (omega arith)
                              (omega (arith, byte_eq-lt value pattern j (i + 1) inside t'))
                              (omega arith))
                        λ _. agree.on_and _ _ _ λ t.
                          calls (i + 1) (j + 1) (omega arith)
                            (omega (arith, is_byte-lt value j c t)) (omega arith)
