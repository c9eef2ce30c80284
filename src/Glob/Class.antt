-- ===== src/Glob/Class.antt =====
-- The character classes of src/glob.rs: where a class that was read ends, and that the loops of the
-- matcher have fuel enough.
use mathlib.Core.Path.{ap₂}
use weavatrix_scan.Common.{
  ℕ, zero, suc, ◌+◌, ◌≤◌, ◌<◌, ◌≡◌, refl, ap, Bool, true, false, not, ◌&&◌, ◌||◌, Option, none,
  some, List, [], ◌∷◌, ◌==◌, leb, arith, length, get_elem?, get_elem?-lt, inl, inr, Bool-cases,
  Option-cases, if◌then◌else◌, if_elim,
}
use weavatrix_scan.Text.{Bytes, slash}
use weavatrix_scan.Path.{is_byte}
use weavatrix_scan.Glob.{
  ◌>>=◌, escaped_member, class_item, class_loop, character_class, skip_stars, is_negation,
}

-- Reading past the end finds nothing.
pub get_elem?-ge {ℓ} : {A : Type ℓ} (xs : List A) (i : ℕ) → length xs ≤ i → get_elem? xs i ≡ none
get_elem?-ge [] i h = refl
get_elem?-ge (x ∷ xs) zero h = absurd (omega arith)
get_elem?-ge (x ∷ xs) (suc i) h = get_elem?-ge xs i (omega arith)

-- The end of a class lies behind `index` and within the pattern.
abbrev pub Ends : Bytes → ℕ → Option (Bool × ℕ) → Type 0
Ends pattern index none = Unit
Ends pattern index (some (matched, next)) = (index < next) × (next ≤ length pattern)

escaped_member-bounds :
    (pattern : Bytes) (index member consumed : ℕ)
    → escaped_member pattern index ≡ some (member, consumed)
    → (0 < consumed) × (index + consumed ≤ length pattern)
unfolding escaped_member
escaped_member-bounds pattern index member consumed h =
    elim (Option-cases (get_elem? pattern index)) [
      | inl e ↦ absurd (ground arith)
      | inr (c, e) ↦ elim (Option-cases (get_elem? pattern (index + 1))) [
        | inl e' ↦ ground (arith, get_elem?-lt pattern index e)
        | inr (d, e') ↦
            ground (arith, get_elem?-lt pattern index e, get_elem?-lt pattern (index + 1) e')
      ]
    ]

Ends-bind :
    {A : Type 0} (pattern : Bytes) (index : ℕ) (m : Option A) (f : A → Option (Bool × ℕ))
    → ((a : A) → m ≡ some a → Ends pattern index (f a))
    → Ends pattern index (m >>= f)
Ends-bind pattern index none f h = tt
Ends-bind pattern index (some a) f h = h a refl

Ends-mono :
    (pattern : Bytes) (i j : ℕ) (r : Option (Bool × ℕ))
    → i ≤ j
    → Ends pattern j r
    → Ends pattern i r
Ends-mono pattern i j none h e = tt
Ends-mono pattern i j (some (m, next)) h e = omega arith

bind_ext :
    {A B : Type 0} (m : Option A) (f g : A → Option B)
    → ((a : A) → m ≡ some a → f a ≡ g a)
    → (m >>= f) ≡ (m >>= g)
bind_ext none f g h = refl
bind_ext (some a) f g h = h a refl

module _ (pattern : Bytes) (candidate : ℕ) where
  class_item_ext :
      (f g : ℕ → Bool → Option (Bool × ℕ)) (index : ℕ) (matched : Bool)
      → ((i : ℕ) (m : Bool) → index < i → f i m ≡ g i m)
      → class_item f pattern candidate index matched ≡ class_item g pattern candidate index matched
  unfolding class_item
  class_item_ext f g index matched h =
      bind_ext (escaped_member pattern index) _ _ λ (start, consumed) e.
        let b = escaped_member-bounds pattern index start consumed e in
        ap₂
          (λ x y.
            if is_byte (get_elem? pattern (index + consumed)) b'-'
              && not (is_byte (get_elem? pattern (index + consumed + 1)) b']')
            then x
            else y)
          (bind_ext (escaped_member pattern (index + consumed + 1)) _ _
            λ (end, taken) _. h (index + consumed + (1 + taken)) _ (omega arith))
          (h (index + consumed) _ (omega arith))

  class_item-Ends :
      (next : ℕ → Bool → Option (Bool × ℕ)) (index : ℕ) (matched : Bool)
      → ((i : ℕ) (m : Bool) → index < i → Ends pattern index (next i m))
      → Ends pattern index (class_item next pattern candidate index matched)
  unfolding class_item
  class_item-Ends next index matched h =
      Ends-bind pattern index (escaped_member pattern index) _ λ (start, consumed) e.
        let b = escaped_member-bounds pattern index start consumed e in
        if_elim (Ends pattern index) _ _ (next (index + consumed) (matched || (candidate == start)))
          (λ _.
            Ends-bind pattern index (escaped_member pattern (index + consumed + 1)) _
              λ (end, taken) _.
                h (index + consumed + (1 + taken))
                  (matched || (leb start candidate && leb candidate end)) (omega arith))
          (λ _. h (index + consumed) (matched || (candidate == start)) (omega arith))

  class_loop-Ends :
      (fuel : ℕ) (negated : Bool) (index : ℕ) (matched has_member : Bool)
      → Ends pattern index (class_loop fuel pattern candidate negated index matched has_member)
  unfolding class_loop
  class_loop-Ends zero negated index matched has_member = tt
  class_loop-Ends (suc fuel) negated index matched has_member =
      Ends-bind pattern index (get_elem? pattern index) _ λ member e.
        if_elim (Ends pattern index) ((member == b']') && has_member)
          (some (if negated then not matched else matched, index + 1)) _
          (λ _. (omega arith, omega (arith, get_elem?-lt pattern index e)))
          (λ _. class_item-Ends _ index matched λ i m later.
            Ends-mono pattern index i _ (omega arith) (class_loop-Ends fuel negated i m true))

  -- The loop gives the same answer on any fuel that covers what is left of the pattern.
  pub class_loop_fuel :
      (f g : ℕ) (negated : Bool) (index : ℕ) (matched has_member : Bool)
      → length pattern ≤ index + f
      → length pattern ≤ index + g
      → class_loop f pattern candidate negated index matched has_member
        ≡ class_loop g pattern candidate negated index matched has_member
  unfolding class_loop
  class_loop_fuel zero zero negated index matched has_member p q = refl
  class_loop_fuel zero (suc g) negated index matched has_member p q =
      rw (get_elem?-ge pattern index (omega arith)) refl
  class_loop_fuel (suc f) zero negated index matched has_member p q =
      rw (get_elem?-ge pattern index (omega arith)) refl
  class_loop_fuel (suc f) (suc g) negated index matched has_member p q =
      bind_ext (get_elem? pattern index) _ _ λ member _.
        ap
          (λ rest.
            if (member == b']') && has_member
            then some (if negated then not matched else matched, index + 1)
            else rest)
          (class_item_ext _ _ index matched
            λ i m later. class_loop_fuel f g negated i m true (omega arith) (omega arith))

-- A class that was read ends behind its bracket and within the pattern, at a byte of the value.
pub character_class-Ends :
    (pattern value : Bytes) (pattern_index value_index : ℕ)
    → Ends pattern pattern_index (character_class pattern value pattern_index value_index)
unfolding character_class
character_class-Ends pattern value pattern_index value_index =
    Ends-bind pattern pattern_index (get_elem? value value_index) _ λ candidate e.
      let negated = is_negation (get_elem? pattern (pattern_index + 1)) in
      let index = pattern_index + 1 + (if negated then 1 else 0) in
      if_elim (Ends pattern pattern_index) (candidate == slash) none
        (class_loop (length pattern) pattern candidate negated index false false) (λ _. tt)
        (λ _.
          Ends-mono pattern pattern_index index _ (omega arith)
            (class_loop-Ends pattern candidate (length pattern) negated index false false))

pub character_class-value :
    (pattern value : Bytes) (pattern_index value_index : ℕ) {r : Bool × ℕ}
    → character_class pattern value pattern_index value_index ≡ some r
    → value_index < length value
unfolding character_class
character_class-value pattern value pattern_index value_index h =
    elim (Option-cases (get_elem? value value_index)) [
      | inl e ↦ absurd (ground arith)
      | inr (c, e) ↦ get_elem?-lt value value_index e
    ]

pub skip_stars-bounds :
    (fuel : ℕ) (pattern : Bytes) (next : ℕ)
    → next ≤ length pattern
    → (next ≤ skip_stars fuel pattern next) × (skip_stars fuel pattern next ≤ length pattern)
unfolding skip_stars
skip_stars-bounds zero pattern next h = (omega arith, h)
skip_stars-bounds (suc fuel) pattern next h = elim (Option-cases (get_elem? pattern next)) [
  | inl e ↦ rw (e, skip_stars) (omega arith, h)
  | inr (c, e) ↦
      let ih =
        skip_stars-bounds fuel pattern (next + 1) (omega (arith, get_elem?-lt pattern next e)) in
      if_elim (λ n. (next ≤ n) × (n ≤ length pattern)) _ _ _ (λ _. (omega arith, ih.1))
        (λ _. (omega arith, h))
]

-- The loop has fuel enough: what it stops at is no star.
pub skip_stars-stops :
    (fuel : ℕ) (pattern : Bytes) (next : ℕ)
    → length pattern ≤ next + fuel
    → is_byte (get_elem? pattern (skip_stars fuel pattern next)) b'*' ≡ false
unfolding skip_stars
skip_stars-stops zero pattern next h = rw (get_elem?-ge pattern next (omega arith)) refl
skip_stars-stops (suc fuel) pattern next h =
    elim (Bool-cases (is_byte (get_elem? pattern next) b'*')) [
      | inl e ↦ rw (e, skip_stars) (skip_stars-stops fuel pattern (next + 1) (omega arith))
      | inr e ↦ rw (e, skip_stars) e
    ]
