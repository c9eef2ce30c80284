-- ===== src/PathPattern/ClassErrors.antt =====
-- The bytes that the errors of src/path_pattern.rs point at, and those of its character classes.
use weavatrix_scan.Common.{
  ℕ, zero, suc, ◌+◌, ◌-◌, ◌≡◌, ◌≢◌, ◌∙◌, ap, refl, Bool, true, false, not, ◌&&◌, ◌||◌, ◌==◌, ==_iff,
  ltb, length, get_elem?, arith, Bool-cases, Option-cases, inl, inr, some, none, if◌then◌else◌,
}
use weavatrix_scan.Text.{Bytes, backslash}
use weavatrix_scan.Path.{is_byte}
use weavatrix_scan.PathPattern.{
  Checked, valid, invalid, ◌>>>◌, PathPatternErrorKind, empty, dangling_escape,
  unclosed_character_class, invalid_character_range, empty_brace_alternative, unclosed_brace,
  unexpected_closing_brace, expansion_limit_exceeded, validate_character_class, class_member,
  checked_item, checked_class_loop,
}

-- The byte that an error of the kind is about.
abbrev is_culprit : PathPatternErrorKind → ℕ → Bool
is_culprit empty byte = false
is_culprit dangling_escape byte = byte == backslash
is_culprit unclosed_character_class byte = (byte == b'[') || (byte == b'-')
is_culprit invalid_character_range byte = byte == b'-'
is_culprit empty_brace_alternative byte = (byte == b',') || (byte == b'}')
is_culprit unclosed_brace byte = byte == b'{'
is_culprit unexpected_closing_brace byte = byte == b'}'
is_culprit expansion_limit_exceeded byte = (byte == b'{') || ((byte == b',') || (byte == b'}'))

-- At the position stands such a byte.
abbrev pub Points : Bytes → PathPatternErrorKind → ℕ → Type 0
Points pattern kind position =
    (byte : ℕ) × (get_elem? pattern position ≡ some byte) × (is_culprit kind byte ≡ true)

-- A value satisfies the predicate, and an error points at its byte.
abbrev pub Within : {A : Type 0} → Bytes → (A → Type 0) → Checked A → Type 0
Within pattern P (valid a) = P a
Within pattern P (invalid kind position) = Points pattern kind position

pub Within-bind :
    {A B : Type 0} (pattern : Bytes) (Q : A → Type 0) (P : B → Type 0) (r : Checked A)
    (f : A → Checked B)
    → Within pattern Q r
    → ((a : A) → Q a → Within pattern P (f a))
    → Within pattern P (r >>> f)
Within-bind pattern Q P (valid a) f k h = h a k
Within-bind pattern Q P (invalid kind position) f k h = k

pub Within-if :
    {A : Type 0} (pattern : Bytes) (P : A → Type 0) (b : Bool) (x y : Checked A)
    → (b ≡ true → Within pattern P x)
    → (b ≡ false → Within pattern P y)
    → Within pattern P (if b then x else y)
Within-if pattern P true x y h k = h refl
Within-if pattern P false x y h k = k refl

abbrev pub Anything : {A : Type 0} → A → Type 0
Anything a = Unit

module _ (pattern : Bytes) where
  abbrev pub Good : {A : Type 0} → (A → Type 0) → Checked A → Type 0
  Good = Within pattern

  -- The byte stands at the index.
  abbrev pub Stands : ℕ → ℕ → Type 0
  Stands index byte = get_elem? pattern index ≡ some byte

  class_member-Within :
      (index : ℕ)
      → (get_elem? pattern index ≡ none → Stands (index - 1) b'-')
      → Good Anything (class_member pattern index)
  unfolding class_member
  class_member-Within index before = elim (Option-cases (get_elem? pattern index)) [
    | inl e ↦ rw (class_member, e) (b'-', before e, refl)
    | inr (member, e) ↦ elim (Bool-cases (member == backslash)) [
      | inl b ↦ elim (Option-cases (get_elem? pattern (index + 1))) [
        | inl n ↦ rw (class_member, e, b, n) (member, e, b)
        | inr (escaped, n) ↦ rw (class_member, e, b, n) tt
      ]
      | inr b ↦ rw (class_member, e, b) tt
    ]
  ]

  is_byte-Stands :
      (index byte : ℕ) → is_byte (get_elem? pattern index) byte ≡ true → Stands index byte
  is_byte-Stands index byte h = elim (Option-cases (get_elem? pattern index)) [
    | inl e ↦ let k = rw e at h in absurd (cc)
    | inr (found, e) ↦ let k = rw e at h in e ∙ ap some ((==_iff found byte).0 k)
  ]

  checked_item-Within :
      (next : ℕ → Checked ℕ) (index : ℕ)
      → get_elem? pattern index ≢ none
      → ((i : ℕ) → Good Anything (next i))
      → Good Anything (checked_item next pattern index)
  unfolding checked_item
  checked_item-Within next index here further =
      Within-bind _ Anything Anything (class_member pattern index) _
        (class_member-Within index (λ e. absurd (here e)))
        (λ (member, range) _.
          Within-if _ Anything
            (is_byte (get_elem? pattern range) b'-'
              && not (is_byte (get_elem? pattern (range + 1)) b']'))
            _ _
            (λ dashed.
              let dash : Stands range b'-' = is_byte-Stands range b'-' (ground arith) in
              let back : range + 1 - 1 ≡ range = omega arith in
              Within-bind _ Anything Anything (class_member pattern (range + 1)) _
                (class_member-Within (range + 1) (λ _. rw back dash))
                (λ (end, behind) _.
                  Within-if _ Anything (ltb end member) _ _ (λ _. (b'-', dash, refl))
                    (λ _. further behind)))
            (λ _. further range))

  checked_class_loop-Within :
      (fuel start index : ℕ) (has_member : Bool)
      → Stands start b'['
      → Good Anything (checked_class_loop fuel pattern start index has_member)
  unfolding checked_class_loop
  checked_class_loop-Within zero start index has_member h = (b'[', h, refl)
  checked_class_loop-Within (suc fuel) start index has_member h =
      elim (Option-cases (get_elem? pattern index)) [
        | inl e ↦ rw (checked_class_loop, e) (b'[', h, refl)
        | inr (member, e) ↦
            rw (checked_class_loop, e)
              (Within-if _ Anything ((member == b']') && has_member) _ _ (λ _. tt)
                (λ _.
                  checked_item-Within (λ i. checked_class_loop fuel pattern start i true) index
                    (λ n. absurd (cc)) (λ i. checked_class_loop-Within fuel start i true h)))
      ]

  pub validate_character_class-Within :
      (start : ℕ) → Stands start b'[' → Good Anything (validate_character_class pattern start)
  unfolding validate_character_class
  validate_character_class-Within start h =
      checked_class_loop-Within (length pattern) start _ false h
