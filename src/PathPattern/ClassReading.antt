-- ===== src/PathPattern/ClassReading.antt =====
-- The classes of src/path_pattern.rs against those of src/glob.rs.
use mathlib.Core.Path.{subst}
use weavatrix_scan.Common.{
  ℕ, zero, suc, ◌+◌, ◌≡◌, ◌≢◌, refl, Bool, true, false, not, ◌&&◌, ◌||◌, Option, some, ◌==◌, leb,
  ltb, length, get_elem?, arith, Bool-cases, Option-cases, inl, inr, if◌then◌else◌,
}
use weavatrix_scan.Text.{Bytes, slash, backslash}
use weavatrix_scan.Path.{is_byte}
use weavatrix_scan.Glob.{
  ◌>>=◌, escaped_member, class_item, class_loop, character_class, is_negation,
}
use weavatrix_scan.PathPattern.{
  Checked, valid, invalid, ◌>>>◌, invalid_character_range, class_member, checked_item,
  checked_class_loop, validate_character_class,
}

-- The matcher reads a class up to the same place.
abbrev pub Reads : Option (Bool × ℕ) → Checked ℕ → Type 0
Reads read (invalid kind position) = Unit
Reads read (valid next) = (matched : Bool) × (read ≡ some (matched, next))

-- A member that is accepted is the one that the matcher reads.
abbrev Member : Bytes → ℕ → Checked (ℕ × ℕ) → Type 0
Member pattern index (invalid kind position) = Unit
Member pattern index (valid (member, next)) =
    (consumed : ℕ) × (escaped_member pattern index ≡ some (member, consumed))
    × (next ≡ index + consumed)

escaped_member-plain :
    (pattern : Bytes) (index c : ℕ)
    → get_elem? pattern index ≡ some c
    → c == backslash ≡ false
    → escaped_member pattern index ≡ some (c, 1)
unfolding escaped_member
escaped_member-plain pattern index c e plain = rw (e, escaped_member) (rw plain refl)

escaped_member-escaped :
    (pattern : Bytes) (index c d : ℕ)
    → get_elem? pattern index ≡ some c
    → c == backslash ≡ true
    → get_elem? pattern (index + 1) ≡ some d
    → escaped_member pattern index ≡ some (d, 2)
unfolding escaped_member
escaped_member-escaped pattern index c d e escape f = rw (e, escaped_member) (rw escape (rw f refl))

class_member-Member :
    (pattern : Bytes) (index : ℕ) → Member pattern index (class_member pattern index)
unfolding class_member
class_member-Member pattern index = elim (Option-cases (get_elem? pattern index)) [
  | inl e ↦ rw (e, class_member) tt
  | inr (c, e) ↦ elim (Bool-cases (c == backslash)) [
    | inr plain ↦
        rw (e, class_member) (rw plain (1, escaped_member-plain pattern index c e plain, refl))
    | inl escape ↦ elim (Option-cases (get_elem? pattern (index + 1))) [
      | inl f ↦ rw (e, class_member) (rw escape (rw f tt))
      | inr (d, f) ↦
          rw (e, class_member)
            (rw escape (rw f (2, escaped_member-escaped pattern index c d e escape f, refl)))
    ]
  ]
]

module _ (pattern : Bytes) (candidate : ℕ) (loop : ℕ → Bool → Option (Bool × ℕ))
    (next : ℕ → Checked ℕ) (reads : (i : ℕ) (m : Bool) → Reads (loop i m) (next i)) where
  -- The end of a range, after the member in front of it.
  range_end-Reads :
      (start range : ℕ) (matched : Bool)
      → Reads
          (escaped_member pattern (range + 1) >>= λ (end, end_consumed).
            loop
              (range + (1 + end_consumed))
              (matched || (leb start candidate && leb candidate end)))
          (class_member pattern (range + 1) >>> λ (end, behind).
            if ltb end start then invalid invalid_character_range range else next behind)
  range_end-Reads start range matched =
      go (class_member pattern (range + 1)) (class_member-Member pattern (range + 1))
    where
      go :
          (r : Checked (ℕ × ℕ))
          → Member pattern (range + 1) r
          → Reads
              (escaped_member pattern (range + 1) >>= λ (end, end_consumed).
                loop
                  (range + (1 + end_consumed))
                  (matched || (leb start candidate && leb candidate end)))
              (r >>> λ (end, behind).
                if ltb end start then invalid invalid_character_range range else next behind)
      go (invalid kind position) m = tt
      go (valid (end, behind)) (consumed, e, at) = elim (Bool-cases (ltb end start)) [
        | inl low ↦ rw low tt
        | inr fine ↦
            let same : behind ≡ range + (1 + consumed) = omega (arith, at) in
            rw (fine, e, same) (reads _ _)
      ]

  item-Reads :
      (index : ℕ) (matched : Bool)
      → Reads (class_item loop pattern candidate index matched) (checked_item next pattern index)
  unfolding class_item checked_item
  item-Reads index matched =
      go (class_member pattern index) (class_member-Member pattern index) refl
    where
      go :
          (r : Checked (ℕ × ℕ))
          → Member pattern index r
          → r ≡ class_member pattern index
          → Reads
              (class_item loop pattern candidate index matched)
              (checked_item next pattern index)
      go (invalid kind position) m same = rw (← same) tt
      go (valid (member, range)) (consumed, e, at) same = rw (← same) (
          rw (e, at)
            (elim (Bool-cases (
              is_byte (get_elem? pattern (index + consumed)) b'-'
              && not (is_byte (get_elem? pattern (index + consumed + 1)) b']'))) [
                | inl is_range ↦ rw is_range (range_end-Reads member (index + consumed) matched)
                | inr single ↦ rw single (reads _ _)
              ]))

class_loop-Reads :
    (fuel : ℕ) (pattern : Bytes) (candidate start index : ℕ) (negated matched has_member : Bool)
    → Reads
        (class_loop fuel pattern candidate negated index matched has_member)
        (checked_class_loop fuel pattern start index has_member)
unfolding class_loop checked_class_loop
class_loop-Reads zero pattern candidate start index negated matched has_member = tt
class_loop-Reads (suc fuel) pattern candidate start index negated matched has_member =
    elim (Option-cases (get_elem? pattern index)) [
      | inl e ↦ rw (e, checked_class_loop) tt
      | inr (c, e) ↦ elim (Bool-cases ((c == b']') && has_member)) [
        | inl closed ↦ rw (e, checked_class_loop, class_loop) (rw closed (_, refl))
        | inr further ↦
            rw (e, checked_class_loop, class_loop)
              (rw further (
                item-Reads pattern candidate
                  (λ i m. class_loop fuel pattern candidate negated i m true)
                  (λ i. checked_class_loop fuel pattern start i true)
                  (λ i m. class_loop-Reads fuel pattern candidate start i negated m true) index
                  matched))
      ]
    ]

-- A class that validation accepts is read as a class by the matcher, and ends at the same place, at
-- every byte of a value except a slash.
pub validate_character_class-character_class :
    (pattern value : Bytes) (start value_index candidate next : ℕ)
    → validate_character_class pattern start ≡ valid next
    → get_elem? value value_index ≡ some candidate
    → candidate ≢ slash
    → (matched : Bool) × (character_class pattern value start value_index ≡ some (matched, next))
unfolding validate_character_class character_class
validate_character_class-character_class pattern value start value_index candidate next ok here
      other =
    let negated = is_negation (get_elem? pattern (start + 1)) in
    let index = start + 1 + (if negated then 1 else 0) in
    let no_slash : candidate == slash ≡ false = ground arith in
    rw (here, character_class)
      (rw no_slash (
        subst (Reads (class_loop (length pattern) pattern candidate negated index false false)) ok
          (class_loop-Reads (length pattern) pattern candidate start index negated false false)))
