-- ===== src/Glob/Braces/Groups/Loop.antt =====
-- The loop of src/glob.rs over the bytes of a group, against the reading of its text.
use mathlib.Core.Path.{subst}
use mathlib.Core.List.{append_assoc, append-nil}
use weavatrix_scan.Common.{
  ℕ, zero, suc, ◌+◌, ◌-◌, ◌≤◌, ◌≡◌, refl, sym, ap, ◌∙◌, Bool, true, false, Option, none, some, List,
  [], ◌∷◌, ◌++◌, ◌==◌, ==_iff, arith, drop, Bool-cases, inl, inr,
}
use weavatrix_scan.Text.{Bytes, backslash}
use weavatrix_scan.Glob.Braces.{slice, Group, read_group}
use weavatrix_scan.Glob.Braces.Groups.{is_in_class, Alternatives, in_first, and_first, split_group}
use weavatrix_scan.Glob.Braces.Groups.Slices.{class_after_lem, plus_one, drop-suc, slice-suc}

-- The loop ends with the alternatives so far, the slice so far with the first of those to come, and
-- the others; and the text behind the group is that behind the index of its end.
module _ (pattern : Bytes) where
  abbrev pub Reads : List Bytes → Bytes → Option (List Bytes × ℕ) → Alternatives → Type 0
  Reads so_far slice_so_far none none = Unit
  Reads so_far slice_so_far none (some group) = ⊥
  Reads so_far slice_so_far (some found) none = ⊥
  Reads so_far slice_so_far (some (alternatives, end)) (some (first, others, after)) =
      (alternatives ≡ so_far ++ (slice_so_far ++ first) ∷ others) × (drop (end + 1) pattern ≡ after)

  Reads-in_first :
      (so_far : List Bytes) (current : Bytes) (byte : ℕ) (r : Option (List Bytes × ℕ))
      (s : Alternatives)
      → Reads so_far (current ++ byte ∷ []) r s
      → Reads so_far current r (in_first byte s)
  Reads-in_first so_far current byte none none h = h
  Reads-in_first so_far current byte none (some group) h = absurd h
  Reads-in_first so_far current byte (some found) none h = absurd h
  Reads-in_first so_far current byte (some (alternatives, end)) (some (first, others, after)) h =
      (h.0 ∙ ap (λ t. so_far ++ t ∷ others) (append_assoc current (byte ∷ []) first), h.1)

  Reads-and_first :
      (so_far : List Bytes) (current : Bytes) (r : Option (List Bytes × ℕ)) (s : Alternatives)
      → Reads (so_far ++ current ∷ []) [] r s
      → Reads so_far current r (and_first s)
  Reads-and_first so_far current none none h = h
  Reads-and_first so_far current none (some group) h = absurd h
  Reads-and_first so_far current (some found) none h = absurd h
  Reads-and_first so_far current (some (alternatives, end)) (some (first, others, after)) h = (
    h.0
        ∙ append_assoc so_far (current ∷ []) (first ∷ others)
        ∙ ap (λ t. so_far ++ t ∷ first ∷ others) (sym (append-nil current)),
    h.1,
  )

  -- The variables of the loop at the index, with so many groups within the group.
  abbrev at_depth : ℕ → Bool → Bool → ℕ → List Bytes → Group
  at_depth nested escaped class start so_far = record {
    depth = nested + 1;
    escaped = escaped;
    class = class;
    alternative_start = start;
    alternatives = so_far;
  }

  -- The loop and the reading agree on the text from the index on.
  abbrev Agrees : Bytes → ℕ → Type 0
  Agrees rest index =
      (nested : ℕ) (escaped class : Bool) (start : ℕ) (so_far : List Bytes)
      → start ≤ index
      → Reads so_far (slice pattern start index)
          (read_group pattern rest index (at_depth nested escaped class start so_far))
          (split_group rest nested escaped class)

  -- The same behind a byte of the group that is not escaped.
  abbrev ByteStep : ℕ → Bytes → ℕ → ℕ → Bool → ℕ → List Bytes → Type 0
  ByteStep byte rest index nested class start so_far =
      Reads so_far (slice pattern start index)
        (read_group pattern (byte ∷ rest) index (at_depth nested false class start so_far))
        (split_group (byte ∷ rest) nested false class)

  module _ (byte : ℕ) (rest : Bytes) (index : ℕ) (here : drop index pattern ≡ byte ∷ rest)
      (further : Agrees rest (index + 1)) where
    -- A byte of the alternative, behind which both go on alike.
    goes_on :
        (nested : ℕ) (escaped class : Bool) (start : ℕ) (so_far : List Bytes)
        → start ≤ index
        → Reads so_far
            (slice pattern start index)
            (read_group pattern rest (index + 1) (at_depth nested escaped class start so_far))
            (in_first byte (split_group rest nested escaped class))
    goes_on nested escaped class start so_far le =
        Reads-in_first so_far (slice pattern start index) byte _ _ (
          subst
            (λ t.
              Reads so_far t
                (read_group pattern rest (index + 1) (at_depth nested escaped class start so_far))
                (split_group rest nested escaped class))
            (slice-suc pattern rest start index byte le here)
            (further nested escaped class start so_far (omega arith)))

    other_step :
        (nested : ℕ) (class : Bool) (start : ℕ) (so_far : List Bytes)
        → (byte == b'}') ≡ false
        → (byte == b'{') ≡ false
        → (byte == b',') ≡ false
        → start ≤ index
        → ByteStep byte rest index nested class start so_far
    unfolding read_group split_group
    other_step nested class start so_far c o m le =
        rw (c, o, m, class_after_lem byte class)
          (goes_on nested (byte == backslash) (is_in_class byte class) start so_far le)

  module _ (rest : Bytes) (index : ℕ) where
    close_step :
        (nested : ℕ) (class : Bool) (start : ℕ) (so_far : List Bytes)
        → drop index pattern ≡ b'}' ∷ rest
        → Agrees rest (index + 1)
        → start ≤ index
        → ByteStep b'}' rest index nested class start so_far
    unfolding read_group split_group
    close_step nested true start so_far here further le =
        goes_on b'}' rest index here further nested false true start so_far le
    close_step zero false start so_far here further le = (
      ap (λ t. so_far ++ t ∷ []) (sym (append-nil (slice pattern start index))),
      rw (plus_one index) (drop-suc index pattern rest b'}' here),
    )
    close_step (suc n) false start so_far here further le =
        let deep : (suc n + 1 == 1) ≡ false = ground arith in
        let deep_text : (suc n == 0) ≡ false = ground arith in
        let out : suc n + 1 - 1 ≡ n + 1 = omega arith in
        let out_text : suc n - 1 ≡ n = omega arith in
        rw (deep, out, deep_text, out_text)
          (goes_on b'}' rest index here further n false false start so_far le)

    open_step :
        (nested : ℕ) (class : Bool) (start : ℕ) (so_far : List Bytes)
        → drop index pattern ≡ b'{' ∷ rest
        → Agrees rest (index + 1)
        → start ≤ index
        → ByteStep b'{' rest index nested class start so_far
    unfolding read_group split_group
    open_step nested true start so_far here further le =
        goes_on b'{' rest index here further nested false true start so_far le
    open_step nested false start so_far here further le =
        goes_on b'{' rest index here further (nested + 1) false false start so_far le

    comma_step :
        (nested : ℕ) (class : Bool) (start : ℕ) (so_far : List Bytes)
        → drop index pattern ≡ b',' ∷ rest
        → Agrees rest (index + 1)
        → start ≤ index
        → ByteStep b',' rest index nested class start so_far
    unfolding read_group split_group
    comma_step nested true start so_far here further le =
        goes_on b',' rest index here further nested false true start so_far le
    comma_step zero false start so_far here further le =
        Reads-and_first so_far (slice pattern start index) _ _ (
          subst
            (λ t.
              Reads (so_far ++ slice pattern start index ∷ []) t
                (read_group pattern rest (index + 1)
                  (at_depth 0 false false (index + 1) (so_far ++ slice pattern start index ∷ [])))
                (split_group rest 0 false false))
            nothing
            (further 0 false false (index + 1) (so_far ++ slice pattern start index ∷ [])
              (omega arith)))
      where
        nothing : slice pattern (index + 1) (index + 1) ≡ []
        nothing = let e : index + 1 - (index + 1) ≡ 0 = omega arith in rw e refl
    comma_step (suc n) false start so_far here further le =
        let deep : (suc n + 1 == 1) ≡ false = ground arith in
        let deep_text : (suc n == 0) ≡ false = ground arith in
        rw (deep, deep_text)
          (goes_on b',' rest index here further (suc n) false false start so_far le)

    same_byte :
        (byte known nested : ℕ) (class : Bool) (start : ℕ) (so_far : List Bytes)
        → (byte == known) ≡ true
        → drop index pattern ≡ byte ∷ rest
        → (drop index pattern ≡ known ∷ rest → ByteStep known rest index nested class start so_far)
        → ByteStep byte rest index nested class start so_far
    same_byte byte known nested class start so_far e here step =
        subst (λ b. drop index pattern ≡ b ∷ rest → ByteStep b rest index nested class start so_far)
          (sym ((==_iff byte known).0 e)) step here

    any_step :
        (byte nested : ℕ) (class : Bool) (start : ℕ) (so_far : List Bytes)
        → drop index pattern ≡ byte ∷ rest
        → Agrees rest (index + 1)
        → start ≤ index
        → ByteStep byte rest index nested class start so_far
    any_step byte nested class start so_far here further le = elim (Bool-cases (byte == b'}')) [
      | inl c ↦
          same_byte byte b'}' nested class start so_far c here
            (λ h. close_step nested class start so_far h further le)
      | inr c ↦ elim (Bool-cases (byte == b'{')) [
        | inl o ↦
            same_byte byte b'{' nested class start so_far o here
              (λ h. open_step nested class start so_far h further le)
        | inr o ↦ elim (Bool-cases (byte == b',')) [
          | inl m ↦
              same_byte byte b',' nested class start so_far m here
                (λ h. comma_step nested class start so_far h further le)
          | inr m ↦ other_step byte rest index here further nested class start so_far c o m le
        ]
      ]
    ]

  pub read_group-Agrees : (rest : Bytes) (index : ℕ) → drop index pattern ≡ rest → Agrees rest index
  unfolding read_group split_group
  read_group-Agrees [] index here nested escaped class start so_far le = tt
  read_group-Agrees (byte ∷ rest) index here nested escaped class start so_far le = go escaped (
      read_group-Agrees rest (index + 1)
        (rw (plus_one index) (drop-suc index pattern rest byte here)))
    where
      go :
          (escaped : Bool)
          → Agrees rest (index + 1)
          → Reads so_far
              (slice pattern start index)
              (read_group pattern (byte ∷ rest) index (at_depth nested escaped class start so_far))
              (split_group (byte ∷ rest) nested escaped class)
      go true further = goes_on byte rest index here further nested false class start so_far le
      go false further = any_step rest index byte nested class start so_far here further le
