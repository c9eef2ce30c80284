-- ===== src/Glob/Memo.antt =====
-- The table of `matches_at` in src/glob.rs, against the same recursion without a table.
use mathlib.Core.Path.{subst, ap₂}
use native.Mathlib.Decide.{dec_lt, ℕ_discrete}
use weavatrix_scan.Common.{
  ℕ, zero, suc, ◌+◌, ◌*◌, ◌≤◌, ◌<◌, ◌≡◌, refl, sym, ap, ◌∙◌, Bool, true, false, ◌&&◌, ◌||◌, some,
  ◌==◌, ==_iff, arith, length, get_elem?, set, replicate, get_elem?-some, get_elem?-set_self,
  get_elem?-set_ne, length-set, length-replicate, inl, inr, Bool-cases,
}
use weavatrix_scan.Text.{Bytes}
use weavatrix_scan.Glob.{
  Ops, match_arm, Memo, Run, mark, memo_ops, or_next, remember, recall, matches_at, matches_plain,
}
use weavatrix_scan.Glob.Step.{Agree, match_arm-Agree}

abbrev pub bool_ops : Ops Bool
bool_ops = record { ret = λ b. b; and_also = λ a b. a && b; or_also = λ a b. a || b }

-- The recursion of `matches_at` with no table.
unfoldable pub glob_at : ℕ → Bytes → Bytes → ℕ → ℕ → Bool
glob_at zero pattern value i j = false
glob_at (suc fuel) pattern value i j =
    match_arm bool_ops (glob_at fuel pattern value) pattern value i j (get_elem? pattern i)

-- Whether the pattern from `i` on matches the value from `j` on.
unfoldable pub glob_from : Bytes → Bytes → ℕ → ℕ → Bool
unfolding glob_at
glob_from pattern value = glob_at (length pattern + length value + 1) pattern value

unfoldable pub glob : Bytes → Bytes → Bool
unfolding glob_from
glob pattern value = glob_from pattern value 0 0

Agree-eq : Agree bool_ops bool_ops (λ a b. a ≡ b)
Agree-eq = record {
  on_ret = λ b. refl;
  on_and = λ a x y h. go a h;
  on_or = λ x x' y y' h k. ap₂ (λ s t. s || t) h k;
}
  where
    go : {x y : Bool} (a : Bool) → (a ≡ true → x ≡ y) → (a && x) ≡ (a && y)
    go true h = h refl
    go false h = refl

-- The answer does not depend on the fuel, once that covers what is left.
glob_at_fuel :
    (pattern value : Bytes) (f g i j : ℕ)
    → i ≤ length pattern
    → j ≤ length value
    → length pattern + length value < f + i + j
    → length pattern + length value < g + i + j
    → glob_at f pattern value i j ≡ glob_at g pattern value i j
unfolding glob_at
glob_at_fuel pattern value zero g i j hi hj p q = absurd (omega arith)
glob_at_fuel pattern value (suc f) zero i j hi hj p q = absurd (omega arith)
glob_at_fuel pattern value (suc f) (suc g) i j hi hj p q =
    match_arm-Agree bool_ops bool_ops (λ a b. a ≡ b) Agree-eq pattern value _ _ i j
      (λ i' j' hi' hj' more.
        glob_at_fuel pattern value f g i' j' hi' hj' (omega arith) (omega arith))
      hj (get_elem? pattern i) refl

-- The plain recursion satisfies the equations of the step at every position.
pub glob_from_step :
    (pattern value : Bytes) (i j : ℕ)
    → i ≤ length pattern
    → j ≤ length value
    → glob_from pattern value i j
      ≡ match_arm bool_ops (glob_from pattern value) pattern value i j (get_elem? pattern i)
unfolding glob_from glob_at
glob_from_step pattern value i j hi hj =
    glob_at_fuel pattern value (length pattern + length value + 1)
      (suc (length pattern + length value + 1)) i j hi hj (omega arith) (omega arith)

mark-injective : (a b : Bool) → some (mark a) ≡ some (mark b) → a ≡ b
mark-injective true true e = refl
mark-injective true false e = absurd (ground arith)
mark-injective false true e = absurd (ground arith)
mark-injective false false e = refl

unmarked : (n k : ℕ) (b : Bool) → get_elem? (replicate n 0) k ≡ some (mark b) → ⊥
unmarked zero k b h = cc
unmarked (suc n) zero true h = ground arith
unmarked (suc n) zero false h = ground arith
unmarked (suc n) (suc k) b h = unmarked n k b h

module _ (pattern value : Bytes) where
  abbrev pub slot_of : ℕ → ℕ → ℕ
  slot_of i j = i * (length value + 1) + j

  -- What the table says is so.
  pub record IsSound (memo : Memo) : Type 0 where
    pub size : length memo ≡ (length pattern + 1) * (length value + 1)
    pub entry :
        (i j : ℕ) (answer : Bool)
        → i ≤ length pattern
        → j ≤ length value
        → get_elem? memo (slot_of i j) ≡ some (mark answer)
        → glob_from pattern value i j ≡ answer

  -- The run ends, with this answer and a table that is still right.
  abbrev Computes : Run → Bool → Type 0
  Computes run answer =
      (memo : Memo)
      → IsSound memo
      → (memo' : Memo) × (run memo ≡ some (answer, memo')) × IsSound memo'

  slot-lt :
      (i j : ℕ)
      → i ≤ length pattern
      → j ≤ length value
      → slot_of i j < (length pattern + 1) * (length value + 1)
  slot-lt i j hi hj = grind arith

  slot_mono : (i j i' j' : ℕ) → j ≤ length value → i < i' → slot_of i j < slot_of i' j'
  slot_mono i j i' j' hj h = grind arith

  -- Two positions have two slots.
  slot-injective :
      (i j i' j' : ℕ)
      → j ≤ length value
      → j' ≤ length value
      → slot_of i j ≡ slot_of i' j'
      → (i ≡ i') × (j ≡ j')
  slot-injective i j i' j' hj hj' e = elim (dec_lt i i') [
    | yes h ↦ absurd (omega (arith, slot_mono i j i' j' hj h))
    | no h ↦ elim (dec_lt i' i) [
      | yes h' ↦ absurd (omega (arith, slot_mono i' j' i j hj' h'))
      | no h' ↦ let same : i ≡ i' = omega arith in (same, omega (arith, ap slot_row same))
    ]
  ]
    where
      slot_row : ℕ → ℕ
      slot_row k = k * (length value + 1)

  -- Writing the right answer into a slot keeps the table right.
  remember-IsSound :
      (i j : ℕ) (answer : Bool) (memo : Memo)
      → i ≤ length pattern
      → j ≤ length value
      → glob_from pattern value i j ≡ answer
      → IsSound memo
      → IsSound (set memo (slot_of i j) (mark answer))
  remember-IsSound i j answer memo hi hj e sound = record {
    size = length-set memo (slot_of i j) _ ∙ sound.size;
    entry = λ i' j' answer' hi' hj' read. elim (ℕ_discrete (slot_of i j) (slot_of i' j')) [
      | yes same ↦
          let (ei, ej) = slot-injective i j i' j' hj hj' same in
          let bound : slot_of i j < length memo = omega (arith, slot-lt i j hi hj, sound.size) in
          let written = get_elem?-set_self memo (slot_of i j) (mark answer) bound in
          let now : some (mark answer) ≡ some (mark answer') =
            sym written ∙ ap (get_elem? (set memo (slot_of i j) (mark answer))) same ∙ read in
          rw (← ei, ← ej) (e ∙ mark-injective answer answer' now)
      | no other ↦
          sound.entry i' j' answer' hi' hj'
            (sym (get_elem?-set_ne memo (slot_of i j) (slot_of i' j') _ other) ∙ read)
    ];
  }

  Agree-Computes : Agree memo_ops bool_ops Computes
  Agree-Computes = record {
    on_ret = λ b memo sound. (memo, refl, sound);
    on_and = and_case;
    on_or = or_case;
  }
    where
      and_case :
          (a : Bool) (x : Run) (y : Bool)
          → (a ≡ true → Computes x y)
          → Computes (memo_ops.and_also a x) (a && y)
      and_case true x y h = h refl
      and_case false x y h = λ memo sound. (memo, refl, sound)

      or_case :
          (x x' : Run) (y y' : Bool)
          → Computes x y
          → Computes x' y'
          → Computes (memo_ops.or_also x x') (y || y')
      or_case x x' true y' h k =
          λ memo sound. let (memo', e, sound') = h memo sound in (memo', ap (or_next x') e, sound')
      or_case x x' false y' h k = λ memo sound.
          let (memo', e, sound') = h memo sound in
          let (memo'', e', sound'') = k memo' sound' in (memo'', ap (or_next x') e ∙ e', sound'')

  -- What the early returns and the write at the end make of a right computation.
  recall-Computes :
      (i j : ℕ) (compute : Run) (memo : Memo)
      → i ≤ length pattern
      → j ≤ length value
      → IsSound memo
      → Computes compute (glob_from pattern value i j)
      → (memo' : Memo) × (recall (slot_of i j) compute memo (get_elem? memo (slot_of i j))
          ≡ some (glob_from pattern value i j, memo'))
        × IsSound memo'
  recall-Computes i j compute memo hi hj sound h =
      let bound : slot_of i j < length memo = omega (arith, slot-lt i j hi hj, sound.size) in
      let (state, e) = get_elem?-some memo (slot_of i j) bound in
      let (memo', done, sound') = h memo sound in
      rw (e, recall)
        (elim (Bool-cases (state == 1)) [
          | inl one ↦
              let known =
                sound.entry i j false hi hj (e ∙ ap (λ s. some s) ((==_iff state 1).0 one)) in
              (memo, rw (one, known) refl, sound)
          | inr other ↦ rw other (elim (Bool-cases (state == 2)) [
            | inl two ↦
                let known =
                  sound.entry i j true hi hj (e ∙ ap (λ s. some s) ((==_iff state 2).0 two)) in
                (memo, rw (two, known) refl, sound)
            | inr new ↦ (
              set memo' (slot_of i j) (mark (glob_from pattern value i j)),
              rw new (ap (remember (slot_of i j)) done),
              remember-IsSound i j _ memo' hi hj refl sound',
            )
          ])
        ])

  matches_at_lem :
      (fuel i j : ℕ)
      → i ≤ length pattern
      → j ≤ length value
      → length pattern + length value < fuel + i + j
      → Computes
          (matches_at fuel pattern value (length value + 1) i j)
          (glob_from pattern value i j)
  unfolding matches_at
  matches_at_lem zero i j hi hj enough = absurd (omega arith)
  matches_at_lem (suc fuel) i j hi hj enough = λ memo sound.
      recall-Computes i j _ memo hi hj sound (
        subst (Computes _) (sym (glob_from_step pattern value i j hi hj)) (
          match_arm-Agree memo_ops bool_ops Computes Agree-Computes pattern value _ _ i j
            (λ i' j' hi' hj' more. matches_at_lem fuel i' j' hi' hj' (omega arith)) hj
            (get_elem? pattern i) refl))

-- The matcher of a pattern with no braces ends, stays inside its table, and gives the answer of the
-- plain recursion.
pub matches_plain_lem :
    (pattern value : Bytes)
    → (memo : Memo) × (matches_plain pattern value ≡ some (glob pattern value, memo))
unfolding matches_plain glob
matches_plain_lem pattern value =
    let cells = (length pattern + 1) * (length value + 1) in
    let fresh : IsSound pattern value (replicate cells 0) = record {
      size = length-replicate cells 0;
      entry =
          λ i j answer hi hj read. absurd (unmarked cells (slot_of pattern value i j) answer read);
    } in
    let (memo, e, _) =
      matches_at_lem pattern value (length pattern + length value + 1) 0 0 (omega arith)
        (omega arith) (omega arith) (replicate cells 0) fresh in
    (memo, e)
