-- ===== src/Hash/Absorb.antt =====
-- The block loop of src/hash.rs: its fuel, and texts that come in two parts.
use mathlib.Core.Path.{ap₂}
use mathlib.Core.List.{append_assoc}
use weavatrix_scan.Common.{
  ℕ, zero, suc, ◌+◌, ◌≤◌, ◌<◌, ◌≡◌, refl, sym, ap, ◌∙◌, true, false, List, [], ◌∷◌, ◌++◌, leb,
  leb→le, arith, length, length-append, length-drop, take, drop, take-append-drop, Bool-cases, inl,
  inr,
}
use weavatrix_scan.Text.{Bytes}
use weavatrix_scan.Hash.Compress.{State, compress}
use weavatrix_scan.Hash.{write_blocks}

pub take_append {ℓ} :
    {A : Type ℓ} (xs ys : List A) (n : ℕ) → n ≤ length xs → take n (xs ++ ys) ≡ take n xs
take_append [] ys zero h = refl
take_append [] ys (suc n) h = absurd (omega arith)
take_append (x ∷ xs) ys zero h = refl
take_append (x ∷ xs) ys (suc n) h = ap (λ t. x ∷ t) (take_append xs ys n (omega arith))

pub drop_append {ℓ} :
    {A : Type ℓ} (xs ys : List A) (n : ℕ) → n ≤ length xs → drop n (xs ++ ys) ≡ drop n xs ++ ys
drop_append [] ys zero h = refl
drop_append [] ys (suc n) h = absurd (omega arith)
drop_append (x ∷ xs) ys zero h = refl
drop_append (x ∷ xs) ys (suc n) h = drop_append xs ys n (omega arith)

-- The state behind the whole blocks of a text, and the bytes behind them.
abbrev pub absorb : State → Bytes → State × Bytes
absorb state text = write_blocks (length text) state text

-- The loop needs no more fuel than the text is long.
write_blocks_fuel :
    (f g : ℕ) (state : State) (text : Bytes)
    → length text ≤ f
    → length text ≤ g
    → write_blocks f state text ≡ write_blocks g state text
unfolding write_blocks
write_blocks_fuel zero zero state text p q = refl
write_blocks_fuel zero (suc g) state text p q =
    let short : leb 64 (length text) ≡ false = ground arith in rw short refl
write_blocks_fuel (suc f) zero state text p q =
    let short : leb 64 (length text) ≡ false = ground arith in rw short refl
write_blocks_fuel (suc f) (suc g) state text p q = elim (Bool-cases (leb 64 (length text))) [
  | inl e ↦
      let long : 64 ≤ length text = leb→le 64 (length text) e in
      rw (e, write_blocks)
        (write_blocks_fuel f g (compress state (take 64 text)) (drop 64 text)
          (omega (arith, length-drop 64 text)) (omega (arith, length-drop 64 text)))
  | inr e ↦ rw (e, write_blocks) refl
]

-- What is left fills no block.
pub write_blocks-lt :
    (fuel : ℕ) (state : State) (text : Bytes)
    → length text ≤ fuel
    → length (write_blocks fuel state text).1 < 64
unfolding write_blocks
write_blocks-lt zero state text h = omega arith
write_blocks-lt (suc fuel) state text h = elim (Bool-cases (leb 64 (length text))) [
  | inl e ↦
      let long : 64 ≤ length text = leb→le 64 (length text) e in
      rw (e, write_blocks)
        (write_blocks-lt fuel (compress state (take 64 text)) (drop 64 text)
          (omega (arith, length-drop 64 text)))
  | inr e ↦ rw (e, write_blocks) (ground arith)
]

-- A text with a whole block in front is absorbed block by block.
pub absorb-block :
    (state : State) (text : Bytes)
    → 64 ≤ length text
    → absorb state text ≡ absorb (compress state (take 64 text)) (drop 64 text)
unfolding write_blocks
absorb-block state [] h = absurd (omega arith)
absorb-block state (x ∷ xs) h =
    let e : leb 64 (length (x ∷ xs)) ≡ true = ground arith in
    rw (e, write_blocks)
      (write_blocks_fuel (length xs) _ (compress state (take 64 (x ∷ xs))) (drop 64 (x ∷ xs))
        (omega (arith, length-drop 64 (x ∷ xs))) (omega arith))

pub absorb-short :
    (state : State) (text : Bytes) → length text < 64 → absorb state text ≡ (state, text)
unfolding write_blocks
absorb-short state [] h = refl
absorb-short state (x ∷ xs) h =
    let e : leb 64 (length (x ∷ xs)) ≡ false = ground arith in rw (e, write_blocks) refl

-- Absorbing a text and then more is absorbing both at once.
absorb-append_fuel :
    (fuel : ℕ) (state : State) (xs ys : Bytes)
    → length xs ≤ fuel
    → absorb state (xs ++ ys) ≡ absorb (absorb state xs).0 ((absorb state xs).1 ++ ys)
absorb-append_fuel zero state xs ys h = rw (absorb-short state xs (omega arith)) refl
absorb-append_fuel (suc fuel) state xs ys h = elim (Bool-cases (leb 64 (length xs))) [
  | inl e ↦
      let long : 64 ≤ length xs = leb→le 64 (length xs) e in
      let both : 64 ≤ length (xs ++ ys) = omega (arith, length-append xs ys) in
      absorb-block state (xs ++ ys) both
      ∙ ap₂ (λ t d. absorb (compress state t) d) (take_append xs ys 64 long)
          (drop_append xs ys 64 long)
      ∙ absorb-append_fuel fuel (compress state (take 64 xs)) (drop 64 xs) ys
          (omega (arith, length-drop 64 xs))
      ∙ sym (ap (λ r. absorb r.0 (r.1 ++ ys)) (absorb-block state xs long))
  | inr e ↦ rw (absorb-short state xs (ground arith)) refl
]

pub absorb-append :
    (state : State) (xs ys : Bytes)
    → absorb state (xs ++ ys) ≡ absorb (absorb state xs).0 ((absorb state xs).1 ++ ys)
absorb-append state xs ys = absorb-append_fuel (length xs) state xs ys (omega arith)

pub take-append_length {ℓ} : {A : Type ℓ} (xs ys : List A) → take (length xs) (xs ++ ys) ≡ xs
take-append_length [] ys = refl
take-append_length (x ∷ xs) ys = ap (λ t. x ∷ t) (take-append_length xs ys)

pub drop-append_length {ℓ} : {A : Type ℓ} (xs ys : List A) → drop (length xs) (xs ++ ys) ≡ ys
drop-append_length [] ys = refl
drop-append_length (x ∷ xs) ys = drop-append_length xs ys

pub drop-ge {ℓ} : {A : Type ℓ} (n : ℕ) (xs : List A) → length xs ≤ n → drop n xs ≡ []
drop-ge zero [] h = refl
drop-ge zero (x ∷ xs) h = absurd (omega arith)
drop-ge (suc n) [] h = refl
drop-ge (suc n) (x ∷ xs) h = drop-ge n xs (omega arith)

-- A block put together from `front` and the beginning of the input.
pub absorb-two_parts :
    (state : State) (front input : Bytes) (n : ℕ)
    → length front + length (take n input) ≡ 64
    → absorb state (front ++ input) ≡ absorb (compress state (front ++ take n input)) (drop n input)
absorb-two_parts state front input n e =
    let block = front ++ take n input in
    let size : 64 ≡ length block = omega (arith, length-append front (take n input)) in
    let split : front ++ input ≡ block ++ drop n input =
      ap (λ t. front ++ t) (sym (take-append-drop n input))
      ∙ sym (append_assoc front (take n input) (drop n input)) in
    ap (absorb state) split
    ∙ absorb-block state (block ++ drop n input) (omega (arith, length-append block (drop n input)))
    ∙ ap₂ (λ t d. absorb (compress state t) d)
        (ap (λ k. take k (block ++ drop n input)) size ∙ take-append_length block (drop n input))
        (ap (λ k. drop k (block ++ drop n input)) size ∙ drop-append_length block (drop n input))
