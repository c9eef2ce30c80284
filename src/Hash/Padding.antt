-- ===== src/Hash/Padding.antt =====
-- The padding that `finish` of src/hash.rs puts behind the bytes that wait.
use mathlib.Core.Path.{ap₂}
use mathlib.Core.List.{append_assoc, append-nil}
use native.Mathlib.Nat.{zero-add, suc-add}
use weavatrix_scan.Common.{
  take-ge, ℕ, zero, suc, ◌+◌, ◌-◌, ◌*◌, ◌/◌, ◌%◌, ◌^◌, ◌≤◌, ◌<◌, ◌≡◌, refl, sym, ap, ◌∙◌, [], ◌∷◌,
  ◌++◌, ltb, leb, leb→le, ltb→lt, arith, length, length-append, length-drop, length-replicate, take,
  drop, replicate, Bool-cases, inl, inr,
}
use weavatrix_scan.Text.{Bytes}
use weavatrix_scan.Hash.Compress.{State, compress, initial_state}
use weavatrix_scan.Hash.Word.{mul64, be_bytes}
use weavatrix_scan.Hash.{Hasher, copy_into, write_blocks, finish_state}
use weavatrix_scan.Hash.Absorb.{
  absorb, absorb-block, absorb-short, take-append_length, drop-append_length,
}
use weavatrix_scan.Hash.Stream.{IsValid, pending, length-copy_into, take-copy_into}

-- The padding of FIPS 180-4 behind a text of `n` bytes: a bit, zeros, and the length in bits.
abbrev pub padding : ℕ → Bytes
padding n = 0x80 ∷ (replicate ((119 - n % 64) % 64) 0 ++ be_bytes 8 (n * 8 % 2 ^ 64))

-- SHA-256 of a text: the padded text is compressed block by block.
unfoldable pub sha256 : Bytes → State
sha256 text = (absorb initial_state (text ++ padding (length text))).0

length-be_bytes : (n x : ℕ) → length (be_bytes n x) ≡ n
unfolding be_bytes
length-be_bytes zero x = refl
length-be_bytes (suc n) x =
    omega (arith, length-append (be_bytes n (x / 256)) (x % 256 ∷ []), length-be_bytes n (x / 256))

-- The bytes that wait number the length of the text modulo 64.
pub write_blocks-mod :
    (fuel : ℕ) (state : State) (text : Bytes)
    → length text ≤ fuel
    → length (write_blocks fuel state text).1 ≡ length text % 64
unfolding write_blocks
write_blocks-mod zero state text h = omega arith
write_blocks-mod (suc fuel) state text h = elim (Bool-cases (leb 64 (length text))) [
  | inl e ↦
      let long : 64 ≤ length text = leb→le 64 (length text) e in
      rw (e, write_blocks)
        (omega (
          arith,
          write_blocks-mod fuel (compress state (take 64 text)) (drop 64 text),
          length-drop 64 text,
        ))
  | inr e ↦ rw (e, write_blocks) (ground arith)
]

-- A block in front of a text is compressed first.
absorb-append_block :
    (state : State) (block rest : Bytes)
    → length block ≡ 64
    → absorb state (block ++ rest) ≡ absorb (compress state block) rest
absorb-append_block state block rest e =
    absorb-block state (block ++ rest) (omega (arith, length-append block rest))
    ∙ ap₂ (λ t d. absorb (compress state t) d)
        (ap (λ k. take k (block ++ rest)) (sym e) ∙ take-append_length block rest)
        (ap (λ k. drop k (block ++ rest)) (sym e) ∙ drop-append_length block rest)

absorb-whole :
    (state : State) (block : Bytes)
    → length block ≡ 64
    → (absorb state block).0 ≡ compress state block
absorb-whole state block e =
    ap (λ t. (absorb state t).0) (sym (append-nil block))
    ∙ ap (λ r. r.0)
        (absorb-append_block state block [] e
          ∙ absorb-short (compress state block) [] (omega arith))

-- A full buffer is what stood in front and what was copied behind it.
copy_into-whole :
    (buffer source : Bytes) (m : ℕ)
    → length buffer ≡ 64
    → m + length source ≡ 64
    → copy_into buffer m source ≡ take m buffer ++ source
copy_into-whole buffer source m size e =
    sym (
      take-ge 64 (copy_into buffer m source)
        (omega (arith, length-copy_into buffer source m size (omega arith))))
    ∙ take-copy_into buffer source m 64 (omega arith) (omega arith)

replicate-add : (m n : ℕ) (x : ℕ) → replicate (m + n) x ≡ replicate m x ++ replicate n x
replicate-add zero n x = ap (λ k. replicate k x) (zero-add n)
replicate-add (suc m) n x =
    ap (λ k. replicate k x) (suc-add m n) ∙ ap (λ t. x ∷ t) (replicate-add m n x)

module _ (h : Hasher) (v : IsValid h) where
  abbrev marked : Bytes
  marked = copy_into h.buffer h.buffer_len (0x80 ∷ [])

  length-marked : length marked ≡ 64
  length-marked = length-copy_into h.buffer (0x80 ∷ []) h.buffer_len v.size (omega (arith, v.room))

  front-marked : take (h.buffer_len + 1) marked ≡ pending h ++ 0x80 ∷ []
  front-marked =
      take-copy_into h.buffer (0x80 ∷ []) h.buffer_len (h.buffer_len + 1)
        (omega (arith, v.size, v.room)) (omega arith)

  -- The bit length stands in the block of the bytes that wait.
  one_block :
      (count : Bytes)
      → length count ≡ 8
      → h.buffer_len + 1 ≤ 56
      → copy_into
          (copy_into marked (h.buffer_len + 1) (replicate (56 - (h.buffer_len + 1)) 0))
          56
          count
        ≡ pending h ++ 0x80 ∷ (replicate ((119 - h.buffer_len) % 64) 0 ++ count)
  one_block count eight low =
      let zeros : Bytes = replicate (56 - (h.buffer_len + 1)) 0 in
      let zeros_len = length-replicate {A = ℕ} (56 - (h.buffer_len + 1)) 0 in
      let number : 56 - (h.buffer_len + 1) ≡ (119 - h.buffer_len) % 64 = omega arith in
      copy_into-whole (copy_into marked (h.buffer_len + 1) zeros) count 56
        (length-copy_into marked zeros (h.buffer_len + 1) length-marked (omega (arith, zeros_len)))
        (omega arith)
      ∙ ap (λ t. t ++ count)
          (take-copy_into marked zeros (h.buffer_len + 1) 56 (omega (arith, length-marked))
              (omega (arith, zeros_len))
            ∙ ap (λ t. t ++ zeros) front-marked)
      ∙ append_assoc (pending h ++ 0x80 ∷ []) zeros count
      ∙ append_assoc (pending h) (0x80 ∷ []) (zeros ++ count)
      ∙ ap (λ k. pending h ++ 0x80 ∷ (replicate k 0 ++ count)) number

  -- The bit length stands in a block of its own.
  two_blocks :
      (count : Bytes)
      → 56 < h.buffer_len + 1
      → copy_into marked (h.buffer_len + 1) (replicate (64 - (h.buffer_len + 1)) 0)
          ++ (replicate 56 0 ++ count)
        ≡ pending h ++ 0x80 ∷ (replicate ((119 - h.buffer_len) % 64) 0 ++ count)
  two_blocks count high =
      let zeros : Bytes = replicate (64 - (h.buffer_len + 1)) 0 in
      let zeros_len = length-replicate {A = ℕ} (64 - (h.buffer_len + 1)) 0 in
      let number : 64 - (h.buffer_len + 1) + 56 ≡ (119 - h.buffer_len) % 64 =
        omega (arith, v.room) in
      ap (λ t. t ++ (replicate 56 0 ++ count))
        (copy_into-whole marked zeros (h.buffer_len + 1) length-marked
            (omega (arith, zeros_len, v.room))
          ∙ ap (λ t. t ++ zeros) front-marked)
      ∙ append_assoc (pending h ++ 0x80 ∷ []) zeros (replicate 56 0 ++ count)
      ∙ append_assoc (pending h) (0x80 ∷ []) (zeros ++ (replicate 56 0 ++ count))
      ∙ ap (λ t. pending h ++ 0x80 ∷ t)
          (sym (append_assoc zeros (replicate 56 0) count)
            ∙ ap (λ t. t ++ count) (sym (replicate-add (64 - (h.buffer_len + 1)) 56 0))
            ∙ ap (λ k. replicate k 0 ++ count) number)

  abbrev pub bit_count : Bytes
  bit_count = be_bytes 8 (mul64 h.bytes 8)

  -- The padding behind the bytes that wait.
  abbrev pub padded : Bytes
  padded = pending h ++ 0x80 ∷ (replicate ((119 - h.buffer_len) % 64) 0 ++ bit_count)

  eight_bytes : length bit_count ≡ 8
  eight_bytes = length-be_bytes 8 (mul64 h.bytes 8)

  compress-one_block :
      h.buffer_len + 1 ≤ 56
      → compress h.state (
          copy_into
            (copy_into marked (h.buffer_len + 1) (replicate (56 - (h.buffer_len + 1)) 0))
            56
            bit_count)
        ≡ (absorb h.state padded).0
  compress-one_block low =
      let zeros : Bytes = replicate (56 - (h.buffer_len + 1)) 0 in
      sym (
        absorb-whole h.state _ (
          length-copy_into (copy_into marked (h.buffer_len + 1) zeros) bit_count 56
            (length-copy_into marked zeros (h.buffer_len + 1) length-marked
              (omega (arith, length-replicate {A = ℕ} (56 - (h.buffer_len + 1)) 0)))
            (omega (arith, eight_bytes))))
      ∙ ap (λ t. (absorb h.state t).0) (one_block bit_count eight_bytes low)

  compress-two_blocks :
      56 < h.buffer_len + 1
      → compress
          (compress h.state
            (copy_into marked (h.buffer_len + 1) (replicate (64 - (h.buffer_len + 1)) 0)))
          (copy_into (replicate 64 0) 56 bit_count)
        ≡ (absorb h.state padded).0
  compress-two_blocks high =
      let zeros : Bytes = replicate (64 - (h.buffer_len + 1)) 0 in
      let full : Bytes = copy_into marked (h.buffer_len + 1) zeros in
      let last : Bytes = replicate 56 0 ++ bit_count in
      let size : length full ≡ 64 =
        length-copy_into marked zeros (h.buffer_len + 1) length-marked
          (omega (arith, v.room, length-replicate {A = ℕ} (64 - (h.buffer_len + 1)) 0)) in
      ap (compress (compress h.state full)) (
        copy_into-whole (replicate 64 0) bit_count 56 (length-replicate {A = ℕ} 64 0)
          (omega (arith, eight_bytes)))
      ∙ sym (
          absorb-whole (compress h.state full) last
            (length-append (replicate {A = ℕ} 56 0) bit_count ∙ omega (arith, eight_bytes)))
      ∙ ap (λ r. r.0) (sym (absorb-append_block h.state full last size))
      ∙ ap (λ t. (absorb h.state t).0) (two_blocks bit_count high)

-- What `finish` computes is what the bytes that wait and the padding give.
pub finish_state_lem :
    (h : Hasher) (v : IsValid h) → finish_state h ≡ (absorb h.state (padded h v)).0
unfolding finish_state
finish_state_lem h v = elim (Bool-cases (ltb 56 (h.buffer_len + 1))) [
  | inl e ↦ rw (e, finish_state) (compress-two_blocks h v (ltb→lt 56 _ e))
  | inr e ↦ rw (e, finish_state) (compress-one_block h v (ground arith))
]
