-- ===== src/Hash/Stream.antt =====
-- Writing in pieces: src/hash.rs keeps the state behind the whole blocks of everything written, and
-- at the front of the buffer the bytes behind them.
use mathlib.Core.Path.{ap₂, subst}
use mathlib.Core.List.{append_assoc}
use weavatrix_scan.Common.{
  take-ge, ℕ, ◌+◌, ◌-◌, ◌≤◌, ◌<◌, ◌≡◌, ◌≢◌, refl, sym, ap, ◌∙◌, ◌++◌, ◌==◌, ==_iff, arith, length,
  length-append, length-take, length-drop, take, drop, min, Bool-cases, inl, inr,
}
use weavatrix_scan.Text.{Bytes}
use weavatrix_scan.Hash.Compress.{State, compress}
use weavatrix_scan.Hash.Word.{add64}
use weavatrix_scan.Hash.{Hasher, copy_into, write_rest, write_buffered, write}
use weavatrix_scan.Hash.Absorb.{
  absorb, write_blocks-lt, absorb-short, take-append_length, absorb-two_parts,
}

-- The buffer has its 64 bytes, and is never full between calls.
pub record IsValid (h : Hasher) : Type 0 where
  pub size : length h.buffer ≡ 64
  pub room : h.buffer_len < 64

-- The bytes that wait for a whole block.
abbrev pub pending : Hasher → Bytes
pending h = take h.buffer_len h.buffer

pub length-pending : (h : Hasher) → IsValid h → length (pending h) ≡ h.buffer_len
length-pending h v = omega (arith, length-take h.buffer_len h.buffer, v.size, v.room)

-- A hasher that stands behind these blocks with these bytes waiting.
abbrev pub Holds : Hasher → State × Bytes → Type 0
Holds h r = IsValid h × (h.state ≡ r.0) × (pending h ≡ r.1)

write_rest-Holds :
    (h : Hasher) (input : Bytes)
    → length h.buffer ≡ 64
    → Holds (write_rest h input) (absorb h.state input)
unfolding write_rest copy_into
write_rest-Holds h input size =
    let rest = (absorb h.state input).1 in
    let short : length rest < 64 = write_blocks-lt (length input) h.state input (omega arith) in
    (
      record {
        size = omega (
          arith,
          length-append rest (drop (0 + length rest) h.buffer),
          length-drop (0 + length rest) h.buffer,
        );
        room = short;
      },
      refl,
      take-append_length rest (drop (0 + length rest) h.buffer),
    )

-- The pieces of a buffer into which the input has been copied.
pub length-copy_into :
    (buffer source : Bytes) (start : ℕ)
    → length buffer ≡ 64
    → start + length source ≤ 64
    → length (copy_into buffer start source) ≡ 64
unfolding copy_into
length-copy_into buffer source start size fits = omega (
  arith,
  length-append (take start buffer) (source ++ drop (start + length source) buffer),
  length-append source (drop (start + length source) buffer),
  length-take start buffer,
  length-drop (start + length source) buffer,
)

-- What stands in front in such a buffer.
pub take-copy_into :
    (buffer source : Bytes) (m n : ℕ)
    → m ≤ length buffer
    → n ≡ m + length source
    → take n (copy_into buffer m source) ≡ take m buffer ++ source
unfolding copy_into
take-copy_into buffer source m n inside e =
    let tail = drop (m + length source) buffer in
    let whole : n ≡ length (take m buffer ++ source) =
      omega (arith, length-append (take m buffer) source, length-take m buffer) in
    ap₂ (λ k t. take k t) whole (sym (append_assoc (take m buffer) source tail))
    ∙ take-append_length (take m buffer ++ source) tail

module _ (h : Hasher) (input : Bytes) (v : IsValid h) where
  abbrev copied : ℕ
  copied = min (64 - h.buffer_len) (length input)

  abbrev buffered : Bytes
  buffered = copy_into h.buffer h.buffer_len (take copied input)

  length-copied : length (take copied input) ≡ copied
  length-copied = omega (arith, length-take copied input)

  length-buffered : length buffered ≡ 64
  length-buffered =
      length-copy_into h.buffer (take copied input) h.buffer_len v.size
        (omega (arith, length-copied, v.room))

  full-Holds :
      h.buffer_len + copied ≡ 64
      → Holds
          (write_rest
            (record h { state = compress h.state buffered; buffer = buffered; buffer_len = 0 })
            (drop copied input))
          (absorb h.state (pending h ++ input))
  full-Holds full =
      let whole : buffered ≡ pending h ++ take copied input =
        sym (take-ge 64 buffered (omega (arith, length-buffered)))
        ∙ take-copy_into h.buffer (take copied input) h.buffer_len 64
            (omega (arith, v.size, v.room)) (omega (arith, length-copied)) in
      let same =
        ap (λ b. absorb (compress h.state b) (drop copied input)) whole
        ∙ sym (
            absorb-two_parts h.state (pending h) input copied
              (omega (arith, length-copied, length-pending h v))) in
      subst (Holds _) same (write_rest-Holds _ (drop copied input) length-buffered)

  part-Holds :
      h.buffer_len + copied ≢ 64
      → Holds
          (record h { buffer = buffered; buffer_len = h.buffer_len + copied })
          (absorb h.state (pending h ++ input))
  part-Holds part =
      let all : copied ≡ length input = omega (arith, v.room) in
      let input_whole : take copied input ≡ input = take-ge copied input (omega arith) in
      let stays =
        absorb-short h.state (pending h ++ input)
          (omega (arith, length-append (pending h) input, length-pending h v, v.room)) in
      (
        record { size = length-buffered; room = omega (arith, v.room) },
        ap (λ r. r.0) (sym stays),
        take-copy_into h.buffer (take copied input) h.buffer_len (h.buffer_len + copied)
              (omega (arith, v.size, v.room)) (omega (arith, length-copied))
            ∙ ap (λ t. pending h ++ t) input_whole
            ∙ ap (λ r. r.1) (sym stays),
      )

  write_buffered-Holds : Holds (write_buffered h input) (absorb h.state (pending h ++ input))
  unfolding write_buffered
  write_buffered-Holds = elim (Bool-cases (h.buffer_len + copied == 64)) [
    | inl e ↦ rw (e, write_buffered) (full-Holds ((==_iff _ 64).0 e))
    | inr e ↦ rw (e, write_buffered) (part-Holds (λ full. absurd (ground arith)))
  ]

-- After a write the hasher stands behind the whole blocks of what waited and what was written, and
-- has counted the bytes written.
pub write-Holds :
    (h : Hasher) (input : Bytes)
    → IsValid h
    → Holds (write h input) (absorb h.state (pending h ++ input))
unfolding write
write-Holds h input v = elim (Bool-cases (h.buffer_len == 0)) [
  | inl e ↦
      let nothing : h.buffer_len ≡ 0 = (==_iff _ 0).0 e in
      let same : absorb h.state input ≡ absorb h.state (pending h ++ input) =
        ap (λ k. absorb h.state (take k h.buffer ++ input)) (sym nothing) in
      rw (e, write)
        (subst (Holds _) same
          (write_rest-Holds (record h { bytes = add64 h.bytes (length input) }) input v.size))
  | inr e ↦
      rw (e, write)
        (write_buffered-Holds (record h { bytes = add64 h.bytes (length input) }) input
          (record { size = v.size; room = v.room }))
]
