-- ===== src/Hash.antt =====
-- src/hash.rs: the SHA-256 of what was written, with a 64-byte buffer for the bytes that fill no
-- block yet, and the 128-bit content fingerprint. Words are natural numbers below 2^32 or 2^64, and
-- the wrap-around of `wrapping_add` and `wrapping_mul` is written out.
pub mod Word
pub mod Compress
pub mod Absorb
pub mod Stream
pub mod Padding
pub mod Digest
mod Samples
use weavatrix_scan.Common.{
  ℕ, zero, suc, ◌+◌, ◌-◌, ◌*◌, ◌/◌, ◌%◌, ◌^◌, Bool, true, false, List, [], ◌∷◌, ◌++◌, map, ◌==◌,
  leb, ltb, length, take, drop, replicate, min, if◌then◌else◌,
}
use weavatrix_scan.Text.{Bytes, bytes, is_empty}
use weavatrix_scan.Hash.Word.{add64, mul64, xor, rotate_left64, be_bytes, hex, shr}
use weavatrix_scan.Hash.Compress.{State, initial_state, compress, words}

-- `FingerprintHasher`. The buffer keeps stale bytes behind `buffer_len`.
pub record Hasher : Type 0 where
  pub state : State
  pub buffer : Bytes
  pub buffer_len : ℕ
  pub bytes : ℕ

unfoldable pub new : Hasher
new = record { state = initial_state; buffer = replicate 64 0; buffer_len = 0; bytes = 0 }

-- `buffer[start..start + source.len()].copy_from_slice(source)`.
unfoldable pub copy_into : Bytes → ℕ → Bytes → Bytes
copy_into buffer start source = take start buffer ++ (source ++ drop (start + length source) buffer)

-- The `while` loop over the whole blocks of the input: the state behind them and the bytes left.
-- Each round takes 64 bytes, so the length of the input is fuel enough (Hash/Stream).
unfoldable pub write_blocks : ℕ → State → Bytes → State × Bytes
write_blocks zero state input = (state, input)
write_blocks (suc fuel) state input =
    let further = write_blocks fuel (compress state (take 64 input)) (drop 64 input) in
    if leb 64 (length input) then further else (state, input)

-- The end of `write`: the whole blocks, and what is left at the front of the buffer.
unfoldable pub write_rest : Hasher → Bytes → Hasher
write_rest hasher input =
    let (state, rest) = write_blocks (length input) hasher.state input in
    record hasher {
      state = state;
      buffer = copy_into hasher.buffer 0 rest;
      buffer_len = length rest;
    }

-- The branch of `write` for a buffer that holds bytes.
unfoldable pub write_buffered : Hasher → Bytes → Hasher
write_buffered hasher input =
    let copied = min (64 - hasher.buffer_len) (length input) in
    let buffer = copy_into hasher.buffer hasher.buffer_len (take copied input) in
    let filled = hasher.buffer_len + copied in
    if filled == 64
    then write_rest
        (record hasher { state = compress hasher.state buffer; buffer = buffer; buffer_len = 0 })
        (drop copied input)
    else record hasher { buffer = buffer; buffer_len = filled }

unfoldable pub write : Hasher → Bytes → Hasher
write hasher input =
    let counted = record hasher { bytes = add64 hasher.bytes (length input) } in
    if hasher.buffer_len == 0 then write_rest counted input else write_buffered counted input

-- The state behind the last block, of which `finish` prints the words.
unfoldable pub finish_state : Hasher → State
finish_state hasher =
    let bit_len = mul64 hasher.bytes 8 in
    let buffer = copy_into hasher.buffer hasher.buffer_len (0x80 ∷ []) in
    let len = hasher.buffer_len + 1 in
    if ltb 56 len
    then compress (compress hasher.state (copy_into buffer len (replicate (64 - len) 0)))
        (copy_into (replicate 64 0) 56 (be_bytes 8 bit_len))
    else compress hasher.state
        (copy_into (copy_into buffer len (replicate (56 - len) 0)) 56 (be_bytes 8 bit_len))

abbrev pub hex_words : List ℕ → Bytes
hex_words [] = []
hex_words (w ∷ rest) = hex 8 w ++ hex_words rest

unfoldable pub finish : Hasher → Bytes
finish hasher = bytes "sha256:" ++ hex_words (words (finish_state hasher))

-- `ContentFingerprint`.
pub record ContentFingerprint : Type 0 where
  pub first : ℕ
  pub second : ℕ
  pub count : ℕ

abbrev pub new_fingerprint : ContentFingerprint
new_fingerprint = record {
  first = 0xcbf2_9ce4_8422_2325;
  second = 0x9e37_79b9_7f4a_7c15;
  count = 0;
}

abbrev fingerprint_byte : ContentFingerprint → ℕ → ContentFingerprint
fingerprint_byte f byte = record {
  first = mul64 (xor f.first byte) 0x0000_0100_0000_01b3;
  second = mul64 (rotate_left64 (xor f.second (add64 byte f.count)) 13) 0x9e37_79b1_85eb_ca87;
  count = add64 f.count 1;
}

unfoldable pub fingerprint_write : ContentFingerprint → Bytes → ContentFingerprint
fingerprint_write f [] = f
fingerprint_write f (byte ∷ rest) = fingerprint_write (fingerprint_byte f byte) rest

unfoldable pub mix64 : ℕ → ℕ
mix64 value =
    let v1 = mul64 (xor value (shr value 30)) 0xbf58_476d_1ce4_e5b9 in
    let v2 = mul64 (xor v1 (shr v1 27)) 0x94d0_49bb_1331_11eb in xor v2 (shr v2 31)

unfoldable pub fingerprint_finish : ContentFingerprint → Bytes
fingerprint_finish f =
    let first = mix64 (xor f.first f.count) in
    let second = mix64 (xor f.second (rotate_left64 f.count 29)) in
    bytes "fp128:" ++ (hex 16 first ++ hex 16 second)
