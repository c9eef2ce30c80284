-- ===== src/Hash/Digest.antt =====
-- The digest of src/hash.rs for a text that is written in pieces.
use mathlib.Core.Path.{ap₂, subst}
use mathlib.Core.List.{append_assoc, append-nil}
use weavatrix_scan.Common.{
  ℕ, ◌+◌, ◌-◌, ◌*◌, ◌%◌, ◌^◌, ◌≡◌, refl, sym, ap, ◌∙◌, List, [], ◌∷◌, ◌++◌, ◌==◌, min, arith,
  length, length-append, replicate, Bool-cases, inl, inr,
}
use weavatrix_scan.Text.{Bytes, bytes}
use weavatrix_scan.Hash.Compress.{initial_state, words}
use weavatrix_scan.Hash.Word.{mul64, be_bytes}
use weavatrix_scan.Hash.{
  Hasher, new, write_blocks, write, write_rest, write_buffered, finish, finish_state, hex_words,
}
use weavatrix_scan.Hash.Absorb.{absorb, absorb-append}
use weavatrix_scan.Hash.Padding.{sha256, bit_count, finish_state_lem, write_blocks-mod}
use weavatrix_scan.Hash.Stream.{Holds, length-pending, write-Holds}

-- `write` of the pieces, one after the other.
unfoldable pub write_all : Hasher → List Bytes → Hasher
write_all h [] = h
write_all h (chunk ∷ rest) = write_all (write h chunk) rest

abbrev pub joined : List Bytes → Bytes
joined [] = []
joined (chunk ∷ rest) = chunk ++ joined rest

-- What a hasher that was given this text so far looks like.
pub record Fed (h : Hasher) (text : Bytes) : Type 0 where
  pub holds : Holds h (absorb initial_state text)
  pub counted : h.bytes ≡ length text % 2 ^ 64

write-bytes :
    (h : Hasher) (input : Bytes) → (write h input).bytes ≡ (h.bytes + length input) % 2 ^ 64
unfolding write write_buffered write_rest
write-bytes h input = elim (Bool-cases (h.buffer_len == 0)) [
  | inl e ↦ rw (e, write) refl
  | inr e ↦ elim (Bool-cases (h.buffer_len + min (64 - h.buffer_len) (length input) == 64)) [
    | inl f ↦ rw (e, f) refl
    | inr f ↦ rw (e, f) refl
  ]
]

pub write-Fed : (h : Hasher) (text input : Bytes) → Fed h text → Fed (write h input) (text ++ input)
write-Fed h text input fed = record {
  holds =
      subst (Holds (write h input))
        (ap₂ (λ s p. absorb s (p ++ input)) fed.holds.1 fed.holds.2
          ∙ sym (absorb-append initial_state text input))
        (write-Holds h input fed.holds.0);
  counted = omega (arith, write-bytes h input, length-append text input, fed.counted);
}

write_all-Fed :
    (h : Hasher) (text : Bytes) (chunks : List Bytes)
    → Fed h text
    → Fed (write_all h chunks) (text ++ joined chunks)
unfolding write_all
write_all-Fed h text [] fed = subst (Fed h) (sym (append-nil text)) fed
write_all-Fed h text (chunk ∷ rest) fed =
    subst (Fed _) (append_assoc text chunk (joined rest))
      (write_all-Fed (write h chunk) (text ++ chunk) rest (write-Fed h text chunk fed))

pub new-Fed : Fed new []
unfolding new write_blocks
new-Fed = record {
  holds = (record { size = refl; room = omega arith }, refl, refl);
  counted = refl;
}

finish_state-Fed : (h : Hasher) (text : Bytes) → Fed h text → finish_state h ≡ sha256 text
unfolding sha256
finish_state-Fed h text fed =
    let v = fed.holds.0 in
    let waiting : h.buffer_len ≡ length text % 64 =
      sym (length-pending h v)
      ∙ ap length fed.holds.2
      ∙ write_blocks-mod (length text) initial_state text (omega arith) in
    let count : mul64 h.bytes 8 ≡ length text * 8 % 2 ^ 64 = omega (arith, fed.counted) in
    let pad : List ℕ = 0x80 ∷ (replicate ((119 - h.buffer_len) % 64) 0 ++ bit_count h v) in
    finish_state_lem h v
    ∙ ap₂ (λ s p. (absorb s (p ++ pad)).0) fed.holds.1 fed.holds.2
    ∙ ap (λ r. r.0) (sym (absorb-append initial_state text pad))
    ∙ ap₂
        (λ k c.
          (absorb initial_state (text ++ 0x80 ∷ (replicate ((119 - k) % 64) 0 ++ be_bytes 8 c))).0)
        waiting count

pub finish-Fed :
    (h : Hasher) (text : Bytes)
    → Fed h text
    → finish h ≡ bytes "sha256:" ++ hex_words (words (sha256 text))
unfolding finish
finish-Fed h text fed =
    ap (λ s. bytes "sha256:" ++ hex_words (words s)) (finish_state-Fed h text fed)

-- Whatever the pieces in which a text is written, `finish` prints SHA-256 of the text: the eight
-- words that the compression of the text with its standard padding ends with, block by block.
pub finish-write_all :
    (chunks : List Bytes)
    → finish (write_all new chunks) ≡ bytes "sha256:" ++ hex_words (words (sha256 (joined chunks)))
finish-write_all chunks =
    finish-Fed (write_all new chunks) (joined chunks) (write_all-Fed new [] chunks new-Fed)
