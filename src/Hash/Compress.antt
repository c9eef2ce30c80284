-- ===== src/Hash/Compress.antt =====
-- The compression function of src/hash.rs: the message schedule of a block, and 64 rounds.
use Prim.Native.Nat.{◌+◌}
use weavatrix_scan.Common.{ℕ, zero, suc, ◌-◌, ◌*◌, List, [], ◌∷◌, ◌++◌, none, some, get_elem?}
use weavatrix_scan.Text.{Bytes}
use weavatrix_scan.Hash.Word.{xor, and, shr, add32, rotate_right32, not32}

-- `[u32; 8]`.
pub record State : Type 0 where
  pub a : ℕ
  pub b : ℕ
  pub c : ℕ
  pub d : ℕ
  pub e : ℕ
  pub f : ℕ
  pub g : ℕ
  pub h : ℕ

abbrev pub words : State → List ℕ
words s = s.a ∷ s.b ∷ s.c ∷ s.d ∷ s.e ∷ s.f ∷ s.g ∷ s.h ∷ []

abbrev pub initial_state : State
initial_state = record {
  a = 0x6a09_e667;
  b = 0xbb67_ae85;
  c = 0x3c6e_f372;
  d = 0xa54f_f53a;
  e = 0x510e_527f;
  f = 0x9b05_688c;
  g = 0x1f83_d9ab;
  h = 0x5be0_cd19;
}

abbrev pub round_constants : List ℕ
round_constants =
    0x428a_2f98 ∷ 0x7137_4491 ∷ 0xb5c0_fbcf ∷ 0xe9b5_dba5 ∷ 0x3956_c25b ∷ 0x59f1_11f1 ∷ 0x923f_82a4
    ∷ 0xab1c_5ed5 ∷ 0xd807_aa98 ∷ 0x1283_5b01 ∷ 0x2431_85be ∷ 0x550c_7dc3 ∷ 0x72be_5d74
    ∷ 0x80de_b1fe ∷ 0x9bdc_06a7 ∷ 0xc19b_f174 ∷ 0xe49b_69c1 ∷ 0xefbe_4786 ∷ 0x0fc1_9dc6
    ∷ 0x240c_a1cc ∷ 0x2de9_2c6f ∷ 0x4a74_84aa ∷ 0x5cb0_a9dc ∷ 0x76f9_88da ∷ 0x983e_5152
    ∷ 0xa831_c66d ∷ 0xb003_27c8 ∷ 0xbf59_7fc7 ∷ 0xc6e0_0bf3 ∷ 0xd5a7_9147 ∷ 0x06ca_6351
    ∷ 0x1429_2967 ∷ 0x27b7_0a85 ∷ 0x2e1b_2138 ∷ 0x4d2c_6dfc ∷ 0x5338_0d13 ∷ 0x650a_7354
    ∷ 0x766a_0abb ∷ 0x81c2_c92e ∷ 0x9272_2c85 ∷ 0xa2bf_e8a1 ∷ 0xa81a_664b ∷ 0xc24b_8b70
    ∷ 0xc76c_51a3 ∷ 0xd192_e819 ∷ 0xd699_0624 ∷ 0xf40e_3585 ∷ 0x106a_a070 ∷ 0x19a4_c116
    ∷ 0x1e37_6c08 ∷ 0x2748_774c ∷ 0x34b0_bcb5 ∷ 0x391c_0cb3 ∷ 0x4ed8_aa4a ∷ 0x5b9c_ca4f
    ∷ 0x682e_6ff3 ∷ 0x748f_82ee ∷ 0x78a5_636f ∷ 0x84c8_7814 ∷ 0x8cc7_0208 ∷ 0x90be_fffa
    ∷ 0xa450_6ceb ∷ 0xbef9_a3f7 ∷ 0xc671_78f2 ∷ []

-- `values[index]`; every index of the source is in range.
abbrev at : List ℕ → ℕ → ℕ
at xs i = elim (get_elem? xs i) [ none ↦ 0 | some x ↦ x ]

-- `u32::from_be_bytes` of each four bytes of a block.
unfoldable pub block_words : Bytes → List ℕ
block_words (w ∷ x ∷ y ∷ z ∷ rest) = (((w * 256 + x) * 256 + y) * 256 + z) ∷ block_words rest
block_words _ = []

abbrev schedule_word : List ℕ → ℕ → ℕ
schedule_word schedule index =
    let w15 = at schedule (index - 15) in
    let w2 = at schedule (index - 2) in
    let s0 = xor (xor (rotate_right32 w15 7) (rotate_right32 w15 18)) (shr w15 3) in
    let s1 = xor (xor (rotate_right32 w2 17) (rotate_right32 w2 19)) (shr w2 10) in
    add32 (add32 (add32 (at schedule (index - 16)) s0) (at schedule (index - 7))) s1

-- The loop that extends the schedule, over the number of words left.
unfoldable pub extend_schedule : ℕ → List ℕ → ℕ → List ℕ
extend_schedule zero schedule index = schedule
extend_schedule (suc left) schedule index =
    extend_schedule left (schedule ++ schedule_word schedule index ∷ []) (index + 1)

-- One round, on its constant and its word of the schedule.
abbrev round : State → ℕ → ℕ → State
round s constant word =
    let upper = xor (xor (rotate_right32 s.e 6) (rotate_right32 s.e 11)) (rotate_right32 s.e 25) in
    let choose = xor (and s.e s.f) (and (not32 s.e) s.g) in
    let temporary1 = add32 (add32 (add32 (add32 s.h upper) choose) constant) word in
    let lower = xor (xor (rotate_right32 s.a 2) (rotate_right32 s.a 13)) (rotate_right32 s.a 22) in
    let majority = xor (xor (and s.a s.b) (and s.a s.c)) (and s.b s.c) in
    let temporary2 = add32 lower majority in
    record {
      a = add32 temporary1 temporary2;
      b = s.a;
      c = s.b;
      d = s.c;
      e = add32 s.d temporary1;
      f = s.e;
      g = s.f;
      h = s.g;
    }

unfoldable pub rounds : List ℕ → List ℕ → State → State
rounds (constant ∷ constants) (word ∷ rest) s = rounds constants rest (round s constant word)
rounds _ _ s = s

abbrev add_states : State → State → State
add_states s t = record {
  a = add32 s.a t.a;
  b = add32 s.b t.b;
  c = add32 s.c t.c;
  d = add32 s.d t.d;
  e = add32 s.e t.e;
  f = add32 s.f t.f;
  g = add32 s.g t.g;
  h = add32 s.h t.h;
}

unfoldable pub compress : State → Bytes → State
unfolding block_words extend_schedule rounds
compress state block =
    let schedule = extend_schedule 48 (block_words block) 16 in
    add_states state (rounds round_constants schedule state)
