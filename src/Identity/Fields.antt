-- ===== src/Identity/Fields.antt =====
-- Fields that end with a separator, and numbers of fixed width, can be read off the front of a text.
use mathlib.Core.Path.{ap₂}
use weavatrix_scan.Common.{
  ℕ, zero, suc, ◌*◌, ◌/◌, ◌≤◌, ◌<◌, ◌≡◌, ◌≢◌, refl, sym, ap, List, [], ◌∷◌, ◌++◌, length, All,
  arith,
}
use weavatrix_scan.Text.{Bytes}
use weavatrix_scan.Identity.{le_bytes}

-- A text that is UTF-8 and has no zero byte is made of such bytes.
abbrev pub IsTextByte : ℕ → Type 0
IsTextByte b = (0 < b) × (b < 0xfe)

abbrev pub IsText : Bytes → Type 0
IsText = All IsTextByte

-- A byte that no text has.
abbrev pub IsSeparator : ℕ → Type 0
IsSeparator t = (b : ℕ) → IsTextByte b → b ≢ t

pub zero-IsSeparator : IsSeparator 0
zero-IsSeparator b h e = omega (arith, h.0)

pub above-IsSeparator : (t : ℕ) → 0xfe ≤ t → IsSeparator t
above-IsSeparator t k b h e = omega (arith, h.1)

pub cons_inj {ℓ} : {A : Type ℓ} {a b : A} {x y : List A} → a ∷ x ≡ b ∷ y → (a ≡ b) × (x ≡ y)
cons_inj e = (cc, cc)

pub tail_inj {ℓ} : {A : Type ℓ} {a b : A} {x y : List A} → a ∷ x ≡ b ∷ y → x ≡ y
tail_inj e = cc

-- A field up to its separator, and what follows.
pub field_inj :
    (t : ℕ) (u v x y : Bytes)
    → IsSeparator t
    → IsText u
    → IsText v
    → u ++ t ∷ x ≡ v ++ t ∷ y
    → (u ≡ v) × (x ≡ y)
field_inj t [] [] x y s hu hv e = (refl, tail_inj e)
field_inj t [] (b ∷ v) x y s hu hv e = absurd (s b hv.0 (sym (cons_inj e).0))
field_inj t (a ∷ u) [] x y s hu hv e = absurd (s a hu.0 (cons_inj e).0)
field_inj t (a ∷ u) (b ∷ v) x y s hu hv e =
    let (same, rest) = cons_inj e in
    let (front, back) = field_inj t u v x y s hu.1 hv.1 rest in
    (ap₂ (λ c w. c ∷ w) same front, back)

-- Fields with different separators differ.
pub field_clash :
    (s t : ℕ) (u v x y : Bytes)
    → IsSeparator s
    → IsSeparator t
    → s ≢ t
    → IsText u
    → IsText v
    → u ++ s ∷ x ≢ v ++ t ∷ y
field_clash s t [] [] x y ps pt n hu hv e = n (cons_inj e).0
field_clash s t [] (b ∷ v) x y ps pt n hu hv e = ps b hv.0 (sym (cons_inj e).0)
field_clash s t (a ∷ u) [] x y ps pt n hu hv e = pt a hu.0 (cons_inj e).0
field_clash s t (a ∷ u) (b ∷ v) x y ps pt n hu hv e =
    field_clash s t u v x y ps pt n hu.1 hv.1 (cons_inj e).1

-- Fields of the same length.
pub append_inj : (u v x y : Bytes) → length u ≡ length v → u ++ x ≡ v ++ y → (u ≡ v) × (x ≡ y)
append_inj [] [] x y h e = (refl, e)
append_inj [] (b ∷ v) x y h e = absurd (omega arith)
append_inj (a ∷ u) [] x y h e = absurd (omega arith)
append_inj (a ∷ u) (b ∷ v) x y h e =
    let (same, rest) = cons_inj e in
    let (front, back) = append_inj u v x y (omega arith) rest in
    (ap₂ (λ c w. c ∷ w) same front, back)

pub length-le_bytes : (n x : ℕ) → length (le_bytes n x) ≡ n
unfolding le_bytes
length-le_bytes zero x = refl
length-le_bytes (suc n) x = ap suc (length-le_bytes n (x / 256))

-- The number of values of `n` bytes.
abbrev pub values : ℕ → ℕ
values zero = 1
values (suc n) = 256 * values n

pub le_bytes_inj : (n x y : ℕ) → x < values n → y < values n → le_bytes n x ≡ le_bytes n y → x ≡ y
unfolding le_bytes
le_bytes_inj zero x y hx hy e = omega arith
le_bytes_inj (suc n) x y hx hy e =
    let (low, high) = cons_inj e in
    let same = le_bytes_inj n (x / 256) (y / 256) (omega arith) (omega arith) high in
    omega (arith, low, same)

-- No zero stands within a text.
text_covers : (u b x y : Bytes) → IsText u → length b < length u → u ++ x ≢ b ++ 0 ∷ y
text_covers [] b x y hu h e = omega arith
text_covers (a ∷ u) [] x y hu h e = zero-IsSeparator a hu.0 (cons_inj e).0
text_covers (a ∷ u) (b ∷ bs) x y hu h e = text_covers u bs x y hu.1 (omega arith) (cons_inj e).1

-- A text field with a longer text behind it is not some bytes of any kind with a text behind them, if
-- the ends differ.
pub field_misread :
    (l b u v x y : Bytes)
    → IsText l
    → IsText u
    → IsText v
    → length b ≤ length u
    → l ++ 0 ∷ (u ++ 0xfe ∷ x) ≢ b ++ 0 ∷ (v ++ 0xff ∷ y)
field_misread [] [] u v x y hl hu hv h e =
    field_clash 0xfe 0xff u v x y (above-IsSeparator 0xfe (omega arith))
      (above-IsSeparator 0xff (omega arith)) (λ k. omega (arith, k)) hu hv (tail_inj e)
field_misread [] (c ∷ b) u v x y hl hu hv h e =
    text_covers u b (0xfe ∷ x) (v ++ 0xff ∷ y) hu (omega arith) (tail_inj e)
field_misread (a ∷ l) [] u v x y hl hu hv h e = zero-IsSeparator a hl.0 (cons_inj e).0
field_misread (a ∷ l) (c ∷ b) u v x y hl hu hv h e =
    field_misread l b u v x y hl.1 hu hv (omega arith) (tail_inj e)
