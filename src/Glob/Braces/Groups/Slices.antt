-- ===== src/Glob/Braces/Groups/Slices.antt =====
-- Slices of a pattern that grow by a byte, for the proofs about src/glob.rs.
use weavatrix_scan.Common.{
  ℕ, zero, suc, ◌+◌, ◌-◌, ◌≤◌, ◌≡◌, refl, ap, ◌∙◌, Bool, [], ◌∷◌, ◌++◌, arith, take, drop,
}
use weavatrix_scan.Text.{Bytes}
use weavatrix_scan.Glob.Braces.{slice, class_after}
use weavatrix_scan.Glob.Braces.Groups.{is_in_class}

pub class_after_lem : (byte : ℕ) (class : Bool) → class_after byte class ≡ is_in_class byte class
class_after_lem byte class = ground arith

pub plus_one : (n : ℕ) → n + 1 ≡ suc n
plus_one n = omega arith

pub drop-suc : (n : ℕ) (xs rest : Bytes) (b : ℕ) → drop n xs ≡ b ∷ rest → drop (suc n) xs ≡ rest
drop-suc zero [] rest b e = absurd (cc)
drop-suc zero (x ∷ xs) rest b e = cc
drop-suc (suc n) [] rest b e = absurd (cc)
drop-suc (suc n) (x ∷ xs) rest b e = drop-suc n xs rest b e

take-suc :
    (n : ℕ) (xs rest : Bytes) (b : ℕ) → drop n xs ≡ b ∷ rest → take (suc n) xs ≡ take n xs ++ b ∷ []
take-suc zero [] rest b e = absurd (cc)
take-suc zero (x ∷ xs) rest b e = cc
take-suc (suc n) [] rest b e = absurd (cc)
take-suc (suc n) (x ∷ xs) rest b e = ap (λ t. x ∷ t) (take-suc n xs rest b e)

drop-difference :
    (start index : ℕ) (xs : Bytes)
    → start ≤ index
    → drop (index - start) (drop start xs) ≡ drop index xs
drop-difference zero index xs le = let e : index - 0 ≡ index = omega arith in rw e refl
drop-difference (suc start) zero xs le = absurd (omega arith)
drop-difference (suc start) (suc index) [] le =
    let e : suc index - suc start ≡ index - start = omega arith in rw e (drop-nil (index - start))
  where
    drop-nil : (n : ℕ) → ◌≡◌ {A = Bytes} (drop n []) []
    drop-nil zero = refl
    drop-nil (suc n) = refl
drop-difference (suc start) (suc index) (x ∷ xs) le =
    let e : suc index - suc start ≡ index - start = omega arith in
    rw e (drop-difference start index xs (omega arith))

-- One byte more of a slice.
pub slice-suc :
    (pattern rest : Bytes) (start index byte : ℕ)
    → start ≤ index
    → drop index pattern ≡ byte ∷ rest
    → slice pattern start (index + 1) ≡ slice pattern start index ++ byte ∷ []
slice-suc pattern rest start index byte le e =
    let more : index + 1 - start ≡ suc (index - start) = omega arith in
    rw more (
      take-suc (index - start) (drop start pattern) rest byte
        (drop-difference start index pattern le ∙ e))
