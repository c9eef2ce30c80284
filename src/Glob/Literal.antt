-- ===== src/Glob/Literal.antt =====
-- Patterns of src/glob.rs with no byte that has a meaning, for which src/ignore/matcher.rs compares
-- texts instead.
use weavatrix_scan.Common.{
  ℕ, zero, suc, ◌+◌, ◌≤◌, ◌≡◌, refl, sym, ap, ◌∙◌, Bool, true, false, ◌&&◌, ◌||◌, none, some, [],
  ◌∷◌, ◌==◌, arith, any, length, drop, get_elem?, get_elem?-lt, get_elem?-some, Option-cases, inl,
  inr,
}
use weavatrix_scan.Text.{Bytes, text_eq, backslash}
use weavatrix_scan.Path.{is_byte}
use weavatrix_scan.Glob.{match_arm}
use weavatrix_scan.Glob.Class.{get_elem?-ge}
use weavatrix_scan.Glob.Memo.{bool_ops, glob, glob_from, glob_from_step}
use weavatrix_scan.Glob.Braces.{find_open, class_after, expansions_at, brace_alternatives, matches}
use weavatrix_scan.Glob.Braces.Groups.{replacements}
use weavatrix_scan.Glob.Braces.Groups.Open.{brace_alternatives_lem}
use weavatrix_scan.Glob.Braces.Laws.{expand, expand_fuel, expand_with, matches_lem}
use weavatrix_scan.Ignore.Matcher.{is_meta, has_meta}

get_elem?-plain :
    (pattern : Bytes) (i c : ℕ)
    → any is_meta pattern ≡ false
    → get_elem? pattern i ≡ some c
    → is_meta c ≡ false
get_elem?-plain [] i c h e = absurd (cc)
get_elem?-plain (x ∷ xs) zero c h e = ground arith
get_elem?-plain (x ∷ xs) (suc i) c h e = get_elem?-plain xs i c (ground arith) e

drop-suc : (xs : Bytes) (i c : ℕ) → get_elem? xs i ≡ some c → drop i xs ≡ c ∷ drop (suc i) xs
drop-suc [] i c e = absurd (cc)
drop-suc (x ∷ xs) zero c e = cc
drop-suc (x ∷ xs) (suc i) c e = drop-suc xs i c e

drop-some : (xs : Bytes) (i c : ℕ) → get_elem? xs i ≡ some c → drop i xs ≡ c ∷ drop (i + 1) xs
drop-some xs i c e =
    let next : suc i ≡ i + 1 = omega arith in drop-suc xs i c e ∙ ap (λ k. c ∷ drop k xs) next

drop-none : (xs : Bytes) (i : ℕ) → get_elem? xs i ≡ none → drop i xs ≡ []
drop-none [] zero e = refl
drop-none [] (suc i) e = refl
drop-none (x ∷ xs) zero e = absurd (cc)
drop-none (x ∷ xs) (suc i) e = drop-none xs i e

at_end :
    (value : Bytes) (j : ℕ) → j ≤ length value → (j == length value) ≡ text_eq [] (drop j value)
at_end [] zero h = refl
at_end [] (suc j) h = absurd (omega arith)
at_end (x ∷ xs) zero h = ground arith
at_end (x ∷ xs) (suc j) h = ground (arith, at_end xs j (omega arith))

module _ (pattern value : Bytes) (plain : any is_meta pattern ≡ false) where
  literal_arm :
      (rec : ℕ → ℕ → Bool) (i j c : ℕ)
      → is_meta c ≡ false
      → match_arm bool_ops rec pattern value i j (some c)
        ≡ (is_byte (get_elem? value j) c && rec (i + 1) (j + 1))
  unfolding match_arm
  literal_arm rec i j c h =
      let star : c == b'*' ≡ false = ground arith in
      let question : c == b'?' ≡ false = ground arith in
      let bracket : c == b'[' ≡ false = ground arith in
      let escape : c == backslash ≡ false = ground arith in
      rw (star, question, bracket, escape) refl

  ended :
      (i j : ℕ)
      → match_arm bool_ops (glob_from pattern value) pattern value i j none ≡ (j == length value)
  unfolding match_arm
  ended i j = refl

  glob_from-plain :
      (n i j : ℕ)
      → i + n ≡ length pattern
      → j ≤ length value
      → glob_from pattern value i j ≡ text_eq (drop i pattern) (drop j value)
  glob_from-plain zero i j hi hj =
      let past : get_elem? pattern i ≡ none = get_elem?-ge pattern i (omega arith) in
      glob_from_step pattern value i j (omega arith) hj
      ∙ ap (match_arm bool_ops (glob_from pattern value) pattern value i j) past
      ∙ ended i j
      ∙ at_end value j hj
      ∙ ap (λ t. text_eq t (drop j value)) (sym (drop-none pattern i past))
  glob_from-plain (suc n) i j hi hj =
      let (c, here) = get_elem?-some pattern i (omega arith) in
      glob_from_step pattern value i j (omega arith) hj
      ∙ ap (match_arm bool_ops (glob_from pattern value) pattern value i j) here
      ∙ literal_arm (glob_from pattern value) i j c (get_elem?-plain pattern i c plain here)
      ∙ elim (Option-cases (get_elem? value j)) [
        | inl e ↦ rw (e, drop-none value j e, drop-some pattern i c here) refl
        | inr (d, e) ↦
            rw (e, drop-some value j d e, drop-some pattern i c here)
              (rw
                (glob_from-plain n (i + 1) (j + 1) (omega arith)
                  (omega (arith, get_elem?-lt value j e)))
                (ground arith))
      ]

  pub glob-plain : glob pattern value ≡ text_eq pattern value
  unfolding glob
  glob-plain = glob_from-plain (length pattern) 0 0 (omega arith) (omega arith)

find_open-plain :
    (pattern : Bytes) (index : ℕ)
    → any is_meta pattern ≡ false
    → find_open pattern index false false ≡ none
unfolding find_open
find_open-plain [] index h = refl
find_open-plain (c ∷ rest) index h =
    let escape : c == backslash ≡ false = ground arith in
    let brace : c == b'{' ≡ false = ground arith in
    let bracket : c == b'[' ≡ false = ground arith in
    let rest_plain : any is_meta rest ≡ false = ground arith in
    let outside : class_after c false ≡ false = ground arith in
    rw (brace, escape, outside) (find_open-plain rest (index + 1) rest_plain)

expand-plain : (pattern : Bytes) → any is_meta pattern ≡ false → expand pattern ≡ pattern ∷ []
unfolding expand expand_fuel brace_alternatives
expand-plain pattern h =
    let whole : replacements pattern ≡ none =
      sym (brace_alternatives_lem pattern)
      ∙ ap (expansions_at pattern) (find_open-plain pattern 0 h) in
    let fuel : length pattern + 1 ≡ suc (length pattern) = omega arith in
    ap (λ k. expand_fuel k pattern) fuel
    ∙ ap (expand_with pattern (expand_fuel (length pattern))) whole

-- A pattern without bytes that have a meaning matches exactly itself.
pub matches-has_meta :
    (pattern value : Bytes)
    → has_meta pattern ≡ false
    → matches pattern value ≡ some (text_eq pattern value)
unfolding has_meta
matches-has_meta pattern value h =
    matches_lem pattern value
    ∙ ap (λ ps. some (any (λ p. glob p value) ps)) (expand-plain pattern h)
    ∙ ap some (or_false (glob pattern value) ∙ glob-plain pattern value h)
  where
    or_false : (b : Bool) → (b || false) ≡ b
    or_false true = refl
    or_false false = refl
