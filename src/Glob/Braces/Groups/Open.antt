-- ===== src/Glob/Braces/Groups/Open.antt =====
-- The expansions of src/glob.rs, from the brace that opens a group, against the reading of its text.
use mathlib.Core.Path.{subst}
use weavatrix_scan.Common.{
  ℕ, ◌+◌, ◌-◌, ◌≡◌, refl, ap, ◌∙◌, Bool, true, false, not, ◌&&◌, Option, none, some, List, [], ◌∷◌,
  ◌++◌, map, ◌==◌, arith, length, take, drop, Bool-cases, inl, inr,
}
use weavatrix_scan.Text.{Bytes, backslash}
use weavatrix_scan.Glob.Braces.{
  find_open, slice, read_group, expanded, class_after, brace_alternatives, group_expansions,
  expansions_at, first_group,
}
use weavatrix_scan.Glob.Braces.Groups.{
  in_front, split_open, Alternatives, split_group, with_group, with_open, replacements,
}
use weavatrix_scan.Glob.Braces.Groups.Loop.{Reads, read_group-Agrees}
use weavatrix_scan.Glob.Braces.Groups.Slices.{class_after_lem, plus_one, drop-suc}

-- The first loop finds the brace behind the text in front.
abbrev Opened : Bytes → ℕ → Option ℕ → Option (Bytes × Bytes) → Type 0
Opened text index none none = Unit
Opened text index none (some split) = ⊥
Opened text index (some start) none = ⊥
Opened text index (some start) (some (before, behind)) =
    (start ≡ index + length before) × (◌≡◌ {A = Bytes} text (before ++ (b'{' ∷ behind)))

Opened-in_front :
    (byte : ℕ) (text : Bytes) (index : ℕ) (o : Option ℕ) (split : Option (Bytes × Bytes))
    → Opened text (index + 1) o split
    → Opened (byte ∷ text) index o (in_front byte split)
Opened-in_front byte text index none none h = h
Opened-in_front byte text index none (some split) h = absurd h
Opened-in_front byte text index (some start) none h = absurd h
Opened-in_front byte text index (some start) (some (before, behind)) h =
    (omega (arith, h.0), ap (λ t. byte ∷ t) h.1)

find_open-Opened :
    (text : Bytes) (index : ℕ) (escaped class : Bool)
    → Opened text index (find_open text index escaped class) (split_open text escaped class)
unfolding find_open split_open
find_open-Opened [] index escaped class = tt
find_open-Opened (byte ∷ rest) index true class =
    Opened-in_front byte rest index _ _ (find_open-Opened rest (index + 1) false class)
find_open-Opened (byte ∷ rest) index false class =
    let further = find_open-Opened rest (index + 1) (byte == backslash) (class_after byte class) in
    elim (Bool-cases ((byte == b'{') && not class)) [
      | inl e ↦ let same : byte ≡ b'{' = ground arith in rw e (omega arith, ap (λ b. b ∷ rest) same)
      | inr e ↦ rw (e, ← class_after_lem byte class) (Opened-in_front byte rest index _ _ further)
    ]

take-front : (before behind : Bytes) → take (length before) (before ++ behind) ≡ before
take-front [] behind = refl
take-front (x ∷ xs) behind = ap (λ t. x ∷ t) (take-front xs behind)

drop-front : (before behind : Bytes) → drop (length before) (before ++ behind) ≡ behind
drop-front [] behind = refl
drop-front (x ∷ xs) behind = drop-front xs behind

map-ext {ℓ κ} :
    {A : Type ℓ} {B : Type κ} (f g : A → B) (xs : List A)
    → ((x : A) → f x ≡ g x)
    → map f xs ≡ map g xs
map-ext f g xs h = λ i. map (λ x. h x i) xs

Reads-expansions :
    (pattern before : Bytes) (start : ℕ) (r : Option (List Bytes × ℕ)) (s : Alternatives)
    → take start pattern ≡ before
    → Reads pattern [] [] r s
    → group_expansions pattern start r ≡ with_group before s
unfolding expanded
Reads-expansions pattern before start none none e h = refl
Reads-expansions pattern before start none (some group) e h = absurd h
Reads-expansions pattern before start (some found) none e h = absurd h
Reads-expansions pattern before start (some (alternatives, end)) (some (first, others, after)) e h =
    ap some (
      ap (map (expanded pattern start end)) h.0
      ∙ map-ext (expanded pattern start end) (λ a. before ++ (a ++ after)) (first ∷ others)
          (λ alternative. rw (e, h.1) refl))

expansions_at-with_open :
    (pattern : Bytes) (o : Option ℕ) (split : Option (Bytes × Bytes))
    → Opened pattern 0 o split
    → expansions_at pattern o ≡ with_open split
expansions_at-with_open pattern none none h = refl
expansions_at-with_open pattern none (some split) h = absurd h
expansions_at-with_open pattern (some start) none h = absurd h
expansions_at-with_open pattern (some start) (some (before, behind)) (at, parts) =
    let place : start ≡ length before = omega arith in
    let front : take start pattern ≡ before =
      rw (place, parts) (take-front before (b'{' ∷ behind)) in
    let brace : drop start pattern ≡ b'{' ∷ behind =
      rw (place, parts) (drop-front before (b'{' ∷ behind)) in
    let back : drop (start + 1) pattern ≡ behind =
      rw (plus_one start) (drop-suc start pattern behind b'{' brace) in
    let nothing : slice pattern (start + 1) (start + 1) ≡ [] =
      let e : start + 1 - (start + 1) ≡ 0 = omega arith in rw e refl in
    rw back (
      Reads-expansions pattern before start _ _ front (
        subst
          (λ t.
            Reads pattern [] t (read_group pattern behind (start + 1) (first_group start))
              (split_group behind 0 false false))
          nothing
          (read_group-Agrees pattern behind (start + 1) back 0 false false (start + 1) []
            (omega arith))))

-- The loops replace a pattern as the reading of its text does.
pub brace_alternatives_lem : (pattern : Bytes) → brace_alternatives pattern ≡ replacements pattern
unfolding brace_alternatives replacements
brace_alternatives_lem pattern =
    expansions_at-with_open pattern (find_open pattern 0 false false)
      (split_open pattern false false) (find_open-Opened pattern 0 false false)
