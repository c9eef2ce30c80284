-- ===== src/Ignore/Rules/Keys.antt =====
-- The keys of src/ignore/rules.rs: a path that a rule matches shows the byte under which the rule
-- is filed, at the place where the lookup reads it.
use weavatrix_scan.Common.{
  ℕ, ◌≡◌, refl, ◌⊎◌, inl, inr, Bool, true, false, ◌&&◌, Option, none, some, [], ◌∷◌, ◌++◌, arith,
  any, Bool-cases,
}
use weavatrix_scan.Text.{Bytes, slash, text_eq, first, last, starts_with, ends_with, rsplit_once}
use weavatrix_scan.Text.Laws.{eq_of_text_eq, rsplit_once-Splits, Splits}
use weavatrix_scan.Ignore.{RuleMatcher, literal, prefix, suffix, globbed, IgnoreRule}
use weavatrix_scan.Ignore.Matcher.{is_literal, prefix_key, suffix_key, matcher_matches}
use weavatrix_scan.Ignore.Rules.{
  is_anywhere, Slot, exact_slot, prefix_slot, suffix_slot, generic_slot, slot_of, file_name,
  rule_matches, exact_or, prefix_or, suffix_or_generic, name_of,
}

first-starts_with :
    (k : ℕ) (text value : Bytes)
    → starts_with text value ≡ true
    → first text ≡ some k
    → first value ≡ some k
first-starts_with k [] value h e = absurd (cc)
first-starts_with k (x ∷ xs) [] h e = absurd (cc)
first-starts_with k (x ∷ xs) (y ∷ ys) h e = ground arith

last-cons : (k y : ℕ) (ys : Bytes) → last ys ≡ some k → last (y ∷ ys) ≡ some k
last-cons k y [] h = absurd (cc)
last-cons k y (z ∷ zs) h = h

last-append : (k : ℕ) (xs ys : Bytes) → last ys ≡ some k → last (xs ++ ys) ≡ some k
last-append k [] ys h = h
last-append k (x ∷ xs) ys h = last-cons k x (xs ++ ys) (last-append k xs ys h)

last-ends_with :
    (k : ℕ) (text value : Bytes)
    → ends_with text value ≡ true
    → last text ≡ some k
    → last value ≡ some k
last-ends_with k text [] h e = rw (eq_of_text_eq text [] h) at e
last-ends_with k text (y ∷ ys) h e = elim (Bool-cases (text_eq text (y ∷ ys))) [
  | inl same ↦ rw (eq_of_text_eq text (y ∷ ys) same) at e
  | inr other ↦ last-cons k y ys (last-ends_with k text ys (rw other at h) e)
]

-- The byte that `prefix_key` names is the first of every text that matches.
pub prefix_key_lem :
    (m : RuleMatcher) (pattern value : Bytes) (k : ℕ)
    → matcher_matches m pattern value ≡ true
    → prefix_key m pattern ≡ some k
    → first value ≡ some k
unfolding prefix_key matcher_matches
prefix_key_lem (literal false) pattern value k h e = rw (eq_of_text_eq pattern value h) at e
prefix_key_lem (literal true) pattern value k h e = absurd (cc)
prefix_key_lem (prefix text false) pattern value k h e = first-starts_with k text value h e
prefix_key_lem (prefix text true) pattern value k h e = absurd (cc)
prefix_key_lem (suffix text c) pattern value k h e = absurd (cc)
prefix_key_lem (globbed needle none back false) pattern value k h e = absurd (cc)
prefix_key_lem (globbed needle (some front) back false) pattern value k h e =
    elim (Bool-cases (starts_with front value)) [
      | inl s ↦ first-starts_with k front value s e
      | inr s ↦ absurd (ground arith)
    ]
prefix_key_lem (globbed needle front back true) pattern value k h e = absurd (cc)

-- The byte that `suffix_key` names is the last of every text that matches.
pub suffix_key_lem :
    (m : RuleMatcher) (pattern value : Bytes) (k : ℕ)
    → matcher_matches m pattern value ≡ true
    → suffix_key m pattern ≡ some k
    → last value ≡ some k
unfolding suffix_key matcher_matches
suffix_key_lem (literal false) pattern value k h e = rw (eq_of_text_eq pattern value h) at e
suffix_key_lem (literal true) pattern value k h e = absurd (cc)
suffix_key_lem (prefix text c) pattern value k h e = absurd (cc)
suffix_key_lem (suffix text false) pattern value k h e = last-ends_with k text value h e
suffix_key_lem (suffix text true) pattern value k h e = absurd (cc)
suffix_key_lem (globbed needle front back c) pattern value k h e = absurd (cc)

is_literal_lem :
    (m : RuleMatcher) (pattern value : Bytes)
    → is_literal m ≡ true
    → matcher_matches m pattern value ≡ true
    → pattern ≡ value
unfolding is_literal matcher_matches
is_literal_lem (literal false) pattern value l h = eq_of_text_eq pattern value h
is_literal_lem (literal true) pattern value l h = absurd (cc)
is_literal_lem (prefix text c) pattern value l h = absurd (cc)
is_literal_lem (suffix text c) pattern value l h = absurd (cc)
is_literal_lem (globbed needle front back c) pattern value l h = absurd (cc)

-- A path ends as its file name does.
last-file_name : (k : ℕ) (path : Bytes) → last (file_name path) ≡ some k → last path ≡ some k
unfolding file_name
last-file_name k path h = go (rsplit_once slash path) (rsplit_once-Splits slash path) h
  where
    go :
        (r : Option (Bytes × Bytes))
        → Splits slash path r
        → last (name_of path r) ≡ some k
        → last path ≡ some k
    go none s e = e
    go (some (before, after)) s e =
        rw s.0 (last-append k before (slash ∷ after) (last-cons k slash after e))

-- The lookup of a path reads the slot.
abbrev pub IsRead : Bytes → Slot → Type 0
IsRead path (exact_slot key) = first (file_name path) ≡ some key
IsRead path (prefix_slot key) = (first (file_name path) ≡ some key) ⊎ (first path ≡ some key)
IsRead path (suffix_slot key) = last path ≡ some key
IsRead path generic_slot = Unit

module _ (path : Bytes) (m : RuleMatcher) (pattern : Bytes) where
  suffix-IsRead :
      ((k : ℕ) → suffix_key m pattern ≡ some k → last path ≡ some k)
      → (o : Option ℕ) → suffix_key m pattern ≡ o
      → IsRead path (suffix_or_generic o)
  suffix-IsRead h none e = tt
  suffix-IsRead h (some k) e = h k e

  prefix-IsRead :
      ((k : ℕ) → prefix_key m pattern ≡ some k → IsRead path (prefix_slot k))
      → (other : Slot) → IsRead path other
      → (o : Option ℕ) → prefix_key m pattern ≡ o
      → IsRead path (prefix_or o other)
  prefix-IsRead h other r none e = r
  prefix-IsRead h other r (some k) e = h k e

  exact-IsRead :
      (b : Bool)
      → (b ≡ true → (k : ℕ) → first pattern ≡ some k → first (file_name path) ≡ some k)
      → (other : Slot) → IsRead path other
      → (o : Option ℕ) → first pattern ≡ o
      → IsRead path (exact_or b o other)
  exact-IsRead true h other r none e = r
  exact-IsRead true h other r (some k) e = h refl k e
  exact-IsRead false h other r o e = r

-- Where a rule matches a path, its matcher matches the name or the path.
abbrev Matched : IgnoreRule → Bytes → Type 0
Matched rule path =
    ((is_anywhere rule.scope ≡ true)
      × (matcher_matches rule.matcher rule.pattern (file_name path) ≡ true))
    ⊎ ((is_anywhere rule.scope ≡ false) × (matcher_matches rule.matcher rule.pattern path ≡ true))

Matched-of_matches :
    (rule : IgnoreRule) (path : Bytes) (d : Bool)
    → rule_matches rule path d ≡ true
    → Matched rule path
unfolding rule_matches
Matched-of_matches rule path d h = elim (Bool-cases (is_anywhere rule.scope)) [
  | inl e ↦ inl (e, ground arith)
  | inr e ↦ inr (e, ground arith)
]

-- The lookup of a path reads the slot of every rule that matches the path.
pub slot_of-IsRead :
    (rule : IgnoreRule) (path : Bytes) (d : Bool)
    → rule_matches rule path d ≡ true
    → IsRead path (slot_of rule)
unfolding slot_of
slot_of-IsRead rule path d h =
    let m = rule.matcher in
    let p = rule.pattern in
    elim (Matched-of_matches rule path d h) [
      | inl (any, matched) ↦
          exact-IsRead path m p (is_anywhere rule.scope && is_literal m)
            (λ both k e. rw (is_literal_lem m p (file_name path) (ground arith) matched) at e) _
            (prefix-IsRead path m p (λ k e. inl (prefix_key_lem m p (file_name path) k matched e)) _
              (suffix-IsRead path m p
                (λ k e. last-file_name k path (suffix_key_lem m p (file_name path) k matched e))
                (suffix_key m p) refl)
              (prefix_key m p) refl)
            (first p) refl
      | inr (other, matched) ↦
          exact-IsRead path m p (is_anywhere rule.scope && is_literal m)
            (λ both k e. absurd (ground arith)) _
            (prefix-IsRead path m p (λ k e. inr (prefix_key_lem m p path k matched e)) _
              (suffix-IsRead path m p (λ k e. suffix_key_lem m p path k matched e) (suffix_key m p)
                refl)
              (prefix_key m p) refl)
            (first p) refl
    ]
