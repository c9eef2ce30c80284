-- ===== src/Ignore/Rules.antt =====
-- src/ignore/rules.rs: the index of a rule set. Each rule goes into one table, under a byte that
-- every text it matches shows; a lookup consults the tables for the bytes of its path, and the last
-- rule that matches decides.
pub mod Best
pub mod Keys
pub mod Indexed
pub mod LastWins
use mathlib.Core.List.{reverse}
use weavatrix_scan.Common.{
  ℕ, zero, suc, Bool, true, false, not, ◌&&◌, Option, none, some, List, [], ◌∷◌, ◌++◌, ◌==◌, leb,
  length, get_elem?, if◌then◌else◌,
}
use weavatrix_scan.Text.{Bytes, slash, first, last, rsplit_once}
use weavatrix_scan.Ignore.{
  RuleAction, RuleTarget, any_target, directory, RuleScope, anywhere, path_scope, anchored,
  RuleMatch, exact, ancestor, IgnoreRule, Buckets, RuleSet,
}
use weavatrix_scan.Ignore.Matcher.{is_literal, prefix_key, suffix_key, matcher_matches}

abbrev pub is_anywhere : RuleScope → Bool
is_anywhere anywhere = true
is_anywhere path_scope = false
is_anywhere anchored = false

-- The table and the byte under which `push` files a rule.
pub data Slot : Type 0 where
  exact_slot prefix_slot suffix_slot : ℕ → Slot
  generic_slot : Slot

abbrev pub suffix_or_generic : Option ℕ → Slot
suffix_or_generic (some key) = suffix_slot key
suffix_or_generic none = generic_slot

abbrev pub prefix_or : Option ℕ → Slot → Slot
prefix_or (some key) other = prefix_slot key
prefix_or none other = other

abbrev pub exact_or : Bool → Option ℕ → Slot → Slot
exact_or true (some key) other = exact_slot key
exact_or true none other = other
exact_or false key other = other

-- The chain of `if let` in `push`.
unfoldable pub slot_of : IgnoreRule → Slot
slot_of rule = exact_or (is_anywhere rule.scope && is_literal rule.matcher) (first rule.pattern) (
    prefix_or (prefix_key rule.matcher rule.pattern)
      (suffix_or_generic (suffix_key rule.matcher rule.pattern)))

-- `bucket(buckets, key).push(index)`.
abbrev pub bucket_push : Buckets → ℕ → ℕ → Buckets
bucket_push none key index = some (λ k. if k == key then index ∷ [] else [])
bucket_push (some table) key index = some (λ k. if k == key then table k ++ index ∷ [] else table k)

abbrev pub bucket_ref : Buckets → ℕ → Option (List ℕ)
bucket_ref none key = none
bucket_ref (some table) key = some (table key)

abbrev pub file_index : RuleSet → ℕ → Slot → RuleSet
file_index set index (exact_slot key) = record set {
  exact_anywhere = bucket_push set.exact_anywhere key index;
}
file_index set index (prefix_slot key) = record set {
  prefixes = bucket_push set.prefixes key index;
}
file_index set index (suffix_slot key) = record set {
  suffixes = bucket_push set.suffixes key index;
}
file_index set index generic_slot = record set { generic = set.generic ++ index ∷ [] }

unfoldable pub push : RuleSet → IgnoreRule → RuleSet
push set rule =
    let filed = file_index set (length set.rules) (slot_of rule) in
    record filed { rules = filed.rules ++ rule ∷ [] }

abbrev pub name_of : Bytes → Option (Bytes × Bytes) → Bytes
name_of path none = path
name_of path (some (parent, name)) = name

-- `path.rsplit('/').next().unwrap_or(path)`.
unfoldable pub file_name : Bytes → Bytes
file_name path = name_of path (rsplit_once slash path)

abbrev wants_directory : RuleTarget → Bool
wants_directory directory = true
wants_directory any_target = false

-- `IgnoreRule::matches_exact`.
unfoldable pub rule_matches : IgnoreRule → Bytes → Bool → Bool
rule_matches rule path is_directory =
    if wants_directory rule.target && not is_directory
    then false
    else if is_anywhere rule.scope
    then matcher_matches rule.matcher rule.pattern (file_name path)
    else matcher_matches rule.matcher rule.pattern path

-- `self.rules[index].matches_exact(...)`; every index of a table is the index of a rule.
abbrev rule_hit : Option IgnoreRule → Bytes → Bool → Bool
rule_hit none path is_directory = false
rule_hit (some rule) path is_directory = rule_matches rule path is_directory

unfoldable pub hits : RuleSet → Bytes → Bool → ℕ → Bool
hits set path is_directory index = rule_hit (get_elem? set.rules index) path is_directory

-- `iter().find(test)`.
unfoldable pub find : (ℕ → Bool) → List ℕ → Option ℕ
find test [] = none
find test (x ∷ xs) = if test x then some x else find test xs

-- `best.is_some_and(|best| index <= best)`.
abbrev pub at_most : ℕ → Option ℕ → Bool
at_most index none = false
at_most index (some best) = leb index best

-- The loop of `best_match`, over the indices from the last to the first.
unfoldable pub best_loop : (ℕ → Bool) → List ℕ → Option ℕ → Option ℕ
best_loop test [] best = best
best_loop test (x ∷ xs) best =
    let further = best_loop test xs best in
    if at_most x best then best else if test x then some x else further

unfoldable pub best_match : (ℕ → Bool) → List ℕ → Option ℕ → Option ℕ
best_match test indices best = best_loop test (reverse indices) best

-- `if let Some(indices) = ...` around a call of `best_match`.
abbrev pub best_in : (ℕ → Bool) → Option (List ℕ) → Option ℕ → Option ℕ
best_in test none best = best
best_in test (some indices) best = best_match test indices best

abbrev pub bucket_of : Buckets → Option ℕ → Option (List ℕ)
bucket_of buckets none = none
bucket_of buckets (some key) = bucket_ref buckets key

abbrev pub find_in : (ℕ → Bool) → Option (List ℕ) → Option ℕ
find_in test none = none
find_in test (some indices) = find test (reverse indices)

-- `left != right` on two optional bytes.
abbrev pub differs : Option ℕ → Option ℕ → Bool
differs none none = false
differs none (some y) = true
differs (some x) none = true
differs (some x) (some y) = not (x == y)

-- The index of the rule that decides; each line of `matches_exact` that changes `best` is a `let`.
unfoldable pub best_index : RuleSet → Bytes → Bool → Option ℕ
best_index set path is_directory =
    let test = hits set path is_directory in
    let name = file_name path in
    let exact_best = find_in test (bucket_of set.exact_anywhere (first name)) in
    let generic_best = best_match test set.generic exact_best in
    let name_best = best_in test (bucket_of set.prefixes (first name)) generic_best in
    let path_best =
      if differs (first path) (first name)
      then best_in test (bucket_of set.prefixes (first path)) name_best
      else name_best in
    best_in test (bucket_of set.suffixes (last path)) path_best

abbrev action_of : Option IgnoreRule → Option RuleAction
action_of none = none
action_of (some rule) = some rule.action

abbrev pub action_at : RuleSet → Option ℕ → Option RuleAction
action_at set none = none
action_at set (some index) = action_of (get_elem? set.rules index)

unfoldable pub matches_exact : RuleSet → Bytes → Bool → Option RuleAction
matches_exact set path is_directory = action_at set (best_index set path is_directory)

-- The `while let` loop over the ancestors; the length of the path is fuel enough.
unfoldable pub ancestor_match : ℕ → RuleSet → Bytes → Option RuleMatch
ancestor_match zero set path = none
ancestor_match (suc fuel) set path = elim (rsplit_once slash path) [
  | none ↦ none
  | some (parent, name) ↦
      let further = ancestor_match fuel set parent in
      elim (matches_exact set parent true) [ some action ↦ some (ancestor action) | none ↦ further ]
]

-- `RuleSet::matches`.
unfoldable pub set_matches : RuleSet → Bytes → Bool → Option RuleMatch
set_matches set path is_directory = elim (matches_exact set path is_directory) [
  | some action ↦ some (exact action)
  | none ↦ ancestor_match (length path) set path
]
