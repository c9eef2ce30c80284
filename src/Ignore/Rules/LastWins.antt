-- ===== src/Ignore/Rules/LastWins.antt =====
-- The index of src/ignore/rules.rs against a walk over the rules in which the last match wins.
use mathlib.Core.Path.{subst}
use mathlib.Core.List.{append-nil, append_assoc}
use weavatrix_scan.Common.{
  ℕ, zero, suc, ◌≤◌, ◌≡◌, refl, sym, ap, ◌∙◌, ◌⊎◌, inl, inr, Bool, true, false, Option, none, some,
  List, [], ◌∷◌, ◌++◌, arith, length, get_elem?, Bool-cases, Option-cases, if◌then◌else◌,
}
use weavatrix_scan.Text.{Bytes, first, last}
use weavatrix_scan.Ignore.{RuleAction, IgnoreRule, Buckets, RuleSet, empty_rules}
use weavatrix_scan.Ignore.Rules.{
  Slot, exact_slot, prefix_slot, suffix_slot, generic_slot, slot_of, bucket_of, push, file_name,
  rule_matches, hits, best_index, best_in, differs, action_at, matches_exact,
}
use weavatrix_scan.Ignore.Rules.Best.{
  In, IsAscending, IsBest, best_match-IsBest, best_in-IsBest, find_in-IsBest, entries,
}
use weavatrix_scan.Ignore.Rules.Keys.{IsRead, slot_of-IsRead}
use weavatrix_scan.Ignore.Rules.Indexed.{
  IsIndexed, AreTables, Filed, file_index-rules, push-IsIndexed, empty_rules-IsIndexed,
}

-- The action of the last rule of a list that matches.
unfoldable pub last_match : List IgnoreRule → Bytes → Bool → Option RuleAction
last_match [] path d = none
last_match (rule ∷ rest) path d = elim (last_match rest path d) [
  | some action ↦ some action
  | none ↦ if rule_matches rule path d then some rule.action else none
]

-- With no rule that matches there is no action.
last_match-none :
    (rules : List IgnoreRule) (path : Bytes) (d : Bool)
    → ((i : ℕ) (r : IgnoreRule) → get_elem? rules i ≡ some r → rule_matches r path d ≡ false)
    → last_match rules path d ≡ none
unfolding last_match
last_match-none [] path d h = refl
last_match-none (rule ∷ rest) path d h =
    rw (last_match-none rest path d (λ i r e. h (suc i) r e), last_match)
      (rw (h zero rule refl) refl)

-- The rule at the greatest index that matches gives the action.
last_match-some :
    (rules : List IgnoreRule) (path : Bytes) (d : Bool) (b : ℕ) (rule : IgnoreRule)
    → get_elem? rules b ≡ some rule
    → rule_matches rule path d ≡ true
    → ((i : ℕ) (r : IgnoreRule) → get_elem? rules i ≡ some r → rule_matches r path d ≡ true → i ≤ b)
    → last_match rules path d ≡ some rule.action
unfolding last_match
last_match-some [] path d b rule e m h = absurd (cc)
last_match-some (r ∷ rest) path d zero rule e m h =
    let only : (i : ℕ) (r' : IgnoreRule)
        → get_elem? rest i ≡ some r'
        → rule_matches r' path d ≡ false =
      λ i r' e'. elim (Bool-cases (rule_matches r' path d)) [
        | inl hit ↦ absurd (omega (arith, h (suc i) r' e' hit))
        | inr miss ↦ miss
      ] in
    let same : r ≡ rule = cc in
    rw (last_match-none rest path d only, last_match) (rw same (rw m refl))
last_match-some (r ∷ rest) path d (suc b) rule e m h =
    rw
      (
        last_match-some rest path d b rule e m (λ i r' e' m'. omega (arith, h (suc i) r' e' m')),
        last_match,
      )
      refl

eq_of_differs : (o o' : Option ℕ) → differs o o' ≡ false → o ≡ o'
eq_of_differs none none h = refl
eq_of_differs none (some y) h = absurd (cc)
eq_of_differs (some x) none h = absurd (cc)
eq_of_differs (some x) (some y) h = ground arith

abbrev Everything : ℕ → Type 0
Everything i = Unit

module _ (set : RuleSet) (path : Bytes) (d : Bool) (indexed : IsIndexed set) where
  -- The tables that the lookup of the path reads.
  abbrev Seen : ℕ → Type 0
  Seen i =
      (((In i (entries (bucket_of set.exact_anywhere (first (file_name path)))) ⊎ In i set.generic)
          ⊎ In i (entries (bucket_of set.prefixes (first (file_name path)))))
        ⊎ In i (entries (bucket_of set.prefixes (first path))))
      ⊎ In i (entries (bucket_of set.suffixes (last path)))

  -- A rule whose slot is read has been seen.
  Seen-of_slot : (i : ℕ) (slot : Slot) → Filed set i slot → IsRead path slot → Seen i
  Seen-of_slot i (exact_slot key) f r =
      inl (inl (inl (inl (subst (λ o. In i (entries (bucket_of set.exact_anywhere o))) (sym r) f))))
  Seen-of_slot i (prefix_slot key) f (inl r) =
      inl (inl (inr (subst (λ o. In i (entries (bucket_of set.prefixes o))) (sym r) f)))
  Seen-of_slot i (prefix_slot key) f (inr r) =
      inl (inr (subst (λ o. In i (entries (bucket_of set.prefixes o))) (sym r) f))
  Seen-of_slot i (suffix_slot key) f r =
      inr (subst (λ o. In i (entries (bucket_of set.suffixes o))) (sym r) f)
  Seen-of_slot i generic_slot f r = inl (inl (inl (inr f)))

  -- A hit is a rule at its index that matches.
  hit-rule :
      (i : ℕ)
      → hits set path d i ≡ true
      → (r : IgnoreRule) × (get_elem? set.rules i ≡ some r) × (rule_matches r path d ≡ true)
  unfolding hits
  hit-rule i h = elim (Option-cases (get_elem? set.rules i)) [
    | inl e ↦ absurd (ground arith)
    | inr (r, e) ↦ (r, e, ground arith)
  ]

  rule-hit :
      (i : ℕ) (r : IgnoreRule)
      → get_elem? set.rules i ≡ some r
      → rule_matches r path d ≡ true
      → hits set path d i ≡ true
  unfolding hits
  rule-hit i r e m = rw e m

  ascending :
      (n : ℕ) (buckets : Buckets)
      → AreTables n buckets
      → (o : Option ℕ) → IsAscending (entries (bucket_of buckets o))
  ascending n buckets t none = tt
  ascending n buckets t (some key) = (t key).0

  -- Reading the table of the first byte again, where it is the one of the name, would add nothing.
  path_table :
      (seen : ℕ → Type 0) (best : Option ℕ) (o o' : Option ℕ)
      → ((i : ℕ) → In i (entries (bucket_of set.prefixes o')) → seen i)
      → IsBest (hits set path d) seen best
      → IsBest
          (hits set path d)
          (λ i. seen i ⊎ In i (entries (bucket_of set.prefixes o)))
          (if differs o o' then best_in (hits set path d) (bucket_of set.prefixes o) best else best)
  path_table seen best o o' known b = elim (Bool-cases (differs o o')) [
    | inl e ↦ rw e (
        best_in-IsBest (hits set path d) seen (bucket_of set.prefixes o) best
          (ascending _ set.prefixes indexed.tables.fronts o) b)
    | inr e ↦ rw e (record {
      hit = b.hit;
      greatest = λ i s t. elim s [
        | inl s' ↦ b.greatest i s' t
        | inr m ↦
            let same = eq_of_differs o o' e in
            b.greatest i (known i (subst (λ k. In i (entries (bucket_of set.prefixes k))) same m)) t
      ];
    })
  ]

  best_index-IsBest : IsBest (hits set path d) Everything (best_index set path d)
  unfolding best_index
  best_index-IsBest =
      let test = hits set path d in
      let t = indexed.tables in
      let name = first (file_name path) in
      let b1 =
        find_in-IsBest test (bucket_of set.exact_anywhere name)
          (ascending _ set.exact_anywhere t.exacts name) in
      let b2 = best_match-IsBest test _ set.generic _ (t.others).0 b1 in
      let b3 =
        best_in-IsBest test _ (bucket_of set.prefixes name) _
          (ascending _ set.prefixes t.fronts name) b2 in
      let b4 = path_table _ _ (first path) name (λ i m. inr m) b3 in
      let b5 =
        best_in-IsBest test _ (bucket_of set.suffixes (last path)) _
          (ascending _ set.suffixes t.backs (last path)) b4 in
      record {
        hit = b5.hit;
        greatest = λ i _ h.
            let (r, e, m) = hit-rule i h in
            b5.greatest i
              (Seen-of_slot i (slot_of r) (indexed.filed i r e) (slot_of-IsRead r path d m)) h;
      }

  decide_by_best :
      (best : Option ℕ)
      → IsBest (hits set path d) Everything best
      → action_at set best ≡ last_match set.rules path d
  decide_by_best none b = sym (
      last_match-none set.rules path d λ i r e. elim (Bool-cases (rule_matches r path d)) [
        | inl m ↦ absurd (b.greatest i tt (rule-hit i r e m))
        | inr miss ↦ miss
      ])
  decide_by_best (some i) b =
      let (r, e, m) = hit-rule i b.hit in
      rw e (
        sym (
          last_match-some set.rules path d i r e m
            λ j r' e' m'. b.greatest j tt (rule-hit j r' e' m')))

  -- The indexed lookup decides as the last rule that matches.
  pub matches_exact-last_match : matches_exact set path d ≡ last_match set.rules path d
  unfolding matches_exact
  matches_exact-last_match = decide_by_best (best_index set path d) best_index-IsBest

-- The rules pushed in the order of a list.
unfoldable pub push_all : RuleSet → List IgnoreRule → RuleSet
push_all set [] = set
push_all set (rule ∷ rest) = push_all (push set rule) rest

pub push_all-nil : (set : RuleSet) → set ≡ push_all set []
unfolding push_all
push_all-nil set = refl

pub push_all-IsIndexed :
    (set : RuleSet) (rules : List IgnoreRule) → IsIndexed set → IsIndexed (push_all set rules)
unfolding push_all
push_all-IsIndexed set [] h = h
push_all-IsIndexed set (rule ∷ rest) h =
    push_all-IsIndexed (push set rule) rest (push-IsIndexed set rule h)

push-rules : (set : RuleSet) (rule : IgnoreRule) → (push set rule).rules ≡ set.rules ++ rule ∷ []
unfolding push
push-rules set rule =
    ap (λ rs. rs ++ rule ∷ []) (file_index-rules set (length set.rules) (slot_of rule))

pub push_all-rules :
    (set : RuleSet) (rules : List IgnoreRule) → (push_all set rules).rules ≡ set.rules ++ rules
unfolding push_all
push_all-rules set [] = sym (append-nil set.rules)
push_all-rules set (rule ∷ rest) =
    push_all-rules (push set rule) rest
    ∙ ap (λ rs. rs ++ rest) (push-rules set rule)
    ∙ append_assoc set.rules (rule ∷ []) rest

-- A rule set into which rules were pushed one after the other decides on every path as a walk over
-- these rules does in which the last one that matches wins.
pub matches_exact-push_all :
    (rules : List IgnoreRule) (path : Bytes) (is_directory : Bool)
    → matches_exact (push_all empty_rules rules) path is_directory
      ≡ last_match rules path is_directory
matches_exact-push_all rules path is_directory =
    matches_exact-last_match (push_all empty_rules rules) path is_directory
      (push_all-IsIndexed empty_rules rules empty_rules-IsIndexed)
    ∙ ap (λ rs. last_match rs path is_directory) (push_all-rules empty_rules rules)
