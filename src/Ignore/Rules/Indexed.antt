-- ===== src/Ignore/Rules/Indexed.antt =====
-- The tables of src/ignore/rules.rs: a rule set filled by `push` has ascending tables, and each of
-- its rules stands in the table of its slot.
use weavatrix_scan.Common.{
  ℕ, zero, suc, ◌+◌, ◌<◌, ◌≡◌, refl, ap, ◌⊎◌, inl, inr, none, some, List, [], ◌∷◌, ◌++◌, ◌==◌,
  ==_refl, arith, length, length-append, get_elem?, All, All-imp, All-append, Bool-cases,
  if◌then◌else◌,
}
use weavatrix_scan.Ignore.{IgnoreRule, Buckets, RuleSet, empty_rules}
use weavatrix_scan.Ignore.Rules.{
  Slot, exact_slot, prefix_slot, suffix_slot, generic_slot, slot_of, bucket_push, bucket_ref,
  file_index, push,
}
use weavatrix_scan.Ignore.Rules.Best.{In, In-append_left, In-append_right, IsAscending, entries}

-- A table of indices below `n`, in the order in which they were pushed.
abbrev pub IsTable : ℕ → List ℕ → Type 0
IsTable n xs = IsAscending xs × All (λ i. i < n) xs

IsTable-weaken : (n : ℕ) (xs : List ℕ) → IsTable n xs → IsTable (n + 1) xs
IsTable-weaken n xs h = (h.0, All-imp (λ i l. omega (arith, l)) xs h.1)

IsTable-push : (n : ℕ) (xs : List ℕ) → IsTable n xs → IsTable (n + 1) (xs ++ n ∷ [])
IsTable-push n xs h = (
  ascending xs h.0 h.1,
  All-append (λ i. i < n + 1) xs (n ∷ []) (IsTable-weaken n xs h).1 (omega arith, tt),
)
  where
    ascending : (ys : List ℕ) → IsAscending ys → All (λ i. i < n) ys → IsAscending (ys ++ n ∷ [])
    ascending [] a b = (tt, tt)
    ascending (y ∷ ys) a b =
        (All-append (λ z. y < z) ys (n ∷ []) a.0 (b.0, tt), ascending ys a.1 b.1)

abbrev pub row : Buckets → ℕ → List ℕ
row buckets key = entries (bucket_ref buckets key)

row-bucket_push :
    (buckets : Buckets) (key index k : ℕ)
    → row (bucket_push buckets key index) k
      ≡ (if k == key then row buckets k ++ index ∷ [] else row buckets k)
row-bucket_push none key index k = refl
row-bucket_push (some table) key index k = refl

abbrev pub AreTables : ℕ → Buckets → Type 0
AreTables n buckets = (k : ℕ) → IsTable n (row buckets k)

AreTables-push :
    (n key : ℕ) (buckets : Buckets)
    → AreTables n buckets
    → AreTables (n + 1) (bucket_push buckets key n)
AreTables-push n key buckets h k = elim (Bool-cases (k == key)) [
  | inl e ↦ rw (row-bucket_push buckets key n k) (rw e (IsTable-push n (row buckets k) (h k)))
  | inr e ↦ rw (row-bucket_push buckets key n k) (rw e (IsTable-weaken n (row buckets k) (h k)))
]

AreTables-weaken : (n : ℕ) (buckets : Buckets) → AreTables n buckets → AreTables (n + 1) buckets
AreTables-weaken n buckets h k = IsTable-weaken n (row buckets k) (h k)

-- The index stands in the table of the slot.
abbrev pub Filed : RuleSet → ℕ → Slot → Type 0
Filed set i (exact_slot key) = In i (row set.exact_anywhere key)
Filed set i (prefix_slot key) = In i (row set.prefixes key)
Filed set i (suffix_slot key) = In i (row set.suffixes key)
Filed set i generic_slot = In i set.generic

-- The four kinds of tables, of indices below `n`.
pub record Tables (n : ℕ) (set : RuleSet) : Type 0 where
  pub exacts : AreTables n set.exact_anywhere
  pub fronts : AreTables n set.prefixes
  pub backs : AreTables n set.suffixes
  pub others : IsTable n set.generic

-- Every table is ascending, and every rule is filed in its slot.
pub record IsIndexed (set : RuleSet) : Type 0 where
  pub tables : Tables (length set.rules) set
  pub filed :
      (i : ℕ) (rule : IgnoreRule) → get_elem? set.rules i ≡ some rule → Filed set i (slot_of rule)

pub empty_rules-IsIndexed : IsIndexed empty_rules
empty_rules-IsIndexed = record {
  tables = record {
    exacts = λ k. (tt, tt);
    fronts = λ k. (tt, tt);
    backs = λ k. (tt, tt);
    others = (tt, tt);
  };
  filed = λ i rule e. absurd (cc);
}

In-bucket_push :
    (buckets : Buckets) (key index k i : ℕ)
    → In i (row buckets k)
    → In i (row (bucket_push buckets key index) k)
In-bucket_push buckets key index k i h = elim (Bool-cases (k == key)) [
  | inl e ↦ rw (row-bucket_push buckets key index k) (rw e (In-append_left i _ (index ∷ []) h))
  | inr e ↦ rw (row-bucket_push buckets key index k) (rw e h)
]

In-bucket_push_self :
    (buckets : Buckets) (key index : ℕ) → In index (row (bucket_push buckets key index) key)
In-bucket_push_self buckets key index =
    rw (row-bucket_push buckets key index key)
      (rw (==_refl key) (In-append_right index (row buckets key) (index ∷ []) (inl refl)))

-- Filing an index keeps what was filed, and files the index.
Filed-file_index :
    (set : RuleSet) (n : ℕ) (slot : Slot) (i : ℕ) (other : Slot)
    → Filed set i other
    → Filed (file_index set n slot) i other
Filed-file_index set n (exact_slot key) i (exact_slot k) h =
    In-bucket_push set.exact_anywhere key n k i h
Filed-file_index set n (prefix_slot key) i (prefix_slot k) h =
    In-bucket_push set.prefixes key n k i h
Filed-file_index set n (suffix_slot key) i (suffix_slot k) h =
    In-bucket_push set.suffixes key n k i h
Filed-file_index set n generic_slot i generic_slot h = In-append_left i set.generic (n ∷ []) h
Filed-file_index set n (exact_slot key) i (prefix_slot k) h = h
Filed-file_index set n (exact_slot key) i (suffix_slot k) h = h
Filed-file_index set n (exact_slot key) i generic_slot h = h
Filed-file_index set n (prefix_slot key) i (exact_slot k) h = h
Filed-file_index set n (prefix_slot key) i (suffix_slot k) h = h
Filed-file_index set n (prefix_slot key) i generic_slot h = h
Filed-file_index set n (suffix_slot key) i (exact_slot k) h = h
Filed-file_index set n (suffix_slot key) i (prefix_slot k) h = h
Filed-file_index set n (suffix_slot key) i generic_slot h = h
Filed-file_index set n generic_slot i (exact_slot k) h = h
Filed-file_index set n generic_slot i (prefix_slot k) h = h
Filed-file_index set n generic_slot i (suffix_slot k) h = h

Filed-file_index_self : (set : RuleSet) (n : ℕ) (slot : Slot) → Filed (file_index set n slot) n slot
Filed-file_index_self set n (exact_slot key) = In-bucket_push_self set.exact_anywhere key n
Filed-file_index_self set n (prefix_slot key) = In-bucket_push_self set.prefixes key n
Filed-file_index_self set n (suffix_slot key) = In-bucket_push_self set.suffixes key n
Filed-file_index_self set n generic_slot = In-append_right n set.generic (n ∷ []) (inl refl)

-- What a read at some index of a list with one more element gives.
get_elem?-snoc {ℓ} :
    {A : Type ℓ} (xs : List A) (a : A) (i : ℕ) {b : A}
    → get_elem? (xs ++ a ∷ []) i ≡ some b
    → (get_elem? xs i ≡ some b) ⊎ ((i ≡ length xs) × (a ≡ b))
get_elem?-snoc [] a zero h = inr (refl, cc)
get_elem?-snoc [] a (suc i) h = absurd (cc)
get_elem?-snoc (x ∷ xs) a zero h = inl h
get_elem?-snoc (x ∷ xs) a (suc i) h = elim (get_elem?-snoc xs a i h) [
  | inl e ↦ inl e
  | inr (e, e') ↦ inr (ap suc e, e')
]

module _ (set : RuleSet) (rule : IgnoreRule) (h : IsIndexed set) where
  push-Filed :
      (i : ℕ) (r : IgnoreRule)
      → get_elem? (set.rules ++ rule ∷ []) i ≡ some r
      → Filed (file_index set (length set.rules) (slot_of rule)) i (slot_of r)
  push-Filed i r e = elim (get_elem?-snoc set.rules rule i e) [
    | inl old ↦
        Filed-file_index set (length set.rules) (slot_of rule) i (slot_of r) (h.filed i r old)
    | inr (at_end, same) ↦
        rw (at_end, ← same) (Filed-file_index_self set (length set.rules) (slot_of rule))
  ]

pub file_index-rules :
    (set : RuleSet) (n : ℕ) (slot : Slot) → (file_index set n slot).rules ≡ set.rules
file_index-rules set n (exact_slot key) = refl
file_index-rules set n (prefix_slot key) = refl
file_index-rules set n (suffix_slot key) = refl
file_index-rules set n generic_slot = refl

file_index-Tables :
    (set : RuleSet) (n : ℕ) (slot : Slot) → Tables n set → Tables (n + 1) (file_index set n slot)
file_index-Tables set n (exact_slot key) t = record {
  exacts = AreTables-push n key set.exact_anywhere t.exacts;
  fronts = AreTables-weaken n set.prefixes t.fronts;
  backs = AreTables-weaken n set.suffixes t.backs;
  others = IsTable-weaken n set.generic t.others;
}
file_index-Tables set n (prefix_slot key) t = record {
  exacts = AreTables-weaken n set.exact_anywhere t.exacts;
  fronts = AreTables-push n key set.prefixes t.fronts;
  backs = AreTables-weaken n set.suffixes t.backs;
  others = IsTable-weaken n set.generic t.others;
}
file_index-Tables set n (suffix_slot key) t = record {
  exacts = AreTables-weaken n set.exact_anywhere t.exacts;
  fronts = AreTables-weaken n set.prefixes t.fronts;
  backs = AreTables-push n key set.suffixes t.backs;
  others = IsTable-weaken n set.generic t.others;
}
file_index-Tables set n generic_slot t = record {
  exacts = AreTables-weaken n set.exact_anywhere t.exacts;
  fronts = AreTables-weaken n set.prefixes t.fronts;
  backs = AreTables-weaken n set.suffixes t.backs;
  others = IsTable-push n set.generic t.others;
}

-- Adding a rule keeps the tables in order and files the rule.
pub push-IsIndexed : (set : RuleSet) (rule : IgnoreRule) → IsIndexed set → IsIndexed (push set rule)
unfolding push
push-IsIndexed set rule h =
    let slot = slot_of rule in
    let n = length set.rules in
    let same = file_index-rules set n slot in
    let longer : length ((file_index set n slot).rules ++ rule ∷ []) ≡ n + 1 =
      rw same (omega (arith, length-append set.rules (rule ∷ []))) in
    let t = file_index-Tables set n slot h.tables in
    record {
      tables =
          rw longer
            (record { exacts = t.exacts; fronts = t.fronts; backs = t.backs; others = t.others });
      filed = λ i r e. push-Filed set rule h i r (rw same at e);
    }
