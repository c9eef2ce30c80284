-- ===== src/Delta/Merge.antt =====
-- What the merge of src/delta.rs makes of two sorted manifests.
use mathlib.Core.Path.{subst}
use mathlib.Core.List.{append_assoc, append-nil}
use weavatrix_scan.Common.{
  ℕ, zero, suc, ◌+◌, ◌≤◌, min, ◌≡◌, sym, ap, ◌∙◌, Bool, true, false, not, List, [], ◌∷◌, ◌++◌,
  length, retain, arith, Bool-cases, inl, inr,
}
use weavatrix_scan.Text.{text_eq}
use weavatrix_scan.Text.Laws.{eq_of_text_eq}
use weavatrix_scan.Text.Order.{text_ltb}
use weavatrix_scan.Report.{u64_max, ScannedFile}
use weavatrix_scan.Delta.{
  ModifiedFile, Merged, same_content, push_added, push_removed, push_common, push_pair, merge_loop,
  merge_files, no_changes,
}
use weavatrix_scan.Delta.Lookup.{
  Before, IsAscending, only_in, common, ltb_total, text_eq_comm, Before-trans, look-Before,
  look-head, only_in-later, common-later, only_in-absent, only_in-present, common-absent,
  common-present,
}

abbrev is_same : ModifiedFile → Bool
is_same m = same_content m.previous m.current

abbrev pub kept_pairs : List ModifiedFile → List ModifiedFile
kept_pairs pairs = retain is_same pairs

abbrev pub changed : List ModifiedFile → List ModifiedFile
changed pairs = retain (λ m. not (is_same m)) pairs

-- A delta with more files added, removed and common.
abbrev pub grown : Merged → List ScannedFile → List ScannedFile → List ModifiedFile → Merged
grown d added removed pairs = record {
  added = d.added ++ added;
  removed = d.removed ++ removed;
  modified = d.modified ++ changed pairs;
  unchanged = min (d.unchanged + length (kept_pairs pairs)) u64_max;
}

grown-push_added :
    (d : Merged) (f : ScannedFile) (a r : List ScannedFile) (ps : List ModifiedFile)
    → grown (push_added d f) a r ps ≡ grown d (f ∷ a) r ps
grown-push_added d f a r ps =
    ap (λ t. record (grown d a r ps) { added = t }) (append_assoc d.added (f ∷ []) a)

grown-push_removed :
    (d : Merged) (f : ScannedFile) (a r : List ScannedFile) (ps : List ModifiedFile)
    → grown (push_removed d f) a r ps ≡ grown d a (f ∷ r) ps
grown-push_removed d f a r ps =
    ap (λ t. record (grown d a r ps) { removed = t }) (append_assoc d.removed (f ∷ []) r)

-- A pair more in a list that keeps those that pass a test.
abbrev kept_if : Bool → ModifiedFile → List ModifiedFile → List ModifiedFile
kept_if b m rest = elim b [ true ↦ m ∷ rest | false ↦ rest ]

grown-push_pair :
    (b : Bool) (d : Merged) (f g : ScannedFile) (a r : List ScannedFile) (ps : List ModifiedFile)
    → grown (push_pair b d f g) a r ps ≡ (
        let m : ModifiedFile = record { previous = f; current = g } in
        record {
          added = d.added ++ a;
          removed = d.removed ++ r;
          modified = d.modified ++ kept_if (not b) m (changed ps);
          unchanged = min (d.unchanged + length (kept_if b m (kept_pairs ps))) u64_max;
        })
grown-push_pair true d f g a r ps =
    let sum : min (min (d.unchanged + 1) u64_max + length (kept_pairs ps)) u64_max
        ≡ min (d.unchanged + suc (length (kept_pairs ps))) u64_max =
      omega arith in
    ap (λ n. record (grown d a r ps) { unchanged = n }) sum
grown-push_pair false d f g a r ps =
    ap (λ t. record (grown d a r ps) { modified = t })
      (append_assoc d.modified (record { previous = f; current = g } ∷ []) (changed ps))

grown-push_common :
    (d : Merged) (f g : ScannedFile) (a r : List ScannedFile) (ps : List ModifiedFile)
    → grown (push_common d f g) a r ps ≡ grown d a r (record { previous = f; current = g } ∷ ps)
grown-push_common d f g a r ps = grown-push_pair (same_content f g) d f g a r ps

push_common-le :
    (d : Merged) (f g : ScannedFile)
    → d.unchanged ≤ u64_max
    → (push_common d f g).unchanged ≤ u64_max
push_common-le d f g h = elim (Bool-cases (same_content f g)) [
  | inl e ↦ rw (e, push_common) (omega arith)
  | inr e ↦ rw (e, push_common) h
]

grown-nothing : (d : Merged) → d.unchanged ≤ u64_max → d ≡ grown d [] [] []
grown-nothing d h =
    let n : d.unchanged ≡ min (d.unchanged + 0) u64_max = omega arith in
    λ i. record {
      added = sym (append-nil d.added) i;
      removed = sym (append-nil d.removed) i;
      modified = sym (append-nil d.modified) i;
      unchanged = n i;
    }

-- What the two lists are to change in the end.
abbrev outcome : Merged → List ScannedFile → List ScannedFile → Merged
outcome d previous current =
    grown d (only_in current previous) (only_in previous current) (common previous current)

outcome-added :
    (d : Merged) (g : ScannedFile) (p c : List ScannedFile)
    → Before g.relative p
    → outcome (push_added d g) p c ≡ outcome d p (g ∷ c)
outcome-added d g p c b = grown-push_added d g (only_in c p) (only_in p c) (common p c) ∙ λ i.
    grown d (sym (only_in-absent g c p (look-Before g.relative p b)) i)
      (sym (only_in-later g p c b) i) (sym (common-later g p c b) i)

outcome-removed :
    (d : Merged) (f : ScannedFile) (p c : List ScannedFile)
    → Before f.relative c
    → outcome (push_removed d f) p c ≡ outcome d (f ∷ p) c
outcome-removed d f p c b =
    let none_there = look-Before f.relative c b in
    grown-push_removed d f (only_in c p) (only_in p c) (common p c) ∙ λ i.
    grown d (sym (only_in-later f c p b) i) (sym (only_in-absent f p c none_there) i)
      (sym (common-absent f p c none_there) i)

outcome-common :
    (d : Merged) (f g : ScannedFile) (p c : List ScannedFile)
    → text_eq f.relative g.relative ≡ true
    → Before f.relative p
    → Before g.relative c
    → outcome (push_common d f g) p c ≡ outcome d (f ∷ p) (g ∷ c)
outcome-common d f g p c e bp bc =
    let same = eq_of_text_eq f.relative g.relative e in
    let bp' : Before g.relative p = subst (λ t. Before t p) same bp in
    let bc' : Before f.relative c = subst (λ t. Before t c) (sym same) bc in
    let back = look-head g.relative f p (text_eq_comm g.relative f.relative ∙ e) in
    let forth = look-head f.relative g c e in
    grown-push_common d f g (only_in c p) (only_in p c) (common p c) ∙ λ i.
    grown d (sym (only_in-present g c (f ∷ p) f back ∙ only_in-later f c p bc') i)
      (sym (only_in-present f p (g ∷ c) g forth ∙ only_in-later g p c bp') i)
      (sym
        (common-present f p (g ∷ c) g forth
          ∙ ap (λ t. record { previous = f; current = g } ∷ t) (common-later g p c bp'))
        i)

outcome-nothing : (d : Merged) → d.unchanged ≤ u64_max → d ≡ outcome d [] []
unfolding only_in common
outcome-nothing d h = grown-nothing d h

merge_loop_lem :
    (fuel : ℕ) (p c : List ScannedFile) (d : Merged)
    → length p + length c ≤ fuel
    → IsAscending p
    → IsAscending c
    → d.unchanged ≤ u64_max
    → merge_loop fuel p c d ≡ outcome d p c
unfolding merge_loop
merge_loop_lem zero [] [] d h pa ca u = outcome-nothing d u
merge_loop_lem zero (f ∷ p) c d h pa ca u = absurd (omega arith)
merge_loop_lem zero [] (g ∷ c) d h pa ca u = absurd (omega arith)
merge_loop_lem (suc fuel) [] [] d h pa ca u = outcome-nothing d u
merge_loop_lem (suc fuel) [] (g ∷ c) d h pa ca u =
    merge_loop_lem fuel [] c (push_added d g) (omega arith) tt ca.1 u ∙ outcome-added d g [] c tt
merge_loop_lem (suc fuel) (f ∷ p) [] d h pa ca u =
    merge_loop_lem fuel p [] (push_removed d f) (omega arith) pa.1 tt u
    ∙ outcome-removed d f p [] tt
merge_loop_lem (suc fuel) (f ∷ p) (g ∷ c) d h pa ca u =
    elim (Bool-cases (text_eq f.relative g.relative)) [
      | inl e ↦
          rw (e, merge_loop)
            (merge_loop_lem fuel p c (push_common d f g) (omega arith) pa.1 ca.1
                (push_common-le d f g u)
              ∙ outcome-common d f g p c e pa.0 ca.0)
      | inr e ↦ elim (Bool-cases (text_ltb f.relative g.relative)) [
        | inl l ↦
            rw (e, merge_loop)
              (rw (l, merge_loop)
                (merge_loop_lem fuel p (g ∷ c) (push_removed d f) (omega arith) pa.1 ca u
                  ∙ outcome-removed d f p (g ∷ c) (l, Before-trans f.relative g.relative c l ca.0)))
        | inr l ↦
            let later = ltb_total f.relative g.relative e l in
            rw (e, merge_loop)
              (rw (l, merge_loop)
                (merge_loop_lem fuel (f ∷ p) c (push_added d g) (omega arith) pa ca.1 u
                  ∙ outcome-added d g (f ∷ p) c
                      (later, Before-trans g.relative f.relative p later pa.0)))
      ]
    ]

-- For two manifests in the order of their paths, without repeated paths, the merge ends with exactly
-- the files at paths that only the current one has as added, those at paths that only the previous one
-- has as removed, the pairs at common paths whose contents differ as modified, each in the order of the
-- paths, and with the number of the other pairs, or 2^64 - 1 if that is smaller, as unchanged.
pub merge_files_lem :
    (previous current : List ScannedFile)
    → IsAscending previous
    → IsAscending current
    → merge_files previous current no_changes ≡ record {
      added = only_in current previous;
      removed = only_in previous current;
      modified = changed (common previous current);
      unchanged = min (length (kept_pairs (common previous current))) u64_max;
    }
unfolding merge_files
merge_files_lem previous current p c =
    let pairs = kept_pairs (common previous current) in
    let counted : min (0 + length pairs) u64_max ≡ min (length pairs) u64_max = omega arith in
    merge_loop_lem (length previous + length current) previous current no_changes (omega arith) p c
      (omega arith)
    ∙ ap
        (λ n. record {
          added = only_in current previous;
          removed = only_in previous current;
          modified = changed (common previous current);
          unchanged = n;
        })
        counted
