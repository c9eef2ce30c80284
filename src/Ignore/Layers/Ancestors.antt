-- ===== src/Ignore/Layers/Ancestors.antt =====
-- The two ways to match the layers of src/ignore/mod.rs: with the rules on the ancestors of a path, and
-- without them for a path that a traversal has come to.
use mathlib.Core.Path.{subst}
use mathlib.Core.List.{append_assoc}
use weavatrix_scan.Common.{
  ℕ, zero, suc, ◌≤◌, ◌≡◌, ◌⊎◌, refl, sym, ap, ◌∙◌, Bool, true, Option, none, some, [], ◌∷◌, ◌++◌,
  arith, length, Bool-cases, Option-cases, inl, inr,
}
use weavatrix_scan.Text.{Bytes, slash, starts_with, text_eq, rsplit_once}
use weavatrix_scan.Text.Laws.{
  starts_with-append, starts_with→append, starts_with-rsplit, before_split, rsplit_once-lt,
  rsplit_once-Splits, Splits, eq_of_text_eq,
}
use weavatrix_scan.Ignore.{RuleAction, RuleMatch, exact, ancestor, RuleSet}
use weavatrix_scan.Ignore.Rules.{matches_exact, ancestor_match, set_matches}

-- The first path is a directory above the second.
abbrev pub IsAbove : Bytes → Bytes → Type 0
IsAbove above path = (rest : Bytes) × (path ≡ above ++ (slash ∷ rest))

parent-IsAbove :
    (path parent name : Bytes) → rsplit_once slash path ≡ some (parent, name) → IsAbove parent path
parent-IsAbove path parent name e =
    let parts : Splits slash path (some (parent, name)) =
      subst (Splits slash path) e (rsplit_once-Splits slash path) in
    (name, parts.0)

IsAbove-trans : (a b c : Bytes) → IsAbove a b → IsAbove b c → IsAbove a c
IsAbove-trans a b c (r, e) (s, k) =
    (r ++ (slash ∷ s), k ∙ ap (λ t. t ++ (slash ∷ s)) e ∙ append_assoc a (slash ∷ r) (slash ∷ s))

IsAbove-starts_with :
    (above path : Bytes) → IsAbove above path → starts_with (above ++ slash ∷ []) path ≡ true
IsAbove-starts_with above path (rest, e) =
    rw (e, ← append_assoc above (slash ∷ []) rest) (starts_with-append (above ++ slash ∷ []) rest)

starts_with-IsAbove :
    (above path : Bytes) → starts_with (above ++ slash ∷ []) path ≡ true → IsAbove above path
starts_with-IsAbove above path h =
    let (rest, e) = starts_with→append (above ++ slash ∷ []) path h in
    (rest, e ∙ append_assoc above (slash ∷ []) rest)

above-split :
    (path above : Bytes)
    → IsAbove above path
    → before_split slash above (rsplit_once slash path) ≡ true
above-split path above h =
    sym (starts_with-rsplit slash above path) ∙ IsAbove-starts_with above path h

-- A directory above a path is its parent or above its parent.
pub IsAbove-parent :
    (path parent name above : Bytes)
    → rsplit_once slash path ≡ some (parent, name)
    → IsAbove above path
    → (above ≡ parent) ⊎ IsAbove above parent
IsAbove-parent path parent name above e h =
    let split = above-split path above h in
    let k = rw e at split in
    elim (Bool-cases (text_eq parent above)) [
      | inl same ↦ inl (sym (eq_of_text_eq parent above same))
      | inr apart ↦ inr (starts_with-IsAbove above parent (rw apart at k))
    ]

-- A path without a slash has no directory above it.
pub IsAbove-none : (path above : Bytes) → rsplit_once slash path ≡ none → IsAbove above path → ⊥
IsAbove-none path above e h =
    let split = above-split path above h in let k = rw e at split in absurd (cc)

-- What the search through the ancestors of a path says of them.
abbrev Ancestors : RuleSet → Bytes → Option RuleMatch → Type 0
Ancestors set path none = (above : Bytes) → IsAbove above path → matches_exact set above true ≡ none
Ancestors set path (some (exact action)) = ⊥
Ancestors set path (some (ancestor action)) =
    (above : Bytes) × IsAbove above path × (matches_exact set above true ≡ some action)

Ancestors-up :
    (set : RuleSet) (path parent name : Bytes) (r : Option RuleMatch)
    → rsplit_once slash path ≡ some (parent, name)
    → matches_exact set parent true ≡ none
    → Ancestors set parent r
    → Ancestors set path r
Ancestors-up set path parent name none e m h = λ above a.
    elim (IsAbove-parent path parent name above e a) [
      | inl same ↦ rw same m
      | inr higher ↦ h above higher
    ]
Ancestors-up set path parent name (some (exact action)) e m h = h
Ancestors-up set path parent name (some (ancestor action)) e m (above, a, k) =
    (above, IsAbove-trans above parent path a (parent-IsAbove path parent name e), k)

ancestor_match-Ancestors :
    (fuel : ℕ) (set : RuleSet) (path : Bytes)
    → length path ≤ fuel
    → Ancestors set path (ancestor_match fuel set path)
unfolding ancestor_match rsplit_once
ancestor_match-Ancestors zero set [] le = λ above a. absurd (IsAbove-none [] above refl a)
ancestor_match-Ancestors zero set (c ∷ cs) le = absurd (omega arith)
ancestor_match-Ancestors (suc fuel) set path le = elim (Option-cases (rsplit_once slash path)) [
  | inl e ↦ rw (ancestor_match, e) (λ above a. absurd (IsAbove-none path above e a))
  | inr ((parent, name), e) ↦
      rw (ancestor_match, e)
        (elim (Option-cases (matches_exact set parent true)) [
          | inl m ↦ rw m (
              Ancestors-up set path parent name (ancestor_match fuel set parent) e m (
                ancestor_match-Ancestors fuel set parent
                  (omega (arith, rsplit_once-lt slash path e))))
          | inr (action, m) ↦ rw m (parent, parent-IsAbove path parent name e, m)
        ])
]

-- What a rule set says of a path, by the rules on it and on the directories above it.
abbrev pub Says : RuleSet → Bytes → Bool → Option RuleMatch → Type 0
Says set path d none =
    (matches_exact set path d ≡ none)
    × ((above : Bytes) → IsAbove above path → matches_exact set above true ≡ none)
Says set path d (some (exact action)) = matches_exact set path d ≡ some action
Says set path d (some (ancestor action)) =
    (matches_exact set path d ≡ none)
    × (above : Bytes) × IsAbove above path
    × (matches_exact set above true ≡ some action)

pub set_matches-Says :
    (set : RuleSet) (path : Bytes) (d : Bool) → Says set path d (set_matches set path d)
unfolding set_matches
set_matches-Says set path d = elim (Option-cases (matches_exact set path d)) [
  | inr (action, m) ↦ rw (set_matches, m) m
  | inl m ↦
      rw (set_matches, m)
        (go (ancestor_match (length path) set path) m
          (ancestor_match-Ancestors (length path) set path (omega arith)))
]
  where
    go :
        (r : Option RuleMatch)
        → matches_exact set path d ≡ none
        → Ancestors set path r
        → Says set path d r
    go none m h = (m, h)
    go (some (exact action)) m h = absurd h
    go (some (ancestor action)) m (above, a, k) = (m, above, a, k)

-- A rule set that says nothing of a path says nothing of the directories above it.
pub set_matches-above :
    (set : RuleSet) (path above : Bytes) (d : Bool)
    → Says set path d none
    → IsAbove above path
    → set_matches set above true ≡ none
set_matches-above set path above d (m, quiet) a =
    go (set_matches set above true) (set_matches-Says set above true)
  where
    go : (r : Option RuleMatch) → Says set above true r → r ≡ none
    go none h = refl
    go (some (exact action)) h = let q = quiet above a in absurd (cc)
    go (some (ancestor action)) (n, higher, b, h) =
        let q = quiet higher (IsAbove-trans higher above path b a) in absurd (cc)

pub set_matches-exact :
    (set : RuleSet) (path : Bytes) (d : Bool) (action : RuleAction)
    → matches_exact set path d ≡ some action
    → set_matches set path d ≡ some (exact action)
unfolding set_matches
set_matches-exact set path d action m = rw (set_matches, m) refl
