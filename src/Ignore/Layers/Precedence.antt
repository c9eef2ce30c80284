-- ===== src/Ignore/Layers/Precedence.antt =====
-- Which rule of the layers of src/ignore/mod.rs decides.
use mathlib.Core.List.{reverse, reverse-cons, append-nil, append_assoc}
use weavatrix_scan.Common.{
  ◌≡◌, refl, sym, ap, All-append, All-reverse, ◌∙◌, Bool, false, Option, none, some, List, [], ◌∷◌,
  ◌++◌, map, All, if◌then◌else◌, Option-cases, inl, inr,
}
use weavatrix_scan.Text.{Bytes}
use weavatrix_scan.Ignore.{RuleAction, IgnoreRule}
use weavatrix_scan.Ignore.Rules.{rule_matches}
use weavatrix_scan.Ignore.Rules.Indexed.{IsIndexed}
use weavatrix_scan.Ignore.Rules.LastWins.{last_match, matches_exact-last_match}
use weavatrix_scan.Ignore.Layers.Below.{part_below, candidate_for_base_lem}
use weavatrix_scan.Ignore.Layers.{
  chained, IgnoreLayer, IgnoreRules, layer_exact, visited, prepared_loop, match_prepared_rules,
}

-- A rule with the directory whose file states it.
pub record Stated : Type 0 where
  pub base : Bytes
  stated : IgnoreRule

abbrev rule_below : IgnoreRule → Bool → Option Bytes → Bool
rule_below rule is_directory none = false
rule_below rule is_directory (some candidate) = rule_matches rule candidate is_directory

-- The rule applies below its directory.
abbrev pub applies : Bytes → Bool → Stated → Bool
applies path is_directory s = rule_below s.stated is_directory (part_below path s.base)

-- The action of the last rule that applies.
unfoldable pub last_stated : Bytes → Bool → List Stated → Option RuleAction
last_stated path d [] = none
last_stated path d (s ∷ rest) = elim (last_stated path d rest) [
  | some action ↦ some action
  | none ↦ if applies path d s then some s.stated.action else none
]

abbrev stated_by : Bytes → List IgnoreRule → List Stated
stated_by base rules = map (λ r. record { base = base; stated = r }) rules

-- The rules of the layers, from the weakest to the strongest.
unfoldable pub statements : List IgnoreLayer → List Stated
statements [] = []
statements (layer ∷ rest) = statements rest ++ stated_by layer.base layer.rules.rules

abbrev pub or_else : Option RuleAction → Option RuleAction → Option RuleAction
or_else (some action) other = some action
or_else none other = other

last_stated-append :
    (path : Bytes) (d : Bool) (xs ys : List Stated)
    → last_stated path d (xs ++ ys) ≡ or_else (last_stated path d ys) (last_stated path d xs)
unfolding last_stated
last_stated-append path d [] ys = elim (Option-cases (last_stated path d ys)) [
  | inl e ↦ rw e refl
  | inr (a, e) ↦ rw e refl
]
last_stated-append path d (s ∷ xs) ys = elim (Option-cases (last_stated path d ys)) [
  | inl e ↦ rw (last_stated-append path d xs ys, e) refl
  | inr (a, e) ↦ rw (last_stated-append path d xs ys, e) refl
]

-- The rules of one layer decide as its rule set does.
last_stated-layer_below :
    (path base : Bytes) (d : Bool) (candidate : Bytes) (rules : List IgnoreRule)
    → part_below path base ≡ some candidate
    → last_stated path d (stated_by base rules) ≡ last_match rules candidate d
unfolding last_stated last_match
last_stated-layer_below path base d candidate [] e = refl
last_stated-layer_below path base d candidate (r ∷ rest) e =
    rw (last_stated-layer_below path base d candidate rest e)
      (elim (Option-cases (last_match rest candidate d)) [
        | inl none_left ↦ rw (none_left, last_match) (rw (e, applies) refl)
        | inr (action, known) ↦ rw (known, last_match) refl
      ])

last_stated-layer_beside :
    (path base : Bytes) (d : Bool) (rules : List IgnoreRule)
    → part_below path base ≡ none
    → last_stated path d (stated_by base rules) ≡ none
unfolding last_stated
last_stated-layer_beside path base d [] e = refl
last_stated-layer_beside path base d (r ∷ rest) e =
    rw (last_stated-layer_beside path base d rest e) (rw (e, applies) refl)

-- The rule set of the layer was filled by `push`.
abbrev IsIndexedLayer : IgnoreLayer → Type 0
IsIndexedLayer layer = IsIndexed layer.rules

layer_exact_lem :
    (path : Bytes) (d : Bool) (layer : IgnoreLayer)
    → IsIndexedLayer layer
    → layer_exact path d layer ≡ last_stated path d (stated_by layer.base layer.rules.rules)
layer_exact_lem path d layer h = elim (Option-cases (part_below path layer.base)) [
  | inl e ↦
      rw (candidate_for_base_lem path layer.base, e)
        (sym (last_stated-layer_beside path layer.base d layer.rules.rules e))
  | inr (candidate, e) ↦
      rw (candidate_for_base_lem path layer.base, e)
        (matches_exact-last_match layer.rules candidate d h
          ∙ sym (last_stated-layer_below path layer.base d candidate layer.rules.rules e))
]

prepared_loop_lem :
    (path : Bytes) (d : Bool) (layers : List IgnoreLayer)
    → All IsIndexedLayer layers
    → prepared_loop path d layers ≡ last_stated path d (statements layers)
unfolding prepared_loop statements last_stated
prepared_loop_lem path d [] h = refl
prepared_loop_lem path d (layer ∷ rest) h =
    let own = stated_by layer.base layer.rules.rules in
    rw (last_stated-append path d (statements rest) own) (
      rw (sym (layer_exact_lem path d layer h.0), sym (prepared_loop_lem path d rest h.1))
        (elim (Option-cases (layer_exact path d layer)) [
          | inl e ↦ rw (e, prepared_loop) refl
          | inr (a, e) ↦ rw (e, prepared_loop) refl
        ]))

-- The rules of the sources, from the weakest to the strongest.
unfoldable pub ranked : List (List IgnoreLayer) → List Stated
ranked [] = []
ranked (source ∷ stronger) = statements source ++ ranked stronger

statements-append :
    (xs ys : List IgnoreLayer) → statements (xs ++ ys) ≡ statements ys ++ statements xs
unfolding statements
statements-append [] ys = sym (append-nil (statements ys))
statements-append (layer ∷ xs) ys =
    rw (statements-append xs ys)
      (append_assoc (statements ys) (statements xs) (stated_by layer.base layer.rules.rules))

chained-append : (xs ys : List (List IgnoreLayer)) → chained (xs ++ ys) ≡ chained xs ++ chained ys
chained-append [] ys = refl
chained-append (source ∷ xs) ys =
    rw (chained-append xs ys) (sym (append_assoc source (chained xs) (chained ys)))

statements-visited :
    (sources : List (List IgnoreLayer)) → statements (chained (reverse sources)) ≡ ranked sources
unfolding ranked statements
statements-visited [] = refl
statements-visited (source ∷ stronger) =
    rw
      (
        reverse-cons source stronger,
        chained-append (reverse stronger) (source ∷ []),
        statements-append (chained (reverse stronger)) (source ++ []),
        append-nil source,
        statements-visited stronger,
      )
      refl

All-chained :
    (P : IgnoreLayer → Type 0) (sources : List (List IgnoreLayer))
    → All (All P) sources
    → All P (chained sources)
All-chained P [] h = tt
All-chained P (source ∷ sources) h =
    All-append P source (chained sources) h.0 (All-chained P sources h.1)

-- The rule sets of all the layers were filled by `push`.
abbrev pub IsIndexedAll : IgnoreRules → Type 0
IsIndexedAll rules = All (All IsIndexedLayer) rules.layers

-- For a path whose ancestors are selected, the sources and layers decide as one list of rules does in
-- which the last rule that applies wins: a stronger source stands behind a weaker one, a deeper
-- directory behind one above it, and a later line behind an earlier one. Each rule applies to paths
-- below the directory that states it. The rule sets of the layers are well indexed.
pub match_prepared_rules_lem :
    (path : Bytes) (is_directory : Bool) (rules : IgnoreRules)
    → IsIndexedAll rules
    → match_prepared_rules path is_directory rules
      ≡ last_stated path is_directory (ranked rules.layers)
unfolding match_prepared_rules
match_prepared_rules_lem path is_directory rules h =
    prepared_loop_lem path is_directory (visited rules)
      (All-chained IsIndexedLayer (reverse rules.layers) (All-reverse (All IsIndexedLayer) _ h))
    ∙ ap (last_stated path is_directory) (statements-visited rules.layers)
