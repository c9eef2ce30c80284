-- ===== src/Ignore/Layers.antt =====
-- The layered rules of src/ignore/mod.rs: six sources from the weakest to the strongest, each a chain
-- of rule sets from the directory of the path up to the root.
pub mod Ancestors
pub mod Below
pub mod Prepared
pub mod Precedence
use mathlib.Core.List.{reverse}
use weavatrix_scan.Common.{
  Bool, true, false, Option, none, some, List, [], ◌∷◌, ◌++◌, if◌then◌else◌,
}
use weavatrix_scan.Text.{Bytes, bytes, slash, is_empty, strip_prefix, text_eq}
use weavatrix_scan.Ignore.{RuleAction, ignore, include, RuleMatch, exact, ancestor, RuleSet}
use weavatrix_scan.Ignore.Rules.{matches_exact, set_matches}

-- `IgnoreLayer`; the chain of its `parent` links is the list that it stands in.
pub record IgnoreLayer : Type 0 where
  pub base : Bytes
  pub rules : RuleSet

-- `IgnoreRules`: one chain for each source, in the order of `SourceRank`.
pub record IgnoreRules : Type 0 where
  pub layers : List (List IgnoreLayer)

data SourceRank : Type 0 where
  git_global git_exclude git_ignore dot_ignore custom explicit : SourceRank

unfoldable source_for_name : Bytes → SourceRank
source_for_name name =
    if text_eq name (bytes ".gitignore")
    then git_ignore
    else if text_eq name (bytes ".ignore")
    then dot_ignore
    else custom

abbrev pub below_slash : Option Bytes → Option Bytes
below_slash none = none
below_slash (some rest) = strip_prefix (slash ∷ []) rest

-- The part of a path below the base of a layer.
unfoldable pub candidate_for_base : Bytes → Bytes → Option Bytes
candidate_for_base path base =
    if is_empty base then some path else below_slash (strip_prefix base path)

abbrev pub exact_below : RuleSet → Bool → Option Bytes → Option RuleAction
exact_below rules is_directory none = none
exact_below rules is_directory (some candidate) = matches_exact rules candidate is_directory

abbrev pub match_below : RuleSet → Bool → Option Bytes → Option RuleMatch
match_below rules is_directory none = none
match_below rules is_directory (some candidate) = set_matches rules candidate is_directory

-- The `if let` chains of the two loops, on one layer.
abbrev pub layer_exact : Bytes → Bool → IgnoreLayer → Option RuleAction
layer_exact path is_directory layer =
    exact_below layer.rules is_directory (candidate_for_base path layer.base)

abbrev pub layer_match : Bytes → Bool → IgnoreLayer → Option RuleMatch
layer_match path is_directory layer =
    match_below layer.rules is_directory (candidate_for_base path layer.base)

-- The layers in the order in which the nested loops visit them.
abbrev pub chained : List (List IgnoreLayer) → List IgnoreLayer
chained [] = []
chained (source ∷ rest) = source ++ chained rest

abbrev pub visited : IgnoreRules → List IgnoreLayer
visited rules = chained (reverse rules.layers)

-- The loops of `match_prepared_rules` and of `match_rules`, which return out of both loops.
unfoldable pub prepared_loop : Bytes → Bool → List IgnoreLayer → Option RuleAction
prepared_loop path is_directory [] = none
prepared_loop path is_directory (layer ∷ rest) = elim (layer_exact path is_directory layer) [
  | some action ↦ some action
  | none ↦ prepared_loop path is_directory rest
]

unfoldable pub match_prepared_rules : Bytes → Bool → IgnoreRules → Option RuleAction
match_prepared_rules path is_directory rules = prepared_loop path is_directory (visited rules)

unfoldable pub match_loop : Bytes → Bool → Bool → List IgnoreLayer → Option RuleAction
match_loop path is_directory ancestor_included [] = if ancestor_included then some include else none
match_loop path is_directory ancestor_included (layer ∷ rest) =
    let after = match_loop path is_directory ancestor_included rest in
    elim (layer_match path is_directory layer) [
      | none ↦ after
      | some (exact action) ↦ some action
      | some (ancestor include) ↦ match_loop path is_directory true rest
      | some (ancestor ignore) ↦ if ancestor_included then after else some ignore
    ]

unfoldable pub match_rules : Bytes → Bool → IgnoreRules → Option RuleAction
match_rules path is_directory rules = match_loop path is_directory false (visited rules)
