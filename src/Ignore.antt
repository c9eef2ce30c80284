-- ===== src/Ignore.antt =====
-- src/ignore/mod.rs: the data of the ignore rules. A rule set keeps its rules in the order of their
-- lines, and beside them tables of rule indices by a byte that a matching path must show.
pub mod Matcher
pub mod Parser
pub mod Rules
pub mod Layers
pub mod Overrides
mod Samples
use weavatrix_scan.Common.{ℕ, Bool, true, false, Option, none, some, List, []}
use weavatrix_scan.Text.{Bytes}

pub data RuleAction : Type 0 where
  ignore include : RuleAction

pub data RuleTarget : Type 0 where
  any_target directory : RuleTarget

pub data RuleScope : Type 0 where
  anywhere path_scope anchored : RuleScope

-- What a search through the ancestors of a path found.
pub data RuleMatch : Type 0 where
  exact : RuleAction → RuleMatch
  ancestor : RuleAction → RuleMatch

-- The flags say whether letters of both cases match.
pub data RuleMatcher : Type 0 where
  literal : Bool → RuleMatcher
  prefix : Bytes → Bool → RuleMatcher
  suffix : Bytes → Bool → RuleMatcher
  -- needle, prefix, suffix
  globbed : Option Bytes → Option Bytes → Option Bytes → Bool → RuleMatcher

pub record IgnoreRule : Type 0 where
  pub pattern : Bytes
  pub action : RuleAction
  pub target : RuleTarget
  pub scope : RuleScope
  pub matcher : RuleMatcher

-- `Option<Box<[Vec<usize>; 256]>>`: allocated by the first entry, and indexed by a byte.
abbrev pub Buckets : Type 0
Buckets = Option (ℕ → List ℕ)

pub record RuleSet : Type 0 where
  pub rules : List IgnoreRule
  pub exact_anywhere : Buckets
  pub prefixes : Buckets
  pub suffixes : Buckets
  pub generic : List ℕ

abbrev pub empty_rules : RuleSet
empty_rules = record {
  rules = [];
  exact_anywhere = none;
  prefixes = none;
  suffixes = none;
  generic = [];
}

-- Highest-precedence selection decision for a repository path.
pub data RepositoryMatch : Type 0 where
  no_match ignored included override_ignored override_included hidden : RepositoryMatch

unfoldable pub is_ignored : RepositoryMatch → Bool
is_ignored no_match = false
is_ignored ignored = true
is_ignored included = false
is_ignored override_ignored = true
is_ignored override_included = false
is_ignored hidden = true
