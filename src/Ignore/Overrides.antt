-- ===== src/Ignore/Overrides.antt =====
-- src/ignore/overrides.rs: patterns given by the caller, where a plain pattern selects and a negated
-- one ignores, so every action is flipped; with a selecting pattern, unmatched files are ignored.
pub mod Laws
use weavatrix_scan.Common.{
  Bool, true, false, not, ◌&&◌, ◌||◌, Option, none, some, List, [], ◌∷◌, ◌++◌, map, any, ℕ,
  if◌then◌else◌,
}
use weavatrix_scan.Text.{Bytes, is_empty}
use weavatrix_scan.Ignore.{
  RuleAction, ignore, include, IgnoreRule, RuleSet, empty_rules, RepositoryMatch, no_match,
  override_ignored, override_included,
}
use weavatrix_scan.Ignore.Rules.{matches_exact}
use weavatrix_scan.Ignore.Parser.{RuleError, parse_file}

pub record OverrideRules : Type 0 where
  pub rules : RuleSet
  pub has_includes : Bool

abbrev pub flip_action : RuleAction → RuleAction
flip_action ignore = include
flip_action include = ignore

abbrev pub flip_rule : IgnoreRule → IgnoreRule
flip_rule rule = record rule { action = flip_action rule.action }

abbrev pub is_include : IgnoreRule → Bool
is_include rule = elim rule.action [ ignore ↦ false | include ↦ true ]

-- `patterns.join("\n")`.
abbrev pub join_lines : List Bytes → Bytes
join_lines [] = []
join_lines (pattern ∷ []) = pattern
join_lines (pattern ∷ next ∷ rest) = pattern ++ 10 ∷ join_lines (next ∷ rest)

abbrev pub flip_rules : RuleSet → RuleSet
flip_rules set = record set { rules = map flip_rule set.rules }

-- The rules and the errors; the evidence of the source is left out.
unfoldable pub new : List Bytes → Bool → OverrideRules × List (ℕ × RuleError)
new patterns case_insensitive =
    let (set, errors) = parse_file (join_lines patterns) case_insensitive empty_rules [] in
    let rules = flip_rules set in
    if is_empty patterns
    then (record { rules = empty_rules; has_includes = false }, [])
    else (record { rules = rules; has_includes = any is_include rules.rules }, errors)

abbrev pub verdict : Option RuleAction → Bool → RepositoryMatch
verdict (some ignore) unmatched = override_ignored
verdict (some include) unmatched = override_included
verdict none unmatched = if unmatched then override_ignored else no_match

unfoldable pub matched : OverrideRules → Bytes → Bool → RepositoryMatch
matched overrides path is_directory =
    if is_empty overrides.rules.rules
    then no_match
    else verdict (matches_exact overrides.rules path is_directory)
        (overrides.has_includes && not is_directory)
