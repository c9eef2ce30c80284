-- ===== src/Ignore/Overrides/Laws.antt =====
-- What override patterns decide (src/ignore/overrides.rs).
use weavatrix_scan.Common.{Bool, true, false, Option, none, some, List}
use weavatrix_scan.Text.{Bytes}
use weavatrix_scan.Ignore.{
  RuleAction, ignore, include, IgnoreRule, RepositoryMatch, no_match, override_ignored,
  override_included,
}
use weavatrix_scan.Ignore.Parser.{push_valid, lines, trim_marks}
use weavatrix_scan.Ignore.Parser.Laws.{rules_of}
use weavatrix_scan.Ignore.Overrides.{flip_action, join_lines}

-- The rules of the patterns as lines of an ignore file, in the order of the patterns: there a plain
-- pattern ignores and a negated one includes.
unfoldable pub pattern_rules : List Bytes → Bool → List IgnoreRule
pattern_rules patterns case_insensitive =
    rules_of (lines (trim_marks (push_valid (join_lines patterns)))) case_insensitive

-- The rule comes from a plain pattern.
abbrev pub selects : IgnoreRule → Bool
selects rule = elim rule.action [ ignore ↦ true | include ↦ false ]

-- The decision, from what an ignore file with these lines would decide; the flag says that a path
-- without a decision is ignored.
abbrev pub turned : Option RuleAction → Bool → RepositoryMatch
turned (some ignore) rest_ignored = override_included
turned (some include) rest_ignored = override_ignored
turned none true = override_ignored
turned none false = no_match

abbrev flip_option : Option RuleAction → Option RuleAction
flip_option none = none
flip_option (some action) = some (flip_action action)
