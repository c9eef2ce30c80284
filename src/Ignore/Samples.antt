-- ===== src/Ignore/Samples.antt =====
-- Runs of the rule parser and of rule sets on the inputs of the unit tests, and on rules whose
-- answers differ from those of the glob matcher.
use weavatrix_scan.Common.{◌≡◌, refl, false, Option, some, [], ◌∷◌, ◌++◌}
use weavatrix_scan.Text.{Bytes, bytes, rsplit_once}
use weavatrix_scan.Ignore.{RuleAction, ignore, include, empty_rules}
use weavatrix_scan.Ignore.Matcher.{new, matcher_matches}
use weavatrix_scan.Ignore.Parser.{
  trim_unescaped_trailing_spaces, trim_spaces, leading_backslashes, parse_text, parse_lines, lines,
  trim_marks, parse_rule, parse_marks, finish_rule, validate_pattern, balance_loop,
}
use weavatrix_scan.Ignore.Rules.{
  matches_exact, best_index, hits, rule_matches, file_name, push, slot_of, find, best_match,
  best_loop,
}
use weavatrix_scan.Ignore.Matcher.{is_literal, prefix_key, suffix_key}

keeps_escaped_space : trim_unescaped_trailing_spaces (bytes "name\\  ") ≡ bytes "name\\ "
unfolding trim_unescaped_trailing_spaces trim_spaces leading_backslashes
keeps_escaped_space = refl

-- What a file decides on a path that is no directory.
decide : Bytes → Bytes → Option RuleAction
unfolding parse_text parse_lines lines trim_marks parse_rule parse_marks finish_rule
    validate_pattern balance_loop trim_unescaped_trailing_spaces trim_spaces leading_backslashes new
    matcher_matches matches_exact best_index hits rule_matches file_name push slot_of find
    best_match best_loop is_literal prefix_key suffix_key rsplit_once
decide text path = matches_exact (parse_text text false empty_rules []).0 path false

negation : decide (bytes "*.log" ++ 10 ∷ bytes "!keep.log") (bytes "a/keep.log") ≡ some include
unfolding decide
negation = refl

anchored_star : decide (bytes "/*") (bytes "src/lib.rs") ≡ some ignore
unfolding decide
anchored_star = refl
