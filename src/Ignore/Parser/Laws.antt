-- ===== src/Ignore/Parser/Laws.antt =====
-- What a file's lines make of a rule set (src/ignore/parser.rs).
use mathlib.Core.List.{append-nil, append_assoc}
use weavatrix_scan.Common.{ℕ, ◌+◌, ◌≡◌, refl, sym, ap, ◌∙◌, Bool, List, [], ◌∷◌, ◌++◌}
use weavatrix_scan.Text.{Bytes}
use weavatrix_scan.Ignore.{IgnoreRule, RuleSet, empty_rules}
use weavatrix_scan.Ignore.Parser.{
  Parsed, rule, blank, invalid, RuleError, parse_rule, parse_lines, take_rule, take_error,
  parse_text, lines, trim_marks,
}
use weavatrix_scan.Ignore.Rules.{matches_exact}
use weavatrix_scan.Ignore.Rules.LastWins.{
  push_all, push_all-nil, last_match, matches_exact-push_all,
}

abbrev and_rule : Parsed → List IgnoreRule → List IgnoreRule
and_rule (rule r) rest = r ∷ rest
and_rule blank rest = rest
and_rule (invalid error) rest = rest

-- The rules that the lines of a file state, in their order.
unfoldable pub rules_of : List Bytes → Bool → List IgnoreRule
rules_of [] case_insensitive = []
rules_of (raw ∷ rest) case_insensitive =
    and_rule (parse_rule raw case_insensitive) (rules_of rest case_insensitive)

abbrev and_error : Parsed → ℕ → List (ℕ × RuleError) → List (ℕ × RuleError)
and_error (rule r) index rest = rest
and_error blank index rest = rest
and_error (invalid error) index rest = (index + 1, error) ∷ rest

-- The errors of the lines, each with the number of its line.
unfoldable pub errors_of : List Bytes → ℕ → Bool → List (ℕ × RuleError)
errors_of [] index case_insensitive = []
errors_of (raw ∷ rest) index case_insensitive =
    and_error (parse_rule raw case_insensitive) index (errors_of rest (index + 1) case_insensitive)

take_rule_lem :
    (p : Parsed) (set : RuleSet) (rest : List IgnoreRule)
    → push_all (take_rule p set) rest ≡ push_all set (and_rule p rest)
unfolding push_all
take_rule_lem (rule r) set rest = refl
take_rule_lem blank set rest = refl
take_rule_lem (invalid error) set rest = refl

take_error_lem :
    (p : Parsed) (index : ℕ) (errors rest : List (ℕ × RuleError))
    → take_error p index errors ++ rest ≡ errors ++ and_error p index rest
take_error_lem (rule r) index errors rest = refl
take_error_lem blank index errors rest = refl
take_error_lem (invalid error) index errors rest =
    append_assoc errors ((index + 1, error) ∷ []) rest

parse_lines_lem :
    (raws : List Bytes) (index : ℕ) (ci : Bool) (set : RuleSet) (errors : List (ℕ × RuleError))
    → parse_lines raws index ci set errors
      ≡ (push_all set (rules_of raws ci), errors ++ errors_of raws index ci)
unfolding parse_lines rules_of errors_of
parse_lines_lem [] index ci set errors = λ i. (push_all-nil set i, sym (append-nil errors) i)
parse_lines_lem (raw ∷ rest) index ci set errors =
    let p = parse_rule raw ci in
    parse_lines_lem rest (index + 1) ci (take_rule p set) (take_error p index errors) ∙ (λ i. (
      take_rule_lem p set (rules_of rest ci) i,
      take_error_lem p index errors (errors_of rest (index + 1) ci) i,
    ))

pub parse_text_lem :
    (text : Bytes) (case_insensitive : Bool)
    → parse_text text case_insensitive empty_rules [] ≡ (
      push_all empty_rules (rules_of (lines (trim_marks text)) case_insensitive),
      errors_of (lines (trim_marks text)) 0 case_insensitive,
    )
unfolding parse_text
parse_text_lem text ci = parse_lines_lem (lines (trim_marks text)) 0 ci empty_rules []

-- A file decides on every path as its last rule that matches; the lines with errors are reported in
-- their order and state no rule.
pub parse_text-decides :
    (text : Bytes) (case_insensitive : Bool) (path : Bytes) (is_directory : Bool)
    → (matches_exact (parse_text text case_insensitive empty_rules []).0 path is_directory
        ≡ last_match (rules_of (lines (trim_marks text)) case_insensitive) path is_directory)
      × ((parse_text text case_insensitive empty_rules []).1
          ≡ errors_of (lines (trim_marks text)) 0 case_insensitive)
parse_text-decides text ci path d =
    let raws = lines (trim_marks text) in
    (
      ap (λ r. matches_exact r.0 path d) (parse_text_lem text ci)
          ∙ matches_exact-push_all (rules_of raws ci) path d,
      ap (λ r. r.1) (parse_text_lem text ci),
    )
