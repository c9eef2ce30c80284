-- ===== src/Ignore/Parser.antt =====
-- src/ignore/parser.rs: one line of an ignore file becomes a rule, nothing, or an error; a file's
-- lines are pushed in their order. The text is the one that `normalized_rule_text` yields.
pub mod Laws
use mathlib.Core.List.{reverse}
use weavatrix_scan.Common.{
  ℕ, zero, suc, ◌+◌, ◌-◌, ◌%◌, Bool, true, false, not, ◌&&◌, ◌||◌, Option, none, some, List, [],
  ◌∷◌, ◌++◌, map, ◌==◌, if◌then◌else◌,
}
use weavatrix_scan.Text.{
  Bytes, bytes, slash, backslash, is_empty, starts_with, ends_with, contains_byte, first, last,
}
use weavatrix_scan.Path.{is_byte}
use weavatrix_scan.Ignore.{
  RuleAction, ignore, include, RuleTarget, any_target, directory, RuleScope, anywhere, path_scope,
  anchored, IgnoreRule, RuleSet,
}
use weavatrix_scan.Ignore.Matcher.{new, lower}
use weavatrix_scan.Ignore.Rules.{push}

pub data RuleError : Type 0 where
  unmatched_closing_brace unclosed_alternation : RuleError

-- `Result<Option<IgnoreRule>, &'static str>`.
pub data Parsed : Type 0 where
  rule : IgnoreRule → Parsed
  blank : Parsed
  invalid : RuleError → Parsed

-- The three flags of the loop in `validate_pattern`. An `i32` counts the open braces; it is never
-- negative behind its test, and a line has fewer than 2^31 bytes.
pub record Balance : Type 0 where
  pub escaped : Bool
  pub bracket : Bool
  pub brace : ℕ

abbrev pub balance_after : ℕ → Balance → Balance
balance_after c b =
    if b.escaped
    then record b { escaped = false }
    else if c == backslash
    then record b { escaped = true }
    else if (c == b'[') && not b.bracket
    then record b { bracket = true }
    else if (c == b']') && b.bracket
    then record b { bracket = false }
    else if (c == b'{') && not b.bracket
    then record b { brace = b.brace + 1 }
    else if (c == b'}') && not b.bracket
    then record b { brace = b.brace - 1 }
    else b

-- A closing brace with none open.
abbrev pub closes_nothing : ℕ → Balance → Bool
closes_nothing c b = (c == b'}') && (not b.escaped && (not b.bracket && (b.brace == 0)))

unfoldable pub balance_loop : Bytes → Balance → Option RuleError
balance_loop [] b = if b.brace == 0 then none else some unclosed_alternation
balance_loop (c ∷ rest) b =
    let further = balance_loop rest (balance_after c b) in
    if closes_nothing c b then some unmatched_closing_brace else further

-- `none` where the pattern is valid.
unfoldable pub validate_pattern : Bytes → Option RuleError
validate_pattern pattern =
    balance_loop pattern (record { escaped = false; bracket = false; brace = 0 })

-- The number of backslashes at the front.
unfoldable pub leading_backslashes : Bytes → ℕ
leading_backslashes [] = 0
leading_backslashes (c ∷ rest) = if c == backslash then leading_backslashes rest + 1 else 0

-- The loop of `trim_unescaped_trailing_spaces`, over the line from its end.
unfoldable pub trim_spaces : Bytes → Bytes
trim_spaces [] = []
trim_spaces (c ∷ rest) =
    if (c == b' ') && not (leading_backslashes rest % 2 == 1) then trim_spaces rest else c ∷ rest

unfoldable pub trim_unescaped_trailing_spaces : Bytes → Bytes
trim_unescaped_trailing_spaces line = reverse (trim_spaces (reverse line))

abbrev drop_returns : Bytes → Bytes
drop_returns [] = []
drop_returns (c ∷ rest) = if c == 13 then drop_returns rest else c ∷ rest

-- `raw.trim_end_matches('\r')`.
abbrev pub trim_returns : Bytes → Bytes
trim_returns raw = reverse (drop_returns (reverse raw))

-- `line.remove(0)`.
abbrev pub without_first : Bytes → Bytes
without_first [] = []
without_first (c ∷ rest) = rest

-- `line.pop()`.
abbrev pub without_last : Bytes → Bytes
without_last [] = []
without_last (c ∷ []) = []
without_last (c ∷ d ∷ rest) = c ∷ without_last (d ∷ rest)

abbrev scope_of : Bool → Bytes → RuleScope
scope_of is_anchored line =
    if is_anchored then anchored else if contains_byte slash line then path_scope else anywhere

abbrev checked_rule : Option RuleError → IgnoreRule → Parsed
checked_rule none r = rule r
checked_rule (some error) r = invalid error

-- The end of `parse_rule`, on what the marks have left of the line.
unfoldable pub finish_rule : Bool → Bool → RuleTarget → Bool → Bytes → Parsed
finish_rule case_insensitive negated target is_anchored line =
    if is_empty line
    then blank
    else let text = if case_insensitive then map lower line else line in
      checked_rule (validate_pattern line) (record {
        pattern = text;
        action = if negated then include else ignore;
        target = target;
        scope = scope_of is_anchored text;
        matcher = new text case_insensitive;
      })

-- The marks at both ends of the line.
unfoldable pub parse_marks : Bool → Bool → Bytes → Parsed
parse_marks case_insensitive negated line =
    let escaped_directory = ends_with (backslash ∷ slash ∷ []) line in
    let is_directory = ends_with (slash ∷ []) line in
    let opened =
      if is_directory
      then (if escaped_directory then without_last (without_last line) else without_last line)
      else line in
    let is_anchored = starts_with (slash ∷ []) opened in
    finish_rule case_insensitive negated (if is_directory then directory else any_target)
      is_anchored (if is_anchored then without_first opened else opened)

unfoldable pub parse_rule : Bytes → Bool → Parsed
parse_rule raw case_insensitive =
    let line = trim_unescaped_trailing_spaces (trim_returns raw) in
    let escaped_prefix =
      starts_with (backslash ∷ b'#' ∷ []) line || starts_with (backslash ∷ b'!' ∷ []) line in
    let unescaped = if escaped_prefix then without_first line else line in
    let negated = not escaped_prefix && starts_with (b'!' ∷ []) unescaped in
    if is_empty line
    then blank
    else if not escaped_prefix && starts_with (b'#' ∷ []) line
    then blank
    else parse_marks case_insensitive negated
        (if negated then without_first unescaped else unescaped)

-- `text.lines()`: a line ends at a newline, without a carriage return in front of that; what
-- follows the last newline is a line if it is not empty.
abbrev drop_return : Bytes → Bytes
drop_return [] = []
drop_return (c ∷ []) = if c == 13 then [] else c ∷ []
drop_return (c ∷ d ∷ rest) = c ∷ drop_return (d ∷ rest)

-- The lines of a text, each with its newline's place marked by the flag.
abbrev split_lines : Bytes → List (Bytes × Bool)
split_lines [] = []
split_lines (c ∷ rest) = elim (c == 10) [
  | true ↦ ([], true) ∷ split_lines rest
  | false ↦ elim (split_lines rest) [
    | [] ↦ (c ∷ [], false) ∷ []
    | line ∷ others ↦ (c ∷ line.0, line.1) ∷ others
  ]
]

unfoldable pub lines : Bytes → List Bytes
lines text = map (λ line. if line.1 then drop_return line.0 else line.0) (split_lines text)

-- The three arms for the result of a line; errors carry the number of their line, counted from 1.
abbrev pub take_rule : Parsed → RuleSet → RuleSet
take_rule (rule r) rules = push rules r
take_rule blank rules = rules
take_rule (invalid error) rules = rules

abbrev pub take_error : Parsed → ℕ → List (ℕ × RuleError) → List (ℕ × RuleError)
take_error (rule r) index errors = errors
take_error blank index errors = errors
take_error (invalid error) index errors = errors ++ (index + 1, error) ∷ []

-- The loop of `parse_file_bytes` over the numbered lines.
unfoldable pub parse_lines :
    List Bytes → ℕ → Bool → RuleSet → List (ℕ × RuleError) → RuleSet × List (ℕ × RuleError)
parse_lines [] index case_insensitive rules errors = (rules, errors)
parse_lines (raw ∷ rest) index case_insensitive rules errors =
    let parsed = parse_rule raw case_insensitive in
    parse_lines rest (index + 1) case_insensitive (take_rule parsed rules)
      (take_error parsed index errors)

-- `text.trim_start_matches('\u{feff}')`.
unfoldable pub trim_marks : Bytes → Bytes
trim_marks [] = []
trim_marks (a ∷ []) = a ∷ []
trim_marks (a ∷ b ∷ []) = a ∷ b ∷ []
trim_marks (a ∷ b ∷ c ∷ rest) =
    if (a == 0xef) && ((b == 0xbb) && (c == 0xbf)) then trim_marks rest else a ∷ b ∷ c ∷ rest

unfoldable pub parse_text :
    Bytes → Bool → RuleSet → List (ℕ × RuleError) → RuleSet × List (ℕ × RuleError)
parse_text text case_insensitive rules errors =
    parse_lines (lines (trim_marks text)) 0 case_insensitive rules errors

-- `push_valid` of a text: the percent signs are escaped, as in the paths that the rules meet. In
-- UTF-8 the byte of a percent sign stands for nothing else.
unfoldable pub push_valid : Bytes → Bytes
push_valid [] = []
push_valid (c ∷ rest) =
    let after = push_valid rest in if c == b'%' then bytes "%25" ++ after else c ∷ after

-- `parse_file`, of a text that is valid UTF-8.
abbrev pub parse_file :
    Bytes → Bool → RuleSet → List (ℕ × RuleError) → RuleSet × List (ℕ × RuleError)
parse_file text = parse_text (push_valid text)
