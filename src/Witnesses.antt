-- ===== src/Witnesses.antt =====
-- Each theorem of the list in Lib.antt at a concrete input.
mod Reports
mod Walks
mod Pulls
mod Types
use weavatrix_scan.Common.{
  if◌then◌else◌, ◌≤◌, ◌<◌, Bool, ℕ, length, min, arith, refl, true, none, ◌≡◌, ◌||◌, ◌&&◌, not,
  false, some, List, [], ◌∷◌, ◌++◌, any, All, retain, ap, inl, inr, ◌≢◌, ◌↔◌,
}
use weavatrix_scan.Text.{Bytes, bytes, slash, text_eq, is_empty, starts_with, rsplit_once}
use weavatrix_scan.Path.{is_same_or_descendant, path_covered_by_prefixes, collapse_path_prefixes}
use weavatrix_scan.Path.Cover.{is_under, is_same_or_descendant_lem, path_covered_by_prefixes_lem}
use weavatrix_scan.Path.Collapse.{
  IsAntichain, collapse_path_prefixes-covers, collapse_path_prefixes-IsAntichain,
}
use weavatrix_scan.Glob.{matches_plain, Memo}
use weavatrix_scan.Glob.Memo.{glob, matches_plain_lem}
use weavatrix_scan.Glob.Braces.{matches}
use weavatrix_scan.Glob.Braces.Laws.{expand, matches_lem}
use weavatrix_scan.Ignore.{
  RuleAction, ignore, include, any_target, directory, anywhere, anchored, IgnoreRule, empty_rules,
}
use weavatrix_scan.Ignore.Matcher
use weavatrix_scan.Ignore.Rules.{matches_exact}
use weavatrix_scan.Ignore.Rules.Indexed.{empty_rules-IsIndexed}
use weavatrix_scan.Ignore.Rules.LastWins.{
  last_match, push_all, push_all-IsIndexed, matches_exact-push_all,
}
use weavatrix_scan.Ignore.Parser.{parse_text, lines, trim_marks}
use weavatrix_scan.Ignore.Parser.Laws.{rules_of, errors_of, parse_text-decides}
use weavatrix_scan.Ignore.Layers.{
  IgnoreRules, match_prepared_rules, match_rules, match_loop, candidate_for_base,
}
use weavatrix_scan.Ignore.Layers.Ancestors.{IsAbove, IsAbove-parent, IsAbove-none}
use weavatrix_scan.Ignore.Layers.Precedence.{
  last_stated, ranked, IsIndexedAll, match_prepared_rules_lem,
}
use weavatrix_scan.Ignore.Layers.Prepared.{match_rules-ignores}
use weavatrix_scan.Ignore.Overrides.{matched}
use weavatrix_scan.Ignore.Overrides
use weavatrix_scan.Hash.{new, finish, hex_words}
use weavatrix_scan.Hash.Compress.{words}
use weavatrix_scan.Hash.Padding.{sha256}
use weavatrix_scan.Hash.Digest.{write_all, joined, finish-write_all}
use weavatrix_scan.Report.{ScanReport, u64_max, ScannedFile}
use weavatrix_scan.Delta.{merge_files, no_changes}
use weavatrix_scan.Delta.Lookup.{only_in, common}
use weavatrix_scan.Delta.Merge.{changed, kept_pairs, merge_files_lem}
use weavatrix_scan.Limits.{apply_total_bytes_limit, sort_files}
use weavatrix_scan.Limits.Total.{Cut, apply_total_bytes_limit-Cut}
use weavatrix_scan.Glob.{character_class}
use weavatrix_scan.PathPattern.{
  valid, validate_character_class, checked_class_loop, checked_item, class_member,
}
use weavatrix_scan.PathPattern.ClassReading.{validate_character_class-character_class}
use weavatrix_scan.Cache.{ScanCacheEntry, ScanCache, WatchPlan, apply_watch_plan}
use weavatrix_scan.Cache.Invalidation.{is_stale, apply_watch_plan_lem}
use weavatrix_scan.Glob.Literal.{matches-has_meta}
use weavatrix_scan.Ignore.Matcher.{has_meta}

abbrev logs : IgnoreRule
logs = record {
  pattern = bytes "*.log";
  action = ignore;
  target = any_target;
  scope = anywhere;
  matcher = weavatrix_scan.Ignore.Matcher.new (bytes "*.log") false;
}

abbrev keep : IgnoreRule
keep = record {
  pattern = bytes "keep.log";
  action = include;
  target = any_target;
  scope = anywhere;
  matcher = weavatrix_scan.Ignore.Matcher.new (bytes "keep.log") false;
}

abbrev two_rules : List IgnoreRule
two_rules = logs ∷ keep ∷ []

abbrev kept : Bytes
kept = bytes "src/keep.log"

matches_exact-push_all_example :
    matches_exact (push_all empty_rules two_rules) kept false ≡ last_match two_rules kept false
matches_exact-push_all_example = matches_exact-push_all two_rules kept false

matches_lem_example :
    matches (bytes "{a,b{c,d}}/*.rs") (bytes "bd/x.rs")
    ≡ some (any (λ p. glob p (bytes "bd/x.rs")) (expand (bytes "{a,b{c,d}}/*.rs")))
matches_lem_example = matches_lem (bytes "{a,b{c,d}}/*.rs") (bytes "bd/x.rs")

matches_plain_lem_example :
    (memo : Memo) × (matches_plain (bytes "a/**/[!x]?.rs") (bytes "a/b/yz.rs")
      ≡ some (glob (bytes "a/**/[!x]?.rs") (bytes "a/b/yz.rs"), memo))
matches_plain_lem_example = matches_plain_lem (bytes "a/**/[!x]?.rs") (bytes "a/b/yz.rs")

finish-write_all_example :
    finish (write_all new (bytes "ab" ∷ bytes "c" ∷ []))
    ≡ bytes "sha256:" ++ hex_words (words (sha256 (joined (bytes "ab" ∷ bytes "c" ∷ []))))
finish-write_all_example = finish-write_all (bytes "ab" ∷ bytes "c" ∷ [])

-- A weak source with a rule at the root, and a stronger one with a rule for a directory.
abbrev two_layers : IgnoreRules
two_layers = record {
  layers =
      (record { base = []; rules = push_all empty_rules (logs ∷ []) } ∷ [])
      ∷ (record { base = bytes "src"; rules = push_all empty_rules (keep ∷ []) } ∷ [])
      ∷ [];
}

two_layers-indexed : IsIndexedAll two_layers
two_layers-indexed = (
  (push_all-IsIndexed empty_rules (logs ∷ []) empty_rules-IsIndexed, tt),
  ((push_all-IsIndexed empty_rules (keep ∷ []) empty_rules-IsIndexed, tt), tt),
)

match_prepared_rules_lem_example :
    match_prepared_rules kept false two_layers ≡ last_stated kept false (ranked two_layers.layers)
match_prepared_rules_lem_example = match_prepared_rules_lem kept false two_layers two_layers-indexed

-- Both sources state their rule for the directory.
abbrev src_layers : IgnoreRules
src_layers = record {
  layers =
      (record { base = bytes "src"; rules = push_all empty_rules (logs ∷ []) } ∷ [])
      ∷ (record { base = bytes "src"; rules = push_all empty_rules (keep ∷ []) } ∷ [])
      ∷ [];
}

src_layers-indexed : IsIndexedAll src_layers
src_layers-indexed = (
  (push_all-IsIndexed empty_rules (logs ∷ []) empty_rules-IsIndexed, tt),
  ((push_all-IsIndexed empty_rules (keep ∷ []) empty_rules-IsIndexed, tt), tt),
)

src_unmatched : match_rules (bytes "src") true src_layers ≡ none
unfolding match_rules match_loop candidate_for_base
src_unmatched = refl

kept_parent : rsplit_once slash kept ≡ some (bytes "src", bytes "keep.log")
unfolding rsplit_once
kept_parent = refl

src_parentless : rsplit_once slash (bytes "src") ≡ none
unfolding rsplit_once
src_parentless = refl

kept_reached :
    (above : Bytes) → IsAbove above kept → match_rules above true src_layers ≢ some ignore
kept_reached above a e =
    elim (IsAbove-parent kept (bytes "src") (bytes "keep.log") above kept_parent a) [
      | inl same ↦
          let k = ap (λ t. match_rules t true src_layers) same in
          let u = src_unmatched in absurd (cc)
      | inr higher ↦ absurd (IsAbove-none (bytes "src") above src_parentless higher)
    ]

match_rules-ignores_example :
    (match_rules kept false src_layers ≡ some ignore)
    ↔ (last_stated kept false (ranked src_layers.layers) ≡ some ignore)
match_rules-ignores_example =
    match_rules-ignores kept false src_layers src_layers-indexed kept_reached

abbrev rust_only : List Bytes
rust_only = bytes "*.rs" ∷ bytes "!gen.rs" ∷ []

abbrev ignore_text : Bytes
ignore_text = bytes "# logs" ++ 10 ∷ bytes "*.log" ++ 10 ∷ bytes "a}b"

parse_text-decides_example :
    (matches_exact (parse_text ignore_text false empty_rules []).0 kept false
      ≡ last_match (rules_of (lines (trim_marks ignore_text)) false) kept false)
    × ((parse_text ignore_text false empty_rules []).1
        ≡ errors_of (lines (trim_marks ignore_text)) 0 false)
parse_text-decides_example = parse_text-decides ignore_text false kept false

abbrev three_prefixes : List Bytes
three_prefixes = bytes "src/a" ∷ bytes "src" ∷ bytes "src-x" ∷ []

collapse_path_prefixes-covers_example :
    path_covered_by_prefixes (bytes "src/a/b") (collapse_path_prefixes three_prefixes)
    ≡ any (is_under (bytes "src/a/b")) three_prefixes
collapse_path_prefixes-covers_example =
    collapse_path_prefixes-covers (bytes "src/a/b") three_prefixes

collapse_path_prefixes-IsAntichain_example : IsAntichain (collapse_path_prefixes three_prefixes)
collapse_path_prefixes-IsAntichain_example = collapse_path_prefixes-IsAntichain three_prefixes

is_same_or_descendant_lem_example : is_same_or_descendant (bytes "src/a") (bytes "src") ≡ (
    text_eq (bytes "src/a") (bytes "src")
    || (not (is_empty (bytes "src")) && starts_with (bytes "src" ++ slash ∷ []) (bytes "src/a")))
is_same_or_descendant_lem_example = is_same_or_descendant_lem (bytes "src/a") (bytes "src")

path_covered_by_prefixes_lem_example :
    path_covered_by_prefixes (bytes "src/a/b") three_prefixes
    ≡ any (is_under (bytes "src/a/b")) three_prefixes
path_covered_by_prefixes_lem_example = path_covered_by_prefixes_lem (bytes "src/a/b") three_prefixes

abbrev file_at : Bytes → ℕ → ScannedFile
file_at path size = record {
  absolute = slash ∷ path;
  relative = path;
  bytes = size;
  content_hash = none;
  content_fingerprint = none;
  version = record { modified_ns = none; changed_ns = none; identity = none };
  binary_checked = false;
}

abbrev old_files : List ScannedFile
old_files = file_at (bytes "a") 1 ∷ file_at (bytes "b") 2 ∷ []

abbrev new_files : List ScannedFile
new_files = file_at (bytes "b") 3 ∷ file_at (bytes "c") 4 ∷ []

merge_files_lem_example : merge_files old_files new_files no_changes ≡ record {
  added = only_in new_files old_files;
  removed = only_in old_files new_files;
  modified = changed (common old_files new_files);
  unchanged = min (length (kept_pairs (common old_files new_files))) u64_max;
}
merge_files_lem_example =
    merge_files_lem old_files new_files ((refl, tt), (tt, tt)) ((refl, tt), (tt, tt))

abbrev full_report : ScanReport
full_report = record {
  root = bytes "/r";
  files = new_files;
  skipped = [];
  warnings = [];
  ignore_sources = [];
  revision = [];
  descriptor = record { version = 2; policy = [] };
  complete = true;
  termination = none;
  portable = true;
  cache = record { reused_hashes = 0; content_reads = 0; fingerprint_reads = 0 };
  record_skipped = true;
}

apply_total_bytes_limit-Cut_example :
    Cut (apply_total_bytes_limit (some 5) true full_report) 5 (sort_files new_files)
apply_total_bytes_limit-Cut_example = apply_total_bytes_limit-Cut 5 true full_report (omega arith)

class_validated : validate_character_class (bytes "[!a-c]x") 0 ≡ valid 6
unfolding validate_character_class checked_class_loop checked_item class_member
class_validated = refl

validate_character_class-character_class_example :
    (matched : Bool) × (character_class (bytes "[!a-c]x") (bytes "zx") 0 0 ≡ some (matched, 6))
validate_character_class-character_class_example =
    validate_character_class-character_class (bytes "[!a-c]x") (bytes "zx") 0 0 b'z' 6
      class_validated refl (λ e. absurd (omega (arith, e)))

abbrev cached : Bytes → ScanCacheEntry
cached path = record {
  relative = path;
  bytes = 1;
  content_hash = bytes "sha256:00";
  content_fingerprint = bytes "fp128:00";
  version = record { modified_ns = none; changed_ns = none; identity = none };
  binary_checked = false;
}

abbrev two_cached : ScanCache
two_cached = record {
  format_version = 2;
  root = bytes "/r";
  entries = cached (bytes "src/a") ∷ cached (bytes "src-x") ∷ [];
}

abbrev removed_src : WatchPlan
removed_src = record {
  changed = [];
  removed = bytes "src" ∷ [];
  full_rescan = false;
  rejected_events = 0;
}

apply_watch_plan_lem_example : apply_watch_plan two_cached removed_src ≡ (
    if removed_src.full_rescan
    then (record two_cached { entries = [] }, length two_cached.entries)
    else (
      record two_cached {
        entries = retain (λ entry. not (is_stale removed_src entry)) two_cached.entries;
      },
      length (retain (is_stale removed_src) two_cached.entries),
    ))
apply_watch_plan_lem_example = apply_watch_plan_lem two_cached removed_src

no_meaning : has_meta (bytes "src/lib.rs") ≡ false
unfolding has_meta
no_meaning = refl

matches-has_meta_example :
    matches (bytes "src/lib.rs") (bytes "src/lib")
    ≡ some (text_eq (bytes "src/lib.rs") (bytes "src/lib"))
matches-has_meta_example = matches-has_meta (bytes "src/lib.rs") (bytes "src/lib") no_meaning
