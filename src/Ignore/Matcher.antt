-- ===== src/Ignore/Matcher.antt =====
-- src/ignore/matcher.rs: the matcher of one rule, specialised by the shape of its pattern, with
-- the literal parts of a glob pattern as quick tests in front of the glob matcher.
-- `String::from_utf8` of such a part is its bytes: they are cut from a string at ASCII bytes.
use weavatrix_scan.Common.{
  ℕ, ◌+◌, ◌-◌, Bool, true, false, not, ◌&&◌, ◌||◌, Option, none, some, [], ◌∷◌, ◌++◌, map, ◌==◌,
  leb, ltb, length, get_elem?, take, drop, any, if◌then◌else◌,
}
use weavatrix_scan.Text.{
  Bytes, slash, backslash, text_eq, is_empty, first, last, starts_with, ends_with, contains,
  contains_byte,
}
use weavatrix_scan.Glob.Braces.{matches}
use weavatrix_scan.Ignore.{RuleMatcher, literal, prefix, suffix, globbed}

-- The answer of the glob matcher, which always ends (Glob/Braces/Laws).
abbrev answer_or_false : Option Bool → Bool
answer_or_false none = false
answer_or_false (some b) = b

unfoldable pub glob_matches : Bytes → Bytes → Bool
unfolding matches
glob_matches pattern value = answer_or_false (matches pattern value)

abbrev pub double_star : Bytes
double_star = b'*' ∷ b'*' ∷ []

abbrev pub is_meta : ℕ → Bool
is_meta c = (c == b'*') || ((c == b'?') || ((c == b'[') || ((c == b'{') || (c == backslash))))

unfoldable pub has_meta : Bytes → Bool
has_meta value = any is_meta value

-- The bytes at which a literal part ends, but for brackets and escapes.
abbrev pub is_break : ℕ → Bool
is_break c = (c == b'*') || ((c == b'?') || ((c == b'{') || ((c == b'}') || (c == b','))))

-- Where the scan of a pattern stands: behind a backslash, or inside a class.
pub data Mode : Type 0 where
  plain escaped in_class : Mode

abbrev mode_after : Mode → ℕ → Mode
mode_after plain c = if c == backslash then escaped else if c == b'[' then in_class else plain
mode_after escaped c = plain
mode_after in_class c = if c == b']' then plain else in_class

-- Whether a byte belongs to the literal part that is being read.
abbrev is_literal_byte : Mode → ℕ → Bool
is_literal_byte plain c = not ((c == backslash) || ((c == b'[') || is_break c))
is_literal_byte escaped c = true
is_literal_byte in_class c = false

-- Whether a byte ends the literal part that is being read.
abbrev ends_literal : Mode → ℕ → Bool
ends_literal plain c = (c == b'[') || is_break c
ends_literal escaped c = false
ends_literal in_class c = false

-- The longer of two parts, the earlier one if they are as long.
abbrev retain_longest : Bytes → Bytes → Bytes
retain_longest current longest = if ltb (length longest) (length current) then current else longest

longest_loop : Bytes → Mode → Bytes → Bytes → Bytes
longest_loop [] mode current longest = retain_longest current longest
longest_loop (c ∷ rest) mode current longest =
    longest_loop rest (mode_after mode c)
      (if ends_literal mode c
        then []
        else if is_literal_byte mode c
        then current ++ c ∷ []
        else current)
      (if ends_literal mode c then retain_longest current longest else longest)

unfoldable pub longest_literal : Bytes → Option Bytes
unfolding longest_loop
longest_literal pattern =
    let longest = longest_loop pattern plain [] [] in
    if leb 2 (length longest) then some longest else none

-- The literal part at the front of a pattern (`prefix`), where the scan breaks off at its end, or at
-- the back.
edge_loop : Bool → Bytes → Mode → Bytes → Bytes
edge_loop front [] mode current = current
edge_loop front (c ∷ rest) mode current =
    let further = edge_loop front rest (mode_after mode c) (
      if ends_literal mode c
      then []
      else if is_literal_byte mode c
      then current ++ c ∷ []
      else current) in
    if front && ends_literal mode c then current else further

-- `edge.remove(0)` if the edge begins with a slash.
abbrev without_slash : Bytes → Bytes
without_slash [] = []
without_slash (c ∷ rest) = if c == slash then rest else c ∷ rest

unfoldable pub edge_literal : Bytes → Bool → Option Bytes
unfolding edge_loop
edge_literal pattern front =
    let current = edge_loop front pattern plain [] in
    let edge =
      if not front && contains (double_star ++ slash ∷ []) pattern
      then without_slash current
      else current in
    if is_empty edge then none else some edge

-- `RuleMatcher::glob`.
unfoldable pub glob_matcher : Bytes → Bool → RuleMatcher
unfolding longest_literal edge_literal
glob_matcher pattern case_insensitive =
    globbed
      (if not (contains_byte b'{' pattern) && not (contains double_star pattern)
        then longest_literal pattern
        else none)
      (edge_literal pattern true) (edge_literal pattern false) case_insensitive

-- `pattern.strip_prefix('*').filter(|value| !has_meta(value))`.
abbrev pub literal_suffix : Bytes → Option Bytes
literal_suffix [] = none
literal_suffix (c ∷ rest) = if (c == b'*') && not (has_meta rest) then some rest else none

abbrev pub strip_last : ℕ → Bytes → Option Bytes
strip_last c [] = none
strip_last c (x ∷ []) = if x == c then some [] else none
strip_last c (x ∷ y ∷ ys) = elim (strip_last c (y ∷ ys)) [ none ↦ none | some zs ↦ some (x ∷ zs) ]

-- `pattern.strip_suffix('*').filter(|value| !has_meta(value))`.
abbrev pub literal_prefix_of : Option Bytes → Option Bytes
literal_prefix_of none = none
literal_prefix_of (some front) = if not (has_meta front) then some front else none

abbrev affix_matcher : Bytes → Bool → Option Bytes → Option Bytes → RuleMatcher
affix_matcher pattern case_insensitive (some back) front = suffix back case_insensitive
affix_matcher pattern case_insensitive none (some front) = prefix front case_insensitive
affix_matcher pattern case_insensitive none none = glob_matcher pattern case_insensitive

-- `RuleMatcher::new`.
unfoldable pub new : Bytes → Bool → RuleMatcher
unfolding glob_matcher has_meta
new pattern case_insensitive =
    if contains_byte b'{' pattern || contains double_star pattern
    then glob_matcher pattern case_insensitive
    else if not (has_meta pattern)
    then literal case_insensitive
    else affix_matcher pattern case_insensitive (literal_suffix pattern)
        (literal_prefix_of (strip_last b'*' pattern))

unfoldable pub is_literal : RuleMatcher → Bool
is_literal (literal case_insensitive) = not case_insensitive
is_literal (prefix text case_insensitive) = false
is_literal (suffix text case_insensitive) = false
is_literal (globbed needle front back case_insensitive) = false

abbrev first_of_option : Option Bytes → Option ℕ
first_of_option none = none
first_of_option (some text) = first text

-- The byte that a matching text begins with, where the matcher fixes one.
unfoldable pub prefix_key : RuleMatcher → Bytes → Option ℕ
prefix_key (prefix text false) pattern = first text
prefix_key (prefix text true) pattern = none
prefix_key (globbed needle front back false) pattern = first_of_option front
prefix_key (globbed needle front back true) pattern = none
prefix_key (literal false) pattern = first pattern
prefix_key (literal true) pattern = none
prefix_key (suffix text case_insensitive) pattern = none

-- The byte that a matching text ends with, where the matcher fixes one.
unfoldable pub suffix_key : RuleMatcher → Bytes → Option ℕ
suffix_key (suffix text false) pattern = last text
suffix_key (suffix text true) pattern = none
suffix_key (literal false) pattern = last pattern
suffix_key (literal true) pattern = none
suffix_key (prefix text case_insensitive) pattern = none
suffix_key (globbed needle front back case_insensitive) pattern = none

abbrev pub lower : ℕ → ℕ
lower c = if leb b'A' c && leb c b'Z' then c + 32 else c

unfoldable pub eq_ignore_ascii_case : Bytes → Bytes → Bool
eq_ignore_ascii_case a b = text_eq (map lower a) (map lower b)

-- `text.is_char_boundary(index)`: the end, or a byte that continues no character.
abbrev is_char_boundary : Bytes → ℕ → Bool
is_char_boundary text index = elim (get_elem? text index) [
  | none ↦ index == length text
  | some c ↦ not (leb 0x80 c && leb c 0xbf)
]

-- `option.is_none_or(test)`.
abbrev none_or : Option Bytes → (Bytes → Bool) → Bool
none_or none test = true
none_or (some text) test = test text

abbrev glob_with_tests : Option Bytes → Option Bytes → Option Bytes → Bytes → Bytes → Bool
glob_with_tests needle front back pattern value =
    none_or front (λ text. starts_with text value)
    && (none_or back (λ text. ends_with text value)
        && (none_or needle (λ text. contains text value) && glob_matches pattern value))

unfoldable pub matcher_matches : RuleMatcher → Bytes → Bytes → Bool
unfolding eq_ignore_ascii_case glob_matches
matcher_matches (literal false) pattern value = text_eq pattern value
matcher_matches (literal true) pattern value = eq_ignore_ascii_case pattern value
matcher_matches (prefix text false) pattern value = starts_with text value
matcher_matches (suffix text false) pattern value = ends_with text value
matcher_matches (globbed needle front back false) pattern value =
    glob_with_tests needle front back pattern value
matcher_matches (prefix text true) pattern value =
    is_char_boundary value (length text) && eq_ignore_ascii_case (take (length text) value) text
matcher_matches (suffix text true) pattern value =
    is_char_boundary value (length value - length text)
    && eq_ignore_ascii_case (drop (length value - length text) value) text
matcher_matches (globbed needle front back true) pattern value =
    glob_with_tests needle front back pattern (map lower value)
