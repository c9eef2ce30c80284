-- ===== src/Glob/Braces/Groups.antt =====
-- The first brace group of a pattern, read from the text alone: what src/glob.rs finds by two loops over
-- indices.
pub mod Slices
pub mod Loop
pub mod Open
use mathlib.Core.Path.{subst}
use mathlib.Core.List.{append_assoc, append-nil}
use weavatrix_scan.Common.{
  ℕ, zero, suc, ◌+◌, ◌-◌, ◌≤◌, ◌≡◌, refl, sym, ap, ◌∙◌, Bool, true, false, not, ◌&&◌, ◌||◌, Option,
  none, some, List, [], ◌∷◌, ◌++◌, map, ◌==◌, ==_iff, arith, length, take, drop, if◌then◌else◌,
  Bool-cases, inl, inr,
}
use weavatrix_scan.Text.{Bytes, backslash}
use weavatrix_scan.Glob.Braces.{
  find_open, slice, Group, read_group, expanded, class_after, brace_alternatives, group_expansions,
  expansions_at, first_group,
}

-- Whether a character class goes on behind a byte that is not escaped.
abbrev pub is_in_class : ℕ → Bool → Bool
is_in_class byte class = (byte == b'[') || (class && not (byte == b']'))

abbrev pub in_front : ℕ → Option (Bytes × Bytes) → Option (Bytes × Bytes)
in_front byte none = none
in_front byte (some (before, behind)) = some (byte ∷ before, behind)

-- The text in front of the first brace that opens a group, and the text behind that brace. An escaped
-- brace opens none, and no brace in a character class does.
unfoldable pub split_open : Bytes → Bool → Bool → Option (Bytes × Bytes)
split_open [] escaped class = none
split_open (byte ∷ rest) true class = in_front byte (split_open rest false class)
split_open (byte ∷ rest) false class =
    let further = split_open rest (byte == backslash) (is_in_class byte class) in
    if (byte == b'{') && not class then some ([], rest) else in_front byte further

-- The first alternative of a group, the others, and the text behind the group.
abbrev pub Alternatives : Type 0
Alternatives = Option (Bytes × List Bytes × Bytes)

abbrev pub in_first : ℕ → Alternatives → Alternatives
in_first byte none = none
in_first byte (some (first, others, after)) = some (byte ∷ first, others, after)

abbrev pub and_first : Alternatives → Alternatives
and_first none = none
and_first (some (first, others, after)) = some ([], first ∷ others, after)

-- The group that the text goes on with, inside so many groups within it: commas and the closing brace
-- count outside of those and of character classes, where they are not escaped.
unfoldable pub split_group : Bytes → ℕ → Bool → Bool → Alternatives
split_group [] nested escaped class = none
split_group (byte ∷ rest) nested true class = in_first byte (split_group rest nested false class)
split_group (byte ∷ rest) nested false class =
    let opens = (byte == b'{') && not class in
    let closes = (byte == b'}') && not class in
    let inner = if opens then nested + 1 else if closes then nested - 1 else nested in
    let further = split_group rest inner (byte == backslash) (is_in_class byte class) in
    if closes && (nested == 0)
    then some ([], [], rest)
    else if (byte == b',') && (not class && (nested == 0))
    then and_first further
    else in_first byte further

abbrev pub with_group : Bytes → Alternatives → Option (List Bytes)
with_group before none = none
with_group before (some (first, others, after)) =
    some (map (λ alternative. before ++ (alternative ++ after)) (first ∷ others))

abbrev pub with_open : Option (Bytes × Bytes) → Option (List Bytes)
with_open none = none
with_open (some (before, behind)) = with_group before (split_group behind 0 false false)

-- The pattern with its first group replaced by each of the alternatives.
unfoldable pub replacements : Bytes → Option (List Bytes)
replacements pattern = with_open (split_open pattern false false)
