-- ===== src/Glob/Braces.antt =====
-- src/glob.rs: brace alternatives. `matches` replaces the first group `{a,b}` by each of its
-- alternatives in turn and matches what results; a pattern with no group goes to the table.
pub mod Groups
pub mod Laws
use weavatrix_scan.Common.{
  ℕ, zero, suc, ◌+◌, ◌-◌, Bool, true, false, not, ◌&&◌, Option, none, some, List, [], ◌∷◌, ◌++◌,
  map, ◌==◌, length, take, drop, if◌then◌else◌,
}
use weavatrix_scan.Text.{Bytes, backslash}
use weavatrix_scan.Glob.{Memo, matches_plain}

-- What a byte does to the flag `class`; the byte is none of the brace bytes that count.
abbrev pub class_after : ℕ → Bool → Bool
class_after byte class = if byte == b'[' then true else if byte == b']' then false else class

-- The first loop: the index of the first brace that opens a group.
unfoldable pub find_open : Bytes → ℕ → Bool → Bool → Option ℕ
find_open [] index escaped class = none
find_open (byte ∷ rest) index true class = find_open rest (index + 1) false class
find_open (byte ∷ rest) index false class =
    let further = find_open rest (index + 1) (byte == backslash) (class_after byte class) in
    if (byte == b'{') && not class then some index else further

-- `&pattern[from..to]`.
abbrev pub slice : Bytes → ℕ → ℕ → Bytes
slice pattern from to = take (to - from) (drop from pattern)

-- The variables of the second loop.
pub record Group : Type 0 where
  pub depth : ℕ
  pub escaped : Bool
  pub class : Bool
  pub alternative_start : ℕ
  pub alternatives : List Bytes

-- A byte of the group that ends neither the group nor, at depth 1, an alternative.
abbrev pub within_group : ℕ → Group → Group
within_group byte g =
    if (byte == b'{') && not g.class
    then record g { depth = g.depth + 1 }
    else if (byte == b'}') && not g.class
    then record g { depth = g.depth - 1 }
    else record g { escaped = byte == backslash; class = class_after byte g.class }

-- An alternative that a comma ends.
abbrev pub next_alternative : Bytes → ℕ → Group → Group
next_alternative pattern index g = record g {
  alternative_start = index + 1;
  alternatives = g.alternatives ++ slice pattern g.alternative_start index ∷ [];
}

-- The second loop, over the bytes behind the opening brace: the alternatives and the index of the
-- closing brace.
unfoldable pub read_group : Bytes → Bytes → ℕ → Group → Option (List Bytes × ℕ)
read_group pattern [] index g = none
read_group pattern (byte ∷ rest) index g =
    let closing = (byte == b'}') && (not g.class && (g.depth == 1)) in
    let comma = (byte == b',') && (not g.class && (g.depth == 1)) in
    let further = read_group pattern rest (index + 1) (
      if g.escaped
      then record g { escaped = false }
      else if comma
      then next_alternative pattern index g
      else within_group byte g) in
    if not g.escaped && closing
    then some (g.alternatives ++ slice pattern g.alternative_start index ∷ [], index)
    else further

-- `expanded`: the pattern with the group replaced by one alternative.
unfoldable pub expanded : Bytes → ℕ → ℕ → Bytes → Bytes
expanded pattern start end alternative =
    take start pattern ++ (alternative ++ drop (end + 1) pattern)

abbrev pub group_expansions : Bytes → ℕ → Option (List Bytes × ℕ) → Option (List Bytes)
group_expansions pattern start none = none
group_expansions pattern start (some (alternatives, end)) =
    some (map (expanded pattern start end) alternatives)

abbrev pub first_group : ℕ → Group
first_group start = record {
  depth = 1;
  escaped = false;
  class = false;
  alternative_start = start + 1;
  alternatives = [];
}

abbrev pub expansions_at : Bytes → Option ℕ → Option (List Bytes)
expansions_at pattern none = none
expansions_at pattern (some start) =
    group_expansions pattern start
      (read_group pattern (drop (start + 1) pattern) (start + 1) (first_group start))

-- The patterns that replace a pattern with a group; `none` where there is no closed group.
unfoldable pub brace_alternatives : Bytes → Option (List Bytes)
unfolding find_open read_group expanded
brace_alternatives pattern = expansions_at pattern (find_open pattern 0 false false)

abbrev pub plain_answer : Option (Bool × Memo) → Option Bool
plain_answer none = none
plain_answer (some (answer, memo)) = some answer

-- `into_iter().any(test)`, which stops at the first expansion that matches.
abbrev pub any_next : Option Bool → Option Bool → Option Bool
any_next none further = none
any_next (some true) further = some true
any_next (some false) further = further

abbrev pub any_run : (Bytes → Option Bool) → List Bytes → Option Bool
any_run test [] = some false
any_run test (p ∷ ps) = let further = any_run test ps in any_next (test p) further

abbrev pub matches_with : (Bytes → Option Bool) → Option Bool → Option (List Bytes) → Option Bool
matches_with again plain none = plain
matches_with again plain (some patterns) = any_run again patterns

-- Each expansion is shorter than its pattern (Glob/Braces/Laws), so the length is fuel enough.
unfoldable pub matches_fuel : ℕ → Bytes → Bytes → Option Bool
matches_fuel zero value pattern = none
matches_fuel (suc fuel) value pattern =
    matches_with (matches_fuel fuel value) (plain_answer (matches_plain pattern value))
      (brace_alternatives pattern)

unfoldable pub matches : Bytes → Bytes → Option Bool
unfolding matches_fuel brace_alternatives matches_plain
matches pattern value = matches_fuel (length pattern + 1) value pattern
