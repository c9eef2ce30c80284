-- ===== src/Glob/Braces/Laws.antt =====
-- The lengths of brace expansions in src/glob.rs, and the patterns that a pattern stands for.
use mathlib.Core.List.{flat_map}
use weavatrix_scan.Common.{
  ℕ, zero, suc, ◌+◌, ◌-◌, ◌≤◌, ◌<◌, ◌≡◌, refl, sym, ap, ◌∙◌, Bool, true, false, not, ◌&&◌, ◌||◌,
  Option, none, some, List, [], ◌∷◌, ◌++◌, ◌==◌, arith, length, length-append, length-take,
  length-drop, take, drop, All, All-imp, All-append, All-map, any, any-append, if◌then◌else◌,
  if_elim,
}
use weavatrix_scan.Text.{Bytes, backslash}
use weavatrix_scan.Glob.{matches_plain}
use weavatrix_scan.Glob.Memo.{glob, matches_plain_lem}
use weavatrix_scan.Glob.Braces.Groups.{replacements}
use weavatrix_scan.Glob.Braces.Groups.Open.{brace_alternatives_lem}
use weavatrix_scan.Glob.Braces.{
  find_open, slice, Group, read_group, within_group, next_alternative, expanded, first_group,
  group_expansions, expansions_at, brace_alternatives, class_after, any_next, any_run, matches_with,
  matches_fuel, matches, plain_answer,
}

abbrev Opens : ℕ → ℕ → Option ℕ → Type 0
Opens from to none = Unit
Opens from to (some start) = (from ≤ start) × (start < to)

Opens-mono : {i j : ℕ} (end : ℕ) (o : Option ℕ) → i ≤ j → Opens j end o → Opens i end o
Opens-mono end none le h = tt
Opens-mono end (some s) le h = omega arith

find_open-Opens :
    (rest : Bytes) (index end : ℕ) (escaped class : Bool)
    → index + length rest ≡ end
    → Opens index end (find_open rest index escaped class)
unfolding find_open
find_open-Opens [] index end escaped class e = tt
find_open-Opens (byte ∷ rest) index end true class e =
    Opens-mono end _ (omega arith) (find_open-Opens rest (index + 1) end false class (omega arith))
find_open-Opens (byte ∷ rest) index end false class e =
    let further = find_open rest (index + 1) (byte == backslash) (class_after byte class) in
    if_elim (Opens index end) ((byte == b'{') && not class) (some index) further (λ _. omega arith)
      (λ _. Opens-mono end further (omega arith) (
        find_open-Opens rest (index + 1) end (byte == backslash) (class_after byte class)
          (omega arith)))

-- An alternative that lies between `from` and `to`.
abbrev Fits : ℕ → ℕ → Bytes → Type 0
Fits from to alternative = from + length alternative ≤ to

length-slice : (pattern : Bytes) (from to : ℕ) → length (slice pattern from to) ≤ to - from
length-slice pattern from to = rw (length-take (to - from) (drop from pattern)) (omega arith)

-- What the second loop knows before it reads the byte at `index`, in a group that begins at `from`.
record GroupFits (from index : ℕ) (g : Group) : Type 0 where
  begun : from ≤ g.alternative_start
  behind : g.alternative_start ≤ index
  fits : All (Fits from index) g.alternatives

module _ (pattern : Bytes) (from : ℕ) where
  abbrev ReadFits : Option (List Bytes × ℕ) → Type 0
  ReadFits none = Unit
  ReadFits (some (alternatives, end)) = (end < length pattern) × All (Fits from end) alternatives

  slice-Fits :
      (index : ℕ) (g : Group)
      → GroupFits from index g
      → All (Fits from index) (g.alternatives ++ slice pattern g.alternative_start index ∷ [])
  slice-Fits index g h =
      All-append (Fits from index) g.alternatives _ h.fits
        (omega (arith, length-slice pattern g.alternative_start index, h.begun, h.behind), tt)

  GroupFits-later : (index : ℕ) (g : Group) → GroupFits from index g → GroupFits from (index + 1) g
  GroupFits-later index g h = record {
    begun = h.begun;
    behind = omega arith;
    fits = All-imp (λ a f. omega (arith, f)) g.alternatives h.fits;
  }

  same_alternatives :
      {index : ℕ} (g : Group) (depth : ℕ) (escaped class : Bool)
      → GroupFits from index g
      → GroupFits from index (record g { depth = depth; escaped = escaped; class = class })
  same_alternatives g depth escaped class h = record {
    begun = h.begun;
    behind = h.behind;
    fits = h.fits;
  }

  within_group-fits :
      (byte index : ℕ) (g : Group)
      → GroupFits from index g
      → GroupFits from index (within_group byte g)
  within_group-fits byte index g h =
      let closes = (byte == b'}') && not g.class in
      let deeper = record g { depth = g.depth + 1 } in
      let shallower = record g { depth = g.depth - 1 } in
      let other = record g { escaped = byte == backslash; class = class_after byte g.class } in
      if_elim (GroupFits from index) ((byte == b'{') && not g.class) deeper
        (if closes then shallower else other)
        (λ _. same_alternatives g (g.depth + 1) g.escaped g.class h)
        (λ _.
          if_elim (GroupFits from index) closes shallower other
            (λ _. same_alternatives g (g.depth - 1) g.escaped g.class h)
            (λ _. same_alternatives g g.depth (byte == backslash) (class_after byte g.class) h))

  read_group-Fits :
      (rest : Bytes) (index : ℕ) (g : Group)
      → index + length rest ≡ length pattern
      → GroupFits from index g
      → ReadFits (read_group pattern rest index g)
  unfolding read_group
  read_group-Fits [] index g e h = tt
  read_group-Fits (byte ∷ rest) index g e h =
      let closing = (byte == b'}') && (not g.class && (g.depth == 1)) in
      let comma = (byte == b',') && (not g.class && (g.depth == 1)) in
      let next =
        if g.escaped
        then record g { escaped = false }
        else if comma
        then next_alternative pattern index g
        else within_group byte g in
      let next_fits : GroupFits from (index + 1) next =
        if_elim (GroupFits from (index + 1)) g.escaped (record g { escaped = false })
          (if comma then next_alternative pattern index g else within_group byte g)
          (λ _. same_alternatives g g.depth false g.class (GroupFits-later index g h))
          (λ _.
            if_elim (GroupFits from (index + 1)) comma (next_alternative pattern index g)
              (within_group byte g)
              (λ _. record {
                begun = omega (arith, h.begun, h.behind);
                behind = omega arith;
                fits = All-imp (λ a f. omega (arith, f)) _ (slice-Fits index g h);
              })
              (λ _. within_group-fits byte (index + 1) g (GroupFits-later index g h))) in
      if_elim ReadFits (not g.escaped && closing)
        (some (g.alternatives ++ slice pattern g.alternative_start index ∷ [], index))
        (read_group pattern rest (index + 1) next) (λ _. (omega arith, slice-Fits index g h))
        (λ _. read_group-Fits rest (index + 1) next (omega arith) next_fits)

  -- What replaces a group that begins at `start` is shorter than the group.
  length-expanded :
      (start end : ℕ) (alternative : Bytes)
      → start + 1 ≡ from
      → end < length pattern
      → Fits from end alternative
      → length (expanded pattern start end alternative) < length pattern
  unfolding expanded
  length-expanded start end alternative e h f = omega (
    arith,
    length-append (take start pattern) (alternative ++ drop (end + 1) pattern),
    length-append alternative (drop (end + 1) pattern),
    length-take start pattern,
    length-drop (end + 1) pattern,
  )

abbrev Shorter : Bytes → Option (List Bytes) → Type 0
Shorter pattern none = Unit
Shorter pattern (some patterns) = All (λ q. length q < length pattern) patterns

expansions_at-Shorter :
    (pattern : Bytes) (o : Option ℕ)
    → Opens 0 (length pattern) o
    → Shorter pattern (expansions_at pattern o)
expansions_at-Shorter pattern none h = tt
expansions_at-Shorter pattern (some start) h = go _ (
    read_group-Fits pattern (start + 1) (drop (start + 1) pattern) (start + 1) (first_group start)
      (omega (arith, length-drop (start + 1) pattern))
      (record { begun = omega arith; behind = omega arith; fits = tt }))
  where
    go :
        (r : Option (List Bytes × ℕ))
        → ReadFits pattern (start + 1) r
        → Shorter pattern (group_expansions pattern start r)
    go none f = tt
    go (some (alternatives, end)) f = All-map _ (expanded pattern start end) alternatives (
        All-imp (λ a fit. length-expanded pattern (start + 1) start end a refl f.0 fit) alternatives
          f.1)

-- Every expansion of a group is shorter than the pattern.
brace_alternatives-Shorter : (pattern : Bytes) → Shorter pattern (brace_alternatives pattern)
unfolding brace_alternatives
brace_alternatives-Shorter pattern =
    expansions_at-Shorter pattern (find_open pattern 0 false false)
      (find_open-Opens pattern 0 (length pattern) false false (omega arith))

abbrev pub expand_with : Bytes → (Bytes → List Bytes) → Option (List Bytes) → List Bytes
expand_with pattern again none = pattern ∷ []
expand_with pattern again (some patterns) = flat_map again patterns

-- All the patterns without a group that a pattern stands for, in the order of its alternatives, by the
-- reading of its first group from the text.
unfoldable pub expand_fuel : ℕ → Bytes → List Bytes
expand_fuel zero pattern = []
expand_fuel (suc fuel) pattern = expand_with pattern (expand_fuel fuel) (replacements pattern)

unfoldable pub expand : Bytes → List Bytes
unfolding expand_fuel replacements
expand pattern = expand_fuel (length pattern + 1) pattern

any_next_lem :
    (a b : Bool) (r s : Option Bool) → r ≡ some a → s ≡ some b → any_next r s ≡ some (a || b)
any_next_lem true b r s h k = rw h refl
any_next_lem false b r s h k = rw h k

any_run_lem :
    (test : Bytes → Option Bool) (again : Bytes → List Bytes) (good : Bytes → Bool)
    (ps : List Bytes)
    → All (λ p. test p ≡ some (any good (again p))) ps
    → any_run test ps ≡ some (any good (flat_map again ps))
unfolding flat_map
any_run_lem test again good [] h = refl
any_run_lem test again good (p ∷ ps) h =
    any_next_lem (any good (again p)) _ _ _ h.0 (any_run_lem test again good ps h.1)
    ∙ ap some (sym (any-append good (again p) (flat_map again ps)))

module _ (value : Bytes) where
  matches_with_lem :
      (fuel : ℕ) (pattern : Bytes) (r : Option (List Bytes))
      → length pattern ≤ fuel
      → Shorter pattern r
      → ((q : Bytes)
          → length q < fuel
          → matches_fuel fuel value q ≡ some (any (λ p. glob p value) (expand_fuel fuel q)))
      → matches_with (matches_fuel fuel value) (plain_answer (matches_plain pattern value)) r
        ≡ some (any (λ p. glob p value) (expand_with pattern (expand_fuel fuel) r))
  matches_with_lem fuel pattern none h s ih =
      let (memo, e) = matches_plain_lem pattern value in
      ap plain_answer e ∙ ap some (or_false (glob pattern value))
    where
      or_false : (b : Bool) → b ≡ (b || false)
      or_false true = refl
      or_false false = refl
  matches_with_lem fuel pattern (some ps) h s ih =
      any_run_lem (matches_fuel fuel value) (expand_fuel fuel) (λ p. glob p value) ps
        (All-imp (λ q shorter. ih q (omega arith)) ps s)

  matches_fuel_lem :
      (fuel : ℕ) (pattern : Bytes)
      → length pattern < fuel
      → matches_fuel fuel value pattern ≡ some (any (λ p. glob p value) (expand_fuel fuel pattern))
  unfolding matches_fuel expand_fuel
  matches_fuel_lem zero pattern h = absurd (omega arith)
  matches_fuel_lem (suc fuel) pattern h = rw (← brace_alternatives_lem pattern) (
      matches_with_lem fuel pattern (brace_alternatives pattern) (omega arith)
        (brace_alternatives-Shorter pattern) (matches_fuel_lem fuel))

-- `matches` ends, and answers whether one of the patterns that the braces stand for matches by the
-- plain recursion. These are read from the text: where it has a group, each of the alternatives
-- between the commas of the group takes its place, between the text in front and the text behind, and
-- what results is read again.
pub matches_lem :
    (pattern value : Bytes)
    → matches pattern value ≡ some (any (λ p. glob p value) (expand pattern))
unfolding matches expand
matches_lem pattern value = matches_fuel_lem value (length pattern + 1) pattern (omega arith)
