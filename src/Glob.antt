-- ===== src/Glob.antt =====
-- src/glob.rs: the matcher behind every ignore rule and path pattern. `*` and `?` stay inside a
-- path component, `**` crosses slashes, `[...]` is a class of bytes, a backslash escapes.
-- `matches_at` keeps its answers in a table. The table is passed along as a state, and `none`
-- stands for a read outside the table or for fuel that ran out (Glob/Memo is about both).
pub mod Class
pub mod Step
pub mod Memo
pub mod Braces
pub mod Literal
mod Samples
use weavatrix_scan.Common.{
  ℕ, zero, suc, ◌+◌, ◌*◌, Bool, true, false, ◌&&◌, ◌||◌, not, Option, none, some, List, [], ◌∷◌,
  ◌==◌, leb, length, get_elem?, set, replicate, if◌then◌else◌,
}
use weavatrix_scan.Text.{Bytes, slash, backslash}
use weavatrix_scan.Path.{is_byte}

infixl 1 ◌>>=◌
abbrev pub ◌>>=◌ : {A B : Type 0} → Option A → (A → Option B) → Option B
none >>= f = none
some a >>= f = f a

-- A byte of a class and the number of bytes that it takes.
unfoldable pub escaped_member : Bytes → ℕ → Option (ℕ × ℕ)
escaped_member pattern index = do
  member ← get_elem? pattern index
  if member == backslash
      then (get_elem? pattern (index + 1) >>= λ escaped. some (escaped, 2))
      else some (member, 1)

-- One member or range, behind which `next` goes on with the new index and `matched`.
unfoldable pub class_item :
    (ℕ → Bool → Option (Bool × ℕ)) → Bytes → ℕ → ℕ → Bool → Option (Bool × ℕ)
class_item next pattern candidate index matched = do
  (start, consumed) ← escaped_member pattern index
  if is_byte (get_elem? pattern (index + consumed)) b'-'
        && not (is_byte (get_elem? pattern (index + consumed + 1)) b']')
      then (escaped_member pattern (index + consumed + 1) >>= λ (end, end_consumed).
          next (index + consumed + (1 + end_consumed))
            (matched || (leb start candidate && leb candidate end)))
      else next (index + consumed) (matched || (candidate == start))

-- The `while let` loop over the members. Each round moves the index on, so the pattern's length is
-- fuel enough (Glob/Class).
unfoldable pub class_loop : ℕ → Bytes → ℕ → Bool → ℕ → Bool → Bool → Option (Bool × ℕ)
class_loop zero pattern candidate negated index matched has_member = none
class_loop (suc fuel) pattern candidate negated index matched has_member = do
  member ← get_elem? pattern index
  if (member == b']') && has_member
      then some (if negated then not matched else matched, index + 1)
      else class_item (λ i m. class_loop fuel pattern candidate negated i m true) pattern candidate
          index matched

abbrev pub is_negation : Option ℕ → Bool
is_negation none = false
is_negation (some c) = (c == b'!') || (c == b'^')

unfoldable pub character_class : Bytes → Bytes → ℕ → ℕ → Option (Bool × ℕ)
character_class pattern value pattern_index value_index = do
  candidate ← get_elem? value value_index
  let negated = is_negation (get_elem? pattern (pattern_index + 1))
  let index = pattern_index + 1 + (if negated then 1 else 0)
  if candidate == slash
      then none
      else class_loop (length pattern) pattern candidate negated index false false

-- The `while` loop of `double_star` over further stars. The pattern's length is fuel enough.
unfoldable pub skip_stars : ℕ → Bytes → ℕ → ℕ
skip_stars zero pattern next = next
skip_stars (suc fuel) pattern next =
    let further = skip_stars fuel pattern (next + 1) in
    if is_byte (get_elem? pattern next) b'*' then further else next

-- The answers of `matches_at`, with its `&&` and `||`. The matcher computes with a table (`memo_ops`
-- below); Glob/Step computes the same recursion without one.
pub record Ops (X : Type 0) : Type 0 where
  pub ret : Bool → X
  pub and_also : Bool → X → X
  pub or_also : X → X → X

abbrev pub is_component_byte : Option ℕ → Bool
is_component_byte none = false
is_component_byte (some c) = not (c == slash)

-- `left == right` on two bytes read by `get`.
abbrev pub byte_eq : Option ℕ → Option ℕ → Bool
byte_eq none none = true
byte_eq none (some y) = false
byte_eq (some x) none = false
byte_eq (some x) (some y) = x == y

module _ {X : Type 0} (ops : Ops X) (rec : ℕ → ℕ → X) (pattern value : Bytes) where
  unfoldable pub double_star : ℕ → ℕ → X
  double_star pattern_index value_index =
      let next = skip_stars (length pattern) pattern (pattern_index + 2) in
      ops.or_also
        (if is_byte (get_elem? pattern next) slash
          then rec (next + 1) value_index
          else rec next value_index)
        (ops.and_also (not (leb (length value) value_index)) (rec pattern_index (value_index + 1)))

  -- The arm for `[`.
  unfoldable pub class_arm : ℕ → ℕ → Option (Bool × ℕ) → X
  class_arm pattern_index value_index (some (class_matches, next_pattern)) =
      ops.and_also class_matches (rec next_pattern (value_index + 1))
  class_arm pattern_index value_index none =
      ops.and_also (is_byte (get_elem? value value_index) b'[')
        (rec (pattern_index + 1) (value_index + 1))

  -- The arms of the `match`, in their order.
  unfoldable pub match_arm : ℕ → ℕ → Option ℕ → X
  match_arm pattern_index value_index none = ops.ret (value_index == length value)
  match_arm pattern_index value_index (some c) =
      if (c == b'*') && is_byte (get_elem? pattern (pattern_index + 1)) b'*'
      then double_star pattern_index value_index
      else if c == b'*'
      then ops.or_also (rec (pattern_index + 1) value_index) (
          ops.and_also (is_component_byte (get_elem? value value_index))
            (rec pattern_index (value_index + 1)))
      else if c == b'?'
      then ops.and_also (is_component_byte (get_elem? value value_index))
          (rec (pattern_index + 1) (value_index + 1))
      else if c == b'['
      then class_arm pattern_index value_index
          (character_class pattern value pattern_index value_index)
      else if (c == backslash) && not (leb (length pattern) (pattern_index + 1))
      then ops.and_also
          (byte_eq (get_elem? value value_index) (get_elem? pattern (pattern_index + 1)))
          (rec (pattern_index + 2) (value_index + 1))
      else ops.and_also (is_byte (get_elem? value value_index) c)
          (rec (pattern_index + 1) (value_index + 1))

abbrev pub Memo : Type 0
Memo = List ℕ

abbrev pub Run : Type 0
Run = Memo → Option (Bool × Memo)

abbrev run_and : Bool → Run → Run
run_and true k memo = k memo
run_and false k memo = some (false, memo)

abbrev pub or_next : Run → Option (Bool × Memo) → Option (Bool × Memo)
or_next k none = none
or_next k (some (true, memo)) = some (true, memo)
or_next k (some (false, memo)) = k memo

abbrev run_or : Run → Run → Run
run_or m k memo = or_next k (m memo)

abbrev pub memo_ops : Ops Run
memo_ops = record { ret = λ b memo. some (b, memo); and_also = run_and; or_also = run_or }

-- How the table spells an answer; 0 stands for none.
abbrev pub mark : Bool → ℕ
mark true = 2
mark false = 1

-- `memo[slot] = if result { 2 } else { 1 }`.
abbrev pub remember : ℕ → Option (Bool × Memo) → Option (Bool × Memo)
remember slot none = none
remember slot (some (result, memo)) = some (result, set memo slot (mark result))

-- The early returns on what the table holds.
abbrev pub recall : ℕ → Run → Memo → Option ℕ → Option (Bool × Memo)
recall slot compute memo none = none
recall slot compute memo (some state) =
    let fresh = remember slot (compute memo) in
    if state == 1 then some (false, memo) else if state == 2 then some (true, memo) else fresh

unfoldable pub matches_at : ℕ → Bytes → Bytes → ℕ → ℕ → ℕ → Run
matches_at zero pattern value width pattern_index value_index memo = none
matches_at (suc fuel) pattern value width pattern_index value_index memo =
    let slot = pattern_index * width + value_index in
    recall slot
      (match_arm memo_ops (matches_at fuel pattern value width) pattern value pattern_index
        value_index (get_elem? pattern pattern_index))
      memo (get_elem? memo slot)

-- The tail of `matches`, behind the brace alternatives: a cleared table and the first call.
unfoldable pub matches_plain : Bytes → Bytes → Option (Bool × Memo)
unfolding matches_at match_arm double_star class_arm character_class class_loop class_item
    escaped_member skip_stars
matches_plain pattern value =
    let width = length value + 1 in
    matches_at (length pattern + length value + 1) pattern value width 0 0
      (replicate ((length pattern + 1) * width) 0)
