-- ===== src/PathPattern.antt =====
-- src/path_pattern.rs: validation of a path pattern, with a stack of open braces that counts the
-- patterns without braces that the pattern stands for.
pub mod ClassReading
pub mod ClassErrors
pub mod Positions
use weavatrix_scan.Common.{
  ℕ, zero, suc, ◌+◌, ◌-◌, ◌*◌, Bool, true, false, not, ◌&&◌, Option, none, some, List, [], ◌∷◌,
  ◌==◌, leb, ltb, length, get_elem?, if◌then◌else◌,
}
use weavatrix_scan.Text.{Bytes, backslash}
use weavatrix_scan.Path.{is_byte}
use weavatrix_scan.Glob.{is_negation}
use weavatrix_scan.Report.{saturating_add, saturating_mul}

pub data PathPatternErrorKind : Type 0 where
  empty dangling_escape unclosed_character_class invalid_character_range : PathPatternErrorKind
  empty_brace_alternative unclosed_brace unexpected_closing_brace : PathPatternErrorKind
  expansion_limit_exceeded : PathPatternErrorKind

-- `Result<A, PathPatternError>`; an error has its kind and its position.
pub data Checked (A : Type 0) : Type 0 where
  valid : A → Checked A
  invalid : PathPatternErrorKind → ℕ → Checked A

infixl 1 ◌>>>◌
abbrev pub ◌>>>◌ : {A B : Type 0} → Checked A → (A → Checked B) → Checked B
valid a >>> f = f a
invalid kind position >>> f = invalid kind position

-- A byte of a class and the index behind it.
unfoldable pub class_member : Bytes → ℕ → Checked (ℕ × ℕ)
class_member pattern index = elim (get_elem? pattern index) [
  | none ↦ invalid unclosed_character_class (index - 1)
  | some member ↦ elim (member == backslash) [
    | false ↦ valid (member, index + 1)
    | true ↦ elim (get_elem? pattern (index + 1)) [
      | none ↦ invalid dangling_escape index
      | some escaped ↦ valid (escaped, index + 2)
    ]
  ]
]

-- One member or range, behind which `next` goes on.
unfoldable pub checked_item : (ℕ → Checked ℕ) → Bytes → ℕ → Checked ℕ
checked_item next pattern index = class_member pattern index >>> λ (member, range).
    if is_byte (get_elem? pattern range) b'-' && not (is_byte (get_elem? pattern (range + 1)) b']')
    then (class_member pattern (range + 1) >>> λ (end, behind).
        if ltb end member then invalid invalid_character_range range else next behind)
    else next range

-- The `while` loop over the members. Each round moves the index on, so the length is fuel enough.
unfoldable pub checked_class_loop : ℕ → Bytes → ℕ → ℕ → Bool → Checked ℕ
checked_class_loop zero pattern start index has_member = invalid unclosed_character_class start
checked_class_loop (suc fuel) pattern start index has_member = elim (get_elem? pattern index) [
  | none ↦ invalid unclosed_character_class start
  | some member ↦
      if (member == b']') && has_member
      then valid (index + 1)
      else checked_item (λ i. checked_class_loop fuel pattern start i true) pattern index
]

-- The index behind a class; the flag stands for `members > 0`.
unfoldable pub validate_character_class : Bytes → ℕ → Checked ℕ
validate_character_class pattern start =
    let negated = is_negation (get_elem? pattern (start + 1)) in
    checked_class_loop (length pattern) pattern start (start + 1 + (if negated then 1 else 0)) false

pub record BraceState : Type 0 where
  pub start : ℕ
  pub completed : ℕ
  pub current : ℕ
  pub has_token : Bool

-- `MAX_ALTERNATIVE_EXPANSIONS`.
abbrev max_alternative_expansions : ℕ
max_alternative_expansions = 256

abbrev pub bounded : ℕ → ℕ → Checked ℕ
bounded value position =
    if leb value max_alternative_expansions
    then valid value
    else invalid expansion_limit_exceeded position

abbrev pub bounded_add : ℕ → ℕ → ℕ → Checked ℕ
bounded_add left right position = bounded (saturating_add left right) position

abbrev pub bounded_multiply : ℕ → ℕ → ℕ → Checked ℕ
bounded_multiply left right position = bounded (saturating_mul left right) position

abbrev new_state : ℕ → BraceState
new_state start = record { start = start; completed = 0; current = 1; has_token = false }

unfoldable pub finish_alternative : BraceState → ℕ → Checked BraceState
finish_alternative state position =
    if not state.has_token
    then invalid empty_brace_alternative position
    else (bounded_add state.completed state.current position >>> λ completed.
        valid (record state { completed = completed; current = 1; has_token = false }))

-- `BraceState::finish`.
unfoldable pub finish_group : BraceState → ℕ → Checked (ℕ × ℕ)
finish_group state position =
    finish_alternative state position >>> λ finished. valid (finished.completed, finished.start)

unfoldable pub absorb_count : BraceState → ℕ → ℕ → Checked BraceState
absorb_count state count position = bounded_multiply state.current count position >>> λ current.
    valid (record state { current = current; has_token = true })

-- The stack of braces, the innermost first, and the number of expansions.
pub record Braces : Type 0 where
  pub stack : List BraceState
  pub expansions : ℕ

abbrev pub mark_top : List BraceState → List BraceState
mark_top [] = []
mark_top (state ∷ rest) = record state { has_token = true } ∷ rest

abbrev pub mark_token : Braces → Braces
mark_token b = record b { stack = mark_top b.stack }

abbrev pub finish_top : Braces → ℕ → List BraceState → Checked Braces
finish_top b index [] = valid b
finish_top b index (state ∷ rest) =
    finish_alternative state index >>> λ finished. valid (record b { stack = finished ∷ rest })

-- The count of a closed group goes into the group around it, or into the whole.
abbrev pub absorb_top : Braces → ℕ → ℕ → List BraceState → Checked Braces
absorb_top b count start [] = bounded_multiply b.expansions count start >>> λ expansions.
    valid (record { stack = []; expansions = expansions })
absorb_top b count start (parent ∷ rest) =
    absorb_count parent count start >>> λ absorbed. valid (record b { stack = absorbed ∷ rest })

abbrev pub close_top : Braces → ℕ → List BraceState → Checked Braces
close_top b index [] = invalid unexpected_closing_brace index
close_top b index (state ∷ rest) =
    finish_group state index >>> λ (count, start). absorb_top b count start rest

-- A round of the loop: the index to go on with, and the braces.
unfoldable pub step : Bytes → ℕ → ℕ → Braces → Checked (ℕ × Braces)
step pattern index byte b =
    if byte == backslash
    then (if index + 1 == length pattern
        then invalid dangling_escape index
        else valid (index + 2, mark_token b))
    else if byte == b'['
    then (validate_character_class pattern index >>> λ next. valid (next, mark_token b))
    else if byte == b'{'
    then valid (index + 1, record b { stack = new_state index ∷ b.stack })
    else if byte == b','
    then (finish_top b index b.stack >>> λ closed. valid (index + 1, closed))
    else if byte == b'}'
    then (close_top b index b.stack >>> λ closed. valid (index + 1, closed))
    else valid (index + 1, mark_token b)

unfoldable pub validate_loop : ℕ → Bytes → ℕ → Braces → Checked Braces
validate_loop zero pattern index b = valid b
validate_loop (suc fuel) pattern index b = elim (get_elem? pattern index) [
  | none ↦ valid b
  | some byte ↦ step pattern index byte b >>> λ (next, after). validate_loop fuel pattern next after
]

abbrev pub all_closed : Braces → List BraceState → Checked ℕ
all_closed b [] = valid b.expansions
all_closed b (state ∷ rest) = invalid unclosed_brace state.start

-- `validate`, with the number of expansions that it has counted. Each round moves the index on, so the
-- length is fuel enough.
unfoldable pub validate : Bytes → Checked ℕ
validate [] = invalid empty 0
validate (c ∷ cs) =
    validate_loop (length (c ∷ cs)) (c ∷ cs) 0 (record { stack = []; expansions = 1 }) >>> λ b.
    all_closed b b.stack
