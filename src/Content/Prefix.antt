-- ===== src/Content/Prefix.antt =====
-- What a bounded read of src/content/bounded.rs delivers to a sink that collects the chunks, as the
-- reader of src/snapshot.rs does.
use mathlib.Core.Path.{subst}
use mathlib.Core.List.{append_assoc, append-nil}
use weavatrix_scan.Common.{
  ℕ, zero, suc, ◌+◌, ◌-◌, ◌≤◌, ◌<◌, min, ◌≡◌, ◌≢◌, refl, sym, ap, ◌∙◌, Bool, true, false, Option,
  none, some, [], ◌∷◌, ◌++◌, ◌⊎◌, inl, inr, ◌==◌, leb, ltb, ltb→lt, length, length-append,
  length-take, take, drop, take-append-drop, take-ge, arith, Bool-cases, Option-cases,
  if◌then◌else◌,
}
use weavatrix_scan.Text.{Bytes}
use weavatrix_scan.Report.{saturating_add, u64_max}
use weavatrix_scan.Content.{
  BoundedReadLimits, BoundedReadStatus, complete, stopped, grown, cancelled, deadline, Interrupt,
  cancel, past_deadline, status_of, content_limit, max_io_bytes, after_chunk, after_read, read_loop,
  read_bounded,
}

-- A sink that keeps every chunk and never stops.
abbrev pub collect {ℓ} : {E : Type ℓ} → Bytes → Bytes → E ⊎ (Bool × Bytes)
collect collected chunk = inr (true, collected ++ chunk)

-- The documented behaviour of a reader: `rest` is what it has not given yet, it gives the front of that,
-- and nothing only at the end.
abbrev pub Gives : {S E : Type 0} → (S → Bytes) → S → E ⊎ (Bytes × S) → Type 0
Gives rest reader (inl error) = Unit
Gives rest reader (inr ([], after)) = rest reader ≡ []
Gives rest reader (inr (b ∷ bs, after)) = rest reader ≡ (b ∷ bs) ++ rest after

-- What the status says of the content that was collected, and of all that the reader had to give.
abbrev Says : BoundedReadStatus → Bytes → Bytes → ℕ → Type 0
Says complete collected whole limit = collected ≡ whole
Says grown collected whole limit = (length collected ≡ limit) × (limit < length whole)
Says stopped collected whole limit = ⊥
Says cancelled collected whole limit = Unit
Says deadline collected whole limit = Unit

-- The collected content is the front of the whole, of the length that is returned, within the limit.
abbrev pub Delivers :
    {E : Type 0} → Bytes → ℕ → Option (E ⊎ (ℕ × BoundedReadStatus × Bytes)) → Type 0
Delivers whole limit none = ⊥
Delivers whole limit (some (inl error)) = Unit
Delivers whole limit (some (inr (count, status, collected))) =
    (count ≡ length collected)
    × (count ≤ limit)
    × ((tail : Bytes) × (whole ≡ collected ++ tail))
    × Says status collected whole limit

if_true {ℓ} : {A : Type ℓ} {t : Bool} (x y : A) → t ≡ true → (if t then x else y) ≡ x
if_true x y e = rw e refl

if_false {ℓ} : {A : Type ℓ} {t : Bool} (x y : A) → t ≡ false → (if t then x else y) ≡ y
if_false x y e = rw e refl

length-emit :
    (collected data_read : Bytes) (room : ℕ)
    → length (collected ++ take room data_read) ≡ length collected + min room (length data_read)
length-emit collected data_read room =
    omega (arith, length-append collected (take room data_read), length-take room data_read)

parts : (n : ℕ) (xs ys : Bytes) → xs ++ ys ≡ take n xs ++ (drop n xs ++ ys)
parts n xs ys =
    ap (λ t. t ++ ys) (sym (take-append-drop n xs)) ∙ append_assoc (take n xs) (drop n xs) ys

leb-false : (a b : ℕ) → b < a → leb a b ≡ false
leb-false a b h = ground arith

==-false : (a b : ℕ) → a ≢ b → (a == b) ≡ false
==-false a b h = ground arith

not_ltb : (a b : ℕ) → ltb a b ≡ false → b ≤ a
not_ltb a b h = ground arith

module _ {S E : Type 0} (read : S → ℕ → E ⊎ (Bytes × S)) (interrupted : ℕ → Option Interrupt)
    (buffer_len : ℕ) (limits : BoundedReadLimits) where
  abbrev Run : Type 0
  Run = Option (E ⊎ (ℕ × BoundedReadStatus × Bytes))

  -- Growth is found behind a chunk that `collected` has not got whole.
  grown-Delivers :
      (whole collected data_read after : Bytes)
      → whole ≡ collected ++ (data_read ++ after)
      → length collected ≤ content_limit limits
      → content_limit limits < length collected + length data_read
      → Delivers {E = E} whole (content_limit limits) (
          some (
            inr (
              content_limit limits,
              grown,
              collected ++ take (content_limit limits - length collected) data_read,
            )))
  grown-Delivers whole collected data_read after e h big =
      let room : ℕ = content_limit limits - length collected in
      let same : content_limit limits ≡ length (collected ++ take room data_read) =
        omega (arith, length-emit collected data_read room) in
      let split : whole ≡ (collected ++ take room data_read) ++ (drop room data_read ++ after) =
        e
        ∙ ap (λ t. collected ++ t) (parts room data_read after)
        ∙ sym (append_assoc collected (take room data_read) (drop room data_read ++ after)) in
      let long : content_limit limits < length whole = omega (
        arith,
        ap length e,
        length-append collected (data_read ++ after),
        length-append data_read after,
      ) in
      (same, omega arith, (drop room data_read ++ after, split), (sym same, long))

  -- Behind a chunk the loop stops with growth or goes on with a longer front.
  after_chunk-Delivers :
      (continue : Bytes → ℕ → Run) (whole collected data_read after : Bytes)
      → content_limit limits < u64_max
      → whole ≡ collected ++ (data_read ++ after)
      → ((longer : Bytes)
          → longer ≡ collected ++ data_read
          → length longer ≤ content_limit limits
          → Delivers whole (content_limit limits) (continue longer (length longer)))
      → length collected ≤ content_limit limits
      → (emit : ℕ) → emit ≡ min (content_limit limits - length collected) (length data_read)
      → Delivers whole (content_limit limits) (
          after_chunk read
            (collect {E = E})
            interrupted
            buffer_len
            limits
            continue
            (saturating_add (length collected) (length data_read))
            (collected ++ take emit data_read))
  after_chunk-Delivers continue whole collected data_read after small e goes_on h emit he =
      let count = saturating_add (length collected) (length data_read) in
      elim (Bool-cases (ltb (content_limit limits) count)) [
        | inl t ↦
            let big : content_limit limits < count = ltb→lt _ _ t in
            let whole_room : emit ≡ content_limit limits - length collected = omega arith in
            rw (t, whole_room) (grown-Delivers whole collected data_read after e h (omega arith))
        | inr f ↦
            let fits : count ≤ content_limit limits = not_ltb _ _ f in
            let all : take emit data_read ≡ data_read = take-ge emit data_read (omega arith) in
            let same : count ≡ length (collected ++ data_read) =
              omega (arith, length-append collected data_read) in
            rw (f, all, same) (goes_on (collected ++ data_read) refl (omega arith))
      ]

  reason-Delivers :
      (rest : S → Bytes) (reason : Interrupt) (whole collected : Bytes) (reader : S)
      → whole ≡ collected ++ rest reader
      → length collected ≤ content_limit limits
      → Delivers {E = E} whole
          (content_limit limits)
          (some (inr (length collected, status_of reason, collected)))
  reason-Delivers rest cancel whole collected reader e h = (refl, h, (rest reader, e), tt)
  reason-Delivers rest past_deadline whole collected reader e h = (refl, h, (rest reader, e), tt)

  -- One read at the front `collected`.
  after_read-Delivers :
      (rest : S → Bytes) (continue : S → Bytes → ℕ → Run) (whole collected : Bytes) (reader : S)
      (given : E ⊎ (Bytes × S))
      → content_limit limits < u64_max
      → Gives rest reader given
      → whole ≡ collected ++ rest reader
      → ((after : S) (longer : Bytes)
          → whole ≡ longer ++ rest after
          → length collected < length longer
          → length longer ≤ content_limit limits
          → Delivers whole (content_limit limits) (continue after longer (length longer)))
      → length collected ≤ content_limit limits
      → Delivers whole (content_limit limits) (
          after_read read
            (collect {E = E})
            interrupted
            buffer_len
            limits
            continue
            collected
            (length collected)
            given)
  after_read-Delivers rest continue whole collected reader (inl error) small gives e goes_on h = tt
  after_read-Delivers rest continue whole collected reader (inr ([], after)) small gives e goes_on
        h =
      let all : collected ≡ whole =
        sym (e ∙ ap (λ t. collected ++ t) gives ∙ append-nil collected) in
      (refl, h, (rest reader, e), all)
  after_read-Delivers rest continue whole collected reader (inr (b ∷ bs, after)) small gives e
        goes_on h =
      let data_read : Bytes = b ∷ bs in
      let emit = min (content_limit limits - length collected) (length data_read) in
      let chunk : whole ≡ collected ++ (data_read ++ rest after) =
        e ∙ ap (λ t. collected ++ t) gives in
      let step : (longer : Bytes)
          → longer ≡ collected ++ data_read
          → length longer ≤ content_limit limits
          → Delivers whole (content_limit limits) (continue after longer (length longer)) =
        λ longer same fits.
          goes_on after longer
            (chunk
              ∙ sym (append_assoc collected data_read (rest after))
              ∙ ap (λ t. t ++ rest after) (sym same))
            (omega (arith, ap length same, length-append collected data_read)) fits in
      elim (Bool-cases (ltb 0 emit)) [
        | inl t ↦ rw t (
            after_chunk-Delivers (continue after) whole collected data_read (rest after) small chunk
              step h emit refl)
        | inr f ↦
            let nothing : emit ≡ 0 = omega (arith, not_ltb 0 emit f) in
            let same : collected ++ take emit data_read ≡ collected =
              ap (λ n. collected ++ take n data_read) nothing ∙ append-nil collected in
            rw f (
              subst
                (λ kept. Delivers whole (content_limit limits) (
                  after_chunk read (collect {E = E}) interrupted buffer_len limits (continue after)
                    (saturating_add (length collected) (length data_read)) kept))
                same
                (after_chunk-Delivers (continue after) whole collected data_read (rest after) small
                  chunk step h emit refl))
      ]

  read_loop-Delivers :
      (rest : S → Bytes)
      → ((reader : S) (count : ℕ) → 0 < count → Gives rest reader (read reader count))
      → 0 < buffer_len
      → content_limit limits < u64_max
      → (fuel round : ℕ) (whole collected : Bytes) (reader : S) → whole ≡ collected ++ rest reader
      → length collected ≤ content_limit limits
      → content_limit limits < fuel + length collected
      → Delivers whole (content_limit limits) (
          read_loop read
            (collect {E = E})
            interrupted
            buffer_len
            limits
            fuel
            round
            reader
            collected
            (length collected))
  unfolding read_loop
  read_loop-Delivers rest gives room small zero round whole collected reader e h fuel_left =
      absurd (omega arith)
  read_loop-Delivers rest gives room small (suc fuel) round whole collected reader e h fuel_left =
      let remaining = min (max_io_bytes limits - length collected) buffer_len in
      elim (Option-cases (interrupted round)) [
        | inr (reason, t) ↦
            rw (t, read_loop) (reason-Delivers rest reason whole collected reader e h)
        | inl n ↦
            rw
              (
                n,
                read_loop,
                leb-false (max_io_bytes limits) (length collected) (omega arith),
                ==-false remaining 0 (omega arith),
              )
              (after_read-Delivers rest
                (read_loop read (collect {E = E}) interrupted buffer_len limits fuel (round + 1))
                whole collected reader (read reader remaining) small
                (gives reader remaining (omega arith)) e
                (λ after longer same more fits.
                  read_loop-Delivers rest gives room small fuel (round + 1) whole longer after same
                    fits (omega arith))
                h)
      ]

  -- What a bounded read collects is the front of what the reader gives, as long as the returned count and
  -- within the content's limit: all of it when the status is `complete`, exactly the limit and less than
  -- all of it when the status is `grown`. The read comes to an end. The reader gives its bytes in order and
  -- nothing only at the end, the buffer is not empty, and the limit is below the largest 64-bit number.
  pub read_bounded-Delivers :
      (rest : S → Bytes) (reader : S)
      → ((from : S) (count : ℕ) → 0 < count → Gives rest from (read from count))
      → 0 < buffer_len
      → content_limit limits < u64_max
      → Delivers
          (rest reader)
          (content_limit limits)
          (read_bounded read (collect {E = E}) interrupted buffer_len limits reader [])
  unfolding read_bounded
  read_bounded-Delivers rest reader gives room small =
      read_loop-Delivers rest gives room small (content_limit limits + 2) 0 (rest reader) [] reader
        refl (omega arith) (omega arith)
