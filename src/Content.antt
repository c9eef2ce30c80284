-- ===== src/Content.antt =====
-- src/content/bounded.rs: reading a file in chunks, with a cap on the content and one byte more that
-- shows growth. The reader, the sink for the chunks and the clock are parameters.
pub mod Prefix
use weavatrix_scan.Common.{
  ℕ, zero, suc, ◌+◌, ◌-◌, min, Bool, true, false, Option, none, some, List, [], ◌∷◌, ◌⊎◌, inl, inr,
  ◌==◌, leb, ltb, length, take, if◌then◌else◌,
}
use weavatrix_scan.Text.{Bytes}
use weavatrix_scan.Report.{saturating_add}

pub record BoundedReadLimits : Type 0 where
  pub expected_bytes : ℕ
  pub max_content_bytes : ℕ

pub data BoundedReadStatus : Type 0 where
  complete stopped grown cancelled deadline : BoundedReadStatus

-- What `interrupted` answers between two chunks.
pub data Interrupt : Type 0 where
  cancel past_deadline : Interrupt

abbrev pub status_of : Interrupt → BoundedReadStatus
status_of cancel = cancelled
status_of past_deadline = deadline

abbrev pub content_limit : BoundedReadLimits → ℕ
content_limit limits = min limits.expected_bytes limits.max_content_bytes

abbrev pub max_io_bytes : BoundedReadLimits → ℕ
max_io_bytes limits = saturating_add (content_limit limits) 1

-- A reader in state `S` gives at most as many bytes as it is asked for, a sink in state `C` says whether
-- to go on, and `interrupted` is asked in front of every round.
module _ {S C E : Type 0} (read : S → ℕ → E ⊎ (Bytes × S)) (on_chunk : C → Bytes → E ⊎ (Bool × C))
    (interrupted : ℕ → Option Interrupt) (buffer_len : ℕ) (limits : BoundedReadLimits) where
  -- The number of bytes of the content, the status, and the sink.
  abbrev Outcome : Type 0
  Outcome = E ⊎ (ℕ × BoundedReadStatus × C)

  -- Behind the sink: more than the content shows growth.
  abbrev pub after_chunk : (C → ℕ → Option Outcome) → ℕ → C → Option Outcome
  after_chunk continue bytes_read sink =
      if ltb (content_limit limits) bytes_read
      then some (inr (content_limit limits, grown, sink))
      else continue sink bytes_read

  abbrev after_sink : (C → ℕ → Option Outcome) → ℕ → ℕ → ℕ → E ⊎ (Bool × C) → Option Outcome
  after_sink continue bytes_read emit count (inl error) = some (inl error)
  after_sink continue bytes_read emit count (inr (false, sink)) =
      some (inr (saturating_add bytes_read emit, stopped, sink))
  after_sink continue bytes_read emit count (inr (true, sink)) =
      after_chunk continue (saturating_add bytes_read count) sink

  abbrev pub after_read : (S → C → ℕ → Option Outcome) → C → ℕ → E ⊎ (Bytes × S) → Option Outcome
  after_read continue sink bytes_read (inl error) = some (inl error)
  after_read continue sink bytes_read (inr ([], reader)) = some (inr (bytes_read, complete, sink))
  after_read continue sink bytes_read (inr (b ∷ bs, reader)) =
      let data_read : Bytes = b ∷ bs in
      let emit = min (content_limit limits - bytes_read) (length data_read) in
      if ltb 0 emit
      then after_sink (continue reader) bytes_read emit (length data_read)
          (on_chunk sink (take emit data_read))
      else after_chunk (continue reader) (saturating_add bytes_read (length data_read)) sink

  -- The `loop`; `none` stands for fuel that ran out.
  unfoldable pub read_loop : ℕ → ℕ → S → C → ℕ → Option Outcome
  read_loop zero round reader sink bytes_read = none
  read_loop (suc fuel) round reader sink bytes_read = elim (interrupted round) [
    | some reason ↦ some (inr (bytes_read, status_of reason, sink))
    | none ↦
        let remaining = min (max_io_bytes limits - bytes_read) buffer_len in
        if leb (max_io_bytes limits) bytes_read
        then some (inr (bytes_read, grown, sink))
        else if remaining == 0
        then some (inr (bytes_read, grown, sink))
        else after_read (read_loop fuel (round + 1)) sink bytes_read (read reader remaining)
  ]

  -- Each round but the last adds to the content, so one round more than its limit is fuel enough.
  unfoldable pub read_bounded : S → C → Option Outcome
  read_bounded reader sink = read_loop (content_limit limits + 2) 0 reader sink 0
