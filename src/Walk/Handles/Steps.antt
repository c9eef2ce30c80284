-- ===== src/Walk/Handles/Steps.antt =====
-- Visiting entries keeps the bound on open directories (src/walk_visit.rs, src/walk_iter.rs).
use weavatrix_scan.Common.{ℕ, Option, inl, inr}
use weavatrix_scan.Text.{Bytes}
use weavatrix_scan.Walk.Files.{FileSystem, FileType}
use weavatrix_scan.Walk.Walker.{Walker, RawEntry}
use weavatrix_scan.Walk.Iterate.{root_step, entry_step}
use weavatrix_scan.Walk.Steps.{Keeps, root_step-keeps, entry_step-keeps}
use weavatrix_scan.Walk.Handles.{IsBounded, after_error-IsBounded, StepBounded}

abbrev Before : Bytes → ℕ → Walker → Type 0
Before path depth walker = IsBounded walker

keeps_bound : Keeps Before IsBounded
keeps_bound = record {
  on_error = λ path depth walker h. after_error-IsBounded walker walker.options.error_policy h;
  on_leaf = λ path depth walker h. h;
  on_directory = λ path depth walker h why identity. h;
  on_skip = λ walker h. h;
  on_finish = λ walker h. h;
  on_post = λ walker entry h. h;
}

pub root_step-IsBounded :
    (files : FileSystem) (walker : Walker) (known : Option FileType)
    → IsBounded walker
    → StepBounded (root_step files walker known)
root_step-IsBounded files walker known h = root_step-keeps keeps_bound files walker known h

pub entry_step-IsBounded :
    (files : FileSystem) (walker : Walker) (path : Bytes) (depth : ℕ) (raw : RawEntry)
    → IsBounded walker
    → StepBounded (entry_step files walker path depth raw)
entry_step-IsBounded files walker path depth (inl source) h =
    entry_step-keeps keeps_bound files walker path depth (inl source)
      (after_error-IsBounded walker walker.options.error_policy h)
entry_step-IsBounded files walker path depth (inr entry) h =
    entry_step-keeps keeps_bound files walker path depth (inr entry) h
