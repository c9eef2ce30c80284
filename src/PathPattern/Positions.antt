-- ===== src/PathPattern/Positions.antt =====
-- The positions of the errors of src/path_pattern.rs.
use weavatrix_scan.Common.{ℕ, ◌≡◌, true, ◌||◌, ◌==◌, All}
use weavatrix_scan.Text.{Bytes}
use weavatrix_scan.PathPattern.{BraceState, Braces}
use weavatrix_scan.PathPattern.ClassErrors.{Stands}

module _ (pattern : Bytes) where
  -- The open braces stand where their states say.
  abbrev IsInside : BraceState → Type 0
  IsInside state = Stands pattern state.start b'{'

  abbrev IsStacked : Braces → Type 0
  IsStacked b = All IsInside b.stack

  abbrev IsStackedNext : ℕ × Braces → Type 0
  IsStackedNext (index, b) = IsStacked b

  -- The byte ends an alternative.
  abbrev Ends : ℕ → Type 0
  Ends position =
      (byte : ℕ) × Stands pattern position byte × (((byte == b',') || (byte == b'}')) ≡ true)

  abbrev IsFinished : ℕ × ℕ → Type 0
  IsFinished (count, start) = Stands pattern start b'{'
