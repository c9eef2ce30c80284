-- ===== src/Walk/Builder.antt =====
-- The walker over several roots (src/walk_builder.rs). `none` on the outside stands for fuel that ran out.
use weavatrix_scan.Common.{ℕ, Option, none, some, List, [], ◌∷◌, ◌⊎◌, inl, inr}
use weavatrix_scan.Text.{Bytes}
use weavatrix_scan.Walk.{WalkOptions, WalkError, Item}
use weavatrix_scan.Walk.Files.{FileSystem}
use weavatrix_scan.Walk.Walker.{Walker, Behavior}
use weavatrix_scan.Walk.Construction.{with_behavior}
use weavatrix_scan.Walk.Iterate.{Result, next}

record MultiWalker : Type 0 where
  pub roots : List Bytes
  pub options : WalkOptions
  pub behavior : Behavior
  pub current : Option Walker

abbrev MultiResult : Type 0
MultiResult = Option (Option Item × MultiWalker)

-- What the current walker yields; the roots are asked behind its end.
abbrev from_current : MultiWalker → MultiResult → Result → MultiResult
from_current multi at_end none = none
from_current multi at_end (some (none, walker)) = at_end
from_current multi at_end (some (some item, walker)) =
    some (some item, record multi { current = some walker })

abbrev from_made : FileSystem → ℕ → MultiWalker → MultiResult → WalkError ⊎ Walker → MultiResult
from_made files fuel multi at_end (inl error) =
    some (some (inl error), record multi { current = none })
from_made files fuel multi at_end (inr walker) = from_current multi at_end (next files fuel walker)

-- The loop over the roots that are left.
abbrev roots_loop : FileSystem → ℕ → MultiWalker → List Bytes → MultiResult
roots_loop files fuel multi [] = some (none, record multi { roots = []; current = none })
roots_loop files fuel multi (root ∷ roots) =
    from_made files fuel (record multi { roots = roots }) (roots_loop files fuel multi roots)
      (with_behavior files root multi.options multi.behavior)

-- `Iterator::next` of the walker over several roots.
unfoldable multi_next : FileSystem → ℕ → MultiWalker → MultiResult
multi_next files fuel multi =
    let at_end = roots_loop files fuel multi multi.roots in
    elim multi.current [
      | none ↦ at_end
      | some walker ↦ from_current multi at_end (next files fuel walker)
    ]
