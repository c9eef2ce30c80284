-- ===== src/Walk/Made.antt =====
-- Every walker that with_behavior makes (src/walker/construction.rs) is the one of its last step.
use mathlib.Core.Path.{subst}
use weavatrix_scan.Common.{◌≡◌, Option, ◌⊎◌, inl, inr}
use weavatrix_scan.Text.{Bytes}
use weavatrix_scan.Walk.{WalkOptions, WalkError, WalkOperation, normalized, error_at, ◌>>=◌}
use weavatrix_scan.Walk.Files.{FileSystem, Metadata, PlatformDirectoryInfo}
use weavatrix_scan.Walk.Walker.{Walker, Behavior}
use weavatrix_scan.Walk.Construction.{
  with_behavior, new_walker, root_allowed, canonical_root, root_info,
}

abbrev Made : (Walker → Type 0) → WalkError ⊎ Walker → Type 0
Made P (inl error) = Unit
Made P (inr walker) = P walker

bind-Made :
    (P : Walker → Type 0) {A : Type 0} (a : WalkError ⊎ A) (f : A → WalkError ⊎ Walker)
    → ((x : A) → Made P (f x))
    → Made P (a >>= f)
bind-Made P (inl error) f h = tt
bind-Made P (inr x) f h = h x

pub with_behavior-Made :
    (P : Walker → Type 0) (files : FileSystem) (requested : Bytes) (given : WalkOptions)
    (behavior : Behavior) (walker : Walker)
    → ((canonical : Bytes) (metadata : Metadata) (info : Option PlatformDirectoryInfo)
        → P (new_walker canonical metadata (normalized given) behavior info))
    → with_behavior files requested given behavior ≡ inr walker
    → P walker
unfolding with_behavior
with_behavior-Made P files requested given behavior walker h e =
    let options = normalized given in
    subst (Made P) e (
      bind-Made P (root_allowed files requested options) _ (λ allowed.
        bind-Made P (canonical_root files requested options) _ (λ canonical.
          bind-Made P (error_at canonical 0 WalkOperation.read_metadata (files.metadata canonical))
            _
            (λ metadata.
              bind-Made P (root_info canonical metadata options)
                (λ info. inr (new_walker canonical metadata options behavior info))
                (λ info. h canonical metadata info)))))
