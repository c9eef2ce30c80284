-- ===== src/Witnesses/Pulls.antt =====
-- The theorem about the ordered traversal at a concrete tree and a concrete schedule of the workers.
use weavatrix_scan.Common.{
  ℕ, ◌+◌, ◌≡◌, refl, Bool, true, false, none, some, List, [], ◌∷◌, inr, if◌then◌else◌, arith,
}
use weavatrix_scan.Text.{Bytes, bytes, text_eq}
use weavatrix_scan.Walk.{Item, WalkEntry, continue}
use weavatrix_scan.Pull.{Place}
use weavatrix_scan.Pull.Scheduler.{World, sent, ordered_parallel}
use weavatrix_scan.Pull.Refill.{IsCalm}
use weavatrix_scan.Pull.Order.{Walked, done, leaf, down}
use weavatrix_scan.Pull.Order.Run.{ordered_parallel-Walked}

-- The workers are done in a changing order.
abbrev busy_world : World
busy_world = record {
  choice = λ n. n;
  admits = λ n. true;
  cancels = λ n. false;
  reaches = λ n. n;
  panics = λ n. false;
  listens = λ n. true;
}

busy_world-IsCalm : IsCalm busy_world
busy_world-IsCalm = record {
  admits = λ n. refl;
  cancels = λ n. refl;
  panics = λ n. refl;
  listens = λ n. refl;
}

abbrev entry_for : Bytes → ℕ → Bool → WalkEntry
entry_for path depth is_directory = record {
  root_components = 2;
  path = path;
  depth = depth;
  is_file = if is_directory then false else true;
  is_directory = is_directory;
  is_symlink = false;
  bytes = none;
  version = none;
  hidden = none;
  directory_identity = none;
  skip_reason = none;
}

abbrev dir_b : WalkEntry
dir_b = entry_for (bytes "/r/b") 1 true

abbrev file_a : WalkEntry
file_a = entry_for (bytes "/r/a") 1 false

abbrev file_c : WalkEntry
file_c = entry_for (bytes "/r/b/c") 2 false

-- The directory is listed in front of the file that sorts before it.
abbrev listed : Place → List Item
listed place =
    if text_eq place.path (bytes "/r")
    then inr dir_b ∷ inr file_a ∷ []
    else if text_eq place.path (bytes "/r/b")
    then inr file_c ∷ []
    else []

abbrev every : Item → Bool
every item = true

abbrev top : WalkEntry
top = entry_for (bytes "/r") 0 true

small-Walked :
    Walked listed every []
      (inr file_a ∷ inr dir_b ∷ [])
      (inr file_a ∷ inr dir_b ∷ inr file_c ∷ [])
      1
small-Walked = leaf [] (inr file_a) (inr dir_b ∷ []) (inr dir_b ∷ inr file_c ∷ []) 1 refl (
    down [] (inr dir_b) _ [] (inr file_c ∷ []) [] 0 0 refl
      (leaf [] (inr file_c) [] [] 0 refl (done [])) (done []))

ordered_parallel-Walked_example :
    (steps : ℕ) × ((fuel : ℕ)
      → ordered_parallel busy_world listed every continue (steps + fuel) (bytes "/r") 2 top
        ≡ some (sent (inr top ∷ inr file_a ∷ inr dir_b ∷ inr file_c ∷ [])))
unfolding weavatrix_scan.Walk.Files.components
ordered_parallel-Walked_example =
    ordered_parallel-Walked busy_world busy_world-IsCalm listed every (bytes "/r") 2 top
      (inr file_a ∷ inr dir_b ∷ inr file_c ∷ []) 1 (omega arith) refl small-Walked (omega arith)
