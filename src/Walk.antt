-- ===== src/Walk.antt =====
-- The data of the walkers (src/walk_types/mod.rs, src/walk_types/entry.rs), and what they ask of the
-- operating system: a file system is a record of functions that do not change during a walk. A path is
-- its bytes, an I/O error is its message.
pub mod Files
pub mod Walker
pub mod Construction
pub mod Visit
pub mod Iterate
pub mod Made
pub mod Builder
pub mod Steps
pub mod Handles
pub mod Ends
use weavatrix_scan.Common.{
  ℕ, zero, suc, ◌+◌, Bool, true, false, ◌&&◌, ◌||◌, not, Option, none, some, List, [], ◌∷◌, ◌⊎◌,
  inl, inr, ltb, leb, ◌==◌, any, retain, if◌then◌else◌,
}
use weavatrix_scan.Text.{Bytes, bytes}
use weavatrix_scan.Report.{FileVersion}

pub record DirectoryIdentity : Type 0 where
  pub file_system : ℕ
  pub file : ℕ

pub data ErrorPolicy : Type 0 where
  continue abort : ErrorPolicy

pub data RootSymlinkPolicy : Type 0 where
  follow reject : RootSymlinkPolicy

pub record WalkOptions : Type 0 where
  pub min_depth : ℕ
  pub max_depth : Option ℕ
  pub max_open : ℕ
  pub same_file_system : Bool
  pub follow_links : Bool
  pub collect_metadata : Bool
  pub error_policy : ErrorPolicy
  pub root_symlink_policy : RootSymlinkPolicy

abbrev default_max_open : ℕ
default_max_open = 64

abbrev pub default_options : WalkOptions
default_options = record {
  min_depth = 0;
  max_depth = none;
  max_open = default_max_open;
  same_file_system = false;
  follow_links = false;
  collect_metadata = false;
  error_policy = continue;
  root_symlink_policy = follow;
}

abbrev pub at_least_one : ℕ → ℕ
at_least_one zero = 1
at_least_one (suc n) = suc n

abbrev normalized_min : Option ℕ → ℕ → ℕ
normalized_min none min_depth = min_depth
normalized_min (some max_depth) min_depth = if ltb max_depth min_depth then max_depth else min_depth

-- `WalkOptions::normalized`.
abbrev pub normalized : WalkOptions → WalkOptions
normalized options = record options {
  max_open = at_least_one options.max_open;
  min_depth = normalized_min options.max_depth options.min_depth;
}

pub data WalkOperation : Type 0 where
  canonicalize read_directory read_entry read_metadata schedule_worker : WalkOperation

pub record WalkError : Type 0 where
  pub path : Bytes
  pub depth : ℕ
  operation : WalkOperation
  pub source : Bytes

abbrev pub walk_error : Bytes → ℕ → WalkOperation → Bytes → WalkError
walk_error path depth operation source = record {
  path = path;
  depth = depth;
  operation = operation;
  source = source;
}

pub data WalkSkipReason : Type 0 where
  max_depth file_system_boundary path_escape symlink_loop : WalkSkipReason

pub record WalkEntry : Type 0 where
  pub root_components : ℕ
  pub path : Bytes
  pub depth : ℕ
  pub is_file : Bool
  pub is_directory : Bool
  pub is_symlink : Bool
  pub bytes : Option ℕ
  pub version : Option FileVersion
  pub hidden : Option Bool
  pub directory_identity : Option DirectoryIdentity
  pub skip_reason : Option WalkSkipReason

-- What an iteration yields.
abbrev pub Item : Type 0
Item = WalkError ⊎ WalkEntry

abbrev pub item_path : Item → Bytes
item_path (inl error) = error.path
item_path (inr entry) = entry.path

-- `WalkEntry::clear_depth_skip`.
abbrev pub clear_depth_skip : WalkEntry → WalkEntry
clear_depth_skip entry = elim entry.skip_reason [
  | some max_depth ↦ record entry { skip_reason = none }
  | other ↦ entry
]

abbrev pub no_skip : Option WalkSkipReason → Bool
no_skip none = true
no_skip (some reason) = false

-- Whether a walk goes down into the entry.
abbrev pub descends : WalkEntry → Bool
descends entry = entry.is_directory && no_skip entry.skip_reason

-- `?` on a result.
infixl 1 ◌>>=◌
abbrev pub ◌>>=◌ {ℓ} : {E A B : Type ℓ} → E ⊎ A → (A → E ⊎ B) → E ⊎ B
inl error >>= f = inl error
inr a >>= f = f a

-- `map_err` with the place of the error.
abbrev pub error_at {ℓ} : {A : Type ℓ} → Bytes → ℕ → WalkOperation → Bytes ⊎ A → WalkError ⊎ A
error_at path depth operation (inl source) = inl (walk_error path depth operation source)
error_at path depth operation (inr a) = inr a

abbrev directory_identity_eq : DirectoryIdentity → DirectoryIdentity → Bool
directory_identity_eq a b = (a.file_system == b.file_system) && (a.file == b.file)

-- A set of identities: `insert` behind a `contains`, `remove`.
abbrev pub has_identity : DirectoryIdentity → List DirectoryIdentity → Bool
has_identity identity active = any (directory_identity_eq identity) active

abbrev pub insert_identity :
    Option DirectoryIdentity → List DirectoryIdentity → List DirectoryIdentity
insert_identity none active = active
insert_identity (some identity) active =
    if has_identity identity active then active else identity ∷ active

abbrev pub remove_identity :
    Option DirectoryIdentity → List DirectoryIdentity → List DirectoryIdentity
remove_identity none active = active
remove_identity (some identity) active =
    retain (λ other. not (directory_identity_eq identity other)) active
