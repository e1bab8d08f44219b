-- ===== src/Hook/Store.antt =====
-- What the hook sees of the store: cmd/runecho-guard/dangling.go, `openLatestSnapshot` and
-- `repoRelPath`. The store is a
-- record of the answers of the package internal/snapshot, of git and of the operating system. An
-- answer `none` is an error.
use runecho.Prelude.{ℕ, ◌⊎◌, Bool, true, false, Option, none, some, List, [], ◌∷◌, if◌then◌else◌}
use runecho.Text.{Bytes, codes, trim_prefix}
use runecho.Contract.Parse.{Loaded}
use runecho.Snapshot.Contracts.{Contracts}

-- What the checks ask of path/filepath and path, with `/` as the separator, of git and of the files.
-- `none` is an error.
pub record Files : Type 0 where
  pub is_abs : Bytes → Bool
  pub clean : Bytes → Bytes
  pub dir : Bytes → Bytes
  pub base : Bytes → Bytes
  pub join : Bytes → Bytes → Bytes
  pub rel : Bytes → Bytes → Option Bytes
  pub to_slash : Bytes → Bytes
  pub eval_symlinks : Bytes → Option Bytes
  pub path_dir : Bytes → Bytes
  pub path_base : Bytes → Bytes
  pub path_match : Bytes → Bytes → Option Bool
  pub nfc : Bytes → Bytes
  pub top_level : Bytes → Option Bytes
  pub load_contract : Bytes → Loaded
  -- `os.Stat`: the size of what is there, and whether that is a file and no directory.
  pub size_of : Bytes → Option ℕ
  pub file_exists : Bytes → Bool
  -- `os.ReadFile`: the file, or whether it does not exist.
  pub read_file : Bytes → Bool ⊎ Bytes

pub record Repo : Type 0 where
  pub id : ℕ
  pub name : Bytes

-- `os.Stat` of the store's file.
pub data Stat : Type 0 where
  there : Stat
  not_there : Stat
  not_readable : Stat

-- `snapshot.OpenFast`
pub data OpenResult : Type 0 where
  opened : OpenResult
  schema_newer : OpenResult
  open_failed : OpenResult

pub record Store : Type 0 where
  pub has_dir : Bool
  pub stat_db : Stat
  pub open_fast : OpenResult
  -- The repository of a directory, with its root.
  pub resolve_repo : Bytes → Option (Repo × Bytes)
  -- `List(id, 1)`: the ids and the times of the snapshots.
  pub list_latest : ℕ → Option (List (ℕ × ℕ))
  pub symbols_for_latest_snapshot : ℕ → Option (List Bytes)
  pub refs_to_name : ℕ → Bytes → Option (List Bytes)
  pub defs_of_name : ℕ → Bytes → Option (List Bytes)
  pub contracts : Contracts

-- The latest snapshot and the path of the edited file in it, or none, and then whether the check
-- could not run.
pub data Latest : Type 0 where
  latest : ℕ → Bytes → Latest
  nothing_to_check : Latest
  degraded : Latest

abbrev pub first_snapshot : Bytes → Option (List (ℕ × ℕ)) → Latest
first_snapshot self none = degraded
first_snapshot self (some []) = nothing_to_check
first_snapshot self (some ((id, time) ∷ snaps)) = latest id self

abbrev pub latest_of_repo : Store → Bytes → Option (Repo × Bytes) → Latest
latest_of_repo store self none = nothing_to_check
latest_of_repo store self (some (repo, root)) = first_snapshot self (store.list_latest repo.id)

abbrev pub is_there : Stat → Bool
is_there there = true
is_there not_there = false
is_there not_readable = false

abbrev pub is_opened : OpenResult → Bool
is_opened opened = true
is_opened schema_newer = false
is_opened open_failed = false

-- The path under the top of the file's working tree, and empty without one.
abbrev pub rel_to_top : Files → Bytes → Option Bytes → Option Bytes
rel_to_top files file_path none = none
rel_to_top files file_path (some top) = files.rel top file_path

abbrev pub slashed : Files → Option Bytes → Bytes
slashed files none = []
slashed files (some rel) = files.nfc (trim_prefix (codes "./") (files.to_slash rel))

unfoldable pub repo_rel_path : Files → Bytes → Bytes
repo_rel_path files file_path =
    slashed files (rel_to_top files file_path (files.top_level (files.dir file_path)))

unfoldable pub open_latest_snapshot : Files → Store → Bytes → Bytes → Latest
open_latest_snapshot files store dir file_path =
    if store.has_dir
    then (if is_there store.stat_db
        then (if is_opened store.open_fast
            then latest_of_repo store (repo_rel_path files file_path) (store.resolve_repo dir)
            else degraded)
        else nothing_to_check)
    else nothing_to_check
