-- ===== src/Hook/Lookup.antt =====
-- cmd/runecho-guard/main.go: `lookupSymbolsFor`, which reads the symbols of the repository for an edit.
use runecho.Prelude.{ℕ, Bool, true, false, Option, none, some, List, [], ◌∷◌, if◌then◌else◌}
use runecho.Text.{Bytes, codes}
use runecho.Hook.Store.{
  Files, Repo, Stat, there, not_there, not_readable, OpenResult, opened, schema_newer, open_failed,
  Store,
}
use runecho.Hook.Scope.{ContractWarning}

-- `warn` says that the message about a newer store is set.
pub record LookupResult : Type 0 where
  pub symbols : List Bytes
  pub ignore_path : Bytes
  pub latest : ℕ
  pub repo_name : Bytes
  pub warn : Bool
  pub contract : Option ContractWarning
  pub no_repo : Bool
  pub ok : Bool

abbrev pub no_result : LookupResult
no_result = record {
  symbols = [];
  ignore_path = [];
  latest = 0;
  repo_name = [];
  warn = false;
  contract = none;
  no_repo = false;
  ok = false;
}

abbrev pub ignore_file_name : Bytes
ignore_file_name = codes ".runechoguardignore"

abbrev pub ignore_path_in : Files → Bytes → Option Bytes → Bytes
ignore_path_in files repo_root none = files.join repo_root ignore_file_name
ignore_path_in files repo_root (some top) =
    if files.file_exists (files.join top ignore_file_name)
    then files.join top ignore_file_name
    else files.join repo_root ignore_file_name

abbrev pub ignore_path_for : Files → Bytes → Bytes → Bytes
ignore_path_for files dir repo_root = ignore_path_in files repo_root (files.top_level dir)

-- The file of the store may be there: every error of `os.Stat` but a missing file is passed over.
abbrev pub may_be_there : Stat → Bool
may_be_there there = true
may_be_there not_there = false
may_be_there not_readable = true

-- After the repository and the contract are known.
abbrev pub degraded_result : Repo → Option ContractWarning → LookupResult
degraded_result repo cw = record no_result { repo_name = repo.name; contract = cw }

abbrev pub with_symbols :
    Files → Bytes → Repo → Bytes → Option ContractWarning → ℕ → Option (List Bytes) → LookupResult
with_symbols files dir repo root cw time none = degraded_result repo cw
with_symbols files dir repo root cw time (some symbols) = record {
  symbols = symbols;
  ignore_path = ignore_path_for files dir root;
  latest = time;
  repo_name = repo.name;
  warn = false;
  contract = cw;
  no_repo = false;
  ok = true;
}

abbrev pub with_snapshots :
    Files
    → Store
    → Bytes
    → Repo
    → Bytes
    → Option ContractWarning
    → Option (List (ℕ × ℕ))
    → LookupResult
with_snapshots files store dir repo root cw none = degraded_result repo cw
with_snapshots files store dir repo root cw (some []) = degraded_result repo cw
with_snapshots files store dir repo root cw (some ((id, time) ∷ snaps)) =
    with_symbols files dir repo root cw time (store.symbols_for_latest_snapshot repo.id)

-- `contract_for` is the contract question of a resolved repository.
module _ (contract_for : Repo → Option ContractWarning) where
  abbrev pub with_repo : Files → Store → Bytes → Option (Repo × Bytes) → LookupResult
  with_repo files store dir none = record no_result { no_repo = true }
  with_repo files store dir (some (repo, root)) =
      with_snapshots files store dir repo root (contract_for repo) (store.list_latest repo.id)

  abbrev pub with_opened : Files → Store → Bytes → OpenResult → LookupResult
  with_opened files store dir opened = with_repo files store dir (store.resolve_repo dir)
  with_opened files store dir schema_newer = record no_result { warn = true }
  with_opened files store dir open_failed = no_result

  unfoldable pub lookup_symbols_for : Files → Store → Bytes → LookupResult
  lookup_symbols_for files store dir =
      if store.has_dir
      then (if may_be_there store.stat_db
          then with_opened files store dir store.open_fast
          else no_result)
      else no_result
