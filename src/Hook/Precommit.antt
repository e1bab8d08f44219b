-- ===== src/Hook/Precommit.antt =====
-- cmd/runecho-guard/main.go: `runArgs` as the hook of git before a commit, after its flags are read and
-- its bypass is passed. What it prints is left out.
pub mod Found
pub mod Laws
pub mod Ready
mod Tests
use runecho.Prelude.{
  ℕ, Bool, true, false, not, ◌&&◌, Option, none, some, List, [], ◌∷◌, ◌++◌, map, if◌then◌else◌,
}
use runecho.Order.{nat_ord, list_ord, ◌=?◌}
use runecho.Int.{ℤ}
use runecho.Text.{Bytes, codes}
use runecho.Guard.Types.{FileDiff}
use runecho.Guard.Lang.{Lang, lang_go, lang_python, lang_for, is_python}
use runecho.Guard.Validate.{Violation, run}
use runecho.Hook.Store.{Files, Repo, Store, is_opened}
use runecho.Hook.Definitions.{is_go}
use runecho.Hook.Lookup.{ignore_path_for, may_be_there}
use runecho.Hook.Log.{DecisionRecord, record_of}
use runecho.Hook.Findings.{Switches, Checks, in_file, content_of, read_file_lines}

-- What the run asks of its surroundings beside the store. `none` is an error.
pub record CommitInput : Type 0 where
  pub dry_run : Bool
  pub cwd : Option Bytes
  pub max_age : Option ℤ
  -- The staged files under a root, and whether a line that was too long has cut them off.
  pub staged_diff : Bytes → Option (List FileDiff × Bool)

pub record CommitOutcome : Type 0 where
  pub exit : ℕ
  pub log : Option DecisionRecord

abbrev pub exit_with : ℕ → CommitOutcome
exit_with n = record { exit = n; log = none }

abbrev pub degraded_exit : Bool → CommitOutcome
degraded_exit strict = exit_with (if strict then 1 else 0)

module _ (sw : Switches) (files : Files) (store : Store) (checks : Checks)
    (input : CommitInput) where
  abbrev pub with_abs_path : Bytes → FileDiff → FileDiff
  with_abs_path root fd = record fd { abs_path = files.join root fd.path }

  -- The checks of one file that read all of its text.
  abbrev pub qualified_in : Bytes → List Bytes → FileDiff → List Violation
  qualified_in root symbols fd =
      if sw.qualified && not (checks.go_module_path root =? []) && is_go (lang_for fd.path)
      then map (in_file fd.path) (
          checks.go_qualified_violations (read_file_lines files fd.abs_path) fd.added_lines symbols
            (checks.go_module_path root))
      else []

  abbrev pub dependencies_in : Bytes → FileDiff → List Violation
  dependencies_in root fd =
      if sw.deps_go && is_go (lang_for fd.path)
      then map (in_file fd.path) (
          checks.go_dep_qualified_violations root (read_file_lines files fd.abs_path) fd.added_lines
            (checks.go_module_path root))
      else []

  abbrev pub file_scope_in : List Bytes → FileDiff → List Violation
  file_scope_in symbols fd =
      if sw.file_scope && is_python (lang_for fd.path)
      then map (in_file fd.path)
          (checks.file_scope_violations lang_python (read_file_lines files fd.abs_path) fd symbols)
      else []

  abbrev pub for_each : (FileDiff → List Violation) → List FileDiff → List Violation
  for_each f [] = []
  for_each f (fd ∷ diffs) = f fd ++ for_each f diffs

  unfoldable pub commit_violations : Bytes → Bytes → List Bytes → List FileDiff → List Violation
  commit_violations cwd root symbols diffs =
      let placed = map (with_abs_path root) diffs in
      run files.path_match checks.extractors (λ path. content_of (files.read_file path)) symbols
        (ignore_path_for files cwd root) placed
      ++ for_each (qualified_in root symbols) placed
      ++ for_each (dependencies_in root) placed
      ++ for_each (file_scope_in symbols) placed

  abbrev pub report : Repo → List Violation → CommitOutcome
  report repo [] = exit_with 0
  report repo (v ∷ vs) = record {
    exit = if input.dry_run then 0 else 1;
    log = some (record (record_of repo.name [] [] (codes "ask") (codes "violations")) {
      mode = codes "precommit";
      symbols = map (λ (w : Violation). w.symbol) (v ∷ vs);
    });
  }

  abbrev pub check_diffs : Repo → Bytes → Bytes → List Bytes → List FileDiff → CommitOutcome
  check_diffs repo cwd root symbols [] = exit_with 0
  check_diffs repo cwd root symbols (fd ∷ diffs) =
      report repo (commit_violations cwd root symbols (fd ∷ diffs))

  abbrev pub check_staged :
      Repo → Bytes → Bytes → List Bytes → Option (List FileDiff × Bool) → CommitOutcome
  check_staged repo cwd root symbols none = degraded_exit sw.strict
  check_staged repo cwd root symbols (some (diffs, partial)) =
      if partial && sw.strict then exit_with 1 else check_diffs repo cwd root symbols diffs

  abbrev pub check_symbols : Repo → Bytes → Bytes → Option (List Bytes) → CommitOutcome
  check_symbols repo cwd root none = degraded_exit sw.strict
  check_symbols repo cwd root (some symbols) =
      check_staged repo cwd root symbols (input.staged_diff root)

  -- A stale index is only warned about.
  abbrev pub check_age : Repo → Bytes → Bytes → Option ℤ → CommitOutcome
  check_age repo cwd root none = degraded_exit sw.strict
  check_age repo cwd root (some max_age) =
      check_symbols repo cwd root (store.symbols_for_latest_snapshot repo.id)

  abbrev pub check_snapshots : Repo → Bytes → Bytes → Option (List (ℕ × ℕ)) → CommitOutcome
  check_snapshots repo cwd root none = degraded_exit sw.strict
  check_snapshots repo cwd root (some []) = degraded_exit sw.strict
  check_snapshots repo cwd root (some (s ∷ snaps)) = check_age repo cwd root input.max_age

  abbrev pub check_repo : Bytes → Option (Repo × Bytes) → CommitOutcome
  check_repo cwd none = exit_with 0
  check_repo cwd (some (repo, root)) = check_snapshots repo cwd root (store.list_latest repo.id)

  abbrev pub check_cwd : Option Bytes → CommitOutcome
  check_cwd none = degraded_exit sw.strict
  check_cwd (some cwd) = check_repo cwd (store.resolve_repo cwd)

  unfoldable pub run_commit : CommitOutcome
  run_commit =
      if not store.has_dir
      then degraded_exit sw.strict
      else if not (may_be_there store.stat_db)
      then exit_with 0
      else if not (is_opened store.open_fast)
      then degraded_exit sw.strict
      else check_cwd input.cwd
