-- ===== src/Hook/Precommit/Ready.antt =====
-- cmd/runecho-guard/main.go: what a commit is checked with, and which violations there are in it,
-- said without the order of the tests in `runArgs`.
use runecho.Prelude.{
  Bool, true, false, not, ◌&&◌, ◌||◌, Option, none, some, List, [], ◌∷◌, map, any,
}
use runecho.Order.{nat_ord, list_ord, ◌=?◌}
use runecho.Maps.{is_some}
use runecho.Text.{Bytes}
use runecho.Guard.Types.{FileDiff}
use runecho.Guard.Lang.{lang_python, lang_for, is_python}
use runecho.Guard.Validate.{Violation, run}
use runecho.Hook.Store.{Files, Repo, Store, is_opened}
use runecho.Hook.Definitions.{is_go}
use runecho.Hook.Lookup.{ignore_path_for, may_be_there}
use runecho.Hook.Findings.{Switches, Checks, content_of, read_file_lines}
use runecho.Hook.Log.{DecisionRecord}
use runecho.Hook.Precommit.{CommitInput}

infixl 5 ◌>>=◌
abbrev pub ◌>>=◌ {ℓ κ} : {A : Type ℓ} {B : Type κ} → Option A → (A → Option B) → Option B
none >>= f = none
some a >>= f = f a

abbrev pub guard : Bool → Option (Unit {0})
guard true = some tt
guard false = none

abbrev pub has_any {ℓ} : {A : Type ℓ} → List A → Bool
has_any [] = false
has_any (x ∷ xs) = true

abbrev pub of_symbol : (Bytes → Bool) → Violation → Bool
of_symbol p v = p v.symbol

-- All that a check needs.
pub record Ready : Type 0 where
  pub cwd : Bytes
  pub root : Bytes
  pub symbols : List Bytes
  pub diffs : List FileDiff
  pub partial : Bool

-- The symbols of the record that is logged.
abbrev pub logged : Option DecisionRecord → List Bytes
logged none = []
logged (some r) = r.symbols

module _ (sw : Switches) (files : Files) (store : Store) (checks : Checks)
    (input : CommitInput) where
  -- What is known once the repository is.
  abbrev pub ready_in : Bytes → Repo → Bytes → Option Ready
  ready_in cwd repo root = do
    snaps ← store.list_latest repo.id
    ok ← guard (has_any snaps)
    age ← input.max_age
    symbols ← store.symbols_for_latest_snapshot repo.id
    staged ← input.staged_diff root
    some
        (record { cwd = cwd; root = root; symbols = symbols; diffs = staged.0; partial = staged.1 })

  -- `none` where the store, git, the working directory or the settings do not answer.
  abbrev pub ready : Option Ready
  ready = do
    ok ← guard (store.has_dir && may_be_there store.stat_db && is_opened store.open_fast)
    cwd ← input.cwd
    place ← store.resolve_repo cwd
    ready_in cwd place.0 place.1

  -- There is no store, or the working directory is in no repository of it.
  abbrev pub in_no_repo : Option Bytes → Bool
  in_no_repo none = false
  in_no_repo (some cwd) = not (is_some (store.resolve_repo cwd))

  abbrev pub is_unenrolled : Bool
  is_unenrolled =
      store.has_dir
      && (not (may_be_there store.stat_db) || (is_opened store.open_fast && in_no_repo input.cwd))

  module _ (p : Bytes → Bool) (r : Ready) where
    abbrev pub in_qualified : FileDiff → Bool
    in_qualified fd =
        sw.qualified
        && not (checks.go_module_path r.root =? [])
        && is_go (lang_for fd.path)
        && any (of_symbol p) (
            checks.go_qualified_violations (read_file_lines files fd.abs_path) fd.added_lines
              r.symbols (checks.go_module_path r.root))

    abbrev pub in_dependencies : FileDiff → Bool
    in_dependencies fd =
        sw.deps_go
        && is_go (lang_for fd.path)
        && any (of_symbol p) (
            checks.go_dep_qualified_violations r.root (read_file_lines files fd.abs_path)
              fd.added_lines (checks.go_module_path r.root))

    abbrev pub in_file_scope : FileDiff → Bool
    in_file_scope fd =
        sw.file_scope
        && is_python (lang_for fd.path)
        && any (of_symbol p) (
            checks.file_scope_violations lang_python (read_file_lines files fd.abs_path) fd
              r.symbols)

    -- A staged file has a violation whose symbol satisfies `p`: an unknown reference, or one that
    -- a check of the whole file finds, where that check is switched on and is for its language.
    abbrev pub found_in : List FileDiff → Bool
    found_in diffs =
        any (of_symbol p) (
          run files.path_match checks.extractors (λ path. content_of (files.read_file path))
            r.symbols (ignore_path_for files r.cwd r.root) diffs)
        || any (λ fd. in_qualified fd) diffs
        || any (λ fd. in_dependencies fd) diffs
        || any (λ fd. in_file_scope fd) diffs

    abbrev pub found : Bool
    found =
        found_in
          (map (λ (fd : FileDiff). record fd { abs_path = files.join r.root fd.path }) r.diffs)

  -- A commit is stopped in strict mode where it cannot be checked, or not all of it.
  abbrev pub is_stopped : Bool → Option Ready → Bool
  is_stopped unenrolled none = sw.strict && not unenrolled
  is_stopped unenrolled (some r) = sw.strict && r.partial

  -- There is a violation whose symbol satisfies `p`, and the commit is checked.
  abbrev pub finds : (Bytes → Bool) → Option Ready → Bool
  finds p none = false
  finds p (some r) = not (sw.strict && r.partial) && found p r
