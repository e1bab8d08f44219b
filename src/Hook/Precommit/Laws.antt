-- ===== src/Hook/Precommit/Laws.antt =====
-- When a commit is blocked and what is logged.

use runecho.Prelude.{ℕ, ◌≡◌, Bool, true, not, ◌&&◌, ◌||◌, Option, some, List, any, if◌then◌else◌}
use runecho.Order.{nat_ord, list_ord}
use runecho.Maps.{is_some}
use runecho.Text.{Bytes}
use runecho.Guard.Types.{FileDiff}
use runecho.Int.{ℤ}
use runecho.Hook.Store.{Files, Repo, Store}
use runecho.Hook.Findings.{Switches, Checks}
use runecho.Hook.Precommit.{CommitInput, CommitOutcome}
use runecho.Hook.Precommit.Ready.{◌>>=◌, guard, has_any, Ready, logged, is_stopped, finds}

module _ (sw : Switches) (files : Files) (store : Store) (checks : Checks)
    (input : CommitInput) where
  abbrev IsAsStated : CommitOutcome → Bool → Option Ready → Type 0
  IsAsStated o unenrolled c =
      (o.exit ≡ (
        if is_stopped sw files store checks input unenrolled c
          || (finds sw files store checks input (λ x. true) c && not input.dry_run)
        then 1
        else 0))
      × (is_some o.log ≡ finds sw files store checks input (λ x. true) c)
      × ((p : Bytes → Bool) → any p (logged o.log) ≡ finds sw files store checks input p c)

  -- The rest of the chain, step by step.
  abbrev from_staged : Bytes → Bytes → List Bytes → Option (List FileDiff × Bool) → Option Ready
  from_staged cwd root symbols o = o >>= λ s.
      some (record { cwd = cwd; root = root; symbols = symbols; diffs = s.0; partial = s.1 })

  abbrev from_symbols : Bytes → Bytes → Option (List Bytes) → Option Ready
  from_symbols cwd root o = o >>= λ l. from_staged cwd root l (input.staged_diff root)

  abbrev from_age : Bytes → Repo → Bytes → Option ℤ → Option Ready
  from_age cwd repo root o =
      o >>= λ age. from_symbols cwd root (store.symbols_for_latest_snapshot repo.id)

  abbrev from_snapshots : Bytes → Repo → Bytes → Option (List (ℕ × ℕ)) → Option Ready
  from_snapshots cwd repo root o =
      o >>= λ snaps. guard (has_any snaps) >>= λ _. from_age cwd repo root input.max_age
