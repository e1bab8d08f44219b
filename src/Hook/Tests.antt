-- ===== src/Hook/Tests.antt =====
-- cmd/runecho-guard: runs of the hook on a small repository, and the theorems at concrete edits.
use runecho.Prelude.{
  ℕ, ◌+◌, ◌≡◌, ◌↔◌, refl, true, false, not, ◌&&◌, none, some, List, [], ◌∷◌, ◌++◌, any, arith,
}
use runecho.Order.{nat_ord, list_ord, ◌=?◌}
use runecho.Int.{pos}
use runecho.Maps.{is_some}
use runecho.Text.{codes, split, line_feed}
use runecho.Guard.Types.{AddedLine}
use runecho.Guard.Lang.{lang_python}
use runecho.Guard.Lines.{number_lines, text_to_added_lines}
use runecho.Guard.Known.{has_name}
use runecho.Guard.Validate.Seeds.{seed_at}
use runecho.Snapshot.Contracts.History.{newest}
use runecho.Hook.Payload.{EditOp, multi_edit_tool, hook_added_lines}
use runecho.Hook.Seeds.{find_block, block_start_line, state_of, hook_seed_by_line}
use runecho.Hook.Seeds.Blocks.{hook_seed_by_line-hook_added_lines}
use runecho.Hook.Store.{Repo, Store, latest, schema_newer, open_latest_snapshot, repo_rel_path}
use runecho.Hook.Scope.{contract_warning_with}
use runecho.Hook.Scope.Laws.{IsOutOfScope, contract_warning_with-run}
use runecho.Hook.Definitions.{def_set, deleted_defs, nothing_checked, check_dangling_refs}
use runecho.Hook.Definitions.Laws.{is_about, is_referred, check_dangling_refs-deleted_defs}
use runecho.Hook.Log.{is_ask}
use runecho.Hook.Findings.{Findings}
use runecho.Hook.Decision.{run_hook_mode}
use runecho.Hook.Decision.Laws.{IsSound}
use runecho.Hook.Decision.Runs.{run_hook_mode-IsSound}
use runecho.Hook.Decision.Abstains.{run_hook_mode-no_store, run_hook_mode-undeclared}
use runecho.Hook.Samples.{
  extractors, checks, files, copy, read, history, repo, store, all_on, edit_of,
}

abbrev lines : List AddedLine
lines = text_to_added_lines (codes "a\nb\nc\nb")

found_once : block_start_line lines (codes "b\nc") ≡ some 1
unfolding block_start_line find_block
found_once = refl

found_twice : block_start_line lines (codes "b") ≡ none
unfolding block_start_line find_block
found_twice = refl

abbrev first_edit : EditOp
first_edit = record { old_string = codes "a"; new_string = codes "x\ny" }

abbrev second_edit : EditOp
second_edit = record { old_string = codes "c"; new_string = codes "z" }

hook_seed_by_line_example :
    (n : ℕ) × (rest : List AddedLine) × (hook_added_lines multi_edit_tool [] []
        (first_edit ∷ second_edit ∷ [])
      ≡ hook_added_lines multi_edit_tool [] [] (first_edit ∷ [])
        ++ (number_lines n (split line_feed (codes "z")) ++ rest))
    × (seed_at
          (hook_seed_by_line multi_edit_tool []
            (first_edit ∷ second_edit ∷ [])
            (text_to_added_lines (codes "a\n\"\"\"\nc"))
            lang_python)
          (pos (n + 1))
        ≡ state_of lang_python (text_to_added_lines (codes "a\n\"\"\"\nc")) (codes "c"))
hook_seed_by_line_example =
    hook_seed_by_line-hook_added_lines lang_python (record { line_no = pos 1; text = codes "a" })
      (number_lines 1 (codes "\"\"\"" ∷ codes "c" ∷ [])) (first_edit ∷ []) second_edit [] refl

contract_warning_with_example :
    (is_some (contract_warning_with [] read files true store repo (codes "/r/docs/x") (codes "s"))
      ≡ true)
    ↔ ((true ≡ true)
        × ((codes "s" =? []) ≡ false)
        × (files.is_abs (codes "/r/docs/x") ≡ true)
        × IsOutOfScope [] read files copy
            (λ t. refl)
            (newest 1 (codes "s") history)
            (codes "/r/docs/x"))
contract_warning_with_example =
    contract_warning_with-run [] read files copy (λ t. refl) true store repo (codes "/r/docs/x")
      (codes "s") history refl

at_latest :
    open_latest_snapshot files store (codes "/r") (codes "/r/a.py") ≡ latest 7 (codes "a.py")
unfolding open_latest_snapshot repo_rel_path
at_latest = refl

check_dangling_refs-deleted_defs_example :
    any
      (is_about (codes "f"))
      (check_dangling_refs files store
        (codes "/r")
        (codes "/r/a.py")
        (deleted_defs extractors lang_python (codes "def f") (codes "def g"))).warns
    ≡ (has_name (codes "f") (def_set extractors lang_python (codes "def f"))
        && not (has_name (codes "f") (def_set extractors lang_python (codes "def g")))
        && is_referred (codes "a.py") (store.refs_to_name 7 (codes "f")))
check_dangling_refs-deleted_defs_example =
    check_dangling_refs-deleted_defs files store (codes "/r") (codes "/r/a.py") extractors
      lang_python (codes "def f") (codes "def g") (codes "f") (codes "a.py") 7 at_latest

abbrev one_violation : Findings
one_violation = record {
  violations =
      record {
        file = codes "a.py";
        line = pos 1;
        symbol = codes "g";
        lang = lang_python;
        suggestions = [];
      }
      ∷ [];
  dangling = nothing_checked;
  dropped = [];
  duplicates = nothing_checked;
  unread = 1;
}

run_hook_mode-IsSound_example : IsSound (
    run_hook_mode [] read all_on files store checks 5 none
      (some (edit_of (codes "s") (codes "/r/a.py"))))
run_hook_mode-IsSound_example =
    run_hook_mode-IsSound [] read all_on files store checks 5 none
      (some (edit_of (codes "s") (codes "/r/a.py")))

abbrev newer_store : Store
newer_store = record store { open_fast = schema_newer }

run_hook_mode-no_store_example :
    is_ask
      (run_hook_mode [] read all_on files newer_store checks 5 none
        (some (edit_of (codes "s") (codes "/r/a.py")))).response
    ≡ false
run_hook_mode-no_store_example =
    run_hook_mode-no_store [] read all_on files newer_store checks 5 none
      (some (edit_of (codes "s") (codes "/r/a.py"))) refl

nothing_declared : (r : Repo) → newest r.id (codes "other") history ≡ none
nothing_declared r = ground arith

run_hook_mode-undeclared_example :
    run_hook_mode [] read all_on files store checks 5 none
      (some (edit_of (codes "other") (codes "/r/x.md")))
    ≡ run_hook_mode [] read
        (record all_on { contract = false })
        files
        store
        checks
        5
        none
        (some (edit_of (codes "other") (codes "/r/x.md")))
run_hook_mode-undeclared_example =
    run_hook_mode-undeclared [] read copy files store history (λ t. refl) refl all_on checks 5 none
      (edit_of (codes "other") (codes "/r/x.md")) nothing_declared
