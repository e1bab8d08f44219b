-- ===== src/Hook/Precommit/Tests.antt =====
-- cmd/runecho-guard: commits in the small repository.
use runecho.Prelude.{◌≡◌, refl, false, some, [], ◌∷◌}
use runecho.Int.{pos}
use runecho.Text.{codes}
use runecho.Guard.Validate.{check_file, run}
use runecho.Hook.Store.{Store, schema_newer}
use runecho.Hook.Findings.{Switches, Checks}
use runecho.Hook.Samples.{checks, files, store, all_on}
use runecho.Hook.Precommit.{CommitInput, exit_with, commit_violations, run_commit}

abbrev lenient : Switches
lenient = record all_on { strict = false }

abbrev input : CommitInput
input = record {
  dry_run = false;
  cwd = some (codes "/r");
  max_age = some (pos 5);
  staged_diff = λ root. some (
    record { path = codes "a.go"; added_lines = []; abs_path = []; seed_by_line = [] } ∷ [],
    false,
  );
}

abbrev newer_store : Store
newer_store = record store { open_fast = schema_newer }

strict_blocks : run_commit all_on files newer_store checks input ≡ exit_with 1
unfolding run_commit
strict_blocks = refl

-- A Python file in which one name is not bound.
abbrev one_found : Checks
one_found = record checks {
  file_scope_violations = λ lang file fd symbols.
      record { file = []; line = pos 1; symbol = codes "f"; lang = lang; suggestions = [] } ∷ [];
}

abbrev python_input : CommitInput
python_input = record input {
  staged_diff = λ root. some (
    record { path = codes "a.py"; added_lines = []; abs_path = []; seed_by_line = [] } ∷ [],
    false,
  );
}

one_blocks : (run_commit lenient files store one_found python_input).exit ≡ 1
unfolding run_commit commit_violations run check_file
one_blocks = refl
