-- ===== src/Snapshot/Churn/Tests.antt =====
-- internal/snapshot/churn.go: counts over two diffs, and the theorem at them.
use mathlib.Core.List.{foldl}
use runecho.Prelude.{◌≡◌, ◌+◌, refl, List, [], ◌∷◌}
use runecho.Order.{nat_ord, list_ord}
use runecho.Sort.{sort_by}
use runecho.Text.{Bytes, codes}
use runecho.Int.{pos}
use runecho.Snapshot.Types.{SnapshotMeta, Status, modified, added, FileDiff, DiffResult}
use runecho.Snapshot.Churn.{count_of, bump_files, file_churn, times_changed, count_of-bump_files}

abbrev some_meta : SnapshotMeta
some_meta = record {
  id = pos 1;
  repo_id = pos 1;
  session_id = [];
  label = [];
  timestamp = 0;
  root = [];
  root_hash = [];
  file_count = 0;
}

abbrev changed_file : Bytes → Status → FileDiff
changed_file path status = record {
  path = path;
  status = status;
  hash_before = [];
  hash_after = [];
  added_syms = [];
  removed_syms = [];
  modified_syms = [];
}

abbrev diff_of : List FileDiff → DiffResult
diff_of files = record {
  snapshot_a = some_meta;
  snapshot_b = some_meta;
  files = files;
  total_added = 0;
  total_removed = 0;
  total_modified = 0;
}

abbrev two_diffs : List DiffResult
two_diffs =
    diff_of (changed_file (codes "a") added ∷ changed_file (codes "b") added ∷ [])
    ∷ diff_of (changed_file (codes "b") modified ∷ [])
    ∷ []

hottest_first :
    file_churn two_diffs
    ≡ record { path = codes "b"; changes = 2; diff_count = 2 }
      ∷ record { path = codes "a"; changes = 1; diff_count = 2 }
      ∷ []
unfolding file_churn sort_by
hottest_first = refl

count_of-bump_files_example :
    count_of (codes "b") (foldl bump_files [] two_diffs)
    ≡ count_of (codes "b") [] + times_changed (codes "b") two_diffs
count_of-bump_files_example = count_of-bump_files (codes "b") [] two_diffs
