-- ===== src/Snapshot/Trail/Tests.antt =====
-- internal/snapshot/truthtrail.go: the theorem at a small database.
use runecho.Prelude.{◌≡◌, ◌&&◌, List, [], ◌∷◌, any, ◌==◌}
use runecho.Order.{nat_ord, list_ord, ◌=?◌}
use runecho.Int.{pos}
use runecho.Maps.{lookup, is_some}
use runecho.Text.{Bytes, codes}
use runecho.Guard.Known.{has_name}
use runecho.Snapshot.Types.{SnapshotMeta}
use runecho.Snapshot.Store.{Ir, Db, FileRow, RefRow, empty_db, write_snapshot}
use runecho.Snapshot.Churn.{row_id}
use runecho.Snapshot.Trail.{is_lost, listed, truth_trail, lookup-callers}

abbrev before : Ir
before = record {
  root_hash = codes "h";
  files =
      (
        codes "a.go",
        record {
          hash = codes "1";
          symbols = record { name = codes "F"; kind = codes "function"; line = 3; hash = [] } ∷ [];
          refs = codes "F" ∷ [];
        },
      )
      ∷ [];
}

abbrev stored : Db
stored = (write_snapshot empty_db 1 (codes "s") (codes "start") 5 (codes "/r") before).1

abbrev baseline : SnapshotMeta
baseline = record {
  id = pos 1;
  repo_id = pos 1;
  session_id = codes "s";
  label = codes "start";
  timestamp = 5;
  root = codes "/r";
  root_hash = codes "h";
  file_count = 1;
}

abbrev nothing : Ir
nothing = record { root_hash = codes "e"; files = [] }

abbrev no_claims : Bytes → List (Bytes × Bytes)
no_claims text = []

lookup-callers_example :
    let trail = truth_trail no_claims stored 1 baseline nothing (pos 0) [] 9 in
    (is_some (lookup (codes "F") trail.callers) ≡ is_lost (codes "F") trail.diff)
    × (has_name (codes "a.go") (listed (lookup (codes "F") trail.callers)) ≡ (
        is_lost (codes "F") trail.diff
        && any
            (λ (r : RefRow).
              r.name =? codes "F"
              && any
                  (λ (f : FileRow).
                    f.id == r.file_id
                    && f.snapshot_id == row_id baseline.id
                    && f.path =? codes "a.go")
                  stored.files)
            stored.refs))
lookup-callers_example =
    lookup-callers no_claims stored 1 baseline nothing (pos 0) [] 9 (codes "F") (codes "a.go")
