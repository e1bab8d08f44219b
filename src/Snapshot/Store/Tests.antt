-- ===== src/Snapshot/Store/Tests.antt =====
-- internal/snapshot/snapshot.go: a small database, and the theorems at it.

use runecho.Prelude.{◌+◌, ◌≤◌, ◌≡◌, refl, not, none, some, [], ◌∷◌, ◌++◌, map, length, keep, All}
use runecho.Order.{nat_ord, list_ord}
use runecho.Sort.{sort_by}
use runecho.Text.{codes}
use runecho.Int.{pos}
use runecho.Snapshot.Types.{SnapshotMeta}
use runecho.Snapshot.Store.{
  Ir, Db, empty_db, auto_snapshot_label, insert_file, snapshot_row, write_snapshot, save_snapshot,
  is_auto, delete_snapshots, delete_auto_snapshots, roll_auto_snapshot,
}
use runecho.Snapshot.Store.Auto.{id_of}
use runecho.Snapshot.Store.Rolling.{
  Reachable, fresh, saved, rolled, roll_auto_snapshot_lem, auto_at_most_one,
}
use runecho.Snapshot.Store.Queries.{
  meta_of, newest_first, get_latest_by_label, list_snapshots, refs_to_name, defs_of_name,
  load_files_by_snapshot,
}
use runecho.Snapshot.Store.Queries.Latest.{get_latest_by_label-roll}

abbrev small : Ir
small = record {
  root_hash = codes "h";
  files =
      (codes "b.go", record { hash = codes "2"; symbols = []; refs = codes "F" ∷ codes "F" ∷ [] })
      ∷ (
        codes "a.go",
        record {
          hash = codes "1";
          symbols = record { name = codes "F"; kind = codes "function"; line = 3; hash = [] } ∷ [];
          refs = [];
        },
      )
      ∷ [];
}

abbrev one_saved : Db
one_saved = (write_snapshot empty_db 1 (codes "s") (codes "start") 5 (codes "/r") small).1

abbrev then_rolled : Db
then_rolled = (roll_auto_snapshot one_saved 1 (codes "s") 6 (codes "/r") small).1

one_saved_written :
    save_snapshot empty_db 1 (codes "s") (codes "start") 5 (codes "/r") small ≡ some (1, one_saved)
unfolding save_snapshot write_snapshot
one_saved_written = refl

one_saved-Reachable : Reachable one_saved
one_saved-Reachable =
    saved {db = empty_db} {next = one_saved} {id = 1} 1 (codes "s") (codes "start") 5 (codes "/r")
      small fresh one_saved_written

then_rolled-Reachable : Reachable then_rolled
then_rolled-Reachable = rolled 1 (codes "s") 6 (codes "/r") small one_saved-Reachable

reserved : save_snapshot one_saved 1 (codes "s") (codes "auto") 7 (codes "/r") small ≡ none
unfolding save_snapshot
reserved = refl

rolled_twice :
    map id_of (roll_auto_snapshot then_rolled 1 (codes "s") 4 (codes "/r") small).1.snapshots
    ≡ 1 ∷ 3 ∷ []
unfolding roll_auto_snapshot delete_auto_snapshots delete_snapshots write_snapshot insert_file
    sort_by
rolled_twice = refl

callers : refs_to_name then_rolled 2 (codes "F") ≡ codes "b.go" ∷ []
unfolding refs_to_name roll_auto_snapshot delete_auto_snapshots delete_snapshots write_snapshot
    insert_file sort_by
callers = refl

definitions : defs_of_name then_rolled 2 (codes "F") ≡ codes "a.go" ∷ []
unfolding defs_of_name roll_auto_snapshot delete_auto_snapshots delete_snapshots write_snapshot
    insert_file sort_by
definitions = refl

files_read_back :
    load_files_by_snapshot one_saved 1 ≡ (codes "a.go", codes "1") ∷ (codes "b.go", codes "2") ∷ []
unfolding load_files_by_snapshot write_snapshot insert_file sort_by
files_read_back = refl

newest_listed :
    map (λ (m : SnapshotMeta). m.timestamp) (list_snapshots then_rolled 1 (pos 2)) ≡ 6 ∷ 5 ∷ []
unfolding list_snapshots newest_first roll_auto_snapshot delete_auto_snapshots delete_snapshots
    write_snapshot insert_file sort_by
newest_listed = refl

roll_auto_snapshot_lem_example :
    ((roll_auto_snapshot one_saved 1 (codes "s") 6 (codes "/r") small).1.snapshots
      ≡ keep (λ s. not (is_auto 1 s)) one_saved.snapshots
        ++ snapshot_row
            (one_saved.last_snapshot_id + 1)
            1
            (codes "s")
            auto_snapshot_label
            6
            (codes "/r")
            small
          ∷ [])
    × All (λ s. id_of s ≤ one_saved.last_snapshot_id) one_saved.snapshots
roll_auto_snapshot_lem_example =
    roll_auto_snapshot_lem one_saved 1 (codes "s") 6 (codes "/r") small one_saved-Reachable

auto_at_most_one_example : length (keep (is_auto 1) then_rolled.snapshots) ≤ 1
auto_at_most_one_example = auto_at_most_one then_rolled 1 then_rolled-Reachable

get_latest_by_label-roll_example :
    let again = (roll_auto_snapshot then_rolled 1 (codes "s") 4 (codes "/r") small).1 in
    get_latest_by_label again 1 auto_snapshot_label
    ≡ some (
        meta_of again (
          snapshot_row
            (then_rolled.last_snapshot_id + 1)
            1
            (codes "s")
            auto_snapshot_label
            4
            (codes "/r")
            small))
get_latest_by_label-roll_example =
    get_latest_by_label-roll then_rolled 1 (codes "s") 4 (codes "/r") small then_rolled-Reachable
