-- ===== src/Snapshot/Store/Queries/Latest.antt =====
-- The rolled snapshot is the one that is read back.
use runecho.Prelude.{
  ℕ, ◌+◌, ◌≡◌, refl, ap, ◌∙◌, true, false, not, some, List, [], ◌∷◌, ◌++◌, keep, arith,
}
use runecho.Order.{nat_ord, list_ord, pair_ord}
use runecho.Sort.{sort_by}
use runecho.Firsts.{keep-keep, keep-append, keep_none}
use runecho.Text.{Bytes}
use runecho.Snapshot.Store.{
  Ir, SnapshotRow, Db, auto_snapshot_label, snapshot_row, is_auto, roll_auto_snapshot,
}
use runecho.Snapshot.Store.Rolling.{Reachable, roll_auto_snapshot_lem}
use runecho.Snapshot.Store.Queries.{meta_of, newest_first, first_meta, get_latest_by_label}

keep-rolled :
    (repo_id : ℕ) (rows : List SnapshotRow) (row : SnapshotRow)
    → is_auto repo_id row ≡ true
    → keep (is_auto repo_id) (keep (λ s. not (is_auto repo_id s)) rows ++ row ∷ []) ≡ row ∷ []
keep-rolled repo_id rows row h =
    keep-append (is_auto repo_id) (keep (λ s. not (is_auto repo_id s)) rows) (row ∷ [])
    ∙ ap (λ l. l ++ keep (is_auto repo_id) (row ∷ []))
        (keep-keep (is_auto repo_id) (λ s. not (is_auto repo_id s)) (λ s. false) (λ s. ground arith)
            rows
          ∙ keep_none rows)
    ∙ ground (arith, h)

first_of_one :
    (db : Db) (s : SnapshotRow) → first_meta db (newest_first (s ∷ [])) ≡ some (meta_of db s)
unfolding newest_first sort_by
first_of_one db s = refl

-- The latest snapshot labelled `auto` of a repository is, after rolling in a reachable database,
-- the one that was just written, whatever the clock said.
pub get_latest_by_label-roll :
    (db : Db) (repo_id : ℕ) (session_id : Bytes) (ts : ℕ) (root : Bytes) (ir : Ir)
    → Reachable db
    → let rolled = (roll_auto_snapshot db repo_id session_id ts root ir).1 in
      get_latest_by_label rolled repo_id auto_snapshot_label
      ≡ some (
          meta_of rolled (
            snapshot_row
              (db.last_snapshot_id + 1)
              repo_id
              session_id
              auto_snapshot_label
              ts
              root
              ir))
unfolding get_latest_by_label
get_latest_by_label-roll db repo_id session_id ts root ir r =
    let rolled = (roll_auto_snapshot db repo_id session_id ts root ir).1 in
    let row =
      snapshot_row (db.last_snapshot_id + 1) repo_id session_id auto_snapshot_label ts root ir in
    ap (λ rows. first_meta rolled (newest_first (keep (is_auto repo_id) rows)))
      ((roll_auto_snapshot_lem db repo_id session_id ts root ir r).0)
    ∙ ap (λ rows. first_meta rolled (newest_first rows))
        (keep-rolled repo_id db.snapshots row (ground arith))
    ∙ first_of_one rolled row
