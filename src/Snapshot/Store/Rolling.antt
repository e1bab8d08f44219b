-- ===== src/Snapshot/Store/Rolling.antt =====
-- The rolling snapshot: at most one per repository, whatever is saved, rolled and deleted, and the
-- other snapshots are never touched by it.
use runecho.Prelude.{
  ℕ, ◌+◌, ◌≤◌, ◌≡◌, refl, sym, ap, subst, ◌∙◌, Bool, true, false, not, Bool-cases, inl, inr, some,
  List, [], ◌∷◌, ◌++◌, length, length-append, keep, All, arith, ◌==◌,
}
use runecho.Order.{nat_ord, list_ord, ◌=?◌}
use runecho.Firsts.{keep-keep, keep-append, keep_none, length-keep-keep}
use runecho.Text.{Bytes}
use runecho.Snapshot.Store.{
  Ir, SnapshotRow, Db, empty_db, auto_snapshot_label, snapshot_row, write_snapshot, save_snapshot,
  delete_snapshots, is_auto, delete_auto_snapshots, roll_auto_snapshot,
}
use runecho.Snapshot.Store.Auto.{
  id_of, IsNumbered, delete_snapshots-snapshots, write_snapshot-snapshots,
  write_snapshot-IsNumbered, delete_snapshots-IsNumbered,
}

-- The states of the database that saving, rolling and deleting lead to.
pub data Reachable : Db → Type 0 where
  fresh : Reachable empty_db
  saved :
      {db next : Db} {id : ℕ} (repo_id : ℕ) (session_id label : Bytes) (ts : ℕ) (root : Bytes)
      (ir : Ir)
      → Reachable db
      → save_snapshot db repo_id session_id label ts root ir ≡ some (id, next)
      → Reachable next
  rolled :
      {db : Db} (repo_id : ℕ) (session_id : Bytes) (ts : ℕ) (root : Bytes) (ir : Ir)
      → Reachable db
      → Reachable (roll_auto_snapshot db repo_id session_id ts root ir).1
  deleted :
      {db : Db} (doomed : SnapshotRow → Bool)
      → Reachable db
      → Reachable (delete_snapshots doomed db)

-- What saving comes to when it is not refused.
save_snapshot-written :
    (db next : Db) (id repo_id : ℕ) (session_id label : Bytes) (ts : ℕ) (root : Bytes) (ir : Ir)
    → save_snapshot db repo_id session_id label ts root ir ≡ some (id, next)
    → ((label =? auto_snapshot_label) ≡ false)
      × (next ≡ (write_snapshot db repo_id session_id label ts root ir).1)
unfolding save_snapshot
save_snapshot-written db next id repo_id session_id label ts root ir e = ground (arith, e)

roll-IsNumbered :
    (db : Db) (repo_id : ℕ) (session_id : Bytes) (ts : ℕ) (root : Bytes) (ir : Ir)
    → IsNumbered db
    → IsNumbered (roll_auto_snapshot db repo_id session_id ts root ir).1
unfolding roll_auto_snapshot delete_auto_snapshots
roll-IsNumbered db repo_id session_id ts root ir h =
    write_snapshot-IsNumbered (delete_snapshots (is_auto repo_id) db) repo_id session_id
      auto_snapshot_label ts root ir (delete_snapshots-IsNumbered (is_auto repo_id) db h)

Reachable-IsNumbered : {db : Db} → Reachable db → IsNumbered db
Reachable-IsNumbered fresh = (tt, tt)
Reachable-IsNumbered (saved {db} {next} {id} repo_id session_id label ts root ir r e) =
    let (_, written) = save_snapshot-written db next id repo_id session_id label ts root ir e in
    subst IsNumbered (sym written)
      (write_snapshot-IsNumbered db repo_id session_id label ts root ir (Reachable-IsNumbered r))
Reachable-IsNumbered (rolled {db} repo_id session_id ts root ir r) =
    roll-IsNumbered db repo_id session_id ts root ir (Reachable-IsNumbered r)
Reachable-IsNumbered (deleted {db} doomed r) =
    delete_snapshots-IsNumbered doomed db (Reachable-IsNumbered r)

-- Rolling in a reachable database deletes the auto snapshots of the repository and no other
-- snapshot, and adds one new snapshot at the end, labelled `auto`, with an id above those of all
-- snapshots there.
pub roll_auto_snapshot_lem :
    (db : Db) (repo_id : ℕ) (session_id : Bytes) (ts : ℕ) (root : Bytes) (ir : Ir)
    → Reachable db
    → ((roll_auto_snapshot db repo_id session_id ts root ir).1.snapshots
        ≡ keep (λ s. not (is_auto repo_id s)) db.snapshots
          ++ snapshot_row
              (db.last_snapshot_id + 1)
              repo_id
              session_id
              auto_snapshot_label
              ts
              root
              ir
            ∷ [])
      × All (λ s. id_of s ≤ db.last_snapshot_id) db.snapshots
unfolding roll_auto_snapshot delete_auto_snapshots delete_snapshots
roll_auto_snapshot_lem db repo_id session_id ts root ir r =
    let (distinct, below) = Reachable-IsNumbered r in
    let (rows, _) =
      write_snapshot-snapshots (delete_snapshots (is_auto repo_id) db) repo_id session_id
        auto_snapshot_label ts root ir in
    (
      rows
          ∙ ap
              (λ l.
                l
                ++ snapshot_row (db.last_snapshot_id + 1) repo_id session_id auto_snapshot_label ts
                    root ir
                  ∷ [])
              (delete_snapshots-snapshots (is_auto repo_id) db distinct),
      below,
    )

abbrev autos : ℕ → List SnapshotRow → ℕ
autos repo rows = length (keep (is_auto repo) rows)

autos-append :
    (repo : ℕ) (rows : List SnapshotRow) (row : SnapshotRow)
    → autos repo (rows ++ row ∷ []) ≡ autos repo rows + autos repo (row ∷ [])
autos-append repo rows row =
    ap length (keep-append (is_auto repo) rows (row ∷ []))
    ∙ length-append (keep (is_auto repo) rows) (keep (is_auto repo) (row ∷ []))

autos_one : (repo : ℕ) (row : SnapshotRow) → autos repo (row ∷ []) ≤ 1
autos_one repo row = ground arith

autos_other : (repo : ℕ) (row : SnapshotRow) → is_auto repo row ≡ false → autos repo (row ∷ []) ≡ 0
autos_other repo row h = ground (arith, h)

autos_deleted :
    (repo repo_id : ℕ) (rows : List SnapshotRow)
    → (repo == repo_id) ≡ true
    → autos repo (keep (λ s. not (is_auto repo_id s)) rows) ≡ 0
autos_deleted repo repo_id rows same = ap length (
    keep-keep (is_auto repo) (λ s. not (is_auto repo_id s)) (λ s. false) (λ s. ground (arith, same))
      rows
    ∙ keep_none rows)

autos-roll :
    (repo repo_id : ℕ) (rows : List SnapshotRow) (row : SnapshotRow)
    → row.repo_id ≡ repo_id
    → autos repo rows ≤ 1
    → autos repo (keep (λ s. not (is_auto repo_id s)) rows ++ row ∷ []) ≤ 1
autos-roll repo repo_id rows row e h =
    let kept = keep (λ s. not (is_auto repo_id s)) rows in
    let sum = autos-append repo kept row in
    elim (Bool-cases (repo == repo_id)) [
      | inl same ↦
          let none_left = autos_deleted repo repo_id rows same in
          let one = autos_one repo row in omega arith
      | inr other ↦
          let not_new = autos_other repo row (ground (arith, e, other)) in
          let fewer = length-keep-keep (is_auto repo) (λ s. not (is_auto repo_id s)) rows in
          omega arith
    ]

-- A repository never has two auto snapshots, whatever sequence of savings, rollings and deletions
-- the database has gone through.
pub auto_at_most_one :
    (db : Db) (repo : ℕ) → Reachable db → length (keep (is_auto repo) db.snapshots) ≤ 1
auto_at_most_one _ repo fresh = omega arith
auto_at_most_one _ repo (saved {db} {next} {id} repo_id session_id label ts root ir r e) =
    let (free, written) = save_snapshot-written db next id repo_id session_id label ts root ir e in
    let (rows, _) = write_snapshot-snapshots db repo_id session_id label ts root ir in
    let row = snapshot_row (db.last_snapshot_id + 1) repo_id session_id label ts root ir in
    let before = auto_at_most_one db repo r in
    let sum = autos-append repo db.snapshots row in
    let not_auto = autos_other repo row (ground (arith, free)) in
    subst (λ l. autos repo l ≤ 1) (sym (ap (λ (d : Db). d.snapshots) written ∙ rows)) (omega arith)
auto_at_most_one _ repo (rolled {db} repo_id session_id ts root ir r) =
    let row =
      snapshot_row (db.last_snapshot_id + 1) repo_id session_id auto_snapshot_label ts root ir in
    subst (λ l. autos repo l ≤ 1)
      (sym ((roll_auto_snapshot_lem db repo_id session_id ts root ir r).0))
      (autos-roll repo repo_id db.snapshots row refl (auto_at_most_one db repo r))
auto_at_most_one _ repo (deleted {db} doomed r) =
    let before = auto_at_most_one db repo r in
    let fewer = length-keep-keep (is_auto repo) (λ s. not (doomed s)) db.snapshots in
    subst (λ l. autos repo l ≤ 1)
      (sym (delete_snapshots-snapshots doomed db ((Reachable-IsNumbered r).0))) (omega arith)
