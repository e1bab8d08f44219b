-- ===== src/Snapshot/Store.antt =====
-- internal/snapshot/snapshot.go, and the deletions of internal/snapshot/registry.go: the tables as
-- lists of rows in the order of their insertion. `AUTOINCREMENT` gives an id above all that were
-- ever given. Every statement succeeds: an error of the database rolls the transaction back. The
-- clock is an argument.
pub mod Auto
pub mod Rolling
pub mod Queries
mod Tests
use mathlib.Core.List.{foldl}
use runecho.Prelude.{
  ℕ, ◌+◌, Bool, true, false, not, ◌&&◌, ◌||◌, Option, none, some, List, [], ◌∷◌, ◌++◌, map, any,
  keep, ◌==◌, if◌then◌else◌,
}
use runecho.Order.{nat_ord, list_ord, ◌=?◌}
use runecho.Sort.{sort_by}
use runecho.Text.{Bytes, codes}

-- internal/ir/storage.go: the index that a snapshot is taken of.
pub record Symbol : Type 0 where
  pub name : Bytes
  pub kind : Bytes
  pub line : ℕ
  pub hash : Bytes

pub record FileIr : Type 0 where
  pub hash : Bytes
  pub symbols : List Symbol
  pub refs : List Bytes

pub record Ir : Type 0 where
  pub root_hash : Bytes
  pub files : List (Bytes × FileIr)

-- The rows of the tables.
pub record SnapshotRow : Type 0 where
  pub id : ℕ
  pub repo_id : ℕ
  pub session_id : Bytes
  pub label : Bytes
  pub timestamp : ℕ
  pub root : Bytes
  pub root_hash : Bytes

pub record FileRow : Type 0 where
  pub id : ℕ
  pub snapshot_id : ℕ
  pub path : Bytes
  pub content_hash : Bytes

pub record SymbolRow : Type 0 where
  pub file_id : ℕ
  pub name : Bytes
  pub kind : Bytes
  pub sig_hash : Bytes

pub record RefRow : Type 0 where
  pub file_id : ℕ
  pub name : Bytes

pub record Db : Type 0 where
  pub snapshots : List SnapshotRow
  pub files : List FileRow
  pub symbols : List SymbolRow
  pub refs : List RefRow
  pub last_snapshot_id : ℕ
  pub last_file_id : ℕ

abbrev pub empty_db : Db
empty_db = record {
  snapshots = [];
  files = [];
  symbols = [];
  refs = [];
  last_snapshot_id = 0;
  last_file_id = 0;
}

abbrev pub auto_snapshot_label : Bytes
auto_snapshot_label = codes "auto"

abbrev pub symbol_row : ℕ → Symbol → SymbolRow
symbol_row file_id s = record { file_id = file_id; name = s.name; kind = s.kind; sig_hash = s.hash }

-- `INSERT OR IGNORE INTO refs`, with its unique index
abbrev pub insert_ref : ℕ → List RefRow → Bytes → List RefRow
insert_ref file_id refs name =
    if any (λ (r : RefRow). r.file_id == file_id && r.name =? name) refs
    then refs
    else refs ++ record { file_id = file_id; name = name } ∷ []

-- One round of the loop over the paths.
unfoldable pub insert_file : ℕ → Db → Bytes × FileIr → Db
insert_file snapshot_id db (path, file) =
    let file_id = db.last_file_id + 1 in
    record db {
      files =
          db.files
          ++ record {
            id = file_id;
            snapshot_id = snapshot_id;
            path = path;
            content_hash = file.hash;
          }
            ∷ [];
      symbols = db.symbols ++ map (symbol_row file_id) file.symbols;
      refs = foldl (insert_ref file_id) db.refs file.refs;
      last_file_id = file_id;
    }

abbrev pub path_of : Bytes × FileIr → Bytes
path_of e = e.0

-- The row of `INSERT INTO snapshots`.
abbrev pub snapshot_row : ℕ → ℕ → Bytes → Bytes → ℕ → Bytes → Ir → SnapshotRow
snapshot_row id repo_id session_id label ts root ir = record {
  id = id;
  repo_id = repo_id;
  session_id = session_id;
  label = label;
  timestamp = ts;
  root = root;
  root_hash = ir.root_hash;
}

-- `writeSnapshotTx`, with the new id.
unfoldable pub write_snapshot : Db → ℕ → Bytes → Bytes → ℕ → Bytes → Ir → ℕ × Db
write_snapshot db repo_id session_id label ts root ir =
    let id = db.last_snapshot_id + 1 in
    let opened = record db {
      snapshots = db.snapshots ++ snapshot_row id repo_id session_id label ts root ir ∷ [];
      last_snapshot_id = id;
    } in
    (id, foldl (insert_file id) opened (sort_by path_of ir.files))

-- `none` is the error of the reserved label.
unfoldable pub save_snapshot : Db → ℕ → Bytes → Bytes → ℕ → Bytes → Ir → Option (ℕ × Db)
save_snapshot db repo_id session_id label ts root ir =
    if label =? auto_snapshot_label
    then none
    else some (write_snapshot db repo_id session_id label ts root ir)

-- `deleteSnapshotsTx`: the rows below the snapshots that the condition names, and these.
abbrev pub file_in : (SnapshotRow → Bool) → Db → FileRow → Bool
file_in doomed db f = any (λ (s : SnapshotRow). s.id == f.snapshot_id && doomed s) db.snapshots

abbrev pub below : (SnapshotRow → Bool) → Db → ℕ → Bool
below doomed db file_id = any (λ (f : FileRow). f.id == file_id && file_in doomed db f) db.files

unfoldable pub delete_snapshots : (SnapshotRow → Bool) → Db → Db
delete_snapshots doomed db = record db {
  refs = keep (λ (r : RefRow). not (below doomed db r.file_id)) db.refs;
  symbols = keep (λ (s : SymbolRow). not (below doomed db s.file_id)) db.symbols;
  files = keep (λ f. not (file_in doomed db f)) db.files;
  snapshots =
      keep (λ s. not (any (λ (t : SnapshotRow). t.id == s.id && doomed t) db.snapshots))
        db.snapshots;
}

-- `s.repo_id = ? AND s.label = 'auto'`
abbrev pub is_auto : ℕ → SnapshotRow → Bool
is_auto repo_id s = s.repo_id == repo_id && s.label =? auto_snapshot_label

unfoldable pub delete_auto_snapshots : ℕ → Db → Db
delete_auto_snapshots repo_id db = delete_snapshots (is_auto repo_id) db

unfoldable pub roll_auto_snapshot : Db → ℕ → Bytes → ℕ → Bytes → Ir → ℕ × Db
roll_auto_snapshot db repo_id session_id ts root ir =
    write_snapshot (delete_auto_snapshots repo_id db) repo_id session_id auto_snapshot_label ts root
      ir
