-- ===== src/Snapshot/Store/Queries.antt =====
-- internal/snapshot/snapshot.go: what is read back from the tables.
pub mod Latest
pub mod Refs
use mathlib.Core.List.{foldl}
use runecho.Prelude.{
  ℕ, ◌+◌, Bool, true, false, not, ◌&&◌, ◌||◌, Option, none, some, List, [], ◌∷◌, ◌++◌, map, foldr,
  reverse, length, take, keep, ◌==◌, if◌then◌else◌,
}
use runecho.Order.{nat_ord, list_ord, pair_ord, ◌=?◌}
use runecho.Int.{ℤ, pos, negsuc}
use runecho.Sort.{sort_by}
use runecho.Firsts.{first_of_each}
use runecho.Maps.{lookup, put}
use runecho.Text.{Bytes, codes}
use runecho.Snapshot.Types.{SnapshotMeta, SymbolDelta}
use runecho.Snapshot.Store.{SnapshotRow, FileRow, SymbolRow, RefRow, Db}

-- The columns of a snapshot, with the number of its files.
abbrev pub meta_of : Db → SnapshotRow → SnapshotMeta
meta_of db s = record {
  id = pos s.id;
  repo_id = pos s.repo_id;
  session_id = s.session_id;
  label = s.label;
  timestamp = s.timestamp;
  root = s.root;
  root_hash = s.root_hash;
  file_count = length (keep (λ (f : FileRow). f.snapshot_id == s.id) db.files);
}

abbrev pub time_and_id : SnapshotRow → ℕ × ℕ
time_and_id s = (s.timestamp, s.id)

-- `ORDER BY s.timestamp DESC, s.id DESC`
unfoldable pub newest_first : List SnapshotRow → List SnapshotRow
newest_first rows = reverse (sort_by time_and_id rows)

-- `LIMIT 1`, and `none` for no row.
abbrev pub first_meta : Db → List SnapshotRow → Option SnapshotMeta
first_meta db [] = none
first_meta db (s ∷ rows) = some (meta_of db s)

abbrev pub has_label : ℕ → Bytes → SnapshotRow → Bool
has_label repo_id label s = s.repo_id == repo_id && s.label =? label

unfoldable pub get_latest_by_label : Db → ℕ → Bytes → Option SnapshotMeta
get_latest_by_label db repo_id label =
    first_meta db (newest_first (keep (has_label repo_id label) db.snapshots))

unfoldable pub get_latest_by_label_session : Db → ℕ → Bytes → Bytes → Option SnapshotMeta
get_latest_by_label_session db repo_id label session_id = first_meta db (
    newest_first (
      keep (λ (s : SnapshotRow). has_label repo_id label s && s.session_id =? session_id)
        db.snapshots))

unfoldable pub get_by_id : Db → ℕ → Option SnapshotMeta
get_by_id db id = first_meta db (keep (λ (s : SnapshotRow). s.id == id) db.snapshots)

-- `LIMIT ?`, where a negative number is no limit.
abbrev pub limited {ℓ} : {A : Type ℓ} → ℤ → List A → List A
limited (pos n) rows = take n rows
limited (negsuc n) rows = rows

unfoldable pub list_snapshots : Db → ℕ → ℤ → List SnapshotMeta
list_snapshots db repo_id n =
    map (meta_of db)
      (limited n (newest_first (keep (λ (s : SnapshotRow). s.repo_id == repo_id) db.snapshots)))

-- The paths of the files of a snapshot that have an id: the join of a row below a file.
abbrev pub paths_of_file : ℕ → List FileRow → ℕ → List Bytes
paths_of_file snapshot_id files file_id =
    map (λ (f : FileRow). f.path)
      (keep (λ (f : FileRow). f.id == file_id && f.snapshot_id == snapshot_id) files)

unfoldable pub refs_to_name : Db → ℕ → Bytes → List Bytes
refs_to_name db snapshot_id name =
    sort_by (λ p. p)
      (foldr (λ (r : RefRow) paths. paths_of_file snapshot_id db.files r.file_id ++ paths) []
        (keep (λ (r : RefRow). r.name =? name) db.refs))

-- `s.kind IN ('function', 'class')`
abbrev pub is_definition_kind : Bytes → Bool
is_definition_kind kind = kind =? codes "function" || kind =? codes "class"

unfoldable pub defs_of_name : Db → ℕ → Bytes → List Bytes
defs_of_name db snapshot_id name =
    sort_by (λ p. p)
      (first_of_each (λ (p q : Bytes). p =? q)
        (foldr (λ (s : SymbolRow) paths. paths_of_file snapshot_id db.files s.file_id ++ paths) []
          (keep (λ (s : SymbolRow). s.name =? name && is_definition_kind s.kind) db.symbols)))

abbrev pub put_file : List (Bytes × Bytes) → FileRow → List (Bytes × Bytes)
put_file m f = put f.path f.content_hash m

unfoldable pub load_files_by_snapshot : Db → ℕ → List (Bytes × Bytes)
load_files_by_snapshot db snapshot_id =
    foldl put_file [] (keep (λ (f : FileRow). f.snapshot_id == snapshot_id) db.files)

-- `m[path] = append(m[path], sym)`
abbrev pub append_symbol :
    List (Bytes × List SymbolDelta) → Bytes × SymbolDelta → List (Bytes × List SymbolDelta)
append_symbol m (path, s) =
    put path (elim (lookup path m) [ none ↦ s ∷ [] | some syms ↦ syms ++ s ∷ [] ]) m

abbrev pub with_path : SymbolRow → Bytes → Bytes × SymbolDelta
with_path s path = (path, record { name = s.name; kind = s.kind; hash = s.sig_hash })

-- `ORDER BY f.path, s.kind, s.name`
abbrev pub path_kind_name : Bytes × SymbolDelta → Bytes × (Bytes × Bytes)
path_kind_name (path, s) = (path, (s.kind, s.name))

unfoldable pub load_symbols_by_snapshot : Db → ℕ → List (Bytes × List SymbolDelta)
load_symbols_by_snapshot db snapshot_id = foldl append_symbol [] (
    sort_by path_kind_name (
      foldr
        (λ (s : SymbolRow) rows.
          map (with_path s) (paths_of_file snapshot_id db.files s.file_id) ++ rows)
        [] db.symbols))
