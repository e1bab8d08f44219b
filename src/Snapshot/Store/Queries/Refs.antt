-- ===== src/Snapshot/Store/Queries/Refs.antt =====
-- `RefsToName` of internal/snapshot/snapshot.go: which files the query for a name lists.
use runecho.Prelude.{
  ℕ, ◌≡◌, refl, ◌∙◌, Bool, ◌&&◌, List, [], ◌∷◌, ◌++◌, foldr, keep, any, arith, ◌==◌,
}
use runecho.Order.{nat_ord, list_ord, ◌=?◌}
use runecho.Sort.{any-sort_by}
use runecho.Text.{Bytes}
use runecho.Guard.Known.{has_name, has_name-foldr}
use runecho.Snapshot.Store.{FileRow, RefRow, Db}
use runecho.Snapshot.Store.Queries.{paths_of_file, refs_to_name}

-- A row of the files is the file `path` of a snapshot, and has an id.
abbrev pub is_file : ℕ → ℕ → Bytes → FileRow → Bool
is_file snapshot_id file_id path f =
    f.id == file_id && f.snapshot_id == snapshot_id && f.path =? path

-- A row of the references is one to a name in the file `path` of a snapshot.
abbrev pub is_ref : Db → ℕ → Bytes → Bytes → RefRow → Bool
is_ref db snapshot_id name path r =
    r.name =? name && any (is_file snapshot_id r.file_id path) db.files

has_name-paths_of_file :
    (snapshot_id file_id : ℕ) (path : Bytes) (files : List FileRow)
    → has_name path (paths_of_file snapshot_id files file_id)
      ≡ any (is_file snapshot_id file_id path) files
has_name-paths_of_file snapshot_id file_id path [] = refl
has_name-paths_of_file snapshot_id file_id path (f ∷ files) =
    ground (arith, has_name-paths_of_file snapshot_id file_id path files)

any-ref :
    (db : Db) (snapshot_id : ℕ) (name path : Bytes) (refs : List RefRow)
    → any
        (λ (r : RefRow). has_name path (paths_of_file snapshot_id db.files r.file_id))
        (keep (λ (r : RefRow). r.name =? name) refs)
      ≡ any (is_ref db snapshot_id name path) refs
any-ref db snapshot_id name path [] = refl
any-ref db snapshot_id name path (r ∷ refs) = ground (
  arith,
  any-ref db snapshot_id name path refs,
  has_name-paths_of_file snapshot_id r.file_id path db.files,
)

-- The files that are listed are those of the snapshot with a reference to the name.
pub has_name-refs_to_name :
    (db : Db) (snapshot_id : ℕ) (name path : Bytes)
    → has_name path (refs_to_name db snapshot_id name)
      ≡ any (is_ref db snapshot_id name path) db.refs
unfolding refs_to_name
has_name-refs_to_name db snapshot_id name path =
    let rows = keep (λ (r : RefRow). r.name =? name) db.refs in
    let paths = λ (r : RefRow). paths_of_file snapshot_id db.files r.file_id in
    any-sort_by (λ p. p) (λ p. p =? path) (foldr (λ r names. paths r ++ names) [] rows)
    ∙ has_name-foldr path paths rows
    ∙ any-ref db snapshot_id name path db.refs
