-- ===== src/Snapshot/Store/Auto.antt =====
-- What writing and deleting do to the rows of the snapshots and to their ids.
use mathlib.Core.List.{foldl}
use runecho.Prelude.{
  ℕ, ◌+◌, ◌≤◌, ◌≡◌, refl, sym, ap, subst, Bool, false, not, ◌&&◌, List, [], ◌∷◌, ◌++◌, any, keep,
  All, arith, ◌==◌,
}
use runecho.Order.{nat_ord, list_ord, ◌=?◌}
use runecho.Sort.{sort_by, IsDistinct, keep-IsDistinct}
use runecho.Firsts.{keep_congr, keep-All}
use runecho.Text.{Bytes}
use runecho.Snapshot.Store.{
  Ir, FileIr, SnapshotRow, Db, insert_file, path_of, snapshot_row, write_snapshot, delete_snapshots,
}

abbrev pub id_of : SnapshotRow → ℕ
id_of s = s.id

-- The ids differ, and none is above the last one given.
abbrev pub IsNumbered : Db → Type 0
IsNumbered db =
    IsDistinct id_of db.snapshots
    × All (λ (s : SnapshotRow). s.id ≤ db.last_snapshot_id) db.snapshots

All-zip {ℓ} :
    {A : Type ℓ} (P Q R : A → Type 0) (xs : List A)
    → ((x : A) → P x → Q x → R x)
    → All P xs
    → All Q xs
    → All R xs
All-zip P Q R [] h p q = tt
All-zip P Q R (x ∷ xs) h (px, p) (qx, q) = (h x px qx, All-zip P Q R xs h p q)

module _ (doomed : SnapshotRow → Bool) where
  abbrev hit : SnapshotRow → List SnapshotRow → Bool
  hit s rows = any (λ (t : SnapshotRow). t.id == s.id && doomed t) rows

  hit_none :
      (s : SnapshotRow) (rows : List SnapshotRow)
      → All (λ t. (id_of s =? id_of t) ≡ false) rows
      → hit s rows ≡ false
  hit_none s [] h = refl
  hit_none s (t ∷ rows) (ht, h) = ground (arith, ht, hit_none s rows h)

  hit_own :
      (rows : List SnapshotRow) → IsDistinct id_of rows → All (λ s. hit s rows ≡ doomed s) rows
  hit_own [] d = tt
  hit_own (r ∷ rows) (e, d) = (
    ground (arith, hit_none r rows e),
    All-zip (λ t. (id_of r =? id_of t) ≡ false) (λ s. hit s rows ≡ doomed s)
        (λ s. hit s (r ∷ rows) ≡ doomed s) rows (λ s ne own. ground (arith, ne, own)) e
        (hit_own rows d),
  )

  pub delete_snapshots-snapshots :
      (db : Db)
      → IsDistinct id_of db.snapshots
      → (delete_snapshots doomed db).snapshots ≡ keep (λ s. not (doomed s)) db.snapshots
  unfolding delete_snapshots
  delete_snapshots-snapshots db d =
      keep_congr (λ s. hit s db.snapshots ≡ doomed s) (λ s. not (hit s db.snapshots))
        (λ s. not (doomed s)) db.snapshots (λ s own. ap not own) (hit_own db.snapshots d)

foldl-insert_file :
    (id : ℕ) (db : Db) (files : List (Bytes × FileIr))
    → ((foldl (insert_file id) db files).snapshots ≡ db.snapshots)
      × ((foldl (insert_file id) db files).last_snapshot_id ≡ db.last_snapshot_id)
unfolding insert_file
foldl-insert_file id db [] = (refl, refl)
foldl-insert_file id db ((path, file) ∷ files) =
    foldl-insert_file id (insert_file id db (path, file)) files

module _ (db : Db) (repo_id : ℕ) (session_id label : Bytes) (ts : ℕ) (root : Bytes) (ir : Ir) where
  pub write_snapshot-snapshots :
      let written = (write_snapshot db repo_id session_id label ts root ir).1 in
      (written.snapshots
        ≡ db.snapshots
          ++ snapshot_row (db.last_snapshot_id + 1) repo_id session_id label ts root ir ∷ [])
      × (written.last_snapshot_id ≡ db.last_snapshot_id + 1)
  unfolding write_snapshot
  write_snapshot-snapshots = foldl-insert_file _ _ (sort_by path_of ir.files)

-- The new id is above the others.
All-le_suc :
    (n : ℕ) (rows : List SnapshotRow)
    → All (λ s. id_of s ≤ n) rows
    → All (λ s. id_of s ≤ n + 1) rows
All-le_suc n [] h = tt
All-le_suc n (s ∷ rows) (hs, h) = (omega arith, All-le_suc n rows h)

append-IsNumbered :
    (n : ℕ) (rows : List SnapshotRow) (row : SnapshotRow)
    → row.id ≡ n + 1
    → IsDistinct id_of rows
    → All (λ s. id_of s ≤ n) rows
    → IsDistinct id_of (rows ++ row ∷ []) × All (λ s. id_of s ≤ n + 1) (rows ++ row ∷ [])
append-IsNumbered n [] row e d h = ((tt, tt), (omega arith, tt))
append-IsNumbered n (s ∷ rows) row e (ds, d) (hs, h) =
    let (ih, below) = append-IsNumbered n rows row e d h in
    ((apart rows ds, ih), (omega arith, below))
  where
    apart :
        (l : List SnapshotRow)
        → All (λ t. (id_of s =? id_of t) ≡ false) l
        → All (λ t. (id_of s =? id_of t) ≡ false) (l ++ row ∷ [])
    apart [] a = (ground (arith, hs, e), tt)
    apart (t ∷ l) (at, a) = (at, apart l a)

pub write_snapshot-IsNumbered :
    (db : Db) (repo_id : ℕ) (session_id label : Bytes) (ts : ℕ) (root : Bytes) (ir : Ir)
    → IsNumbered db
    → IsNumbered (write_snapshot db repo_id session_id label ts root ir).1
write_snapshot-IsNumbered db repo_id session_id label ts root ir (d, h) =
    let row = snapshot_row (db.last_snapshot_id + 1) repo_id session_id label ts root ir in
    let (rows, last) = write_snapshot-snapshots db repo_id session_id label ts root ir in
    let (d', h') = append-IsNumbered db.last_snapshot_id db.snapshots row refl d h in
    (
      subst (IsDistinct id_of) (sym rows) d',
      subst (All _) (sym rows)
          (subst (λ n. All (λ s. id_of s ≤ n) (db.snapshots ++ row ∷ [])) (sym last) h'),
    )

pub delete_snapshots-IsNumbered :
    (doomed : SnapshotRow → Bool) (db : Db)
    → IsNumbered db
    → IsNumbered (delete_snapshots doomed db)
delete_snapshots-IsNumbered doomed db (d, h) =
    let rows = sym (delete_snapshots-snapshots doomed db d) in
    (
      subst (IsDistinct id_of) rows (keep-IsDistinct id_of (λ s. not (doomed s)) db.snapshots d),
      unfold delete_snapshots in keep-All (λ s. id_of s ≤ db.last_snapshot_id) _ db.snapshots h,
    )
