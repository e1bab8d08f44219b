-- ===== src/Snapshot/Churn.antt =====
-- internal/snapshot/diff.go: `Diff` and `DiffLive`; internal/snapshot/churn.go: `Churn`, which counts
-- over the last snapshots how often each file and each symbol changed. The sort of the symbols
-- leaves those with one count and one name in any order.
mod Tests
use mathlib.Core.List.{foldl, filter_map}
use runecho.Prelude.{
  ℕ, ◌+◌, ◌≡◌, refl, Bool, true, false, not, Bool-cases, inl, inr, ◌&&◌, Option, none, some, List,
  [], ◌∷◌, ◌++◌, map, reverse, length, keep, arith, ltb, ◌==◌, ==_iff, if◌then◌else◌,
}
use runecho.Order.{
  Ord, nat_ord, list_ord, list_beq_iff, pair_ord, ltb_irrefl, ltb_trans, ltb_connex, ◌=?◌,
}
use runecho.Int.{ℤ, pos, negsuc}
use runecho.Sort.{sort_by}
use runecho.Maps.{lookup, put, lookup-put}
use runecho.Text.{Bytes, codes, cut}
use runecho.Snapshot.Types.{
  SnapshotMeta, SymbolDelta, Status, unchanged, added, removed, modified, FileDiff, DiffResult,
}
use runecho.Snapshot.Diff.{compute_diff}
use runecho.Snapshot.Store.{Symbol, FileIr, Ir, Db}
use runecho.Snapshot.Store.Queries.{
  list_snapshots, load_files_by_snapshot, load_symbols_by_snapshot,
}

-- The id of a stored snapshot is not negative.
abbrev pub row_id : ℤ → ℕ
row_id (pos n) = n
row_id (negsuc n) = 0

unfoldable pub diff : Db → SnapshotMeta → SnapshotMeta → DiffResult
diff db a b =
    compute_diff a b (load_files_by_snapshot db (row_id a.id))
      (load_files_by_snapshot db (row_id b.id)) (load_symbols_by_snapshot db (row_id a.id))
      (load_symbols_by_snapshot db (row_id b.id))

abbrev pub delta_of : Symbol → SymbolDelta
delta_of s = record { name = s.name; kind = s.kind; hash = s.hash }

abbrev pub ir_files : Ir → List (Bytes × Bytes)
ir_files ir = map (λ e. (e.0, e.1.hash)) ir.files

abbrev pub ir_symbols : Ir → List (Bytes × List SymbolDelta)
ir_symbols ir = map (λ e. (e.0, map delta_of e.1.symbols)) ir.files

unfoldable pub diff_live : Db → SnapshotMeta → Ir → ℕ → DiffResult
diff_live db a live now =
    let b : SnapshotMeta = record {
      id = negsuc 0;
      repo_id = pos 0;
      session_id = codes "(live)";
      label = codes "(live)";
      timestamp = now;
      root = a.root;
      root_hash = live.root_hash;
      file_count = length live.files;
    } in
    compute_diff a b (load_files_by_snapshot db (row_id a.id)) (ir_files live)
      (load_symbols_by_snapshot db (row_id a.id)) (ir_symbols live)

-- `m[key]` and `m[key]++`
abbrev pub count_of : Bytes → List (Bytes × ℕ) → ℕ
count_of key m = elim (lookup key m) [ none ↦ 0 | some n ↦ n ]

abbrev pub bump : List (Bytes × ℕ) → Bytes → List (Bytes × ℕ)
bump m key = put key (count_of key m + 1) m

abbrev pub is_changed : Status → Bool
is_changed unchanged = false
is_changed added = true
is_changed removed = true
is_changed modified = true

abbrev pub bump_file : List (Bytes × ℕ) → FileDiff → List (Bytes × ℕ)
bump_file m fd = if is_changed fd.status then bump m fd.path else m

abbrev pub bump_files : List (Bytes × ℕ) → DiffResult → List (Bytes × ℕ)
bump_files m d = foldl bump_file m d.files

-- `fd.Path + "\x00" + sym.Kind + "\x00" + sym.Name`
abbrev pub churn_key : Bytes → SymbolDelta → Bytes
churn_key path s = path ++ 0 ∷ s.kind ++ 0 ∷ s.name

abbrev pub bump_all : Bytes → List (Bytes × ℕ) → List SymbolDelta → List (Bytes × ℕ)
bump_all path m syms = foldl (λ c s. bump c (churn_key path s)) m syms

abbrev pub bump_symbols : List (Bytes × ℕ) → FileDiff → List (Bytes × ℕ)
bump_symbols m fd =
    bump_all fd.path (bump_all fd.path (bump_all fd.path m fd.added_syms) fd.removed_syms)
      fd.modified_syms

-- The diffs of each snapshot with the next one.
abbrev pub diffs_between : Db → List SnapshotMeta → List DiffResult
diffs_between db [] = []
diffs_between db (a ∷ []) = []
diffs_between db (a ∷ b ∷ metas) = diff db a b ∷ diffs_between db (b ∷ metas)

pub record FileChurn : Type 0 where
  pub path : Bytes
  pub changes : ℕ
  pub diff_count : ℕ

pub record SymbolChurn : Type 0 where
  pub name : Bytes
  pub kind : Bytes
  pub file_path : Bytes
  pub changes : ℕ
  pub diff_count : ℕ

pub record ChurnReport : Type 0 where
  pub root : Bytes
  pub snapshot_count : ℕ
  pub diff_count : ℕ
  pub since : ℕ
  pub until : ℕ
  pub files : List FileChurn
  pub symbols : List SymbolChurn

-- More changes first.
abbrev pub descending : Ord ℕ
descending = record {
  beq = ◌==◌;
  lt = λ a b. ltb b a;
  beq_iff = ==_iff;
  lt_irrefl = ltb_irrefl;
  lt_trans = λ a b c h k. ltb_trans c b a k h;
  lt_connex = λ a b h k. ltb_connex a b k h;
}

abbrev pub churn_of : ℕ → Bytes × ℕ → FileChurn
churn_of diff_count (path, changes) = record {
  path = path;
  changes = changes;
  diff_count = diff_count;
}

-- `strings.SplitN(key, "\x00", 3)`, where fewer than three parts are skipped.
abbrev pub after_path : ℕ → ℕ → Bytes → Option (Bytes × Bytes) → Option SymbolChurn
after_path diff_count changes path none = none
after_path diff_count changes path (some (kind, name)) = some (record {
  name = name;
  kind = kind;
  file_path = path;
  changes = changes;
  diff_count = diff_count;
})

abbrev pub symbol_churn_of : ℕ → Bytes × ℕ → Option SymbolChurn
symbol_churn_of diff_count (key, changes) = elim (cut 0 key) [
  | none ↦ none
  | some (path, rest) ↦ after_path diff_count changes path (cut 0 rest)
]

unfoldable pub file_churn : List DiffResult → List FileChurn
file_churn diffs =
    sort_by ⦃o = pair_ord ⦃o = descending⦄ ⦃q = list_ord⦄⦄ (λ (f : FileChurn). (f.changes, f.path))
      (map (churn_of (length diffs)) (foldl bump_files [] diffs))

unfoldable pub symbol_churn : List DiffResult → List SymbolChurn
symbol_churn diffs =
    sort_by ⦃o = pair_ord ⦃o = descending⦄ ⦃q = list_ord⦄⦄
      (λ (s : SymbolChurn). (s.changes, s.name))
      (filter_map (symbol_churn_of (length diffs))
        (foldl (λ m (d : DiffResult). foldl bump_symbols m d.files) [] diffs))

-- The last entry of a list that has `m` before it.
abbrev pub last_meta : SnapshotMeta → List SnapshotMeta → SnapshotMeta
last_meta m [] = m
last_meta m (n ∷ metas) = last_meta n metas

-- The report on snapshots in the order of their times. The zero time is 0.
abbrev pub churn_report : Db → List SnapshotMeta → ChurnReport
churn_report db [] = record {
  root = [];
  snapshot_count = 0;
  diff_count = 0;
  since = 0;
  until = 0;
  files = [];
  symbols = [];
}
churn_report db (a ∷ []) = record (churn_report db []) { root = a.root; snapshot_count = 1 }
churn_report db (a ∷ b ∷ metas) =
    let diffs = diffs_between db (a ∷ b ∷ metas) in
    let newest = last_meta b metas in
    record {
      root = newest.root;
      snapshot_count = length metas + 2;
      diff_count = length metas + 1;
      since = a.timestamp;
      until = newest.timestamp;
      files = file_churn diffs;
      symbols = symbol_churn diffs;
    }

unfoldable pub churn : Db → ℕ → ℤ → ChurnReport
churn db repo_id n = churn_report db (reverse (list_snapshots db repo_id n))

-- How often the diffs report a path as changed.
abbrev pub times_changed : Bytes → List DiffResult → ℕ
times_changed path [] = 0
times_changed path (d ∷ diffs) =
    length (keep (λ (fd : FileDiff). is_changed fd.status && fd.path =? path) d.files)
    + times_changed path diffs

count_of-bump :
    (path key : Bytes) (m : List (Bytes × ℕ))
    → count_of path (bump m key) ≡ (if key =? path then count_of path m + 1 else count_of path m)
count_of-bump path key m = elim (Bool-cases (key =? path)) [
  | inl same ↦
      let e = (list_beq_iff key path).0 same in
      ground (arith, same, e, lookup-put key path (count_of key m + 1) m)
  | inr other ↦ ground (arith, other, lookup-put key path (count_of key m + 1) m)
]

count_of-bump_one :
    (path : Bytes) (m : List (Bytes × ℕ)) (fd : FileDiff)
    → count_of path (bump_file m fd)
      ≡ (if is_changed fd.status && fd.path =? path then count_of path m + 1 else count_of path m)
count_of-bump_one path m fd = elim (Bool-cases (is_changed fd.status)) [
  | inl changed ↦ ground (arith, changed, count_of-bump path fd.path m)
  | inr same ↦ ground (arith, same)
]

count_of-bump_file :
    (path : Bytes) (m : List (Bytes × ℕ)) (files : List FileDiff)
    → count_of path (foldl bump_file m files)
      ≡ count_of path m
        + length (keep (λ (fd : FileDiff). is_changed fd.status && fd.path =? path) files)
count_of-bump_file path m [] = omega arith
count_of-bump_file path m (fd ∷ files) =
    elim (Bool-cases (is_changed fd.status && fd.path =? path)) [
      | inl hit ↦
          ground (
            arith,
            hit,
            count_of-bump_file path (bump_file m fd) files,
            count_of-bump_one path m fd,
          )
      | inr miss ↦
          ground (
            arith,
            miss,
            count_of-bump_file path (bump_file m fd) files,
            count_of-bump_one path m fd,
          )
    ]

-- The count of a path is the number of times the diffs report it as added, removed or modified.
pub count_of-bump_files :
    (path : Bytes) (m : List (Bytes × ℕ)) (diffs : List DiffResult)
    → count_of path (foldl bump_files m diffs) ≡ count_of path m + times_changed path diffs
count_of-bump_files path m [] = omega arith
count_of-bump_files path m (d ∷ diffs) =
    ground
      (arith, count_of-bump_files path (bump_files m d) diffs, count_of-bump_file path m d.files)
