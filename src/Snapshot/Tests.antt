-- ===== src/Snapshot/Tests.antt =====
-- internal/snapshot: runs on small inputs, and the theorems at concrete ones.
use mathlib.Core.List.{filter_map, Mem}
use mathlib.Core.Option.{Option-elim}
use runecho.Prelude.{◌≡◌, ◌≢◌, ◌↔◌, refl, none, some, List, [], ◌∷◌, map, length}
use runecho.Order.{nat_ord, list_ord, pair_ord}
use runecho.Sort.{sort_by, IsStrict}
use runecho.Maps.{lookup}
use runecho.Text.{Bytes, codes}
use runecho.Int.{pos, negsuc}
use runecho.Snapshot.Types.{SnapshotMeta, SymbolDelta, modified, FileDiff}
use runecho.Snapshot.Diff.{
  FileMap, SymbolMap, symbol_key, symbol_set, name_kind, collect, file_diff, diff_path, diff_paths,
  sorted_paths, compute_diff,
}
use runecho.Snapshot.Diff.Symbols.{find_last, IsChanged, file_diff_symbols}
use runecho.Snapshot.Diff.Files.{sum_by, diff_at, compute_diff_files}

abbrev fn : Bytes → Bytes → SymbolDelta
fn name hash = record { name = name; kind = codes "function"; hash = hash }

abbrev old_syms : List SymbolDelta
old_syms = fn (codes "f") (codes "1") ∷ fn (codes "g") (codes "2") ∷ []

abbrev new_syms : List SymbolDelta
new_syms = fn (codes "h") (codes "4") ∷ fn (codes "g") (codes "3") ∷ []

abbrev old_files : FileMap
old_files = (codes "b.go", codes "1") ∷ (codes "a.go", codes "2") ∷ []

abbrev new_files : FileMap
new_files = (codes "c.go", codes "4") ∷ (codes "b.go", codes "3") ∷ (codes "a.go", codes "2") ∷ []

abbrev old_symbols : SymbolMap
old_symbols = (codes "b.go", old_syms) ∷ []

abbrev new_symbols : SymbolMap
new_symbols = (codes "b.go", new_syms) ∷ []

abbrev meta : SnapshotMeta
meta = record {
  id = pos 1;
  repo_id = pos 1;
  session_id = [];
  label = codes "reindex";
  timestamp = 0;
  root = codes "/r";
  root_hash = codes "00";
  file_count = 2;
}

abbrev live : SnapshotMeta
live = record meta { id = negsuc 0; label = codes "(live)" }

paths_reported :
    map (λ fd. fd.path) (compute_diff meta live old_files new_files old_symbols new_symbols).files
    ≡ codes "b.go" ∷ codes "c.go" ∷ []
unfolding compute_diff diff_paths diff_path sorted_paths file_diff collect symbol_set sort_by
    filter_map Option-elim
paths_reported = refl

one_modified :
    (compute_diff meta live old_files new_files old_symbols new_symbols).total_modified ≡ 1
unfolding compute_diff diff_paths diff_path sorted_paths file_diff collect symbol_set sort_by
    filter_map Option-elim
one_modified = refl

file_diff_symbols_example :
    let fd =
      file_diff (codes "b.go") modified (some (codes "1")) (some (codes "3")) old_syms new_syms in
    ((s : SymbolDelta)
      → (Mem s fd.added_syms ↔ (
          (find_last (symbol_key s) new_syms ≡ some s)
          × (find_last (symbol_key s) old_syms ≡ none)))
        × (Mem s fd.removed_syms ↔ (
            (find_last (symbol_key s) old_syms ≡ some s)
            × (find_last (symbol_key s) new_syms ≡ none)))
        × (Mem s fd.modified_syms ↔ (
            (find_last (symbol_key s) new_syms ≡ some s)
            × IsChanged (find_last (symbol_key s) old_syms) s)))
    × IsStrict name_kind fd.added_syms
    × IsStrict name_kind fd.removed_syms
    × IsStrict name_kind fd.modified_syms
file_diff_symbols_example =
    file_diff_symbols (codes "b.go") modified (some (codes "1")) (some (codes "3")) old_syms
      new_syms

compute_diff_files_example :
    let r = compute_diff meta live old_files new_files old_symbols new_symbols in
    IsStrict (λ fd. fd.path) r.files
    × ((p : Bytes)
        → Mem p (map (λ fd. fd.path) r.files) ↔ (lookup p old_files ≢ lookup p new_files))
    × ((fd : FileDiff)
        → Mem fd r.files
        → fd ≡ diff_at old_files new_files old_symbols new_symbols fd.path)
    × (r.total_added ≡ sum_by (λ fd. length fd.added_syms) r.files)
    × (r.total_removed ≡ sum_by (λ fd. length fd.removed_syms) r.files)
    × (r.total_modified ≡ sum_by (λ fd. length fd.modified_syms) r.files)
compute_diff_files_example =
    compute_diff_files old_files new_files old_symbols new_symbols meta live
