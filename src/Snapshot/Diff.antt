-- ===== src/Snapshot/Diff.antt =====
-- internal/snapshot/diff.go: `computeDiff`, the engine behind `Diff` and `DiffLive`.
pub mod Symbols
pub mod Files
use mathlib.Core.List.{filter_map}
use runecho.Prelude.{
  ℕ, ◌+◌, Bool, true, false, not, ◌&&◌, Option, none, some, List, [], ◌∷◌, ◌++◌, map, foldr, length,
  if◌then◌else◌,
}
use runecho.Order.{nat_ord, list_ord, pair_ord, ◌=?◌}
use runecho.Sort.{sort_by}
use runecho.Maps.{lookup, put}
use runecho.Text.{Bytes, codes}
use runecho.Snapshot.Types.{
  SnapshotMeta, SymbolDelta, Status, added, removed, modified, unchanged, FileDiff, DiffResult,
}

abbrev pub FileMap : Type 0
FileMap = List (Bytes × Bytes)

abbrev pub SymbolMap : Type 0
SymbolMap = List (Bytes × List SymbolDelta)

-- `m[k]` where a missing key reads as the zero value
abbrev pub or_empty {ℓ} : {A : Type ℓ} → Option (List A) → List A
or_empty none = []
or_empty (some l) = l

-- `s.Kind + ":" + s.Name`
abbrev pub symbol_key : SymbolDelta → Bytes
symbol_key s = s.kind ++ b':' ∷ s.name

-- `symbolSet`: a later symbol replaces an earlier one with its key.
symbol_set_from : List (Bytes × SymbolDelta) → List SymbolDelta → List (Bytes × SymbolDelta)
symbol_set_from m [] = m
symbol_set_from m (s ∷ syms) = symbol_set_from (put (symbol_key s) s m) syms

unfoldable pub symbol_set : List SymbolDelta → List (Bytes × SymbolDelta)
unfolding symbol_set_from
symbol_set syms = symbol_set_from [] syms

-- The order of `lessSymbolDelta`.
abbrev pub name_kind : SymbolDelta → Bytes × Bytes
name_kind s = (s.name, s.kind)

-- The two cases of the `switch` over a symbol of the new side.
abbrev pub is_added : List (Bytes × SymbolDelta) → Bytes × SymbolDelta → Option SymbolDelta
is_added a_set (key, sym) = elim (lookup key a_set) [ none ↦ some sym | some _ ↦ none ]

abbrev pub hash_changed : SymbolDelta → SymbolDelta → Bool
hash_changed a_sym sym =
    not (a_sym.hash =? []) && not (sym.hash =? []) && not (a_sym.hash =? sym.hash)

abbrev pub if_changed : SymbolDelta → Option SymbolDelta → Option SymbolDelta
if_changed sym none = none
if_changed sym (some a_sym) = if hash_changed a_sym sym then some sym else none

abbrev pub is_modified : List (Bytes × SymbolDelta) → Bytes × SymbolDelta → Option SymbolDelta
is_modified a_set (key, sym) = if_changed sym (lookup key a_set)

-- The sorted result of a loop over one of the sets.
unfoldable pub collect :
    (Bytes × SymbolDelta → Option SymbolDelta) → List (Bytes × SymbolDelta) → List SymbolDelta
collect test set = sort_by name_kind (filter_map test set)

abbrev pub status_of : Option Bytes → Option Bytes → Status
status_of (some _) none = removed
status_of none (some _) = added
status_of none none = unchanged
status_of (some a) (some b) = if a =? b then unchanged else modified

-- The rest of the loop's body, once the file is known to have changed.
unfoldable pub file_diff :
    Bytes → Status → Option Bytes → Option Bytes → List SymbolDelta → List SymbolDelta → FileDiff
file_diff path status a_hash b_hash a_syms b_syms =
    let a_set = symbol_set a_syms in
    let b_set = symbol_set b_syms in
    record {
      path = path;
      status = status;
      hash_before = or_empty a_hash;
      hash_after = or_empty b_hash;
      added_syms = collect (is_added a_set) b_set;
      removed_syms = collect (is_added b_set) a_set;
      modified_syms = collect (is_modified a_set) b_set;
    }

-- `allPaths[p] = struct{}{}`, over the keys of a map
abbrev pub add_paths : FileMap → List (Bytes × Unit {0}) → List (Bytes × Unit {0})
add_paths [] all_paths = all_paths
add_paths ((p, _) ∷ files) all_paths = add_paths files (put p tt all_paths)

unfoldable pub sorted_paths : FileMap → FileMap → List Bytes
sorted_paths a_files b_files =
    sort_by (λ p. p) (map (λ e. e.0) (add_paths b_files (add_paths a_files [])))

-- `if status == "unchanged" { continue }`
abbrev pub unless_unchanged : Status → FileDiff → Option FileDiff
unless_unchanged unchanged fd = none
unless_unchanged added fd = some fd
unless_unchanged removed fd = some fd
unless_unchanged modified fd = some fd

-- The end of a round: `none` is the `continue` of an unchanged file.
abbrev pub append_diff : DiffResult → Option FileDiff → DiffResult
append_diff acc none = acc
append_diff acc (some fd) = record acc {
  files = acc.files ++ fd ∷ [];
  total_added = acc.total_added + length fd.added_syms;
  total_removed = acc.total_removed + length fd.removed_syms;
  total_modified = acc.total_modified + length fd.modified_syms;
}

module _ (a_files b_files : FileMap) (a_symbols b_symbols : SymbolMap) where
  -- One round of the loop over the paths: the file's diff, unless it is unchanged.
  unfoldable pub diff_path : Bytes → Option FileDiff
  diff_path path =
      let a_hash = lookup path a_files in
      let b_hash = lookup path b_files in
      let status = status_of a_hash b_hash in
      let fd =
        file_diff path status a_hash b_hash (or_empty (lookup path a_symbols))
          (or_empty (lookup path b_symbols)) in
      unless_unchanged status fd

  -- The loop over the paths.
  unfoldable pub diff_paths : DiffResult → List Bytes → DiffResult
  diff_paths acc [] = acc
  diff_paths acc (path ∷ paths) = diff_paths (append_diff acc (diff_path path)) paths

-- The result before the loop.
abbrev pub initial : SnapshotMeta → SnapshotMeta → DiffResult
initial a b = record {
  snapshot_a = a;
  snapshot_b = b;
  files = [];
  total_added = 0;
  total_removed = 0;
  total_modified = 0;
}

unfoldable pub compute_diff :
    SnapshotMeta → SnapshotMeta → FileMap → FileMap → SymbolMap → SymbolMap → DiffResult
compute_diff a b a_files b_files a_symbols b_symbols =
    diff_paths a_files b_files a_symbols b_symbols (initial a b) (sorted_paths a_files b_files)
