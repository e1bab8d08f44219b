-- ===== src/Snapshot/Types.antt =====
-- internal/snapshot/types.go, and the index of internal/ir that snapshots are taken of.
use runecho.Prelude.{ℕ, List}
use runecho.Int.{ℤ}
use runecho.Text.{Bytes}

-- The fields that a stored snapshot has. A timestamp is its number of seconds.
pub record SnapshotMeta : Type 0 where
  pub id : ℤ
  pub repo_id : ℤ
  pub session_id : Bytes
  pub label : Bytes
  pub timestamp : ℕ
  pub root : Bytes
  pub root_hash : Bytes
  pub file_count : ℕ

-- The empty hash means that the parser produced none.
pub record SymbolDelta : Type 0 where
  pub name : Bytes
  pub kind : Bytes
  pub hash : Bytes

pub data Status : Type 0 where
  added removed modified unchanged : Status

pub record FileDiff : Type 0 where
  pub path : Bytes
  pub status : Status
  pub hash_before : Bytes
  pub hash_after : Bytes
  pub added_syms : List SymbolDelta
  pub removed_syms : List SymbolDelta
  pub modified_syms : List SymbolDelta

pub record DiffResult : Type 0 where
  pub snapshot_a : SnapshotMeta
  pub snapshot_b : SnapshotMeta
  pub files : List FileDiff
  pub total_added : ℕ
  pub total_removed : ℕ
  pub total_modified : ℕ
