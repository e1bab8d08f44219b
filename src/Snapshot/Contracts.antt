-- ===== src/Snapshot/Contracts.antt =====
-- internal/snapshot/contracts.go: which contract is active for a repository and a session. The table
-- is a map from the pair of the unique index to the other columns; the id column is read nowhere.
-- An error of the database does not occur. `time.Parse` and `Time.Format` are parameters.
pub mod History
mod Tests
use runecho.Prelude.{ℕ, ◌⊎◌, inl, inr, Option, none, some, List, [], ◌∷◌, if◌then◌else◌}
use runecho.Order.{nat_ord, list_ord, pair_ord, ◌=?◌}
use runecho.Text.{Bytes}
use runecho.Maps.{lookup, put, remove}

-- The columns of a row beside its key.
pub record ContractRow : Type 0 where
  pub name : Bytes
  pub path : Bytes
  pub content_hash : Bytes
  pub activated_at : Bytes

abbrev pub contract_row : Bytes → Bytes → Bytes → Bytes → ContractRow
contract_row name path content_hash activated_at = record {
  name = name;
  path = path;
  content_hash = content_hash;
  activated_at = activated_at;
}

-- The rows, with the columns of the unique index as the key.
abbrev pub Contracts : Type 0
Contracts = List ((ℕ × Bytes) × ContractRow)

pub data StoreError : Type 0 where
  empty_session_id : StoreError
  no_active_contract : StoreError

module _ {Time : Type 0} (format_time : Time → Bytes) where
  -- `INSERT … ON CONFLICT(repo_id, session_id) DO UPDATE`, which replaces the row of the pair.
  unfoldable pub activate_contract :
      Contracts → ℕ → Bytes → Bytes → Bytes → Bytes → Time → StoreError ⊎ Contracts
  activate_contract rows repo_id session_id name path content_hash now =
      if session_id =? []
      then inl empty_session_id
      else inr
          (put (repo_id, session_id) (contract_row name path content_hash (format_time now)) rows)

pub record ActiveContract (Time : Type 0) : Type 0 where
  pub name : Bytes
  pub path : Bytes
  pub content_hash : Bytes
  pub activated_at : Time

abbrev pub active_contract : {Time : Type 0} → Bytes → Bytes → Bytes → Time → ActiveContract Time
active_contract name path content_hash activated_at = record {
  name = name;
  path = path;
  content_hash = content_hash;
  activated_at = activated_at;
}

module _ {Time : Type 0} (zero_time : Time) (parse_time : Bytes → Option Time) where
  -- A time that does not parse is the zero time.
  abbrev pub time_or_zero : Option Time → Time
  time_or_zero none = zero_time
  time_or_zero (some t) = t

  abbrev pub scan_row : Option ContractRow → StoreError ⊎ ActiveContract Time
  scan_row none = inl no_active_contract
  scan_row (some r) =
      inr (active_contract r.name r.path r.content_hash (time_or_zero (parse_time r.activated_at)))

  unfoldable pub get_active_contract : Contracts → ℕ → Bytes → StoreError ⊎ ActiveContract Time
  get_active_contract rows repo_id session_id = scan_row (lookup (repo_id, session_id) rows)

unfoldable pub deactivate_contract : Contracts → ℕ → Bytes → Contracts
deactivate_contract rows repo_id session_id = remove (repo_id, session_id) rows
