-- ===== src/Hook/Scope.antt =====
-- cmd/runecho-guard/contract.go: whether an edit is outside of the scope that the session has declared.
-- The package path/filepath and the symbolic links of the file system are parameters.
pub mod Laws
use runecho.Prelude.{
  ℕ, ◌-◌, ◌⊎◌, inl, inr, Bool, true, false, not, ◌||◌, Option, none, some, List, [], ◌∷◌, ◌++◌,
  length, take, leb, if◌then◌else◌,
}
use runecho.Order.{nat_ord, list_ord, ◌=?◌}
use runecho.Text.{Bytes, codes, has_prefix}
use runecho.Guard.Lang.{has_suffix}
use runecho.Contract.Types.{Contract}
use runecho.Contract.Parse.{Loaded, ok, err}
use runecho.Contract.Scope.{has_positive, in_scope}
use runecho.Snapshot.Contracts.{StoreError, ActiveContract, get_active_contract}
use runecho.Hook.Store.{Files, Repo, Store, is_there, is_opened}

pub record ContractWarning : Type 0 where
  pub name : Bytes
  pub contract_path : Bytes
  pub repo_root : Bytes
  pub session_id : Bytes
  pub rel_path : Bytes
  pub patterns : ℕ
  pub activated_hash : Bytes
  pub current_hash : Bytes
  pub repo_name : Bytes

abbrev pub drifted : ContractWarning → Bool
drifted cw = not (cw.activated_hash =? cw.current_hash)

abbrev pub short_hash : Bytes → Bytes
short_hash h = if leb (length h) 12 then h else take 12 h

abbrev pub escapes : Bytes → Bool
escapes rel = rel =? codes ".." || has_prefix (codes "../") rel

-- A relative path that does not leave the root.
abbrev pub if_inside : Files → Option Bytes → Option Bytes
if_inside files none = none
if_inside files (some rel) = if escapes rel then none else some (files.to_slash rel)

-- The second try, with the symbolic links of the directory resolved.
abbrev pub resolved_rel : Files → Bytes → Bytes → Option Bytes → Option Bytes
resolved_rel files root file_path none = none
resolved_rel files root file_path (some dir) =
    if_inside files (files.rel root (files.join dir (files.base file_path)))

abbrev pub or_retry {ℓ} : {A : Type ℓ} → Option A → Option A → Option A
or_retry none b = b
or_retry (some x) b = some x

unfoldable pub rel_within_root : Files → Bytes → Bytes → Option Bytes
rel_within_root files root file_path =
    or_retry (if_inside files (files.rel root (files.clean file_path)))
      (resolved_rel files root file_path (files.eval_symlinks (files.dir file_path)))

-- `contract.Dir`
abbrev pub contract_dir : Bytes
contract_dir = codes ".runecho/contracts"

-- The directory without the suffix that a contract's directory has.
unfoldable pub contract_repo_root : Files → Bytes → Bytes
contract_repo_root files contract_path =
    let suffix = b'/' ∷ contract_dir in
    let dir = files.dir contract_path in
    if has_suffix suffix dir then take (length dir - length suffix) dir else []

module _ {Time : Type 0} (zero_time : Time) (parse_time : Bytes → Option Time) (files : Files) where
  abbrev pub warn_unless_in_scope :
      Bytes → Bytes → Bytes → ActiveContract Time → Contract → Option Bytes → Option ContractWarning
  warn_unless_in_scope repo_name session_id root active c none = none
  warn_unless_in_scope repo_name session_id root active c (some rel) =
      if in_scope files.path_match c rel
      then none
      else some (record {
        name = c.name;
        contract_path = active.path;
        repo_root = root;
        session_id = session_id;
        rel_path = rel;
        patterns = length c.patterns;
        activated_hash = active.content_hash;
        current_hash = c.hash;
        repo_name = repo_name;
      })

  abbrev pub warn_for_contract :
      Bytes → Bytes → Bytes → ActiveContract Time → Loaded → Option ContractWarning
  warn_for_contract repo_name file_path session_id active (err e) = none
  warn_for_contract repo_name file_path session_id active (ok c) =
      if not (has_positive c)
      then none
      else if contract_repo_root files active.path =? []
      then none
      else warn_unless_in_scope repo_name session_id (contract_repo_root files active.path) active c
          (rel_within_root files (contract_repo_root files active.path) file_path)

  abbrev pub warn_for_active :
      Bytes → Bytes → Bytes → StoreError ⊎ ActiveContract Time → Option ContractWarning
  warn_for_active repo_name file_path session_id (inl e) = none
  warn_for_active repo_name file_path session_id (inr active) =
      warn_for_contract repo_name file_path session_id active (files.load_contract active.path)

  -- `enabled` is `contractEnabled()`.
  unfoldable pub contract_warning_with :
      Bool → Store → Repo → Bytes → Bytes → Option ContractWarning
  contract_warning_with enabled store repo file_path session_id =
      if not enabled || session_id =? [] || not (files.is_abs file_path)
      then none
      else warn_for_active repo.name file_path session_id
          (get_active_contract zero_time parse_time store.contracts repo.id session_id)

  abbrev pub warn_in_repo :
      Bool → Store → Bytes → Bytes → Option (Repo × Bytes) → Option ContractWarning
  warn_in_repo enabled store file_path session_id none = none
  warn_in_repo enabled store file_path session_id (some (repo, root)) =
      contract_warning_with enabled store repo file_path session_id

  unfoldable pub contract_warning_for : Bool → Store → Bytes → Bytes → Option ContractWarning
  contract_warning_for enabled store file_path session_id =
      if not enabled || session_id =? []
      then none
      else if not store.has_dir || not (is_there store.stat_db) || not (is_opened store.open_fast)
      then none
      else warn_in_repo enabled store file_path session_id
          (store.resolve_repo (files.dir file_path))
