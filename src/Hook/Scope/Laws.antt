-- ===== src/Hook/Scope/Laws.antt =====
-- When an edit is reported as outside of the declared scope, in terms of what the session has
-- activated.
use runecho.Prelude.{
  ◌≡◌, ◌↔◌, refl, sym, ap, subst, ◌∙◌, Bool, true, false, not, ◌||◌, Option, none, some, List, [],
  arith, if◌then◌else◌,
}
use runecho.Order.{nat_ord, list_ord, ◌=?◌}
use runecho.Text.{Bytes}
use runecho.Maps.{is_some}
use runecho.Contract.Types.{Contract}
use runecho.Contract.Parse.{Loaded, ok, err}
use runecho.Contract.Scope.{has_positive, in_scope}
use runecho.Snapshot.Contracts.{ActiveContract, get_active_contract}
use runecho.Snapshot.Contracts.History.{Command, newest, run, answer_of, get_active_contract-run}
use runecho.Hook.Store.{Files, Repo, Store}
use runecho.Hook.Scope.{
  rel_within_root, contract_repo_root, warn_unless_in_scope, warn_for_contract, warn_for_active,
  contract_warning_with,
}

-- The globs of a contract say that a path is not in scope.
abbrev pub IsOutside : Files → Contract → Bytes → Option Bytes → Type 0
IsOutside files c root place =
    (rel : Bytes) × (place ≡ some rel) × (in_scope files.path_match c rel ≡ false)

-- The contract of the file has a positive glob and says so of the edited path.
abbrev pub IsRefused : Files → Bytes → Loaded → Bytes → Type 0
IsRefused files contract_path loaded file_path =
    let root = contract_repo_root files contract_path in
    (c : Contract) × (loaded ≡ ok c)
    × (has_positive c ≡ true)
    × ((root =? []) ≡ false)
    × IsOutside files c root (rel_within_root files root file_path)

guarded {ℓ} :
    {W : Type ℓ} (p q : Bool) (w : Option W)
    → (is_some (if not p then none else if q then none else w) ≡ true)
      ↔ ((p ≡ true) × (q ≡ false) × (is_some w ≡ true))
guarded p q w = ground arith

gated {ℓ} :
    {W : Type ℓ} (p q r : Bool) (w : Option W)
    → (is_some (if not p || q || not r then none else w) ≡ true)
      ↔ ((p ≡ true) × (q ≡ false) × (r ≡ true) × (is_some w ≡ true))
gated p q r w = ground arith

module _ {Time : Type 0} (zero_time : Time) (parse_time : Bytes → Option Time) (files : Files) where
  outside_lem :
      (repo_name session_id root : Bytes) (active : ActiveContract Time) (c : Contract)
      (place : Option Bytes)
      → (is_some (
            warn_unless_in_scope zero_time parse_time files repo_name session_id root active c
              place)
          ≡ true)
        ↔ IsOutside files c root place
  outside_lem repo_name session_id root active c none = ground arith
  outside_lem repo_name session_id root active c (some rel) =
      (λ h. (rel, refl, ground arith), λ (r, e, h). ground arith)

  refused_lem :
      (repo_name file_path session_id : Bytes) (active : ActiveContract Time) (loaded : Loaded)
      → (is_some (
            warn_for_contract zero_time parse_time files repo_name file_path session_id active
              loaded)
          ≡ true)
        ↔ IsRefused files active.path loaded file_path
  refused_lem repo_name file_path session_id active (err e) =
      (λ h. cc, λ (c, wrong, positive, rooted, o). cc)
  refused_lem repo_name file_path session_id active (ok c) =
      let root = contract_repo_root files active.path in
      let place = rel_within_root files root file_path in
      let out = outside_lem repo_name session_id root active c place in
      let gate = guarded (has_positive c) (root =? []) (
        warn_unless_in_scope zero_time parse_time files repo_name session_id root active c place) in
      (
        λ h. let (positive, rooted, warns) = gate.0 h in (c, refl, positive, rooted, out.0 warns),
        λ (d, e, positive, rooted, o).
            let same : d ≡ c = ground arith in
            gate.1 (
              subst (λ x. has_positive x ≡ true) same positive,
              rooted,
              out.1 (subst (λ x. IsOutside files x root place) same o),
            ),
      )

  module _ (format_time : Time → Bytes)
      (parse-format : (t : Time) → parse_time (format_time t) ≡ some t) where
    -- The last contract that the session has activated for the repository, if it has not been
    -- deactivated since, refuses the path.
    abbrev pub IsOutOfScope : Option (ActiveContract Time) → Bytes → Type 0
    IsOutOfScope none file_path = ⊥
    IsOutOfScope (some active) file_path =
        IsRefused files active.path (files.load_contract active.path) file_path

    answered :
        (repo_name file_path session_id : Bytes) (o : Option (ActiveContract Time))
        → (is_some (
              warn_for_active zero_time parse_time files repo_name file_path session_id
                (answer_of o))
            ≡ true)
          ↔ IsOutOfScope o file_path
    answered repo_name file_path session_id none = (λ h. cc, λ e. absurd e)
    answered repo_name file_path session_id (some active) =
        refused_lem repo_name file_path session_id active (files.load_contract active.path)

    -- An edit is reported exactly where the check is on, the edit has a session and an absolute
    -- path, and the contract that is active for the session refuses that path: the one that the
    -- newest command about the session has left, whose file loads and has a positive glob, and
    -- whose globs do not put the path, taken from the contract's root, in scope. Where nothing was
    -- activated, or it was deactivated since, no edit is reported.
    pub contract_warning_with-run :
        (enabled : Bool) (store : Store) (repo : Repo) (file_path session_id : Bytes)
        (history : List (Command Time))
        → store.contracts ≡ run format_time history
        → (is_some (
              contract_warning_with zero_time parse_time files enabled store repo file_path
                session_id)
            ≡ true)
          ↔ ((enabled ≡ true)
              × ((session_id =? []) ≡ false)
              × (files.is_abs file_path ≡ true)
              × IsOutOfScope (newest repo.id session_id history) file_path)
    unfolding contract_warning_with
    contract_warning_with-run enabled store repo file_path session_id history table =
        let active = newest repo.id session_id history in
        let found =
          ap (λ rows. get_active_contract zero_time parse_time rows repo.id session_id) table
          ∙ get_active_contract-run format_time zero_time parse_time parse-format repo.id session_id
              history in
        let warn = warn_for_active zero_time parse_time files repo.name file_path session_id in
        let gate =
          gated enabled (session_id =? []) (files.is_abs file_path)
            (warn (get_active_contract zero_time parse_time store.contracts repo.id session_id)) in
        let answer = answered repo.name file_path session_id active in
        (
          λ h.
              let (on, named, absolute, warns) = gate.0 h in
              (on, named, absolute, answer.0 (subst (λ a. is_some (warn a) ≡ true) found warns)),
          λ (on, named, absolute, o).
              gate.1 (
                on,
                named,
                absolute,
                subst (λ a. is_some (warn a) ≡ true) (sym found) (answer.1 o),
              ),
        )
