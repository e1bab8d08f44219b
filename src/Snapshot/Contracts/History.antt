-- ===== src/Snapshot/Contracts/History.antt =====
-- The contract table after a history of activations and deactivations.
use runecho.Prelude.{
  ℕ, ◌≡◌, ◌↔◌, ◌⊎◌, refl, ap, ◌∙◌, inl, inr, Bool, not, ◌&&◌, Bool-cases, Option, none, some, List,
  [], ◌∷◌, arith, ◌==◌, if◌then◌else◌,
}
use runecho.Order.{nat_ord, list_ord, pair_ord, list_beq_iff, ◌=?◌}
use runecho.Sort.{IsDistinct}
use runecho.Text.{Bytes}
use runecho.Maps.{lookup, key_of, lookup-put, lookup-remove, put-IsDistinct, remove-IsDistinct}
use runecho.Snapshot.Contracts.{
  Contracts, contract_row, StoreError, empty_session_id, no_active_contract, activate_contract,
  ActiveContract, active_contract, scan_row, get_active_contract, deactivate_contract,
}

pub data Command (Time : Type 0) : Type 0 where
  activate : ℕ → Bytes → Bytes → Bytes → Bytes → Time → Command Time
  deactivate : ℕ → Bytes → Command Time

-- A table whose statement failed stays as it is.
abbrev pub or_kept : Contracts → StoreError ⊎ Contracts → Contracts
or_kept rows (inl e) = rows
or_kept rows (inr next) = next

abbrev pub answer_of :
    {Time : Type 0} → Option (ActiveContract Time) → StoreError ⊎ ActiveContract Time
answer_of none = inl no_active_contract
answer_of (some c) = inr c

-- Whether a command for one pair, if it is not refused, is about another pair's row.
abbrev pub concerns : ℕ → Bytes → ℕ → Bytes → Bool
concerns repo session repo_id session_id = repo_id == repo && session_id =? session

-- What the newest command that concerns a pair has left for it: the histories are newest first, and
-- an activation without a session does not count.
abbrev pub newest : {Time : Type 0} → ℕ → Bytes → List (Command Time) → Option (ActiveContract Time)
newest repo session [] = none
newest repo session (activate repo_id session_id name path content_hash now ∷ older) =
    if not (session_id =? []) && concerns repo session repo_id session_id
    then some (active_contract name path content_hash now)
    else newest repo session older
newest repo session (deactivate repo_id session_id ∷ older) =
    if concerns repo session repo_id session_id then none else newest repo session older

module _ {Time : Type 0} (format_time : Time → Bytes) where
  abbrev pub step : Command Time → Contracts → Contracts
  step (activate repo_id session_id name path content_hash now) rows =
      or_kept rows
        (activate_contract format_time rows repo_id session_id name path content_hash now)
  step (deactivate repo_id session_id) rows = deactivate_contract rows repo_id session_id

  abbrev pub run : List (Command Time) → Contracts
  run [] = []
  run (c ∷ older) = step c (run older)

  lookup-activate :
      (rows : Contracts) (repo_id : ℕ) (session_id name path content_hash : Bytes) (now : Time)
      (repo : ℕ) (session : Bytes)
      → lookup (repo, session) (step (activate repo_id session_id name path content_hash now) rows)
        ≡ (if not (session_id =? []) && concerns repo session repo_id session_id
            then some (contract_row name path content_hash (format_time now))
            else lookup (repo, session) rows)
  unfolding activate_contract
  lookup-activate rows repo_id session_id name path content_hash now repo session = ground (
    arith,
    lookup-put (repo_id, session_id) (repo, session)
        (contract_row name path content_hash (format_time now)) rows,
  )

  module _ (zero_time : Time) (parse_time : Bytes → Option Time)
      (parse-format : (t : Time) → parse_time (format_time t) ≡ some t) where
    scan-newest :
        (repo : ℕ) (session : Bytes) (history : List (Command Time))
        → scan_row zero_time parse_time (lookup (repo, session) (run history))
          ≡ answer_of (newest repo session history)
    unfolding deactivate_contract
    scan-newest repo session [] = refl
    scan-newest repo session (activate repo_id session_id name path content_hash now ∷ older) =
        ground (
          arith,
          lookup-activate (run older) repo_id session_id name path content_hash now repo session,
          scan-newest repo session older,
          parse-format now,
        )
    scan-newest repo session (deactivate repo_id session_id ∷ older) = ground (
      arith,
      lookup-remove (repo_id, session_id) (repo, session) (run older),
      scan-newest repo session older,
    )

    -- Where a written time is read back, the contract of a pair is the one that the newest command
    -- about that pair has left, whatever was done for other pairs: of an activation its own name,
    -- path, hash and time, of a deactivation none. With no command there is none.
    pub get_active_contract-run :
        (repo : ℕ) (session : Bytes) (history : List (Command Time))
        → get_active_contract zero_time parse_time (run history) repo session
          ≡ answer_of (newest repo session history)
    unfolding get_active_contract
    get_active_contract-run repo session history = scan-newest repo session history

  -- Every pair has one row at most, after any history.
  run-IsDistinct : (history : List (Command Time)) → IsDistinct key_of (run history)
  unfolding activate_contract deactivate_contract
  run-IsDistinct [] = tt
  run-IsDistinct (activate repo_id session_id name path content_hash now ∷ older) =
      elim (Bool-cases (session_id =? [])) [
        | inl e ↦ rw e (run-IsDistinct older)
        | inr e ↦ rw e (
            put-IsDistinct (repo_id, session_id)
              (contract_row name path content_hash (format_time now)) (run older)
              (run-IsDistinct older))
      ]
  run-IsDistinct (deactivate repo_id session_id ∷ older) =
      remove-IsDistinct (repo_id, session_id) (run older) (run-IsDistinct older)

  newest-no_session : (repo : ℕ) (history : List (Command Time)) → newest repo [] history ≡ none
  newest-no_session repo [] = refl
  newest-no_session repo (activate repo_id session_id name path content_hash now ∷ older) =
      ground (arith, newest-no_session repo older)
  newest-no_session repo (deactivate repo_id session_id ∷ older) =
      ground (arith, newest-no_session repo older)

  -- An activation is refused exactly where it names no session. So after any history no contract
  -- is active where there is no session.
  activate_contract-refused :
      (zero_time : Time) (parse_time : Bytes → Option Time) (repo : ℕ)
      (session name path content_hash : Bytes) (now : Time) (history : List (Command Time))
      → ((t : Time) → parse_time (format_time t) ≡ some t)
      → ((activate_contract format_time (run history) repo session name path content_hash now
            ≡ inl empty_session_id)
          ↔ (session ≡ []))
        × (get_active_contract zero_time parse_time (run history) repo [] ≡ inl no_active_contract)
  unfolding activate_contract
  activate_contract-refused zero_time parse_time repo session name path content_hash now history
        parse-format =
      (
        ground (arith, list_beq_iff session []),
        get_active_contract-run zero_time parse_time parse-format repo [] history
            ∙ ap answer_of (newest-no_session repo history),
      )
