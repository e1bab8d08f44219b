-- ===== src/Hook/Decision/Abstains.antt =====
-- Edits about which the hook stays silent: those without a store, and, as far as the scope goes, those
-- of a session that has declared none.
use mathlib.Core.Path.{fun_ext}
use runecho.Prelude.{
  ℕ, ◌≡◌, refl, sym, ap, ap₂, subst, ◌∙◌, Bool, true, false, ◌&&◌, ◌||◌, Option, none, some, List,
  [], arith, if◌then◌else◌,
}
use runecho.Order.{nat_ord, list_ord, ◌=?◌}
use runecho.Int.{ℤ}
use runecho.Maps.{is_some}
use runecho.Text.{Bytes, codes}
use runecho.Guard.Lang.{Lang, lang_for, is_unknown}
use runecho.Snapshot.Contracts.History.{Command, newest, run}
use runecho.Hook.Payload.{Payload, hook_text}
use runecho.Hook.Store.{
  Files, Store, Repo, OpenResult, opened, schema_newer, open_failed, Stat, is_there, is_opened,
}
use runecho.Hook.Scope.{ContractWarning, contract_warning_with, contract_warning_for, warn_in_repo}
use runecho.Hook.Scope.Laws.{IsOutOfScope, contract_warning_with-run}
use runecho.Hook.Lookup.{LookupResult, lookup_symbols_for, with_opened, may_be_there, no_result}
use runecho.Hook.Log.{defer, is_ask, Outcome, deferred, ask_contract_only}
use runecho.Hook.Findings.{Switches, Checks, findings_of, additive_violations}
use runecho.Hook.Decision.{
  decide, decide_unread, removed_text, is_empty_input, is_bad_path, contract_question,
  lookup_result, check_edit, run_hook_mode,
}
use runecho.Hook.Decision.Laws.{either, is_ask-ask_contract_only}
use runecho.Hook.Decision.Runs.{unread, unread-IsSound, routed}

-- The store is there and can be read by this version.
abbrev pub is_usable : Store → Bool
is_usable store = store.has_dir && may_be_there store.stat_db && is_opened store.open_fast

there→may_be_there : (s : Stat) → is_there s ≡ true → may_be_there s ≡ true
there→may_be_there s h = ground arith

module _ {Time : Type 0} (zero_time : Time) (parse_time : Bytes → Option Time) (sw : Switches)
    (files : Files) (store : Store) (checks : Checks) (now : ℕ) (max_age : Option ℤ) where
  abbrev looked_up : Payload → LookupResult
  looked_up p = lookup_result zero_time parse_time sw files store checks now max_age p

  no_question :
      (p : Payload)
      → is_usable store ≡ false
      → contract_question zero_time parse_time sw files store checks now max_age p ≡ none
  unfolding contract_warning_for
  no_question p h = ground (arith, h, there→may_be_there store.stat_db)

  no_lookup :
      (p : Payload)
      → is_usable store ≡ false
      → ((looked_up p).ok ≡ false) × ((looked_up p).contract ≡ none)
  unfolding lookup_symbols_for
  no_lookup p h = go store.has_dir (may_be_there store.stat_db) store.open_fast h
    where
      contract_for : Repo → Option ContractWarning
      contract_for repo =
          contract_warning_with zero_time parse_time files sw.contract store repo p.file_path
            p.session_id

      result : Bool → Bool → OpenResult → LookupResult
      result d m o =
          if d
          then (if m
              then with_opened contract_for files store (files.dir p.file_path) o
              else no_result)
          else no_result

      go :
          (d m : Bool) (o : OpenResult)
          → (d && m && is_opened o) ≡ false
          → ((result d m o).ok ≡ false) × ((result d m o).contract ≡ none)
      go false m o e = (refl, refl)
      go true false o e = (refl, refl)
      go true true opened e = cc
      go true true schema_newer e = (refl, refl)
      go true true open_failed e = (refl, refl)

  silent_if_no_contract :
      (cw : Option ContractWarning) (file_path : Bytes) (lang : Lang) (o : Outcome)
      → cw ≡ none
      → is_ask o.response ≡ false
      → is_ask (ask_contract_only cw file_path lang o).response ≡ false
  silent_if_no_contract cw file_path lang o e h =
      is_ask-ask_contract_only cw file_path lang o ∙ ground (arith, e, h)

  -- The hook fails open: where there is no store, or this version cannot read it, no edit is asked
  -- about, whatever is switched on.
  pub run_hook_mode-no_store :
      (input : Option Payload)
      → is_usable store ≡ false
      → is_ask (run_hook_mode zero_time parse_time sw files store checks now max_age input).response
        ≡ false
  unfolding run_hook_mode check_edit decide_unread
  run_hook_mode-no_store none h = refl
  run_hook_mode-no_store (some p) h =
      let lang = lang_for p.file_path in
      let question = contract_question zero_time parse_time sw files store checks now max_age p in
      let unchecked = λ (reason : Bytes).
        ask_contract_only question p.file_path lang (deferred defer [] p.file_path [] reason) in
      let silent = λ (reason : Bytes).
        silent_if_no_contract question p.file_path lang (deferred defer [] p.file_path [] reason)
          (no_question p h) refl in
      let res = looked_up p in
      let (failed, no_contract) = no_lookup p h in
      let quiet = (unread-IsSound sw.strict now max_age res p.file_path lang).1 in
      routed (λ o. is_ask o.response ≡ false)
        (p.file_path =? []
          || is_empty_input zero_time parse_time sw files store checks now max_age p)
        (is_bad_path zero_time parse_time sw files store checks now max_age p.file_path)
        (is_unknown lang) (unchecked (codes "empty-input"))
        (deferred defer [] [] [] (codes "bad-path")) (unchecked (codes "unknown-lang"))
        (check_edit zero_time parse_time sw files store checks now max_age p lang)
        (silent (codes "empty-input")) refl (silent (codes "unknown-lang"))
        (either (λ (o : Outcome). is_ask o.response ≡ false) res.ok _ _ (λ e. cc)
          (λ e.
            silent_if_no_contract res.contract p.file_path lang
              (unread sw.strict now max_age res p.file_path lang) no_contract quiet))

not_some {ℓ} : {A : Type ℓ} (o : Option A) → (is_some o ≡ true → ⊥) → o ≡ none
not_some none h = refl
not_some (some x) h = absurd (h refl)

module _ {Time : Type 0} (zero_time : Time) (parse_time : Bytes → Option Time)
    (format_time : Time → Bytes) (files : Files) (store : Store)
    (history : List (Command Time)) where
  -- No contract is active for the session, in any repository.
  abbrev pub IsUndeclared : Bytes → Type 0
  IsUndeclared session_id = (repo : Repo) → newest repo.id session_id history ≡ none

  module _ (parse-format : (t : Time) → parse_time (format_time t) ≡ some t)
      (table : store.contracts ≡ run format_time history) where
    never_warns :
        (enabled : Bool) (repo : Repo) (file_path session_id : Bytes)
        → IsUndeclared session_id
        → contract_warning_with zero_time parse_time files enabled store repo file_path session_id
          ≡ none
    never_warns enabled repo file_path session_id undeclared =
        let law =
          contract_warning_with-run zero_time parse_time files format_time parse-format enabled
            store repo file_path session_id history table in
        not_some
          (contract_warning_with zero_time parse_time files enabled store repo file_path session_id)
          (λ warns.
            let (on, named, absolute, o) = law.0 warns in
            subst
              (λ a. IsOutOfScope zero_time parse_time files format_time parse-format a file_path)
              (undeclared repo) o)

    never_asked :
        (enabled : Bool) (file_path session_id : Bytes)
        → IsUndeclared session_id
        → contract_warning_for zero_time parse_time files enabled store file_path session_id ≡ none
    unfolding contract_warning_for
    never_asked enabled file_path session_id undeclared =
        ground (arith, in_repo (store.resolve_repo (files.dir file_path)))
      where
        in_repo :
            (r : Option (Repo × Bytes))
            → warn_in_repo zero_time parse_time files enabled store file_path session_id r ≡ none
        in_repo none = refl
        in_repo (some (repo, root)) = never_warns enabled repo file_path session_id undeclared

    module _ (sw : Switches) (checks : Checks) (now : ℕ) (max_age : Option ℤ) where
      abbrev without_contracts : Switches
      without_contracts = record sw { contract = false }

      abbrev lookup_with : Payload → (Repo → Option ContractWarning) → LookupResult
      lookup_with p contract_for =
          lookup_symbols_for contract_for files store (files.dir p.file_path)

      -- The answer, in terms of what the contract question comes to.
      abbrev answer_with : Payload → Option ContractWarning → LookupResult → Outcome
      answer_with p question res =
          let lang = lang_for p.file_path in
          let text = hook_text p.tool_name p.new_string p.content p.edits in
          let removed = removed_text zero_time parse_time sw files store checks now max_age p in
          if p.file_path =? []
            || is_empty_input zero_time parse_time sw files store checks now max_age p
          then ask_contract_only question p.file_path lang
              (deferred defer [] p.file_path [] (codes "empty-input"))
          else if is_bad_path zero_time parse_time sw files store checks now max_age p.file_path
          then deferred defer [] [] [] (codes "bad-path")
          else if is_unknown lang
          then ask_contract_only question p.file_path lang
              (deferred defer [] p.file_path [] (codes "unknown-lang"))
          else if res.ok
          then decide sw.strict now max_age res p.file_path lang
              (findings_of sw files store checks res p lang text removed)
          else decide_unread sw.strict now max_age res p.file_path lang

      findings_of-without :
          (res : LookupResult) (p : Payload) (lang : Lang) (text removed : Bytes)
          → findings_of without_contracts files store checks res p lang text removed
            ≡ findings_of sw files store checks res p lang text removed
      unfolding findings_of additive_violations
      findings_of-without res p lang text removed = refl

      -- A session that has no contract active in any repository is answered, and logged, as if the
      -- contract check were switched off.
      pub run_hook_mode-undeclared :
          (p : Payload)
          → IsUndeclared p.session_id
          → run_hook_mode zero_time parse_time sw files store checks now max_age (some p)
            ≡ run_hook_mode zero_time parse_time without_contracts files store checks now max_age
                (some p)
      unfolding run_hook_mode check_edit findings_of additive_violations
      run_hook_mode-undeclared p undeclared =
          let asked = λ (enabled : Bool). never_asked enabled p.file_path p.session_id undeclared in
          let looked = λ (enabled : Bool). ap (lookup_with p) (
            fun_ext
              (λ (repo : Repo). never_warns enabled repo p.file_path p.session_id undeclared)) in
          ap₂ (answer_with p) (asked sw.contract) (looked sw.contract)
          ∙ sym (ap₂ (answer_with p) (asked false) (looked false))
