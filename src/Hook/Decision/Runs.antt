-- ===== src/Hook/Decision/Runs.antt =====
-- The whole of `runHookMode`: every answer agrees with its log, and an edit without a repository or
-- without a declared scope.

use runecho.Prelude.{
  ℕ, ◌≡◌, refl, Bool, true, false, ◌||◌, Option, none, some, [], arith, if◌then◌else◌,
}
use runecho.Order.{nat_ord, list_ord, ◌=?◌}
use runecho.Int.{ℤ}
use runecho.Text.{Bytes, codes}
use runecho.Guard.Lang.{Lang, lang_for, is_unknown}
use runecho.Hook.Payload.{Payload, hook_text}
use runecho.Hook.Store.{Files, Store}
use runecho.Hook.Lookup.{LookupResult}
use runecho.Hook.Log.{
  defer, defer_context, is_ask, disabled_note, schema_newer_note, lang_text, Outcome, deferred,
  ask_contract_only,
}
use runecho.Hook.Findings.{Switches, Checks, Findings, findings_of}
use runecho.Hook.Decision.{
  decide, decide_unread, removed_text, is_empty_input, is_bad_path, contract_question,
  lookup_result, check_edit, run_hook_mode,
}
use runecho.Hook.Decision.Laws.{IsSound, either, ask_contract_only-IsSound, decide-IsSound}

module _ (strict : Bool) (now : ℕ) (max_age : Option ℤ) where
  -- A degraded state without a contract to ask about.
  abbrev pub unread : LookupResult → Bytes → Lang → Outcome
  unread res file_path lang =
      if res.warn
      then deferred (defer_context schema_newer_note) res.repo_name file_path (lang_text lang)
          (codes "schema-newer")
      else if res.no_repo
      then deferred defer [] file_path (lang_text lang) (codes "no-repo")
      else deferred (if strict then defer_context disabled_note else defer) res.repo_name file_path
          (lang_text lang) (codes "store-degraded")

  pub unread-IsSound :
      (res : LookupResult) (file_path : Bytes) (lang : Lang)
      → IsSound (unread res file_path lang) × (is_ask (unread res file_path lang).response ≡ false)
  unread-IsSound res file_path lang = ground arith

  pub decide_unread-IsSound :
      (res : LookupResult) (file_path : Bytes) (lang : Lang)
      → IsSound (decide_unread strict now max_age res file_path lang)
  unfolding decide_unread
  decide_unread-IsSound res file_path lang =
      ask_contract_only-IsSound res.contract file_path lang (unread res file_path lang)
        (unread-IsSound res file_path lang).0

-- What holds of all four ways.
pub routed :
    (P : Outcome → Type 0) (b c d : Bool) (o₁ o₂ o₃ o₄ : Outcome)
    → P o₁
    → P o₂
    → P o₃
    → P o₄
    → P (if b then o₁ else if c then o₂ else if d then o₃ else o₄)
routed P true c d o₁ o₂ o₃ o₄ h₁ h₂ h₃ h₄ = h₁
routed P false true d o₁ o₂ o₃ o₄ h₁ h₂ h₃ h₄ = h₂
routed P false false true o₁ o₂ o₃ o₄ h₁ h₂ h₃ h₄ = h₃
routed P false false false o₁ o₂ o₃ o₄ h₁ h₂ h₃ h₄ = h₄

module _ {Time : Type 0} (zero_time : Time) (parse_time : Bytes → Option Time) (sw : Switches)
    (files : Files) (store : Store) (checks : Checks) (now : ℕ) (max_age : Option ℤ) where
  abbrev answer : Option Payload → Outcome
  answer input = run_hook_mode zero_time parse_time sw files store checks now max_age input

  abbrev checked : Payload → Lang → Outcome
  checked p lang = check_edit zero_time parse_time sw files store checks now max_age p lang

  abbrev looked_up : Payload → LookupResult
  looked_up p = lookup_result zero_time parse_time sw files store checks now max_age p

  abbrev removed : Payload → Bytes
  removed p = removed_text zero_time parse_time sw files store checks now max_age p

  abbrev found : Payload → Lang → Findings
  found p lang =
      findings_of sw files store checks (looked_up p) p lang
        (hook_text p.tool_name p.new_string p.content p.edits) (removed p)

  -- An edit that is not checked: the answer if there is no contract to ask about.
  abbrev unchecked : Payload → Bytes → Outcome
  unchecked p reason =
      ask_contract_only (contract_question zero_time parse_time sw files store checks now max_age p)
        p.file_path (lang_for p.file_path) (deferred defer [] p.file_path [] reason)

  check_edit-IsSound : (p : Payload) (lang : Lang) → IsSound (checked p lang)
  unfolding check_edit
  check_edit-IsSound p lang =
      let res = looked_up p in
      either IsSound res.ok (decide sw.strict now max_age res p.file_path lang (found p lang))
        (decide_unread sw.strict now max_age res p.file_path lang)
        (λ e. decide-IsSound sw.strict now max_age res p.file_path lang (found p lang))
        (λ e. decide_unread-IsSound sw.strict now max_age res p.file_path lang)

  -- Whether nothing can be asked about an edit but the contract.
  abbrev is_trivial : Payload → Bool
  is_trivial p =
      p.file_path =? [] || is_empty_input zero_time parse_time sw files store checks now max_age p

  abbrev is_bad : Bytes → Bool
  is_bad file_path = is_bad_path zero_time parse_time sw files store checks now max_age file_path

  unchecked-IsSound : (p : Payload) (reason : Bytes) → IsSound (unchecked p reason)
  unchecked-IsSound p reason =
      ask_contract_only-IsSound
        (contract_question zero_time parse_time sw files store checks now max_age p) p.file_path
        (lang_for p.file_path) (deferred defer [] p.file_path [] reason) (refl, refl)

  -- Every input has one answer and one record, also an input that does not parse. The record says
  -- `ask` exactly where the user is asked, and no question is empty.
  pub run_hook_mode-IsSound : (input : Option Payload) → IsSound (answer input)
  unfolding run_hook_mode
  run_hook_mode-IsSound none = (refl, refl)
  run_hook_mode-IsSound (some p) =
      let lang = lang_for p.file_path in
      routed IsSound (is_trivial p) (is_bad p.file_path) (is_unknown lang)
        (unchecked p (codes "empty-input")) (deferred defer [] [] [] (codes "bad-path"))
        (unchecked p (codes "unknown-lang")) (checked p lang)
        (unchecked-IsSound p (codes "empty-input")) (refl, refl)
        (unchecked-IsSound p (codes "unknown-lang")) (check_edit-IsSound p lang)
