-- ===== src/Hook/Decision.antt =====
-- cmd/runecho-guard/main.go: `runHookMode`, which answers for one edit. The JSON of the input is read
-- by the library; `none` is an input that does not parse. Times are in nanoseconds.
pub mod Laws
pub mod Runs
pub mod Abstains
use runecho.Prelude.{
  ℕ, zero, suc, ◌+◌, ◌-◌, ◌/◌, Bool, true, false, not, ◌&&◌, ◌||◌, Option, none, some, List, [],
  ◌∷◌, ◌++◌, length, map, ltb, if◌then◌else◌,
}
use runecho.Order.{nat_ord, list_ord, ◌=?◌}
use runecho.Int.{ℤ, pos, negsuc}
use runecho.Maps.{is_some}
use runecho.Text.{Bytes, codes, contains_byte}
use runecho.Guard.Lang.{Lang, lang_for, is_unknown}
use runecho.Guard.Validate.{Violation}
use runecho.Guard.DroppedImport.{DroppedImport}
use runecho.Hook.Payload.{Payload, write_tool, hook_text, hook_old_text}
use runecho.Hook.Store.{Files, Store}
use runecho.Hook.Scope.{ContractWarning, short_hash, contract_warning_with, contract_warning_for}
use runecho.Hook.Definitions.{DefWarning}
use runecho.Hook.Lookup.{LookupResult, lookup_symbols_for}
use runecho.Hook.Log.{
  AskSection, contract_section, violations_section, dangling_section, dropped_section,
  duplicates_section, disabled_note, incomplete_note, stale_note, schema_newer_note, Response,
  defer, defer_context, ask, Outcome, record_of, lang_text, deferred, ask_contract_only, ask_reason,
  contract_reason,
}
use runecho.Hook.Clock.{is_over, day}
use runecho.Hook.Findings.{Switches, Checks, Findings, findings_of}

abbrev pub has_none {ℓ} : {A : Type ℓ} → List A → Bool
has_none [] = true
has_none (x ∷ xs) = false

-- One section for each kind of finding that there is.
abbrev pub section_if {ℓ} : {A : Type ℓ} → (List A → AskSection) → List A → List AskSection
section_if section [] = []
section_if section (x ∷ xs) = section (x ∷ xs) ∷ []

abbrev pub contract_sections : Option ContractWarning → List AskSection
contract_sections none = []
contract_sections (some cw) = contract_section cw ∷ []

abbrev pub sections : Option ContractWarning → Findings → List AskSection
sections cw fs =
    contract_sections cw
    ++ section_if violations_section fs.violations
    ++ section_if dangling_section fs.dangling.warns
    ++ section_if dropped_section fs.dropped
    ++ section_if duplicates_section fs.duplicates.warns

abbrev pub symbols_of : List DefWarning → List Bytes
symbols_of warns = map (λ (w : DefWarning). w.symbol) warns

abbrev pub violation_symbols : List Violation → List Bytes
violation_symbols vs = map (λ (v : Violation). v.symbol) vs

abbrev pub all_symbols : Findings → List Bytes
all_symbols fs =
    violation_symbols fs.violations
    ++ symbols_of fs.dangling.warns
    ++ map (λ (d : DroppedImport). d.name) fs.dropped
    ++ symbols_of fs.duplicates.warns

-- The names that an approval may teach.
abbrev pub learn_symbols_of : Option ContractWarning → Findings → List Bytes
learn_symbols_of none fs = violation_symbols fs.violations
learn_symbols_of (some cw) fs = []

abbrev pub contract_name : Option ContractWarning → Bytes
contract_name none = []
contract_name (some cw) = cw.name

abbrev pub contract_hash_of : Option ContractWarning → Bytes
contract_hash_of none = []
contract_hash_of (some cw) = short_hash cw.activated_hash

abbrev pub ask_outcome : Option ContractWarning → Bytes → Lang → Bytes → Findings → Outcome
ask_outcome cw file_path lang repo_name fs = record {
  response = ask (sections cw fs);
  log =
      record (record_of repo_name file_path (lang_text lang) (codes "ask") (
        contract_reason (is_some cw) (
          ask_reason (not (has_none fs.violations)) (not (has_none fs.dangling.warns))
            (not (has_none fs.dropped)) (not (has_none fs.duplicates.warns))))) {
              symbols = all_symbols fs;
              learn_symbols = learn_symbols_of cw fs;
              contract = contract_name cw;
              contract_hash = contract_hash_of cw;
            };
}

-- `hookDeferStale` with its reason. The threshold is `none` where it does not parse; the days are
-- those of a snapshot that is not in the future.
abbrev pub stale_outcome : ℕ → ℕ → Option ℤ → Bytes → Bytes → Bytes → Outcome
stale_outcome now latest none repo file lang = deferred defer repo file lang (codes "clean")
stale_outcome now latest (some max_age) repo file lang =
    if is_over now latest max_age
    then deferred (defer_context (stale_note ((now - latest) / day))) repo file lang
        (codes "stale-ir")
    else deferred defer repo file lang (codes "clean")

abbrev pub has_findings : Findings → Bool
has_findings fs =
    not (has_none fs.violations)
    || not (has_none fs.dangling.warns)
    || not (has_none fs.dropped)
    || not (has_none fs.duplicates.warns)

abbrev pub degraded_count : Findings → ℕ
degraded_count fs = fs.unread + fs.dangling.query_errs + fs.duplicates.query_errs

module _ (strict : Bool) (now : ℕ) (max_age : Option ℤ) where
  -- The answer when all checks have run.
  unfoldable pub decide : LookupResult → Bytes → Lang → Findings → Outcome
  decide res file_path lang fs =
      if has_findings fs
      then ask_outcome res.contract file_path lang res.repo_name fs
      else ask_contract_only res.contract file_path lang (
          if ltb 0 (degraded_count fs) && strict
          then deferred (defer_context (incomplete_note (degraded_count fs))) res.repo_name
              file_path (lang_text lang) (codes "check-degraded")
          else stale_outcome now res.latest max_age res.repo_name file_path (lang_text lang))

  -- The answer where the symbols could not be read.
  unfoldable pub decide_unread : LookupResult → Bytes → Lang → Outcome
  decide_unread res file_path lang = ask_contract_only res.contract file_path lang (
      if res.warn
      then deferred (defer_context schema_newer_note) res.repo_name file_path (lang_text lang)
          (codes "schema-newer")
      else if res.no_repo
      then deferred defer [] file_path (lang_text lang) (codes "no-repo")
      else deferred (if strict then defer_context disabled_note else defer) res.repo_name file_path
          (lang_text lang) (codes "store-degraded"))

abbrev pub is_written : Option ℕ → Bool
is_written none = false
is_written (some size) = ltb 0 size

module _ {Time : Type 0} (zero_time : Time) (parse_time : Bytes → Option Time) (sw : Switches)
    (files : Files) (store : Store) (checks : Checks) (now : ℕ) (max_age : Option ℤ) where
  -- The text that an edit removes, where a check asks for it.
  abbrev pub removed_text : Payload → Bytes
  removed_text p =
      if sw.dangling || sw.dropped_import
      then hook_old_text p.tool_name p.old_string p.edits
      else []

  -- No text on either side, and no file that a Write empties.
  abbrev pub is_empty_input : Payload → Bool
  is_empty_input p =
      hook_text p.tool_name p.new_string p.content p.edits =? []
      && removed_text p =? []
      && not (
          p.tool_name =? write_tool
          && (sw.dangling || sw.dropped_import)
          && is_written (files.size_of p.file_path))

  abbrev pub is_bad_path : Bytes → Bool
  is_bad_path file_path = contains_byte 0 file_path || ltb 4096 (length file_path)

  abbrev pub contract_question : Payload → Option ContractWarning
  contract_question p =
      contract_warning_for zero_time parse_time files sw.contract store p.file_path p.session_id

  abbrev pub lookup_result : Payload → LookupResult
  lookup_result p =
      lookup_symbols_for
        (λ repo.
          contract_warning_with zero_time parse_time files sw.contract store repo p.file_path
            p.session_id)
        files store (files.dir p.file_path)

  unfoldable pub check_edit : Payload → Lang → Outcome
  check_edit p lang =
      let res = lookup_result p in
      if res.ok
      then decide sw.strict now max_age res p.file_path lang (
          findings_of sw files store checks res p lang
            (hook_text p.tool_name p.new_string p.content p.edits) (removed_text p))
      else decide_unread sw.strict now max_age res p.file_path lang

  unfoldable pub run_hook_mode : Option Payload → Outcome
  run_hook_mode none = deferred defer [] [] [] (codes "parse-fail")
  run_hook_mode (some p) =
      let lang = lang_for p.file_path in
      if p.file_path =? [] || is_empty_input p
      then ask_contract_only (contract_question p) p.file_path lang
          (deferred defer [] p.file_path [] (codes "empty-input"))
      else if is_bad_path p.file_path
      then deferred defer [] [] [] (codes "bad-path")
      else if is_unknown lang
      then ask_contract_only (contract_question p) p.file_path lang
          (deferred defer [] p.file_path [] (codes "unknown-lang"))
      else check_edit p lang
