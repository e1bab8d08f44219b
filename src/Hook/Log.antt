-- ===== src/Hook/Log.antt =====
-- cmd/runecho-guard/main.go, declog.go, contract.go and dangling.go: what the hook answers and what it
-- writes to the decision log. The texts of the messages are the data that they are made of; the
-- version and the time of a record, which `logDecision` adds, are left out.
use runecho.Prelude.{ℕ, Bool, true, false, Option, none, some, List, [], ◌∷◌, ◌++◌, if◌then◌else◌}
use runecho.Text.{Bytes, codes}
use runecho.Guard.Lang.{Lang, lang_go, lang_js, lang_python, lang_unknown}
use runecho.Guard.Validate.{Violation}
use runecho.Guard.DroppedImport.{DroppedImport}
use runecho.Hook.Scope.{ContractWarning, short_hash}
use runecho.Hook.Definitions.{DefWarning}

-- The sections of the text of a question.
pub data AskSection : Type 0 where
  contract_section : ContractWarning → AskSection
  violations_section : List Violation → AskSection
  dangling_section : List DefWarning → AskSection
  dropped_section : List DroppedImport → AskSection
  duplicates_section : List DefWarning → AskSection

-- The notes that are given without a question.
pub data Note : Type 0 where
  schema_newer_note : Note
  disabled_note : Note
  incomplete_note : ℕ → Note
  stale_note : ℕ → Note

-- What is written to the output: nothing, a note, or a question.
pub data Response : Type 0 where
  defer : Response
  defer_context : Note → Response
  ask : List AskSection → Response

abbrev pub is_ask : Response → Bool
is_ask defer = false
is_ask (defer_context n) = false
is_ask (ask sections) = true

pub record DecisionRecord : Type 0 where
  pub mode : Bytes
  pub repo : Bytes
  pub file : Bytes
  pub lang : Bytes
  pub decision : Bytes
  pub reason : Bytes
  pub symbols : List Bytes
  pub learn_symbols : List Bytes
  pub contract : Bytes
  pub contract_hash : Bytes

pub record Outcome : Type 0 where
  pub response : Response
  pub log : DecisionRecord

-- `string(lang)`
abbrev pub lang_text : Lang → Bytes
lang_text lang_go = codes "go"
lang_text lang_js = codes "js"
lang_text lang_python = codes "py"
lang_text lang_unknown = []

abbrev pub record_of : Bytes → Bytes → Bytes → Bytes → Bytes → DecisionRecord
record_of repo file lang decision reason = record {
  mode = codes "hook";
  repo = repo;
  file = file;
  lang = lang;
  decision = decision;
  reason = reason;
  symbols = [];
  learn_symbols = [];
  contract = [];
  contract_hash = [];
}

-- A deferral with its reason.
abbrev pub deferred : Response → Bytes → Bytes → Bytes → Bytes → Outcome
deferred response repo file lang reason = record {
  response = response;
  log = record_of repo file lang (codes "defer") reason;
}

-- `askContractOnly`, or what comes in its place.
unfoldable pub ask_contract_only : Option ContractWarning → Bytes → Lang → Outcome → Outcome
ask_contract_only none file_path lang otherwise = otherwise
ask_contract_only (some cw) file_path lang otherwise = record {
  response = ask (contract_section cw ∷ []);
  log =
      record (record_of cw.repo_name file_path (lang_text lang) (codes "ask") (codes "contract")) {
        contract = cw.name;
        contract_hash = short_hash cw.activated_hash;
      };
}

-- `strings.Join(parts, "+")`
abbrev pub join_plus : List Bytes → Bytes
join_plus [] = []
join_plus (p ∷ []) = p
join_plus (p ∷ q ∷ parts) = p ++ b'+' ∷ join_plus (q ∷ parts)

abbrev pub part : Bool → Bytes → List Bytes
part true p = p ∷ []
part false p = []

abbrev pub or_violations : List Bytes → Bytes
or_violations [] = codes "violations"
or_violations (p ∷ parts) = join_plus (p ∷ parts)

unfoldable pub ask_reason : Bool → Bool → Bool → Bool → Bytes
ask_reason violations dangling dropped duplicate = or_violations (
    part violations (codes "violations")
    ++ part dangling (codes "dangling")
    ++ part dropped (codes "dropped-import")
    ++ part duplicate (codes "duplicate-symbol"))

abbrev pub contract_reason : Bool → Bytes → Bytes
contract_reason fired rest = if fired then codes "contract+" ++ rest else rest
