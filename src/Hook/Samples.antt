-- ===== src/Hook/Samples.antt =====
-- cmd/runecho-guard: a small repository for the runs of the hook.
use runecho.Prelude.{inl, true, false, Option, none, some, List, [], ◌∷◌, ◌++◌, drop, if◌then◌else◌}
use runecho.Order.{nat_ord, list_ord, ◌=?◌}
use runecho.Text.{Bytes, codes, has_prefix}
use runecho.Guard.Types.{AddedLine}
use runecho.Guard.Validate.{Extractors}
use runecho.Contract.Types.{Contract}
use runecho.Contract.Parse.{ok}
use runecho.Snapshot.Contracts.History.{Command, activate, run}
use runecho.Hook.Payload.{Payload}
use runecho.Hook.Store.{Files, Repo, Store, there, opened}
use runecho.Hook.Findings.{Switches, Checks}

-- A language with one definition or reference to a line: `def x` or `use x`.
abbrev pub names_after : Bytes → List AddedLine → List Bytes
names_after word [] = []
names_after word (l ∷ lines) =
    if has_prefix word l.text
    then drop 4 l.text ∷ names_after word lines
    else names_after word lines

abbrev pub extractors : Extractors
extractors = record {
  extract_defs = λ lang lines. names_after (codes "def ") lines;
  extract_imports = λ lang lines. [];
  js_declared_names = λ lines. [];
  py_declared_names = λ lines. [];
  py_param_names = λ lines. [];
  extract_refs = λ lang lines seed. [];
  strip_literals_stateful = λ lang text state. (text, state);
}

abbrev pub checks : Checks
checks = record {
  extractors = extractors;
  learned_allowed_set = λ repo. [];
  locally_bound_names = λ lang lines. [];
  go_module_path = λ dir. [];
  go_qualified_violations = λ file lines symbols path. [];
  go_dep_qualified_violations = λ dir file lines path. [];
  file_scope_violations = λ lang file fd symbols. [];
  first_use_lines = λ lang lines. [];
}

abbrev pub api_contract : Contract
api_contract = record {
  name = codes "api";
  description = [];
  patterns = record { glob = codes "api/**"; negated = false } ∷ [];
  hash = codes "h2";
  path = codes "/r/.runecho/contracts/api.md";
}

-- Every path is under `/r/`.
abbrev pub files : Files
files = record {
  is_abs = λ p. has_prefix (codes "/") p;
  clean = λ p. p;
  dir = λ p. codes "/r/.runecho/contracts";
  base = λ p. p;
  join = λ a b. a ++ b'/' ∷ b;
  rel = λ root p. some (drop 3 p);
  to_slash = λ p. p;
  eval_symlinks = λ p. none;
  path_dir = λ p. [];
  path_base = λ p. p;
  path_match = λ glob p. some (glob =? p);
  nfc = λ p. p;
  top_level = λ p. some (codes "/r");
  load_contract = λ p. ok api_contract;
  size_of = λ p. none;
  file_exists = λ p. false;
  read_file = λ p. inl true;
}

abbrev pub copy : Bytes → Bytes
copy t = t

abbrev pub read : Bytes → Option Bytes
read t = some t

abbrev pub history : List (Command Bytes)
history =
    activate 1 (codes "s") (codes "api") (codes "/r/.runecho/contracts/api.md") (codes "h1")
      (codes "t1")
    ∷ []

abbrev pub repo : Repo
repo = record { id = 1; name = codes "r" }

abbrev pub store : Store
store = record {
  has_dir = true;
  stat_db = there;
  open_fast = opened;
  resolve_repo = λ dir. some (repo, codes "/r");
  list_latest = λ id. some ((7, 0) ∷ []);
  symbols_for_latest_snapshot = λ id. some [];
  refs_to_name = λ id name.
      if name =? codes "f"
      then some (codes "a.py" ∷ codes "b.py" ∷ [])
      else some (codes "a.py" ∷ []);
  defs_of_name = λ id name. some [];
  contracts = run copy history;
}

abbrev pub all_on : Switches
all_on = record {
  contract = true;
  dangling = true;
  dropped_import = true;
  duplicate = true;
  qualified = true;
  deps_go = true;
  file_scope = true;
  learn = true;
  strict = true;
}

abbrev pub edit_of : Bytes → Bytes → Payload
edit_of session_id path = record {
  session_id = session_id;
  tool_name = codes "Edit";
  file_path = path;
  old_string = codes "def f";
  new_string = codes "def g";
  content = [];
  edits = [];
}
