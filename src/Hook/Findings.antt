-- ===== src/Hook/Findings.antt =====
-- cmd/runecho-guard/main.go: the checks that `runHookMode` makes of an edit whose repository is
-- indexed. The checks of internal/guard that are not modelled, and the set of learned names, are
-- functions of a record.
use runecho.Prelude.{
  ℕ, ◌⊎◌, inl, inr, Bool, true, false, not, ◌&&◌, ◌||◌, Option, none, some, List, [], ◌∷◌, ◌++◌,
  length, map, ltb, if◌then◌else◌,
}
use runecho.Order.{nat_ord, list_ord, ◌=?◌}
use runecho.Int.{ℤ}
use runecho.Text.{Bytes}
use runecho.Guard.Types.{AddedLine, FileDiff}
use runecho.Guard.Lang.{Lang, is_js, is_python}
use runecho.Guard.Lines.{text_to_added_lines}
use runecho.Guard.Known.{add_names}
use runecho.Guard.Validate.{Extractors, Violation, run}
use runecho.Guard.DroppedImport.{DroppedImport, dropped_import_refs}
use runecho.Hook.Payload.{Payload, write_tool, hook_added_lines, hook_old_lines}
use runecho.Hook.Seeds.{hook_seed_by_line}
use runecho.Hook.Store.{Files, Store}
use runecho.Hook.Definitions.{
  Checked, nothing_checked, is_go, deleted_defs, added_defs, check_dangling_refs,
  check_duplicate_defs,
}
use runecho.Hook.Definitions.Constraints.{go_build_constrained}
use runecho.Hook.Lookup.{LookupResult}

-- The switches of the environment.
pub record Switches : Type 0 where
  pub contract : Bool
  pub dangling : Bool
  pub dropped_import : Bool
  pub duplicate : Bool
  pub qualified : Bool
  pub deps_go : Bool
  pub file_scope : Bool
  pub learn : Bool
  pub strict : Bool

-- The checks of other parts.
pub record Checks : Type 0 where
  pub extractors : Extractors
  pub learned_allowed_set : Bytes → List Bytes
  pub locally_bound_names : Lang → List AddedLine → List Bytes
  pub go_module_path : Bytes → Bytes
  pub go_qualified_violations :
      List AddedLine → List AddedLine → List Bytes → Bytes → List Violation
  -- The index of the dependencies is found from a directory.
  pub go_dep_qualified_violations : Bytes → List AddedLine → List AddedLine → Bytes → List Violation
  pub file_scope_violations : Lang → List AddedLine → FileDiff → List Bytes → List Violation
  -- The first unqualified use of each name.
  pub first_use_lines : Lang → List AddedLine → List (Bytes × ℤ)

pub record Findings : Type 0 where
  pub violations : List Violation
  pub dangling : Checked
  pub dropped : List DroppedImport
  pub duplicates : Checked
  pub unread : ℕ

-- 2 MiB
abbrev pub max_in_file_bytes : ℕ
max_in_file_bytes = 2097152

-- No lines where the file cannot be read or is too large.
abbrev pub lines_of : Bool ⊎ Bytes → List AddedLine
lines_of (inl missing) = []
lines_of (inr content) =
    if ltb max_in_file_bytes (length content) then [] else text_to_added_lines content

abbrev pub read_file_lines : Files → Bytes → List AddedLine
read_file_lines files path = lines_of (files.read_file path)

-- The text of the file before the edit, if it is known: that of a missing file is empty.
abbrev pub whole_text : Bool ⊎ Bytes → Option Bytes
whole_text (inl missing) = if missing then some [] else none
whole_text (inr content) = if ltb max_in_file_bytes (length content) then none else some content

unfoldable pub add_in_file_defs : Extractors → List Bytes → List AddedLine → Lang → List Bytes
add_in_file_defs ex symbols file_lines lang =
    let bound =
      add_names (ex.extract_imports lang file_lines)
        (add_names (ex.extract_defs lang file_lines) symbols) in
    let js = if is_js lang then add_names (ex.js_declared_names file_lines) bound else bound in
    if is_python lang
    then add_names (ex.py_param_names file_lines) (add_names (ex.py_declared_names file_lines) js)
    else js

unfoldable pub whole_file_bound_names : Checks → List AddedLine → Lang → List Bytes
whole_file_bound_names checks [] lang = []
whole_file_bound_names checks (l ∷ lines) lang =
    add_names (checks.extractors.extract_defs lang (l ∷ lines))
      (checks.locally_bound_names lang (l ∷ lines))

-- `vs[i].File = path`
abbrev pub in_file : Bytes → Violation → Violation
in_file path v = record v { file = path }

abbrev pub content_of : Bool ⊎ Bytes → Option Bytes
content_of (inl missing) = none
content_of (inr content) = some content

abbrev pub is_known : Option Bytes → Bool
is_known none = false
is_known (some s) = true

module _ (sw : Switches) (files : Files) (store : Store) (checks : Checks) where
  abbrev pub known_symbols : LookupResult → Bytes → Lang → List AddedLine → List Bytes
  known_symbols res file_path lang file_lines =
      let symbols = add_in_file_defs checks.extractors res.symbols file_lines lang in
      if sw.learn then add_names (checks.learned_allowed_set res.repo_name) symbols else symbols

  abbrev pub edit_diff : Payload → Lang → List AddedLine → FileDiff
  edit_diff p lang file_lines = record {
    path = p.file_path;
    added_lines = hook_added_lines p.tool_name p.new_string p.content p.edits;
    abs_path = [];
    seed_by_line = hook_seed_by_line p.tool_name p.old_string p.edits file_lines lang;
  }

  -- The checks of the text that is added, in order.
  unfoldable pub additive_violations : LookupResult → Payload → Lang → List Violation
  additive_violations res p lang =
      let file_lines = read_file_lines files p.file_path in
      let symbols = known_symbols res p.file_path lang file_lines in
      let fd = edit_diff p lang file_lines in
      let dir = files.dir p.file_path in
      let module_path = checks.go_module_path dir in
      run files.path_match checks.extractors (λ path. content_of (files.read_file path)) symbols
        res.ignore_path (fd ∷ [])
      ++ (if sw.qualified && is_go lang && not (module_path =? [])
          then map (in_file p.file_path)
              (checks.go_qualified_violations file_lines fd.added_lines symbols module_path)
          else [])
      ++ (if sw.deps_go && is_go lang
          then map (in_file p.file_path)
              (checks.go_dep_qualified_violations dir file_lines fd.added_lines module_path)
          else [])
      ++ (if sw.file_scope && is_python lang
          then map (in_file p.file_path)
              (checks.file_scope_violations lang file_lines fd res.symbols)
          else [])

  -- The text that an edit removes: what is on disk for a Write, where it is known.
  abbrev pub old_text_of : Payload → Bytes → Option Bytes → Option Bytes
  old_text_of p removed_text whole = if p.tool_name =? write_tool then whole else some removed_text

  abbrev pub dangling_of : Payload → Lang → Bytes → Option Bytes → Checked
  dangling_of p lang text none = nothing_checked
  dangling_of p lang text (some old_text) =
      if sw.dangling
      then check_dangling_refs files store (files.dir p.file_path) p.file_path
          (deleted_defs checks.extractors lang old_text text)
      else nothing_checked

  abbrev pub dropped_of : Payload → Lang → Option Bytes → List DroppedImport
  dropped_of p lang none = []
  dropped_of p lang (some old_text) =
      if sw.dropped_import
      then dropped_import_refs checks.extractors checks.locally_bound_names checks.first_use_lines
          lang (hook_old_lines p.tool_name p.old_string p.edits old_text)
          (hook_added_lines p.tool_name p.new_string p.content p.edits)
          (if p.tool_name =? write_tool
            then []
            else whole_file_bound_names checks (read_file_lines files p.file_path) lang)
      else []

  abbrev pub duplicates_of : Payload → Lang → Bytes → Option Bytes → Checked
  duplicates_of p lang text none = nothing_checked
  duplicates_of p lang text (some whole) =
      if sw.duplicate
      then check_duplicate_defs files store lang (files.dir p.file_path) p.file_path
          (added_defs checks.extractors lang whole text)
          (go_build_constrained files p.file_path whole text)
      else nothing_checked

  -- The file before the edit, which is read only where a check needs it.
  abbrev pub whole_before : Payload → Option Bytes
  whole_before p =
      if p.tool_name =? write_tool || sw.duplicate
      then whole_text (files.read_file p.file_path)
      else some []

  unfoldable pub findings_of : LookupResult → Payload → Lang → Bytes → Bytes → Findings
  findings_of res p lang text removed_text =
      let violations = additive_violations res p lang in
      let whole = whole_before p in
      let old_text = old_text_of p removed_text whole in
      if sw.dangling || sw.dropped_import || sw.duplicate
      then record {
        violations = violations;
        dangling = dangling_of p lang text old_text;
        dropped = dropped_of p lang old_text;
        duplicates = duplicates_of p lang text whole;
        unread = if is_known whole then 0 else 1;
      }
      else record {
        violations = violations;
        dangling = nothing_checked;
        dropped = [];
        duplicates = nothing_checked;
        unread = 0;
      }
