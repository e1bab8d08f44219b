-- ===== src/Guard/Validate.antt =====
-- internal/guard/validate.go: `Run`, which reports the references of added lines that nothing
-- defines. The functions of extract.go that read names out of lines, `path.Match` and the reading
-- of files are parameters. A nil function for the seeds is `none`.
pub mod Seeds
pub mod Report
pub mod KnownSet
mod Tests
use mathlib.Core.List.{foldl}
use runecho.Prelude.{
  ℕ, ◌≡◌, Bool, true, false, not, ◌||◌, Option, none, some, List, [], ◌∷◌, ◌++◌, map, any, keep,
  if◌then◌else◌,
}
use runecho.Order.{nat_ord, list_ord, ◌=?◌}
use runecho.Int.{ℤ}
use runecho.Text.{Bytes, codes, has_prefix, contains_any, trim_space, scan_lines}
use runecho.Contract.Glob.{is_match}
use runecho.Suggest.{suggest}
use runecho.Guard.Types.{AddedLine, FileDiff}
use runecho.Guard.Lang.{
  Lang, is_js, is_python, is_unknown, lang_for, is_js_test_file, js_test_globals,
}
use runecho.Guard.Known.{has_name, add_name, add_names}
use Seeds.{Seed, seed_func}

pub record Ref : Type 0 where
  pub name : Bytes
  pub line_no : ℤ

pub record Violation : Type 0 where
  pub file : Bytes
  pub line : ℤ
  pub symbol : Bytes
  pub lang : Lang
  pub suggestions : List Bytes

-- What `Run` calls of extract.go.
pub record Extractors : Type 0 where
  pub extract_defs : Lang → List AddedLine → List Bytes
  pub extract_imports : Lang → List AddedLine → List Bytes
  pub js_declared_names : List AddedLine → List Bytes
  pub py_declared_names : List AddedLine → List Bytes
  pub py_param_names : List AddedLine → List Bytes
  pub extract_refs : Lang → List AddedLine → Option Seed → List Ref
  pub strip_literals_stateful : Lang → Bytes → Bytes → Bytes × Bytes

-- The limit of a scanner that has no buffer of its own.
abbrev pub max_ignore_line : ℕ
max_ignore_line = 65536

-- The lines that are kept of what the file holds: `none` is a file that cannot be opened.
unfoldable pub load_ignore : Option Bytes → List Bytes
load_ignore none = []
load_ignore (some content) =
    keep (λ line. not (line =? [] || has_prefix (codes "#") line))
      (map trim_space (scan_lines max_ignore_line content).0)

abbrev pub is_ignore_glob : Bytes → Bool
is_ignore_glob name = contains_any (codes "*?[") name

abbrev pub ignore_globs_of : List Bytes → List Bytes
ignore_globs_of names = keep is_ignore_glob names

-- The loop over the ignore file, as far as it adds to the known set.
abbrev pub add_unless_glob : List Bytes → Bytes → List Bytes
add_unless_glob known name = if is_ignore_glob name then known else add_name known name

abbrev pub add_ignored : List Bytes → List Bytes → List Bytes
add_ignored known names = foldl add_unless_glob known names

abbrev pub fold_test_globals : List Bytes → Bytes → List Bytes
fold_test_globals known path =
    if is_js_test_file path then add_names js_test_globals known else known

module _ (path_match : Bytes → Bytes → Option Bool) where
  unfoldable pub matches_ignore_glob : Bytes → List Bytes → Bool
  matches_ignore_glob name [] = false
  matches_ignore_glob name (g ∷ globs) =
      is_match (path_match g name) || matches_ignore_glob name globs

module _ (ex : Extractors) where
  -- Pass 1 for one file.
  unfoldable pub add_bound : List Bytes → FileDiff → List Bytes
  add_bound known fd =
      let lang = lang_for fd.path in
      let defs = add_names (ex.extract_defs lang fd.added_lines) known in
      let imports = add_names (ex.extract_imports lang fd.added_lines) defs in
      let js =
        if is_js lang then add_names (ex.js_declared_names fd.added_lines) imports else imports in
      let py =
        if is_python lang
        then add_names (ex.py_param_names fd.added_lines)
            (add_names (ex.py_declared_names fd.added_lines) js)
        else js in
      fold_test_globals py fd.path

  -- The known set, from the indexed symbols and the names of the ignore file.
  unfoldable pub known_set : List Bytes → List Bytes → List FileDiff → List Bytes
  known_set symbols ignored diffs =
      foldl add_bound (add_ignored (add_names symbols []) ignored) diffs

-- The variables of pass 2.
pub record Scan : Type 0 where
  pub seen : List Bytes
  pub violations : List Violation

-- `fd.Path + "\x00" + ref.Name`
abbrev pub seen_key : Bytes → Bytes → Bytes
seen_key path name = path ++ 0 ∷ name

abbrev pub violation_of : List Bytes → FileDiff → Ref → Violation
violation_of known fd ref = record {
  file = fd.path;
  line = ref.line_no;
  symbol = ref.name;
  lang = lang_for fd.path;
  suggestions = (suggest ref.name known).0;
}

abbrev pub refs_of : Extractors → (Bytes → Option Bytes) → FileDiff → List Ref
refs_of ex read_file fd =
    let lang = lang_for fd.path in
    ex.extract_refs lang fd.added_lines (seed_func ex.strip_literals_stateful read_file lang fd)

module _ (path_match : Bytes → Bytes → Option Bool) (known globs : List Bytes) where
  -- One reference of a file.
  unfoldable pub check_ref : FileDiff → Scan → Ref → Scan
  check_ref fd scan ref =
      if has_name ref.name known
      then scan
      else if matches_ignore_glob path_match ref.name globs
      then scan
      else if has_name (seen_key fd.path ref.name) scan.seen
      then scan
      else record {
        seen = add_name scan.seen (seen_key fd.path ref.name);
        violations = scan.violations ++ violation_of known fd ref ∷ [];
      }

  -- One file.
  unfoldable pub check_file : Extractors → (Bytes → Option Bytes) → Scan → FileDiff → Scan
  check_file ex read_file scan fd =
      if is_unknown (lang_for fd.path)
      then scan
      else foldl (check_ref fd) scan (refs_of ex read_file fd)

abbrev pub empty_scan : Scan
empty_scan = record { seen = []; violations = [] }

-- The names of the ignore file: the path is empty where there is none.
abbrev pub ignored_names : (Bytes → Option Bytes) → Bytes → List Bytes
ignored_names read_file ignore_path =
    if ignore_path =? [] then [] else load_ignore (read_file ignore_path)

unfoldable pub run :
    (Bytes → Bytes → Option Bool)
    → Extractors
    → (Bytes → Option Bytes)
    → List Bytes
    → Bytes
    → List FileDiff
    → List Violation
run path_match ex read_file symbols ignore_path diffs =
    let ignored = ignored_names read_file ignore_path in
    let known = known_set ex symbols ignored diffs in
    (foldl (check_file path_match known (ignore_globs_of ignored) ex read_file) empty_scan
      diffs).violations
