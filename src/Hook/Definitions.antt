-- ===== src/Hook/Definitions.antt =====
-- cmd/runecho-guard/dangling.go and duplicate.go: the definitions that an edit removes while other
-- files refer to them, and those that it adds while the package has them.
pub mod Constraints
pub mod Laws
use runecho.Prelude.{
  ℕ, zero, ◌+◌, Bool, true, false, not, ◌&&◌, ◌||◌, Option, none, some, List, [], ◌∷◌, keep, take,
  if◌then◌else◌,
}
use runecho.Order.{nat_ord, list_ord, ◌=?◌}
use runecho.Sort.{sort_by}
use runecho.Text.{Bytes}
use runecho.Guard.Lang.{Lang, lang_go, lang_js, lang_python, lang_unknown, lang_for}
use runecho.Guard.Lines.{text_to_added_lines}
use runecho.Guard.Known.{has_name, add_names}
use runecho.Guard.Validate.{Extractors}
use runecho.Hook.Store.{
  Files, Store, Latest, latest, nothing_to_check, degraded, open_latest_snapshot,
}
use runecho.Hook.Definitions.Constraints.{is_test_file, drop_constrained}

unfoldable pub def_set : Extractors → Lang → Bytes → List Bytes
def_set ex lang text = add_names (ex.extract_defs lang (text_to_added_lines text)) []

-- `sort.Strings`
abbrev pub sort_strings : List Bytes → List Bytes
sort_strings names = sort_by (λ (s : Bytes). s) names

-- The names of one set that another one lacks.
abbrev pub without : List Bytes → List Bytes → List Bytes
without names others = sort_strings (keep (λ d. not (has_name d others)) names)

unfoldable pub deleted_defs : Extractors → Lang → Bytes → Bytes → List Bytes
deleted_defs ex lang old_text new_text =
    if def_set ex lang old_text =? []
    then []
    else without (def_set ex lang old_text) (def_set ex lang new_text)

unfoldable pub added_defs : Extractors → Lang → Bytes → Bytes → List Bytes
added_defs ex lang old_text new_text =
    if def_set ex lang new_text =? []
    then []
    else without (def_set ex lang new_text) (def_set ex lang old_text)

-- Nothing is excluded where the own path is not known.
abbrev pub exclude_self : List Bytes → Bytes → List Bytes
exclude_self paths self = keep (λ p. not (not (self =? []) && p =? self)) paths

-- A symbol and the paths that are named for it: `danglingWarning` and `duplicateWarning`.
pub record DefWarning : Type 0 where
  pub symbol : Bytes
  pub paths : List Bytes

-- The warnings, and how many questions had no answer.
pub record Checked : Type 0 where
  pub warns : List DefWarning
  pub query_errs : ℕ

abbrev pub nothing_checked : Checked
nothing_checked = record { warns = []; query_errs = 0 }

-- `maxDanglingReferrers` and `maxDuplicateLocations`
abbrev pub max_paths : ℕ
max_paths = 5

-- One round: the other paths of the symbol and the unknown ones among them, or an error.
abbrev pub warn_one : Bytes → Option (List Bytes × ℕ) → Checked → Checked
warn_one d none rest = record rest { query_errs = rest.query_errs + 1 }
warn_one d (some ([], unknown)) rest = record rest { query_errs = rest.query_errs + unknown }
warn_one d (some (p ∷ others, unknown)) rest = record {
  warns = record { symbol = d; paths = take max_paths (p ∷ others) } ∷ rest.warns;
  query_errs = rest.query_errs + unknown;
}

-- The loop over the symbols.
unfoldable pub warn_each : (Bytes → Option (List Bytes × ℕ)) → List Bytes → Checked
warn_each others_of [] = nothing_checked
warn_each others_of (d ∷ ds) = warn_one d (others_of d) (warn_each others_of ds)

-- What an answer of the store comes to.
abbrev pub answered_by :
    (List Bytes → List Bytes × ℕ) → Option (List Bytes) → Option (List Bytes × ℕ)
answered_by f none = none
answered_by f (some paths) = some (f paths)

-- A store that cannot be read counts as one question without an answer.
abbrev pub check_latest : (ℕ → Bytes → Checked) → Latest → Checked
check_latest check (latest snap_id self) = check snap_id self
check_latest check nothing_to_check = nothing_checked
check_latest check degraded = record { warns = []; query_errs = 1 }

unfoldable pub check_dangling_refs : Files → Store → Bytes → Bytes → List Bytes → Checked
check_dangling_refs files store dir file_path deleted =
    if deleted =? []
    then nothing_checked
    else check_latest
        (λ snap_id self.
          warn_each
            (λ d.
              answered_by (λ paths. (exclude_self paths self, 0)) (store.refs_to_name snap_id d))
            deleted)
        (open_latest_snapshot files store dir file_path)

abbrev pub is_go : Lang → Bool
is_go lang_go = true
is_go lang_js = false
is_go lang_python = false
is_go lang_unknown = false

unfoldable pub duplicate_candidates : Files → List Bytes → Bytes → List Bytes
duplicate_candidates files others self =
    keep
      (λ o.
        files.path_dir o =? files.path_dir self && not (is_test_file files o) && is_go (lang_for o))
      others

-- The candidates, without those that another build configuration has, where the edited file is
-- constrained itself and its root is known.
abbrev pub kept_candidates : Files → Bool → Option Bytes → List Bytes → List Bytes × ℕ
kept_candidates files false top others = (others, 0)
kept_candidates files true none others = (others, 0)
kept_candidates files true (some top) others = drop_constrained files top others

unfoldable pub check_duplicate_defs :
    Files → Store → Lang → Bytes → Bytes → List Bytes → Bool → Checked
check_duplicate_defs files store lang dir file_path added self_constrained =
    if added =? [] || not (is_go lang) || is_test_file files file_path
    then nothing_checked
    else check_latest
        (λ snap_id self.
          warn_each
            (λ a.
              answered_by
                (λ paths.
                  kept_candidates files self_constrained (files.top_level dir)
                    (duplicate_candidates files (exclude_self paths self) self))
                (store.defs_of_name snap_id a))
            added)
        (open_latest_snapshot files store dir file_path)
