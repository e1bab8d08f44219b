-- ===== src/Guard/Validate/Tests.antt =====
-- internal/guard/validate.go: runs with small extractors, and the theorems at concrete inputs.

use runecho.Prelude.{
  ◌≡◌, refl, Bool, true, false, not, ◌&&◌, ◌||◌, Option, some, List, [], ◌∷◌, map, keep, any,
}
use runecho.Order.{nat_ord, list_ord}
use runecho.Int.{ℤ, pos}
use runecho.Firsts.{first_of_each}
use runecho.Text.{Bytes, codes, scan_lines}
use runecho.Guard.Types.{AddedLine, FileDiff}
use runecho.Guard.Lang.{is_js_test_file}
use runecho.Guard.Known.{has_name}
use runecho.Guard.Lines.{
  added_lines_with_gap, add_blocks, numbered, text_to_added_lines, added_lines_with_gap_lem,
}
use runecho.Guard.StagedDiff.{new_file}
use runecho.Guard.Validate.{
  Extractors, is_ignore_glob, ignored_names, ignore_globs_of, known_set, add_bound, check_ref,
  check_file, matches_ignore_glob, load_ignore, run,
}
use runecho.Guard.Validate.KnownSet.{bound_names, has_name-known_set}
use runecho.Guard.Validate.Report.{report, same_use, is_unresolved, all_uses, run_lem}

-- Every added line is one reference, and a line that starts with `d` is a definition.
abbrev line_names : List AddedLine → List Bytes
line_names lines = keep (λ l. any (λ k. k) (is_d l ∷ [])) (map (λ (l : AddedLine). l.text) lines)
  where
    is_d : Bytes → Bool
    is_d [] = false
    is_d (c ∷ s) = elim s [ [] ↦ true | d ∷ t ↦ false ]

abbrev toy : Extractors
toy = record {
  extract_defs = λ lang lines. line_names lines;
  extract_imports = λ lang lines. [];
  js_declared_names = λ lines. [];
  py_declared_names = λ lines. [];
  py_param_names = λ lines. [];
  extract_refs = λ lang lines seed.
      map (λ (l : AddedLine). record { name = l.text; line_no = l.line_no }) lines;
  strip_literals_stateful = λ lang text state. (text, text);
}

abbrev never : Bytes → Bytes → Option Bool
never g s = some false

abbrev ignore_file : Bytes → Option Bytes
ignore_file path = some (codes "# names\nTrack\n\nApi*\n")

abbrev changed : List FileDiff
changed =
    record (new_file (codes "a.go")) {
      added_lines = text_to_added_lines (codes "x\nFetch\nTrack\nFetch\nOpen");
    }
    ∷ []

ignored_lines : load_ignore (ignore_file (codes "i")) ≡ codes "Track" ∷ codes "Api*" ∷ []
unfolding load_ignore scan_lines
ignored_lines = refl

spec_file : is_js_test_file (codes "src/__Tests__/a.ts") ≡ true
spec_file = refl

-- `x` is defined in the diff, `Track` is ignored, `Open` is indexed and the second `Fetch` is not
-- reported again.
one_violation :
    map {B = Bytes × ℤ}
      (λ v. (v.symbol, v.line))
      (run never toy ignore_file (codes "Open" ∷ []) (codes "i") changed)
    ≡ (codes "Fetch", pos 2) ∷ []
unfolding run known_set add_bound check_ref check_file matches_ignore_glob load_ignore scan_lines
one_violation = refl

gap_of_one :
    map (λ (l : AddedLine). l.line_no) (added_lines_with_gap (codes "a\nb" ∷ codes "c" ∷ []))
    ≡ pos 1 ∷ pos 2 ∷ pos 4 ∷ []
unfolding added_lines_with_gap add_blocks
gap_of_one = refl

run_lem_example :
    let known = known_set toy (codes "Open" ∷ []) (ignored_names ignore_file (codes "i")) changed in
    run never toy ignore_file (codes "Open" ∷ []) (codes "i") changed
    ≡ map (report known) (
        first_of_each same_use (
          keep
            (is_unresolved never known (ignore_globs_of (ignored_names ignore_file (codes "i"))))
            (all_uses toy ignore_file changed)))
run_lem_example =
    run_lem never toy ignore_file (codes "Open" ∷ []) (codes "i") changed
      ((refl, (refl, (refl, (refl, tt)))), tt)

has_name-known_set_example :
    has_name (codes "x") (known_set toy (codes "Open" ∷ []) (codes "Api*" ∷ []) changed) ≡ (
      has_name (codes "x") (codes "Open" ∷ [])
      || (not (is_ignore_glob (codes "x")) && has_name (codes "x") (codes "Api*" ∷ []))
      || any (λ fd. has_name (codes "x") (bound_names toy fd)) changed)
has_name-known_set_example =
    has_name-known_set toy (codes "x") (codes "Open" ∷ []) (codes "Api*" ∷ []) changed

added_lines_with_gap_lem_example :
    (added_lines_with_gap (codes "a\nb" ∷ codes "c" ∷ [])
      ≡ numbered 0 (codes "a\nb" ∷ codes "c" ∷ []))
    × (added_lines_with_gap (codes "a" ∷ []) ≡ text_to_added_lines (codes "a"))
added_lines_with_gap_lem_example =
    added_lines_with_gap_lem (codes "a\nb" ∷ codes "c" ∷ []) (codes "a")
