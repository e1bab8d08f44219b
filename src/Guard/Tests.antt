-- ===== src/Guard/Tests.antt =====
-- internal/guard/diff.go: runs on small diffs, and the theorem at a concrete one.
use runecho.Prelude.{◌≡◌, refl, false, Option, none, [], ◌∷◌, ◌++◌, map}
use runecho.Int.{pos, negsuc}
use runecho.Text.{Bytes, codes, scan_lines}
use runecho.Guard.StagedDiff.{
  first_start, parse_hunk_start, start, new_file, parse_diff_new_path, parse_step, parse_lines,
  parse_diff_output,
}
use runecho.Guard.StagedDiff.RoundTrip.{
  Section, added, removed, context, diff_text, file_of, parse_lines-diff_text,
}

abbrev no_quotes : Bytes → Option Bytes
no_quotes s = none

hunk_start_of_new_file : parse_hunk_start (codes "@@ -3,2 +17,4 @@ func f()") ≡ pos 17
unfolding parse_hunk_start first_start
hunk_start_of_new_file = refl

hunk_start_without_plus : parse_hunk_start (codes "@@ -3,2 @@") ≡ pos 1
unfolding parse_hunk_start first_start
hunk_start_without_plus = refl

deleted_file : parse_diff_new_path no_quotes (codes "+++ /dev/null") ≡ none
unfolding parse_diff_new_path
deleted_file = refl

-- An added line that starts with two plus signs is no header inside of a hunk.
added_pluses :
    parse_diff_output no_quotes
      (codes "diff --git a/x b/x\n--- a/x\n+++ b/x\n@@ -1 +5,2 @@\n-old\n+++ y\n+new\n")
    ≡ (
      record (new_file (codes "x")) {
        added_lines =
            record { line_no = pos 5; text = codes "++ y" }
            ∷ record { line_no = pos 6; text = codes "new" }
            ∷ [];
      }
          ∷ [],
      false,
    )
unfolding parse_diff_output parse_diff_new_path parse_step parse_hunk_start first_start scan_lines
added_pluses = refl

wrapped_number :
    (parse_diff_output no_quotes
      (codes "diff --git a/x b/x\n+++ b/x\n@@ -1 +9223372036854775807,2 @@\n+a\n+b\n")).0
    ≡ record (new_file (codes "x")) {
      added_lines =
          record { line_no = pos 9223372036854775807; text = codes "a" }
          ∷ record { line_no = negsuc 9223372036854775807; text = codes "b" }
          ∷ [];
    }
      ∷ []
unfolding parse_diff_output parse_diff_new_path parse_step parse_hunk_start first_start scan_lines
wrapped_number = refl

abbrev two_hunks : Section
two_hunks = record {
  git_header = codes "a/a.go b/a.go";
  headers = codes "index 1..2 100644" ∷ codes "--- a/a.go" ∷ [];
  new_path = codes "a.go";
  hunks =
      record {
        header = codes "-1,2 +1,2 @@";
        body = context (codes "package a") ∷ added (codes "++ x") ∷ removed (codes "-- x") ∷ [];
      }
      ∷ record { header = codes "-9 +9 @@"; body = added (codes "diff --git ") ∷ [] }
      ∷ [];
}

parse_lines-diff_text_example :
    (parse_lines no_quotes start (diff_text (two_hunks ∷ []))).result
    ≡ [] ++ map file_of (two_hunks ∷ [])
parse_lines-diff_text_example =
    parse_lines-diff_text no_quotes start (two_hunks ∷ [])
      (((refl, refl, refl), ((refl, refl, refl), tt)), tt)
