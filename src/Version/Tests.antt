-- ===== src/Version/Tests.antt =====
-- cmd/runecho-ir/versioncheck.go on a few versions and trees.
use runecho.Prelude.{
  ◌≡◌, refl, true, false, ◌&&◌, ◌||◌, ltb, ◌==◌, arith, none, some, [], ◌∷◌, if◌then◌else◌,
}
use runecho.Order.{nat_ord, list_ord}
use runecho.Text.{codes}
use runecho.Version.{
  semver, parse_part, parse_semver, semver_less, Surroundings, is_runecho_tree, reinstalled,
  still_behind, compare_versions, run_version_check,
}
use runecho.Version.Parts.{Numbers, version_text}
use runecho.Version.Laws.{is_due, semver_less_lem, run_version_check_installs}

ten_after_nine : semver_less (codes "v0.9.0") (codes "0.10.0") ≡ true
unfolding semver_less parse_semver parse_part
ten_after_nine = refl

malformed : parse_semver (codes "v1.2") ≡ none
unfolding parse_semver
malformed = refl

wraps : parse_semver (codes "v18446744073709551617.0.7") ≡ some (semver 1 0 7)
unfolding parse_semver parse_part
wraps = refl

abbrev env : Surroundings
env = record {
  no_auto_install = false;
  windows = false;
  top_level = some (codes "/src");
  has_install_script = λ top. true;
  go_mod = λ top. some (codes "module github.com/inth3shadows/runecho\n\ngo 1.24\n");
  semver_core = λ s. s;
  version = codes "v0.9.0";
  newest_tag = λ top. some (codes "v0.10.0");
  own_path = some (codes "/bin/runecho-ir");
  run_install = λ top. true;
  read_stamp = λ path. codes "v0.10.0";
}

rebuilt : (run_version_check env true).report ≡ reinstalled (codes "v0.10.0")
unfolding run_version_check compare_versions is_runecho_tree semver_less parse_semver parse_part
rebuilt = refl

stuck :
    (run_version_check (record env { read_stamp = λ path. codes "v0.9.0" }) true).report
    ≡ still_behind (codes "v0.9.0") (codes "v0.10.0")
unfolding run_version_check compare_versions is_runecho_tree semver_less parse_semver parse_part
stuck = refl

abbrev nine : Numbers
nine = record { v = true; major = codes "0"; minor = codes "9"; patch = codes "0" }

abbrev ten : Numbers
ten = record { v = false; major = codes "0"; minor = codes "10"; patch = codes "0" }

semver_less_lem_example :
    (semver_less (version_text nine) (version_text ten)
      ≡ (ltb 0 0 || (0 == 0 && (ltb 9 10 || (9 == 10 && ltb 0 0)))))
    × (semver_less (codes "v0.9.0") (codes "v0.9.0") ≡ false)
    × (semver_less (codes "v0.9.0") (codes "0.10.0") ≡ true
        → semver_less (codes "0.10.0") (codes "v1.0.0") ≡ true
        → semver_less (codes "v0.9.0") (codes "v1.0.0") ≡ true)
    × (semver_less (codes "v0.9.0") (codes "0.10.0") ≡ true
        → semver_less (codes "0.10.0") (codes "v0.9.0") ≡ false)
semver_less_lem_example =
    semver_less_lem nine ten (codes "v0.9.0") (codes "0.10.0") (codes "v1.0.0")
      (
        (refl, (refl, tt), omega arith),
        (refl, (refl, tt), omega arith),
        (refl, (refl, tt), omega arith),
      )
      (
        (refl, (refl, tt), omega arith),
        (refl, (refl, (refl, tt)), omega arith),
        (refl, (refl, tt), omega arith),
      )

run_version_check_installs_example :
    (run_version_check env true).installs
    ≡ (if is_due env true (codes "/src") then codes "/src" ∷ [] else [])
run_version_check_installs_example = run_version_check_installs env true (codes "/src") refl
