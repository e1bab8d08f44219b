-- ===== src/Version.antt =====
-- cmd/runecho-ir/versioncheck.go: whether the installed program is behind the newest tag, and what is
-- done about it. The regular expression that finds a version in a text, git, the files and the
-- processes are fields of a record.
pub mod Laws
pub mod Parts
mod Tests
use mathlib.Core.List.{foldl}
use runecho.Prelude.{
  ℕ, ◌+◌, ◌-◌, ◌*◌, ◌%◌, Bool, true, false, not, ◌&&◌, ◌||◌, Option, none, some, List, [], ◌∷◌, any,
  leb, if◌then◌else◌,
}
use runecho.Order.{nat_ord, list_ord, ◌=?◌, ◌<?◌}
use runecho.Int.{ℤ, pos, negsuc}
use runecho.Text.{Bytes, codes, trim_prefix, trim_space, split, line_feed}

-- An `int` is given by its 64 bits; `signed` puts them in the order of the integers.
abbrev pub word : ℕ
word = 18446744073709551616

abbrev pub signed : ℕ → ℕ
signed n = (n + 9223372036854775808) % word

-- `n = n*10 + int(r-'0')`, which wraps around.
abbrev pub add_digit : Option ℕ → ℕ → Option ℕ
add_digit none c = none
add_digit (some n) c =
    if leb b'0' c && leb c b'9' then some ((n * 10 + (c - b'0')) % word) else none

-- One part of a version.
unfoldable pub parse_part : Bytes → Option ℕ
parse_part p = if p =? [] then none else foldl add_digit (some 0) p

pub data Semver : Type 0 where
  semver : ℕ → ℕ → ℕ → Semver

abbrev pub semver_of : Option ℕ → Option ℕ → Option ℕ → Option Semver
semver_of (some a) (some b) (some c) = some (semver a b c)
semver_of none b c = none
semver_of (some a) none c = none
semver_of (some a) (some b) none = none

abbrev pub parse_parts : List Bytes → Option Semver
parse_parts [] = none
parse_parts (a ∷ []) = none
parse_parts (a ∷ b ∷ []) = none
parse_parts (a ∷ b ∷ c ∷ []) = semver_of (parse_part a) (parse_part b) (parse_part c)
parse_parts (a ∷ b ∷ c ∷ d ∷ parts) = none

unfoldable pub parse_semver : Bytes → Option Semver
parse_semver s = parse_parts (split b'.' (trim_prefix (codes "v") s))

-- The loop over the three parts.
abbrev pub version_lt : Semver → Semver → Bool
version_lt (semver a b c) (semver x y z) =
    if not (a =? x)
    then signed a <? signed x
    else if not (b =? y)
    then signed b <? signed y
    else if not (c =? z)
    then signed c <? signed z
    else false

abbrev pub both_lt : Option Semver → Option Semver → Bool
both_lt none q = false
both_lt (some p) none = false
both_lt (some p) (some q) = version_lt p q

unfoldable pub semver_less : Bytes → Bytes → Bool
semver_less a b = both_lt (parse_semver a) (parse_semver b)

abbrev pub version_behind : Bytes → Bytes → Bool
version_behind installed newest = semver_less installed newest

abbrev pub runecho_module_line : Bytes
runecho_module_line = codes "module github.com/inth3shadows/runecho"

abbrev pub has_module_line : Option Bytes → Bool
has_module_line none = false
has_module_line (some data_) =
    any (λ line. trim_space line =? runecho_module_line) (split line_feed data_)

-- What the check asks of its surroundings. An answer `none` is an error.
pub record Surroundings : Type 0 where
  pub no_auto_install : Bool
  pub windows : Bool
  pub top_level : Option Bytes
  pub has_install_script : Bytes → Bool
  pub go_mod : Bytes → Option Bytes
  pub semver_core : Bytes → Bytes
  pub version : Bytes
  pub newest_tag : Bytes → Option Bytes
  pub own_path : Option Bytes
  -- Whether the run of the script succeeds, and the version of the program after it.
  pub run_install : Bytes → Bool
  pub read_stamp : Bytes → Bytes

unfoldable pub is_runecho_tree : Surroundings → Bytes → Bool
is_runecho_tree env top =
    if env.has_install_script top then has_module_line (env.go_mod top) else false

-- What the check comes to. Every one of them exits with 0.
pub data Report : Type 0 where
  opted_out : Report
  no_tree : Report
  other_tree : Bytes → Report
  no_tag : Report
  up_to_date : Bytes → Bytes → Report
  behind : Bytes → Bytes → Report
  behind_on_windows : Bytes → Bytes → Report
  no_own_path : Report
  install_failed : Bytes → Report
  still_behind : Bytes → Bytes → Report
  reinstalled : Bytes → Report

-- The scripts that were run, and the report.
pub record Checked : Type 0 where
  pub installs : List Bytes
  pub report : Report

abbrev pub only_report : Report → Checked
only_report r = record { installs = []; report = r }

abbrev pub tag_text : Option Bytes → Bytes
tag_text none = []
tag_text (some t) = t

abbrev pub after_install : Bytes → Bytes → Report
after_install now newest =
    if version_behind now newest || now =? [] then still_behind now newest else reinstalled now

abbrev pub reinstall_from : Surroundings → Bytes → Bytes → Option Bytes → Checked
reinstall_from env top newest none = only_report no_own_path
reinstall_from env top newest (some self) = record {
  installs = top ∷ [];
  report =
      if env.run_install top
      then after_install (env.read_stamp self) newest
      else install_failed top;
}

unfoldable pub compare_versions : Surroundings → Bool → Bytes → Bytes → Bytes → Checked
compare_versions env reinstall top installed newest =
    if newest =? []
    then only_report no_tag
    else if not (version_behind installed newest)
    then only_report (up_to_date installed newest)
    else if not reinstall
    then only_report (behind installed newest)
    else if env.windows
    then only_report (behind_on_windows installed newest)
    else reinstall_from env top newest env.own_path

abbrev pub check_tree : Surroundings → Bool → Option Bytes → Checked
check_tree env reinstall none = only_report no_tree
check_tree env reinstall (some top) =
    if not (is_runecho_tree env top)
    then only_report (other_tree top)
    else compare_versions env reinstall top (env.semver_core env.version)
        (env.semver_core (tag_text (env.newest_tag top)))

-- The flags have been read; `--quiet` leaves out a part of what is printed.
unfoldable pub run_version_check : Surroundings → Bool → Checked
run_version_check env reinstall =
    if env.no_auto_install then only_report opted_out else check_tree env reinstall env.top_level
