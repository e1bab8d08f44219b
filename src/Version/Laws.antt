-- ===== src/Version/Laws.antt =====
-- The order of the versions, and when the program is rebuilt.
use runecho.Prelude.{
  ℕ, ◌+◌, ◌<◌, ◌≡◌, refl, ap, ◌∙◌, ◌||◌, ltb, ◌==◌, Bool, true, false, not, ◌&&◌, Option, none,
  some, [], ◌∷◌, arith, if◌then◌else◌,
}
use runecho.Order.{nat_ord, list_ord, ◌=?◌, ◌<?◌}
use runecho.Text.{Bytes}
use runecho.Version.{
  Semver, semver, signed, parse_semver, version_lt, both_lt, semver_less, version_behind,
  Surroundings, is_runecho_tree, tag_text, reinstall_from, compare_versions, run_version_check,
}
use runecho.Version.Parts.{Numbers, AreNumbers, value, version_text, parse_semver-version_text}

version_lt_irrefl : (p : Semver) → version_lt p p ≡ false
version_lt_irrefl (semver a b c) = ground arith

version_lt_trans :
    (p q r : Semver) → version_lt p q ≡ true → version_lt q r ≡ true → version_lt p r ≡ true
version_lt_trans (semver a b c) (semver x y z) (semver u v w) h k = ground arith

both_lt_irrefl : (p : Option Semver) → both_lt p p ≡ false
both_lt_irrefl none = refl
both_lt_irrefl (some p) = version_lt_irrefl p

both_lt_trans :
    (p q r : Option Semver) → both_lt p q ≡ true → both_lt q r ≡ true → both_lt p r ≡ true
both_lt_trans none q r h k = cc
both_lt_trans (some p) none r h k = cc
both_lt_trans (some p) (some q) none h k = cc
both_lt_trans (some p) (some q) (some r) h k = version_lt_trans p q r h k

signed_small : (n : ℕ) → n < 9223372036854775808 → signed n ≡ n + 9223372036854775808
signed_small n h = omega arith

signed-lt :
    (a x : ℕ) → a < 9223372036854775808 → x < 9223372036854775808 → (signed a <? signed x) ≡ ltb a x
signed-lt a x ha hx = rw (signed_small a ha, signed_small x hx) (ground arith)

version_lt-small :
    (a b c x y z : ℕ)
    → a < 9223372036854775808
    → b < 9223372036854775808
    → c < 9223372036854775808
    → x < 9223372036854775808
    → y < 9223372036854775808
    → z < 9223372036854775808
    → version_lt (semver a b c) (semver x y z)
      ≡ (ltb a x || (a == x && (ltb b y || (b == y && ltb c z))))
version_lt-small a b c x y z ha hb hc hx hy hz =
    rw (signed-lt a x ha hx, signed-lt b y hb hy, signed-lt c z hc hz) (ground arith)

-- Of two versions of three decimal numbers below 2^63, with a `v` before them or not, the first is
-- less exactly where its major number is less, or the major numbers are the same and its minor one
-- is less, or both are the same and its patch number is less. And `semverLess` is a strict order on
-- all texts: no text is less than itself, it is transitive, and no two texts are less than each
-- other.
pub semver_less_lem :
    (p q : Numbers) (a b c : Bytes)
    → AreNumbers p
    → AreNumbers q
    → (semver_less (version_text p) (version_text q) ≡ (
        ltb (value p.major) (value q.major)
        || (value p.major == value q.major
            && (ltb (value p.minor) (value q.minor)
                || (value p.minor == value q.minor && ltb (value p.patch) (value q.patch))))))
      × (semver_less a a ≡ false)
      × (semver_less a b ≡ true → semver_less b c ≡ true → semver_less a c ≡ true)
      × (semver_less a b ≡ true → semver_less b a ≡ false)
unfolding semver_less
semver_less_lem p q a b c hp hq =
    let x = parse_semver a in
    let y = parse_semver b in
    let z = parse_semver c in
    (
      ap (λ o. both_lt o (parse_semver (version_text q))) (parse_semver-version_text p hp)
          ∙ ap (both_lt (some (semver (value p.major) (value p.minor) (value p.patch))))
              (parse_semver-version_text q hq)
          ∙ version_lt-small (value p.major) (value p.minor) (value p.patch) (value q.major)
              (value q.minor) (value q.patch) hp.0.2 hp.1.2 hp.2.2 hq.0.2 hq.1.2 hq.2.2,
      both_lt_irrefl x,
      both_lt_trans x y z,
      λ h. ground (arith, h, both_lt_irrefl x, both_lt_trans x y x),
    )

-- The versions that are compared.
abbrev pub installed_version : Surroundings → Bytes
installed_version env = env.semver_core env.version

abbrev pub newest_version : Surroundings → Bytes → Bytes
newest_version env top = env.semver_core (tag_text (env.newest_tag top))

abbrev pub is_known {ℓ} : {A : Type ℓ} → Option A → Bool
is_known none = false
is_known (some x) = true

-- Whether all the conditions of a rebuild hold.
abbrev pub is_due : Surroundings → Bool → Bytes → Bool
is_due env reinstall top =
    not env.no_auto_install
    && is_runecho_tree env top
    && not (newest_version env top =? [])
    && version_behind (installed_version env) (newest_version env top)
    && reinstall
    && not env.windows
    && is_known env.own_path

installs-reinstall_from :
    (env : Surroundings) (top newest : Bytes) (self : Option Bytes)
    → (reinstall_from env top newest self).installs ≡ (if is_known self then top ∷ [] else [])
installs-reinstall_from env top newest none = refl
installs-reinstall_from env top newest (some self) = refl

-- Inside of a working tree the install script of that tree is run once where the check is not opted
-- out of, the tree is the one of the program, the installed version is less than the newest tag,
-- the rebuild is asked for, the system is not Windows and the program knows its own path. In all
-- other cases no script is run.
pub run_version_check_installs :
    (env : Surroundings) (reinstall : Bool) (top : Bytes)
    → env.top_level ≡ some top
    → (run_version_check env reinstall).installs
      ≡ (if is_due env reinstall top then top ∷ [] else [])
unfolding run_version_check compare_versions
run_version_check_installs env reinstall top e =
    ground (arith, e, installs-reinstall_from env top (newest_version env top) env.own_path)
