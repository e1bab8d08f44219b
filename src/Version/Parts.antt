-- ===== src/Version/Parts.antt =====
-- cmd/runecho-ir/versioncheck.go: `parseSemver` on texts of three decimal numbers.
use mathlib.Core.List.{foldl}
use runecho.Prelude.{
  ℕ, ◌+◌, ◌-◌, ◌*◌, ◌≤◌, ◌<◌, ◌%◌, ◌≡◌, refl, ap, ◌∙◌, Bool, true, false, ◌&&◌, some, List, [], ◌∷◌,
  ◌++◌, All, leb, arith, ◌==◌, ==_iff, if◌then◌else◌,
}
use runecho.Order.{nat_ord, list_ord, ◌=?◌}
use runecho.Text.{Bytes, codes, trim_prefix, split}
use runecho.Version.{semver, add_digit, parse_part, parse_parts, parse_semver}

-- The decimal value of a text, read on from `n`.
abbrev pub value_from : ℕ → Bytes → ℕ
value_from n [] = n
value_from n (c ∷ s) = value_from (n * 10 + (c - b'0')) s

abbrev pub value : Bytes → ℕ
value s = value_from 0 s

abbrev pub is_digit : ℕ → Bool
is_digit c = leb b'0' c && leb c b'9'

-- A decimal number below 2^63.
abbrev pub IsNumber : Bytes → Type 0
IsNumber s = ((s =? []) ≡ false) × All (λ c. is_digit c ≡ true) s × (value s < 9223372036854775808)

-- Three texts, and whether a `v` stands before them.
pub record Numbers : Type 0 where
  pub v : Bool
  pub major : Bytes
  pub minor : Bytes
  pub patch : Bytes

abbrev pub version_text : Numbers → Bytes
version_text n =
    let core = n.major ++ b'.' ∷ (n.minor ++ b'.' ∷ n.patch) in if n.v then b'v' ∷ core else core

abbrev pub AreNumbers : Numbers → Type 0
AreNumbers n = IsNumber n.major × IsNumber n.minor × IsNumber n.patch

value_grows : (n : ℕ) (s : Bytes) → n ≤ value_from n s
value_grows n [] = omega arith
value_grows n (c ∷ s) = let grown = value_grows (n * 10 + (c - b'0')) s in omega arith

foldl-add_digit :
    (n : ℕ) (s : Bytes)
    → All (λ c. is_digit c ≡ true) s
    → value_from n s < 9223372036854775808
    → foldl add_digit (some n) s ≡ some (value_from n s)
foldl-add_digit n [] h small = refl
foldl-add_digit n (c ∷ s) (hc, h) small =
    let m = n * 10 + (c - b'0') in
    let grown = value_grows m s in
    let bounded : m < 18446744073709551616 = omega arith in
    let fits : m % 18446744073709551616 ≡ m = omega arith in
    let step : add_digit (some n) c ≡ some m = rw (hc, fits) refl in
    ap (λ o. foldl add_digit o s) step ∙ foldl-add_digit m s h small

parse_part-number : (s : Bytes) → IsNumber s → parse_part s ≡ some (value s)
unfolding parse_part
parse_part-number s (full, digits, small) = rw full (foldl-add_digit 0 s digits small)

-- One more byte in the first part.
abbrev push : ℕ → List Bytes → List Bytes
push c [] = []
push c (x ∷ xs) = (c ∷ x) ∷ xs

split-part :
    (sep : ℕ) (p s : Bytes)
    → All (λ c. (c == sep) ≡ false) p
    → split sep (p ++ sep ∷ s) ≡ p ∷ split sep s
split-part sep [] s h = ground (arith, ==_iff sep sep)
split-part sep (c ∷ p) s (hc, h) = rw hc (ap (push c) (split-part sep p s h))

split-last : (sep : ℕ) (p : Bytes) → All (λ c. (c == sep) ≡ false) p → split sep p ≡ p ∷ []
split-last sep [] h = refl
split-last sep (c ∷ p) (hc, h) = rw hc (ap (push c) (split-last sep p h))

no_dot : (s : Bytes) → All (λ c. is_digit c ≡ true) s → All (λ c. (c == b'.') ≡ false) s
no_dot [] h = tt
no_dot (c ∷ s) (hc, h) = (ground (arith, hc), no_dot s h)

-- The text without its `v`.
trim-version_text :
    (v : Bool) (major rest : Bytes)
    → IsNumber major
    → trim_prefix (codes "v") (if v then b'v' ∷ (major ++ rest) else major ++ rest) ≡ major ++ rest
trim-version_text true major rest h = refl
trim-version_text false [] rest (full, h, small) = cc
trim-version_text false (c ∷ m) rest (full, (hc, h), small) =
    let other : (b'v' == c) ≡ false = ground (arith, hc) in rw other refl

pub parse_semver-version_text :
    (n : Numbers)
    → AreNumbers n
    → parse_semver (version_text n) ≡ some (semver (value n.major) (value n.minor) (value n.patch))
unfolding parse_semver
parse_semver-version_text n (a, b, c) =
    let rest = n.minor ++ b'.' ∷ n.patch in
    ap (λ s. parse_parts (split b'.' s)) (trim-version_text n.v n.major (b'.' ∷ rest) a)
    ∙ ap parse_parts (
        split-part b'.' n.major rest (no_dot n.major a.1)
        ∙ ap (◌∷◌ n.major) (
            split-part b'.' n.minor n.patch (no_dot n.minor b.1)
            ∙ ap (◌∷◌ n.minor) (split-last b'.' n.patch (no_dot n.patch c.1))))
    ∙ rw (parse_part-number n.major a, parse_part-number n.minor b, parse_part-number n.patch c)
        refl
