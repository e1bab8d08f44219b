-- ===== src/Contract/Parse.antt =====
-- internal/contract/contract.go: `Parse`, `splitHeader` and `Load`. SHA-256 is a parameter, and so
-- is what the file system answers.
pub mod RoundTrip
use mathlib.Core.List.{foldl}
use runecho.Prelude.{
  ℕ, Bool, true, false, not, ◌&&◌, ◌||◌, Option, none, some, List, [], ◌∷◌, ◌++◌, ltb, leb, ◌==◌,
  if◌then◌else◌,
}
use runecho.Order.{nat_ord, list_ord, ◌=?◌}
use runecho.Text.{Bytes, codes, has_prefix, trim_prefix, trim_space, cut, scan_lines}
use runecho.Contract.Types.{Pattern, Contract}
use runecho.Contract.Glob.{is_empty}

-- The key is made of lowercase letters.
abbrev pub is_word : Bytes → Bool
is_word [] = true
is_word (c ∷ k) = leb b'a' c && leb c b'z' && is_word k

-- `i+1 < len(line) && line[i+1] != ' '`
abbrev pub starts_unspaced : Bytes → Bool
starts_unspaced [] = false
starts_unspaced (c ∷ v) = not (c == 32)

abbrev pub header_of : Option (Bytes × Bytes) → Option (Bytes × Bytes)
header_of none = none
header_of (some (k, v)) =
    if is_empty k || not (is_word k) || starts_unspaced v then none else some (k, trim_space v)

unfoldable pub split_header : Bytes → Option (Bytes × Bytes)
split_header line = header_of (cut b':' line)

-- The `switch` over the header's key.
unfoldable pub set_header : Contract → Bytes → Bytes → Contract
set_header c k v =
    if k =? codes "name"
    then (if v =? [] then c else record c { name = v })
    else if k =? codes "description"
    then record c { description = v }
    else c

unfoldable pub add_glob : Contract → Bytes → Contract
add_glob c line =
    let negated = has_prefix (codes "!") line in
    let glob = trim_prefix (codes "./") (trim_prefix (codes "!") line) in
    if glob =? []
    then c
    else record c { patterns = c.patterns ++ record { glob = glob; negated = negated } ∷ [] }

abbrev pub header_or_glob : Contract → Bytes → Option (Bytes × Bytes) → Contract
header_or_glob c line none = add_glob c line
header_or_glob c line (some (k, v)) = set_header c k v

-- One round of the loop over the lines.
unfoldable pub parse_line : Contract → Bytes → Contract
parse_line c text =
    let line = trim_space text in
    if line =? [] || has_prefix (codes "#") line
    then c
    else if is_empty c.patterns
    then header_or_glob c line (split_header line)
    else add_glob c line

-- The limit that `sc.Buffer` sets.
abbrev pub max_line : ℕ
max_line = 1048576

module _ (sha256_hex : Bytes → Bytes) where
  unfoldable pub parse : Bytes → Bytes → Bytes → Contract
  parse src from_path fallback_name =
      foldl parse_line
        (record {
          name = fallback_name;
          description = [];
          patterns = [];
          hash = sha256_hex src;
          path = from_path;
        })
        (scan_lines max_line src).0

-- 64 KiB
abbrev pub max_contract_bytes : ℕ
max_contract_bytes = 65536

pub data LoadError : Type 0 where
  stat_failed : LoadError
  over_cap : ℕ → LoadError
  read_failed : LoadError

pub data Loaded : Type 0 where
  ok : Contract → Loaded
  err : LoadError → Loaded

module _ (sha256_hex : Bytes → Bytes) (base : Bytes → Bytes) where
  abbrev pub load_read : Bytes → Option Bytes → Loaded
  load_read p none = err read_failed
  load_read p (some src) = ok (parse sha256_hex src p (base p))

  -- The size that `os.Stat` reports and the content that `os.ReadFile` returns, if they succeed.
  unfoldable pub load : Option ℕ → Option Bytes → Bytes → Loaded
  load none content p = err stat_failed
  load (some size) content p =
      if ltb max_contract_bytes size then err (over_cap size) else load_read p content
