-- ===== src/Guard/StagedDiff.antt =====
-- internal/guard/diff.go: `parseDiffOutput`, which reads the added lines out of a unified diff.
-- `strconv.Unquote` is a parameter; `filepath.ToSlash` changes nothing where the separator is `/`.
pub mod RoundTrip
use mathlib.Core.List.{foldl}
use runecho.Prelude.{
  ℕ, zero, suc, ◌+◌, ◌-◌, ◌*◌, Bool, true, false, not, ◌&&◌, ◌||◌, Option, none, some, List, [],
  ◌∷◌, ◌++◌, length, any, drop, ltb, leb, ◌==◌, if◌then◌else◌,
}
use runecho.Order.{nat_ord, list_ord, ◌=?◌}
use runecho.Text.{Bytes, codes, has_prefix, trim_prefix, is_space, cut, scan_lines}
use runecho.Int.{ℤ, pos, negsuc, next_int}
use runecho.Guard.Types.{AddedLine, FileDiff}

abbrev pub is_digit : ℕ → Bool
is_digit c = leb b'0' c && leb c b'9'

-- The value of a text of digits, read on from `n`.
abbrev pub digits_from : ℕ → Bytes → Option ℕ
digits_from n [] = some n
digits_from n (c ∷ s) = if is_digit c then digits_from (10 * n + (c - b'0')) s else none

abbrev pub unsigned : Bytes → Option ℕ
unsigned [] = none
unsigned (c ∷ s) = digits_from 0 (c ∷ s)

-- 2^63
abbrev pub int_mod : ℕ
int_mod = 9223372036854775808

abbrev pub in_int : Option ℕ → Option ℤ
in_int none = none
in_int (some n) = if ltb n int_mod then some (pos n) else none

abbrev pub negated_int : Option ℕ → Option ℤ
negated_int none = none
negated_int (some zero) = some (pos 0)
negated_int (some (suc n)) = if ltb n int_mod then some (negsuc n) else none

-- `strconv.Atoi` on a 64-bit machine; `none` is an error.
abbrev pub atoi : Bytes → Option ℤ
atoi [] = none
atoi (c ∷ s) =
    if c == b'-'
    then negated_int (unsigned s)
    else if c == b'+'
    then in_int (unsigned s)
    else in_int (unsigned (c ∷ s))

-- `strings.Fields`: the maximal runs without white space. The first is the run that is open.
abbrev pub add_field : Bytes → List Bytes → List Bytes
add_field [] fs = fs
add_field (c ∷ f) fs = (c ∷ f) ∷ fs

abbrev pub fields_more : Bytes → Bytes × List Bytes
fields_more [] = ([], [])
fields_more (c ∷ s) =
    let more = fields_more s in
    if is_space c then ([], add_field more.0 more.1) else (c ∷ more.0, more.1)

abbrev pub fields : Bytes → List Bytes
fields s = let more = fields_more s in add_field more.0 more.1

-- `seg, _, _ = strings.Cut(seg, ",")`
abbrev pub before_comma : Bytes → Bytes
before_comma s = elim (cut b',' s) [ none ↦ s | some (seg, rest) ↦ seg ]

abbrev pub start_of : Bytes → Option ℤ
start_of p =
    if has_prefix (codes "+") p && not (p =? codes "+@@")
    then atoi (before_comma (drop 1 p))
    else none

-- The loop over the fields: the first number after a plus sign, or 1.
unfoldable pub first_start : List Bytes → ℤ
first_start [] = pos 1
first_start (p ∷ parts) = elim (start_of p) [ some n ↦ n | none ↦ first_start parts ]

unfoldable pub parse_hunk_start : Bytes → ℤ
unfolding first_start
parse_hunk_start line = first_start (fields line)

-- The variables of the loop. `attached` says that `cur` points to the last entry of `result`, and
-- not to nothing.
pub record Parser : Type 0 where
  pub result : List FileDiff
  pub attached : Bool
  pub new_line_no : ℤ
  pub in_hunk : Bool

abbrev pub start : Parser
start = record { result = []; attached = false; new_line_no = pos 0; in_hunk = false }

-- `cur.AddedLines = append(cur.AddedLines, l)`
abbrev pub add_to_last : AddedLine → List FileDiff → List FileDiff
add_to_last l [] = []
add_to_last l (fd ∷ []) = record fd { added_lines = fd.added_lines ++ l ∷ [] } ∷ []
add_to_last l (fd ∷ e ∷ fds) = fd ∷ add_to_last l (e ∷ fds)

-- `FileDiff{Path: path}`
abbrev pub new_file : Bytes → FileDiff
new_file path = record { path = path; added_lines = []; abs_path = []; seed_by_line = [] }

-- The prefixes of the header lines that are passed over.
abbrev pub header_words : List Bytes
header_words =
    codes "--- "
    ∷ codes "index "
    ∷ codes "new file"
    ∷ codes "deleted file"
    ∷ codes "similarity"
    ∷ codes "rename"
    ∷ codes "Binary"
    ∷ []

abbrev pub is_header : Bytes → Bool
is_header line = any (λ w. has_prefix w line) header_words

module _ (unquote : Bytes → Option Bytes) where
  abbrev pub or_raw : Bytes → Option Bytes → Bytes
  or_raw rest none = rest
  or_raw rest (some unq) = unq

  -- `none` is `ok == false`.
  unfoldable pub parse_diff_new_path : Bytes → Option Bytes
  parse_diff_new_path line =
      let raw = trim_prefix (codes "+++ ") line in
      let rest = if has_prefix (codes "\"") raw then or_raw raw (unquote raw) else raw in
      if rest =? codes "/dev/null"
      then none
      else if has_prefix (codes "b/") rest
      then some (trim_prefix (codes "b/") rest)
      else none

  abbrev pub open_file : Parser → Option Bytes → Parser
  open_file p none = record p { attached = false }
  open_file p (some path) = record p {
    result = p.result ++ new_file path ∷ [];
    attached = true;
    new_line_no = pos 0;
  }

  abbrev pub open_hunk : Parser → Bytes → Parser
  open_hunk p line =
      if p.attached
      then record p { in_hunk = true; new_line_no = parse_hunk_start line }
      else record p { in_hunk = true }

  -- A line of an attached file that is no header.
  abbrev pub content_line : Parser → Bytes → Parser
  content_line p line =
      if has_prefix (codes "+") line && (p.in_hunk || not (has_prefix (codes "+++") line))
      then record p {
        result = add_to_last (record { line_no = p.new_line_no; text = drop 1 line }) p.result;
        new_line_no = next_int p.new_line_no;
      }
      else if has_prefix (codes " ") line
      then record p { new_line_no = next_int p.new_line_no }
      else p

  -- One round of the loop over the lines.
  unfoldable pub parse_step : Parser → Bytes → Parser
  parse_step p line =
      if has_prefix (codes "diff --git ") line
      then record p { in_hunk = false }
      else if not p.in_hunk && has_prefix (codes "+++ ") line
      then open_file p (parse_diff_new_path line)
      else if is_header line
      then p
      else if has_prefix (codes "@@ ") line
      then open_hunk p line
      else if not p.attached
      then p
      else content_line p line

  abbrev pub parse_lines : Parser → List Bytes → Parser
  parse_lines p lines = foldl parse_step p lines

  -- 4 MiB
  abbrev pub max_diff_line : ℕ
  max_diff_line = 4194304

  -- The diffs, and whether a line was too long to go on. A scanner over a text has no other error.
  unfoldable pub parse_diff_output : Bytes → List FileDiff × Bool
  parse_diff_output raw =
      let scanned = scan_lines max_diff_line raw in
      ((parse_lines start scanned.0).result, scanned.1)
