-- ===== src/Text.antt =====
-- Go strings as the lists of their bytes, with the functions of package `strings` that the source
-- calls.
pub mod Laws
use Prim.Native.Char.{code}
use Prim.Native.String.{String}
use mathlib.Core.Option
use runecho.Prelude.{
  ℕ, Bool, true, false, ◌&&◌, ◌||◌, Option, none, some, List, [], ◌∷◌, length, drop, leb, ◌==◌,
  if◌then◌else◌,
}

abbrev pub Bytes : Type 0
Bytes = List ℕ

-- The bytes of an ASCII text.
abbrev pub codes : String → Bytes
codes String.[] = []
codes (String.◌∷◌ c s) = code c ∷ codes s

-- `strings.HasPrefix`
abbrev pub has_prefix : Bytes → Bytes → Bool
has_prefix [] s = true
has_prefix (c ∷ p) [] = false
has_prefix (c ∷ p) (d ∷ s) = c == d && has_prefix p s

-- `strings.TrimPrefix`
abbrev pub trim_prefix : Bytes → Bytes → Bytes
trim_prefix p s = if has_prefix p s then drop (length p) s else s

-- `strings.TrimSuffix` of one byte
abbrev pub trim_last : ℕ → Bytes → Bytes
trim_last c [] = []
trim_last c (d ∷ []) = if d == c then [] else d ∷ []
trim_last c (d ∷ e ∷ s) = d ∷ trim_last c (e ∷ s)

-- `strings.Contains` of one byte, and `strings.ContainsAny`
abbrev pub contains_byte : ℕ → Bytes → Bool
contains_byte c [] = false
contains_byte c (d ∷ s) = d == c || contains_byte c s

abbrev pub contains_any : Bytes → Bytes → Bool
contains_any chars [] = false
contains_any chars (d ∷ s) = contains_byte d chars || contains_any chars s

-- White space of ASCII: tab, line feed, vertical tab, form feed, carriage return, blank.
abbrev pub is_space : ℕ → Bool
is_space c = c == 32 || (leb 9 c && leb c 13)

-- `strings.TrimSpace`, of ASCII white space
abbrev pub trim_left : Bytes → Bytes
trim_left [] = []
trim_left (c ∷ s) = if is_space c then trim_left s else c ∷ s

abbrev pub cons_unless_blank : ℕ → Bytes → Bytes
cons_unless_blank c [] = if is_space c then [] else c ∷ []
cons_unless_blank c (d ∷ s) = c ∷ d ∷ s

abbrev pub trim_right : Bytes → Bytes
trim_right [] = []
trim_right (c ∷ s) = cons_unless_blank c (trim_right s)

abbrev pub trim_space : Bytes → Bytes
trim_space s = trim_right (trim_left s)

-- `strings.Split` by one byte: the first piece, and the pieces after it.
abbrev pub split_more : ℕ → Bytes → Bytes × List Bytes
split_more sep [] = ([], [])
split_more sep (c ∷ s) =
    let more = split_more sep s in if c == sep then ([], more.0 ∷ more.1) else (c ∷ more.0, more.1)

abbrev pub split : ℕ → Bytes → List Bytes
split sep s = let more = split_more sep s in more.0 ∷ more.1

-- `strings.Index` of one byte: what stands before its first occurrence and what stands after it.
abbrev pub cut : ℕ → Bytes → Option (Bytes × Bytes)
cut sep [] = none
cut sep (c ∷ s) =
    if c == sep
    then some ([], s)
    else Option.map (λ (x : Bytes × Bytes). (c ∷ x.0, x.1)) (cut sep s)

-- `bufio.ScanLines`: the text up to a line feed, without a carriage return before it; after the
-- last line feed only a non-empty rest is a line.
abbrev pub line_feed : ℕ
line_feed = 10

abbrev pub drop_cr : Bytes → Bytes
drop_cr s = trim_last 13 s

abbrev pub drop_last_empty : List Bytes → List Bytes
drop_last_empty [] = []
drop_last_empty ([] ∷ []) = []
drop_last_empty (l ∷ ls) = l ∷ drop_last_empty ls

-- The lines of a `bufio.Scanner` whose buffer holds `limit` bytes, and whether it stopped at a line
-- that the buffer does not hold (`bufio.ErrTooLong`).
abbrev pub scan_limited : ℕ → List Bytes → List Bytes × Bool
scan_limited limit [] = ([], false)
scan_limited limit (l ∷ ls) =
    let rest = scan_limited limit ls in
    if leb limit (length l) then ([], true) else (drop_cr l ∷ rest.0, rest.1)

unfoldable pub scan_lines : ℕ → Bytes → List Bytes × Bool
scan_lines limit s = scan_limited limit (drop_last_empty (split line_feed s))
