-- ===== src/Guard/Scanner.antt =====
-- internal/guard/extract.go: `stripLiteralsStateful`, which blanks the strings and the comments of a
-- line. The index into the line is the rest of the line from there on; the nested loops inside of a
-- string are one recursion over the rest (Guard/Scanner/Literals).
pub mod Literals
pub mod Fuel
pub mod Whole
pub mod Plain
pub mod Blanking
pub mod Consumed
pub mod Lines
pub mod Blocks
mod Tests
use runecho.Prelude.{
  ℕ, zero, suc, ◌-◌, Bool, true, false, not, ◌&&◌, ◌||◌, List, [], ◌∷◌, ◌++◌, map, reverse, length,
  take, drop, any, leb, ◌==◌, if◌then◌else◌,
}
use runecho.Order.{nat_ord, list_ord, ◌=?◌}
use runecho.Text.{Bytes, codes, has_prefix, trim_space}
use runecho.Guard.Lang.{Lang, lang_go, lang_js, lang_python, lang_unknown, is_python}
use Literals.{
  Stop, closed, ended, still_open, blank, blanks, blank_to, blank_comment, in_triple, in_f_string,
  in_string,
}

abbrev pub is_go_or_js : Lang → Bool
is_go_or_js lang_go = true
is_go_or_js lang_js = true
is_go_or_js lang_python = false
is_go_or_js lang_unknown = false

abbrev pub is_comment_line : Lang → Bytes → Bool
is_comment_line lang_go text = has_prefix (codes "//") (trim_space text)
is_comment_line lang_js text = has_prefix (codes "//") (trim_space text)
is_comment_line lang_python text = has_prefix (codes "#") (trim_space text)
is_comment_line lang_unknown text = false

abbrev pub is_inline_comment_at : Lang → Bytes → Bool
is_inline_comment_at lang_go s = has_prefix (codes "//") s
is_inline_comment_at lang_js s = has_prefix (codes "//") s
is_inline_comment_at lang_python s = has_prefix (codes "#") s
is_inline_comment_at lang_unknown s = false

abbrev pub is_prefix_letter : ℕ → Bool
is_prefix_letter c = any (λ d. c == d) (codes "fFrRbB")

abbrev pub is_word_byte : ℕ → Bool
is_word_byte c =
    c == b'_'
    || (leb b'A' c && leb c b'Z')
    || (leb b'a' c && leb c b'z')
    || (leb b'0' c && leb c b'9')

abbrev pub is_f : ℕ → Bool
is_f c = c == b'f' || c == b'F'

-- The bytes before the quote, the nearest one first.
abbrev pub starts_word : Bytes → Bool
starts_word [] = false
starts_word (c ∷ back) = is_word_byte c

abbrev pub is_f_string_back : Bytes → Bool
is_f_string_back [] = false
is_f_string_back (c ∷ []) = is_f c && is_prefix_letter c
is_f_string_back (c ∷ d ∷ back) =
    if is_prefix_letter c
    then (if is_prefix_letter d
        then not (starts_word back) && (is_f c || is_f d)
        else not (is_word_byte d) && is_f c)
    else false

-- `isFStringPrefix(b, i)` at the rest `s` of the line.
unfoldable pub is_f_string_prefix : Bytes → Bytes → Bool
is_f_string_prefix line s = is_f_string_back (reverse (take (length line - length s) line))

-- What stands at a position of the line: the rest of the line is a comment, or a literal or a block
-- comment begins, with what is written for it, or one byte of code.
pub data Token : Type 0 where
  line_comment : Token
  literal : Bytes → Stop → Token
  code_byte : Token

abbrev pub after_opening : Bytes → Bytes × Stop → Token
after_opening opening (out, stop) = literal (opening ++ out) stop

abbrev pub is_triple : Bytes → Bool
is_triple s = has_prefix (codes "\"\"\"") s || has_prefix (codes "'''") s

abbrev pub is_quote : ℕ → Bool
is_quote c = c == b'"' || c == 39

unfoldable pub token_at : Lang → Bytes → ℕ → Bytes → Token
token_at lang line c s =
    if is_inline_comment_at lang (c ∷ s)
    then line_comment
    else if is_go_or_js lang && has_prefix (codes "/*") (c ∷ s)
    then after_opening (blanks 2) (blank_comment (drop 2 (c ∷ s)))
    else if is_python lang && is_triple (c ∷ s)
    then after_opening (take 3 (c ∷ s))
        (in_triple (take 3 (c ∷ s)) (is_f_string_prefix line (c ∷ s)) 0 (drop 3 (c ∷ s)))
    else if is_go_or_js lang && c == b'`'
    then after_opening (c ∷ []) (blank_to (codes "`") s)
    else if is_quote c
    then (if is_python lang && is_f_string_prefix line (c ∷ s)
        then after_opening (c ∷ []) (in_f_string c 0 s)
        else after_opening (c ∷ []) (in_string c s))
    else code_byte

module _ (lang : Lang) (line : Bytes) where
  -- The loop over the rest of the line. A round uses up a byte at least, so that the length of the
  -- rest is enough fuel.
  unfoldable pub scan_code : ℕ → Bytes → Bytes × Bytes
  scan_code fuel [] = ([], [])
  scan_code zero (c ∷ s) = (c ∷ s, [])
  scan_code (suc fuel) (c ∷ s) = elim (token_at lang line c s) [
    | line_comment ↦ (blanks (length (c ∷ s)), [])
    | literal out (closed rest) ↦ let more = scan_code fuel rest in (out ++ more.0, more.1)
    | literal out ended ↦ (out, [])
    | literal out (still_open delim) ↦ (out, delim)
    | code_byte ↦ let more = scan_code fuel s in (c ∷ more.0, more.1)
  ]

  -- After the end of what was open at the start of the line.
  abbrev pub after_open : Bytes × Stop → Bytes × Bytes
  after_open (out, closed rest) = let more = scan_code (length rest) rest in (out ++ more.0, more.1)
  after_open (out, ended) = (out, [])
  after_open (out, still_open delim) = (out, delim)

unfoldable pub strip_literals_stateful : Lang → Bytes → Bytes → Bytes × Bytes
strip_literals_stateful lang text open_delim =
    if open_delim =? []
    then scan_code lang text (length text) text
    else after_open lang text (blank_to open_delim text)

abbrev pub strip_literals : Lang → Bytes → Bytes
strip_literals lang text = (strip_literals_stateful lang text []).0
