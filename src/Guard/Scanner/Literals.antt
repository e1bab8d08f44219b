-- ===== src/Guard/Scanner/Literals.antt =====
-- internal/guard/extract.go: the loops of `stripLiteralsStateful` inside of a string or a comment.
-- Each gives what is written for the bytes that it passes, and where it stops.
use runecho.Prelude.{
  ℕ, zero, suc, Bool, true, false, ◌&&◌, ◌||◌, [], ◌∷◌, ◌++◌, length, take, drop, ◌==◌,
}
use runecho.Text.{Bytes, codes, has_prefix}

-- `closed` has the rest of the line; `ended` is the end of the line with nothing left open.
pub data Stop : Type 0 where
  closed : Bytes → Stop
  ended : Stop
  still_open : Bytes → Stop

abbrev pub blank : ℕ
blank = 32

abbrev pub blanks : ℕ → Bytes
blanks zero = []
blanks (suc n) = blank ∷ blanks n

abbrev pub put_before : Bytes → Bytes × Stop → Bytes × Stop
put_before out (more, stop) = (out ++ more, stop)

-- Up to and past a delimiter, which is left as it is: a string that goes on from an earlier line, a
-- template literal or a raw string.
unfoldable pub blank_to : Bytes → Bytes → Bytes × Stop
blank_to delim [] = ([], still_open delim)
blank_to delim (c ∷ s) = elim (has_prefix delim (c ∷ s)) [
  | true ↦ (take (length delim) (c ∷ s), closed (drop (length delim) (c ∷ s)))
  | false ↦ put_before (blank ∷ []) (blank_to delim s)
]

-- A block comment after its `/*`.
unfoldable pub blank_comment : Bytes → Bytes × Stop
blank_comment [] = ([], still_open (codes "*/"))
blank_comment (c ∷ s) = elim (has_prefix (codes "*/") (c ∷ s)) [
  | true ↦ (blanks 2, closed (drop 2 (c ∷ s)))
  | false ↦ put_before (blank ∷ []) (blank_comment s)
]

abbrev pub is_escaped_brace : ℕ → ℕ → Bool
is_escaped_brace c d = (c == b'{' && d == b'{') || (c == b'}' && d == b'}')

-- What a byte inside of braces does to their depth, which is not 0.
abbrev pub next_depth : ℕ → ℕ → ℕ
next_depth depth c = elim (c == b'{') [
  | true ↦ suc (suc depth)
  | false ↦ elim (c == b'}') [ true ↦ depth | false ↦ suc depth ]
]

-- A triple-quoted string. `depth` counts the braces that are open in an f-string, whose bytes are
-- left as they are; at depth 0 the text is literal.
unfoldable pub in_triple : Bytes → Bool → ℕ → Bytes → Bytes × Stop
in_triple delim fstr depth [] = ([], still_open delim)
in_triple delim fstr zero (c ∷ []) = elim (fstr && c == b'{') [
  | true ↦ (c ∷ [], still_open delim)
  | false ↦ (blank ∷ [], still_open delim)
]
in_triple delim fstr zero (c ∷ d ∷ s) = elim (has_prefix delim (c ∷ d ∷ s)) [
  | true ↦ (take 3 (c ∷ d ∷ s), closed (drop 3 (c ∷ d ∷ s)))
  | false ↦ elim (fstr && is_escaped_brace c d) [
    | true ↦ put_before (blanks 2) (in_triple delim fstr zero s)
    | false ↦ elim (fstr && c == b'{') [
      | true ↦ put_before (c ∷ []) (in_triple delim fstr 1 (d ∷ s))
      | false ↦ put_before (blank ∷ []) (in_triple delim fstr zero (d ∷ s))
    ]
  ]
]
in_triple delim fstr (suc depth) (c ∷ s) = elim (has_prefix delim (c ∷ s)) [
  | true ↦ (take 3 (c ∷ s), closed (drop 3 (c ∷ s)))
  | false ↦ put_before (c ∷ []) (in_triple delim fstr (next_depth depth c) s)
]

-- An f-string between single or double quotes.
unfoldable pub in_f_string : ℕ → ℕ → Bytes → Bytes × Stop
in_f_string quote zero [] = ([], ended)
in_f_string quote (suc depth) [] = ([], still_open (quote ∷ []))
in_f_string quote zero (c ∷ []) = elim (c == quote) [
  | true ↦ (c ∷ [], closed [])
  | false ↦ elim (c == b'{') [
    | true ↦ (c ∷ [], still_open (quote ∷ []))
    | false ↦ (blank ∷ [], ended)
  ]
]
in_f_string quote zero (c ∷ d ∷ s) = elim (c == quote) [
  | true ↦ (c ∷ [], closed (d ∷ s))
  | false ↦ elim (c == 92 || is_escaped_brace c d) [
    | true ↦ put_before (blanks 2) (in_f_string quote zero s)
    | false ↦ elim (c == b'{') [
      | true ↦ put_before (c ∷ []) (in_f_string quote 1 (d ∷ s))
      | false ↦ put_before (blank ∷ []) (in_f_string quote zero (d ∷ s))
    ]
  ]
]
in_f_string quote (suc depth) (c ∷ s) = elim (c == quote) [
  | true ↦ (c ∷ [], closed s)
  | false ↦ put_before (c ∷ []) (in_f_string quote (next_depth depth c) s)
]

-- Any other string between quotes.
unfoldable pub in_string : ℕ → Bytes → Bytes × Stop
in_string quote [] = ([], ended)
in_string quote (c ∷ []) = elim (c == quote) [
  | true ↦ (c ∷ [], closed [])
  | false ↦ (blank ∷ [], ended)
]
in_string quote (c ∷ d ∷ s) = elim (c == quote) [
  | true ↦ (c ∷ [], closed (d ∷ s))
  | false ↦ elim (c == 92) [
    | true ↦ put_before (blanks 2) (in_string quote s)
    | false ↦ put_before (blank ∷ []) (in_string quote (d ∷ s))
  ]
]
