-- ===== src/Contract/Parse/RoundTrip.antt =====
-- A contract written as one glob to a line is read back as it was.
use mathlib.Core.List.{foldl, append_assoc, append-nil}
use runecho.Prelude.{
  suc, ◌<◌, ◌≡◌, refl, sym, ap, ◌∙◌, Bool, false, Bool-cases, none, List, [], ◌∷◌, ◌++◌, map,
  length, All, arith, leb, if◌then◌else◌, inl, inr,
}
use runecho.Order.{nat_ord, list_ord, ◌=?◌}
use runecho.Text.{Bytes, codes, has_prefix, contains_byte, line_feed, scan_lines}
use runecho.Text.Laws.{IsSolid, scan_lines-line, trim_space_solid, cut_absent}
use runecho.Contract.Types.{Pattern, Contract}
use runecho.Contract.Parse.{split_header, add_glob, parse_line, max_line, parse}

-- The line of a pattern.
unfoldable pub pattern_line : Pattern → Bytes
pattern_line p = if p.negated then b'!' ∷ p.glob else p.glob

unfoldable pub render : List Pattern → Bytes
render [] = []
render (p ∷ patterns) = pattern_line p ++ line_feed ∷ render patterns

-- A pattern that its line can stand for: without white space and colon, not empty, not read as a
-- comment, a negation or a path below `./`, and not too long for the scanner.
pub record IsPlain (p : Pattern) : Type 0 where
  pub solid : IsSolid p.glob
  pub no_colon : contains_byte b':' p.glob ≡ false
  pub not_empty : (p.glob =? []) ≡ false
  pub no_comment : has_prefix (codes "#") p.glob ≡ false
  pub no_negation : has_prefix (codes "!") p.glob ≡ false
  pub no_dot : has_prefix (codes "./") p.glob ≡ false
  pub short : suc (length p.glob) < max_line

pattern_line-IsSolid : (p : Pattern) → IsPlain p → IsSolid (pattern_line p)
unfolding pattern_line
pattern_line-IsSolid p h = elim (Bool-cases p.negated) [
  | inl neg ↦ rw neg (refl, h.solid)
  | inr pos ↦ rw pos h.solid
]

add_glob_plain :
    (c : Contract) (p : Pattern)
    → IsPlain p
    → add_glob c (pattern_line p) ≡ record c { patterns = c.patterns ++ p ∷ [] }
unfolding add_glob pattern_line
add_glob_plain c p h = ground (arith, h)

split_header-none : (line : Bytes) → contains_byte b':' line ≡ false → split_header line ≡ none
unfolding split_header
split_header-none line h = rw (cut_absent b':' line h)

parse_line_glob :
    (c : Contract) (line : Bytes)
    → IsSolid line
    → (line =? []) ≡ false
    → has_prefix (codes "#") line ≡ false
    → contains_byte b':' line ≡ false
    → parse_line c line ≡ add_glob c line
unfolding parse_line
parse_line_glob c line solid full comment colon =
    rw (trim_space_solid line solid) (ground (arith, split_header-none line colon))

parse_line_plain :
    (c : Contract) (p : Pattern)
    → IsPlain p
    → parse_line c (pattern_line p) ≡ record c { patterns = c.patterns ++ p ∷ [] }
parse_line_plain c p h =
    parse_line_glob c (pattern_line p) (pattern_line-IsSolid p h)
      (unfold pattern_line in ground (arith, h)) (unfold pattern_line in ground (arith, h))
      (unfold pattern_line in ground (arith, h))
    ∙ add_glob_plain c p h

abbrev with_patterns : Contract → List Pattern → Contract
with_patterns c l = record c { patterns = l }

foldl-parse_line :
    (c : Contract) (patterns : List Pattern)
    → All IsPlain patterns
    → foldl parse_line c (map pattern_line patterns)
      ≡ record c { patterns = c.patterns ++ patterns }
foldl-parse_line c [] h = ap (λ l. with_patterns c l) (sym (append-nil c.patterns))
foldl-parse_line c (p ∷ patterns) (hp, h) =
    ap (λ d. foldl parse_line d (map pattern_line patterns)) (parse_line_plain c p hp)
    ∙ foldl-parse_line (with_patterns c (c.patterns ++ p ∷ [])) patterns h
    ∙ ap (λ l. with_patterns c l) (append_assoc c.patterns (p ∷ []) patterns)

render_cons :
    (p : Pattern) (patterns : List Pattern)
    → render (p ∷ patterns) ≡ pattern_line p ++ line_feed ∷ render patterns
unfolding render
render_cons p patterns = refl

scan_lines-render :
    (patterns : List Pattern)
    → All IsPlain patterns
    → scan_lines max_line (render patterns) ≡ (map pattern_line patterns, false)
scan_lines-render [] h = unfold scan_lines render in refl
scan_lines-render (p ∷ patterns) (hp, h) =
    let rest = render patterns in
    let full : (pattern_line p =? []) ≡ false = unfold pattern_line in ground (arith, hp) in
    let short : leb max_line (length (pattern_line p)) ≡ false =
      unfold pattern_line in ground (arith, hp) in
    ap (scan_lines max_line) (render_cons p patterns)
    ∙ scan_lines-line max_line (pattern_line p) rest (pattern_line-IsSolid p hp) full short
    ∙ ap (λ (x : List Bytes × Bool). (pattern_line p ∷ x.0, x.1)) (scan_lines-render patterns h)

-- Write patterns that are free of white space and colons, that a line can stand for (not empty, not
-- beginning like a comment, a negation or `./`) and that the scanner can hold, one to a line with
-- `!` before a negated glob. Reading that text gives these patterns in that order, the fallback
-- name, no description, and the hash of the text.
pub parse-render :
    (sha256_hex : Bytes → Bytes) (patterns : List Pattern) (from_path name : Bytes)
    → All IsPlain patterns
    → parse sha256_hex (render patterns) from_path name ≡ record {
      name = name;
      description = [];
      patterns = patterns;
      hash = sha256_hex (render patterns);
      path = from_path;
    }
unfolding parse
parse-render sha256_hex patterns from_path name h =
    rw (scan_lines-render patterns h) (foldl-parse_line _ patterns h)
