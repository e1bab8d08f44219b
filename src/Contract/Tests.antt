-- ===== src/Contract/Tests.antt =====
-- internal/contract/contract.go: runs on small inputs, and the theorems at concrete ones.

use runecho.Prelude.{
  ◌≡◌, ◌↔◌, ◌⊎◌, refl, Bool, true, false, Option, some, List, [], ◌∷◌, ◌++◌, All, arith,
}
use runecho.Order.{nat_ord, list_ord, ◌=?◌}
use runecho.Text.{Bytes, codes, trim_last, scan_lines}
use runecho.Contract.Types.{Pattern, Contract}
use runecho.Contract.Glob.{some_suffix, match_segments, match_glob}
use runecho.Contract.Glob.Relation.{SegMatches, match_segments_iff, match_glob_plain}
use runecho.Contract.Scope.{has_positive, in_scope_from, in_scope, out_of_scope}
use runecho.Contract.Scope.Laws.{LastIsPositive, in_scope_iff, out_of_scope_negative}
use runecho.Contract.Parse.{
  split_header, set_header, add_glob, parse_line, parse, load, err, over_cap,
}
use runecho.Contract.Parse.RoundTrip.{render, IsPlain, parse-render}

-- A segment matcher with `*` for any segment and literal segments.
abbrev star_match : Bytes → Bytes → Option Bool
star_match g s = some (if_star (g =? codes "*") (g =? s))
  where
    if_star : Bool → Bool → Bool
    if_star true b = true
    if_star false b = b

abbrev no_hash : Bytes → Bytes
no_hash s = []

abbrev guard_tests : List Pattern
guard_tests =
    record { glob = codes "internal/**"; negated = false }
    ∷ record { glob = codes "internal/testdata"; negated = true }
    ∷ []

abbrev scoped : Contract
scoped = record {
  name = codes "c";
  description = [];
  patterns = guard_tests;
  hash = [];
  path = codes ".runecho/contracts/c";
}

abbrev negative : Contract
negative = record scoped { patterns = record { glob = codes "internal/**"; negated = true } ∷ [] }

in_scope_below : in_scope star_match scoped (codes "internal/ir/hasher.go") ≡ true
unfolding in_scope in_scope_from match_glob match_segments some_suffix
in_scope_below = refl

carved_out : in_scope star_match scoped (codes "internal/testdata/x.go") ≡ false
unfolding in_scope in_scope_from match_glob match_segments some_suffix
carved_out = refl

not_the_directory : match_glob star_match (codes "internal/**") (codes "internal") ≡ false
unfolding match_glob match_segments some_suffix
not_the_directory = refl

medial_globstar : match_glob star_match (codes "a/**/c.go") (codes "a/c.go") ≡ true
unfolding match_glob match_segments some_suffix
medial_globstar = refl

read_back :
    (parse no_hash
      (codes "name: scope\n# why\n./internal/**\n!internal/testdata\n")
      []
      (codes "f")).patterns
    ≡ guard_tests
unfolding parse parse_line split_header set_header add_glob scan_lines
read_back = refl

named : (parse no_hash (codes "name: scope\na/**\nname: b\n") [] (codes "f")).name ≡ codes "scope"
unfolding parse parse_line split_header set_header add_glob scan_lines
named = refl

too_big : load no_hash no_hash (some 65537) (some (codes "a\n")) (codes "p") ≡ err (over_cap 65537)
unfolding load
too_big = refl

match_segments_iff_example :
    (match_segments star_match (codes "a" ∷ codes "**" ∷ []) (codes "a" ∷ codes "b" ∷ []) ≡ true)
    ↔ SegMatches star_match (codes "a" ∷ codes "**" ∷ []) (codes "a" ∷ codes "b" ∷ [])
match_segments_iff_example =
    match_segments_iff star_match (codes "a" ∷ codes "**" ∷ []) (codes "a" ∷ codes "b" ∷ [])

match_glob_plain_example : (match_glob star_match (codes "docs/") (codes "docs/a.md") ≡ true) ↔ (
    (codes "docs/a.md" ≡ codes "docs/")
    ⊎ ((below : Bytes) × (codes "docs/a.md"
          ≡ (trim_last b'/' (codes "docs/") ++ b'/' ∷ []) ++ below)))
match_glob_plain_example = match_glob_plain star_match (codes "docs/") (codes "docs/a.md") refl

in_scope_iff_example :
    (in_scope star_match scoped (codes "internal/a.go") ≡ true)
    ↔ LastIsPositive star_match guard_tests (codes "internal/a.go")
in_scope_iff_example = in_scope_iff star_match scoped (codes "internal/a.go")

negative_has_none : has_positive negative ≡ false
unfolding has_positive
negative_has_none = refl

out_of_scope_negative_example :
    ((p : Bytes) → in_scope star_match negative p ≡ false)
    × (out_of_scope star_match negative (codes "internal/a.go" ∷ []) ≡ codes "internal/a.go" ∷ [])
out_of_scope_negative_example =
    out_of_scope_negative star_match negative (codes "internal/a.go" ∷ []) negative_has_none

guard_tests-IsPlain : All IsPlain guard_tests
guard_tests-IsPlain = (
  record {
    solid =
        (refl, (refl, (refl, (refl, (refl, (refl, (refl, (refl, (refl, (refl, (refl, tt)))))))))));
    no_colon = refl;
    not_empty = refl;
    no_comment = refl;
    no_negation = refl;
    no_dot = refl;
    short = omega arith;
  },
  (
    record {
      solid = (
        refl,
        (
          refl,
          (
            refl,
            (
              refl,
              (
                refl,
                (
                  refl,
                  (
                    refl,
                    (
                      refl,
                      (refl, (refl, (refl, (refl, (refl, (refl, (refl, (refl, (refl, tt))))))))),
                    ),
                  ),
                ),
              ),
            ),
          ),
        ),
      );
      no_colon = refl;
      not_empty = refl;
      no_comment = refl;
      no_negation = refl;
      no_dot = refl;
      short = omega arith;
    },
    tt,
  ),
)

parse-render_example : parse no_hash (render guard_tests) (codes "p") (codes "c") ≡ record {
  name = codes "c";
  description = [];
  patterns = guard_tests;
  hash = [];
  path = codes "p";
}
parse-render_example = parse-render no_hash guard_tests (codes "p") (codes "c") guard_tests-IsPlain
