-- ===== src/Suggest.antt =====
-- internal/guard/suggest.go: `Suggest`, the names that a guard violation offers as "did you mean".
-- A set of known names is the list of its members, in the order in which Go walks the map.
pub mod Distance
pub mod Ranking
mod Tests
use mathlib.Core.List.{filter_map}
use runecho.Prelude.{
  ℕ, ◌-◌, ◌*◌, Bool, true, false, not, ◌||◌, Option, none, some, List, [], ◌∷◌, map, length, take,
  ltb, leb, if◌then◌else◌,
}
use runecho.Order.{nat_ord, list_ord, pair_ord}
use runecho.Sort.{sort_by}
use runecho.Text.{Bytes}
use Distance.{levenshtein_with}

abbrev pub suggest_max_dist : ℕ
suggest_max_dist = 2

abbrev pub suggest_max_candidates : ℕ
suggest_max_candidates = 3

abbrev pub within_floor : ℕ → ℕ → Bool
within_floor dist name_len = leb (2 * dist) name_len

pub record Scored : Type 0 where
  pub name : Bytes
  pub dist : ℕ

-- The order of `sort.Slice`: nearest first, then by name.
abbrev pub rank : Scored → ℕ × Bytes
rank h = (h.dist, h.name)

-- The body of the loop over the known names: `none` is a `continue`.
unfoldable pub score : Bytes → Bytes → Option Scored
score name cand =
    let d =
      if ltb (length cand) (length name)
      then length name - length cand
      else length cand - length name in
    let dist = levenshtein_with name cand suggest_max_dist in
    if ltb suggest_max_dist d
    then none
    else if ltb suggest_max_dist dist || not (within_floor dist (length name))
    then none
    else some (record { name = cand; dist = dist })

unfoldable pub hits_of : Bytes → List Bytes → List Scored
hits_of name known = filter_map (score name) known

-- The list that is returned, and whether there is one.
unfoldable pub offer : List Scored → List Bytes × Bool
offer [] = ([], false)
offer (h ∷ hits) = (map (λ s. s.name) (take suggest_max_candidates (sort_by rank (h ∷ hits))), true)

unfoldable pub suggest : Bytes → List Bytes → List Bytes × Bool
unfolding hits_of offer
suggest name known = offer (hits_of name known)
