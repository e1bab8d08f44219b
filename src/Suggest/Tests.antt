-- ===== src/Suggest/Tests.antt =====
-- internal/guard/suggest.go: runs on small inputs, and the theorems at concrete ones.
use mathlib.Core.List.{filter_map, Mem}
use mathlib.Core.List.Perm
use mathlib.Core.Option.{Option-elim}
use runecho.Prelude.{◌≤◌, ◌<◌, ◌≡◌, ◌↔◌, refl, true, false, List, [], ◌∷◌, map, take}
use runecho.Order.{nat_ord, list_ord, pair_ord}
use runecho.Sort.{sort_by, IsStrict}
use runecho.Text.{Bytes, codes}
use runecho.Suggest.{Scored, rank, score, suggest}
use runecho.Suggest.Distance.{fill_row, rows_from, first_row, levenshtein_with}
use runecho.Suggest.Distance.Lev.{lev, edit_distance, edit_distance-IsEditDistance}
use runecho.Suggest.Distance.Exact.{levenshtein_with_lem}
use runecho.Suggest.Ranking.{IsNear, suggest_ranked, suggest-eq_of_perm}

transposed : levenshtein_with (codes "getUesr") (codes "getUser") 2 ≡ 2
unfolding levenshtein_with rows_from fill_row first_row
transposed = refl

past_the_limit : levenshtein_with (codes "kitten") (codes "sitting") 2 ≡ 3
unfolding levenshtein_with rows_from fill_row first_row
past_the_limit = refl

abbrev known_names : List Bytes
known_names = codes "getUsers" ∷ codes "setUser" ∷ codes "close" ∷ codes "GetUser" ∷ []

abbrev other_order : List Bytes
other_order = codes "setUser" ∷ codes "getUsers" ∷ codes "close" ∷ codes "GetUser" ∷ []

three_hits :
    suggest (codes "getUser") known_names
    ≡ (codes "GetUser" ∷ codes "getUsers" ∷ codes "setUser" ∷ [], true)
unfolding suggest score sort_by levenshtein_with rows_from fill_row first_row filter_map Option-elim
three_hits = refl

no_hit : suggest (codes "abc") (codes "xyc" ∷ []) ≡ ([], false)
unfolding suggest score sort_by levenshtein_with rows_from fill_row first_row filter_map Option-elim
no_hit = refl

-- "cat" and "cart" are one insertion apart.
distance_cat : edit_distance (codes "cat") (codes "cart") ≡ 1
unfolding edit_distance lev
distance_cat = refl

levenshtein_with_lem_example :
    (edit_distance (codes "cat") (codes "cart") ≤ 2
      → levenshtein_with (codes "cat") (codes "cart") 2
        ≡ edit_distance (codes "cat") (codes "cart"))
    × (2 < edit_distance (codes "cat") (codes "cart")
        → 2 < levenshtein_with (codes "cat") (codes "cart") 2)
levenshtein_with_lem_example =
    levenshtein_with_lem (codes "cat") (codes "cart") 2 (edit_distance (codes "cat") (codes "cart"))
      (edit_distance-IsEditDistance (codes "cat") (codes "cart"))

suggest_ranked_example :
    (ranked : List Scored) × IsStrict rank ranked
    × ((h : Scored) → Mem h ranked ↔ (Mem h.name known_names × IsNear (codes "getUser") h))
    × ((suggest (codes "getUser") known_names).0 ≡ map (λ s. s.name) (take 3 ranked))
    × (((suggest (codes "getUser") known_names).1 ≡ false) ↔ (ranked ≡ []))
suggest_ranked_example =
    suggest_ranked (codes "getUser") known_names
      ((refl, (refl, (refl, tt))), ((refl, (refl, tt)), ((refl, tt), (tt, tt))))

suggest-eq_of_perm_example :
    suggest (codes "getUser") known_names ≡ suggest (codes "getUser") other_order
suggest-eq_of_perm_example =
    suggest-eq_of_perm (codes "getUser") known_names other_order
      ((refl, (refl, (refl, tt))), ((refl, (refl, tt)), ((refl, tt), (tt, tt))))
      ((refl, (refl, (refl, tt))), ((refl, (refl, tt)), ((refl, tt), (tt, tt))))
      (Perm.swap (codes "setUser") (codes "getUsers") (codes "close" ∷ codes "GetUser" ∷ []))
