-- ===== src/Suggest/Distance.antt =====
-- internal/guard/suggest.go: `levenshteinWith` and `min3`. A row of the table is a list; the swap
-- of the two scratch rows is the passing on of the finished row.
pub mod Edits
pub mod Lev
pub mod Exact
use runecho.Prelude.{ℕ, zero, suc, ◌+◌, Bool, List, [], ◌∷◌, length, ltb, ◌==◌, if◌then◌else◌}
use runecho.Text.{Bytes}

abbrev pub min3 : ℕ → ℕ → ℕ → ℕ
min3 a b c = let m = (if ltb b a then b else a) in if ltb c m then c else m

-- `cost`
abbrev pub cost : ℕ → ℕ → ℕ
cost x y = if x == y then 0 else 1

-- `prev[j]` for an index in range
abbrev pub at : List ℕ → ℕ → ℕ
at [] j = 0
at (v ∷ row) zero = v
at (v ∷ row) (suc j) = at row j

-- The inner loop: `prev` is the last row from `prev[j-1]` on, `left` is `curr[j-1]`. It returns
-- `curr[j..]` and `rowMin`. A row has one entry more than the text, so the last clause is not met.
unfoldable pub fill_row : ℕ → Bytes → List ℕ → ℕ → ℕ → List ℕ × ℕ
fill_row x [] prev left row_min = ([], row_min)
fill_row x (y ∷ ys) (diag ∷ up ∷ prev) left row_min =
    let v = min3 (up + 1) (left + 1) (diag + cost x y) in
    let rest = fill_row x ys (up ∷ prev) v (if ltb v row_min then v else row_min) in
    (v ∷ rest.0, rest.1)
fill_row x (y ∷ ys) prev left row_min = ([], row_min)

-- The outer loop over the rest of `a`, with its early exit.
unfoldable pub rows_from : ℕ → Bytes → Bytes → ℕ → List ℕ → ℕ
rows_from i [] b limit prev = at prev (length b)
rows_from i (x ∷ a) b limit prev =
    let filled = fill_row x b prev i i in
    let rest = rows_from (suc i) a b limit (i ∷ filled.0) in
    if ltb limit filled.1 then limit + 1 else rest

-- `prev[j] = j` for `j` up to the length of the text
unfoldable pub first_row : ℕ → Bytes → List ℕ
first_row j [] = j ∷ []
first_row j (y ∷ ys) = j ∷ first_row (suc j) ys

unfoldable pub levenshtein_with : Bytes → Bytes → ℕ → ℕ
levenshtein_with a b limit =
    if length a == 0
    then length b
    else if length b == 0
    then length a
    else rows_from 1 a b limit (first_row 0 b)
