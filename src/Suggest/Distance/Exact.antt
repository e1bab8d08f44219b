-- ===== src/Suggest/Distance/Exact.antt =====
-- `levenshteinWith` against the edit distance: the table holds `lev` of the prefixes, and the early
-- exit is taken only where the distance is past the limit.
use runecho.Prelude.{
  ℕ, suc, ◌+◌, ◌≤◌, ◌<◌, ◌≡◌, refl, sym, ap, ap₂, subst, ◌∙◌, ◌⊎◌, inl, inr, Bool-cases, List, [],
  ◌∷◌, arith, length, ltb, if◌then◌else◌, All, ltb→lt,
}
use runecho.Text.{Bytes}
use runecho.Suggest.Distance.{min3, cost, at, fill_row, rows_from, first_row, levenshtein_with}
use runecho.Suggest.Distance.Edits.{IsEditDistance, onto}
use runecho.Suggest.Distance.Lev.{
  lev, lev-nil_right, edit_distance, edit_distance-IsEditDistance, IsEditDistance-unique,
}

-- The row of the table after the reversed prefix `ra`, from the reversed prefix `rb` on.
table_row : Bytes → Bytes → Bytes → List ℕ
table_row ra rb [] = lev ra rb ∷ []
table_row ra rb (y ∷ ys) = lev ra rb ∷ table_row ra (y ∷ rb) ys

-- What follows the first entry.
row_rest : Bytes → Bytes → Bytes → List ℕ
row_rest ra rb [] = []
row_rest ra rb (y ∷ ys) = table_row ra (y ∷ rb) ys

table_row_cons : (ra rb ys : Bytes) → table_row ra rb ys ≡ lev ra rb ∷ row_rest ra rb ys
unfolding table_row row_rest
table_row_cons ra rb [] = refl
table_row_cons ra rb (y ∷ ys) = refl

fill_row-table_row :
    (x : ℕ) (ra rb ys : Bytes) (m : ℕ)
    → (fill_row x ys (table_row ra rb ys) (lev (x ∷ ra) rb) m).0 ≡ row_rest (x ∷ ra) rb ys
unfolding fill_row row_rest table_row lev
fill_row-table_row x ra rb [] m = refl
fill_row-table_row x ra rb (y ∷ []) m = refl
fill_row-table_row x ra rb (y ∷ z ∷ ys) m =
    ap (◌∷◌ (lev (x ∷ ra) (y ∷ rb))) (fill_row-table_row x ra (y ∷ rb) (z ∷ ys) _)

-- `rowMin` is at most the start and at most each entry.
fill_row_min :
    (x : ℕ) (ys : Bytes) (prev : List ℕ) (left m : ℕ)
    → ((fill_row x ys prev left m).1 ≤ m)
      × All (λ v. (fill_row x ys prev left m).1 ≤ v) (fill_row x ys prev left m).0
unfolding fill_row
fill_row_min x [] prev left m = (omega arith, tt)
fill_row_min x (y ∷ ys) [] left m = (omega arith, tt)
fill_row_min x (y ∷ ys) (d ∷ []) left m = (omega arith, tt)
fill_row_min x (y ∷ ys) (d ∷ up ∷ prev) left m =
    let v = min3 (up + 1) (left + 1) (d + cost x y) in
    let ih = fill_row_min x ys (up ∷ prev) v (if ltb v m then v else m) in
    (ground (arith, ih.0), (ground (arith, ih.0), ih.1))

first_row-table_row : (rb ys : Bytes) → first_row (length rb) ys ≡ table_row [] rb ys
unfolding first_row table_row lev
first_row-table_row rb [] = refl
first_row-table_row rb (y ∷ ys) = ap (◌∷◌ (length rb)) (first_row-table_row (y ∷ rb) ys)

at-table_row : (ra rb ys : Bytes) → at (table_row ra rb ys) (length ys) ≡ lev ra (onto ys rb)
unfolding table_row
at-table_row ra rb [] = refl
at-table_row ra rb (y ∷ ys) = at-table_row ra (y ∷ rb) ys

-- A bound below every entry of a row is below every entry of the next row.
table_row-bound :
    (k x : ℕ) (ra rb ys : Bytes)
    → All (λ v. k ≤ v) (table_row ra rb ys)
    → k ≤ lev (x ∷ ra) rb
    → All (λ v. k ≤ v) (table_row (x ∷ ra) rb ys)
unfolding table_row
table_row-bound k x ra rb [] h left = (left, tt)
table_row-bound k x ra rb (y ∷ []) (d, (up, _)) left = (left, (unfold lev in ground arith, tt))
table_row-bound k x ra rb (y ∷ z ∷ ys) (d, (up, h)) left =
    (left, table_row-bound k x ra (y ∷ rb) (z ∷ ys) (up, h) (unfold lev in ground arith))

row_bound-lev :
    (k : ℕ) (ra rb ys : Bytes) → All (λ v. k ≤ v) (table_row ra rb ys) → k ≤ lev ra (onto ys rb)
unfolding table_row
row_bound-lev k ra rb [] h = h.0
row_bound-lev k ra rb (y ∷ ys) h = row_bound-lev k ra (y ∷ rb) ys h.1

head_bound : (k : ℕ) (ra ys : Bytes) → All (λ v. k ≤ v) (table_row ra [] ys) → k ≤ length ra
unfolding table_row
head_bound k ra [] h = omega (arith, lev-nil_right ra, h.0)
head_bound k ra (y ∷ ys) h = omega (arith, lev-nil_right ra, h.0)

-- So the distance is never below the least entry of a row.
bound-lev :
    (k : ℕ) (a ra b : Bytes)
    → All (λ v. k ≤ v) (table_row ra [] b)
    → k ≤ lev (onto a ra) (onto b [])
bound-lev k [] ra b h = row_bound-lev k ra [] b h
bound-lev k (x ∷ a) ra b h =
    bound-lev k a (x ∷ ra) b
      (table_row-bound k x ra [] b h (omega (arith, head_bound k ra b h, lev-nil_right (x ∷ ra))))

-- `r` is the distance `d`, or both are past the limit.
abbrev pub Agrees : ℕ → ℕ → ℕ → Type 0
Agrees limit d r = (r ≡ d) ⊎ ((limit < r) × (limit < d))

-- The row that the inner loop makes, and its bound.
fill_row-next :
    (x : ℕ) (ra b : Bytes) (m : ℕ)
    → (fill_row x b (table_row ra [] b) (suc (length ra)) m).0 ≡ row_rest (x ∷ ra) [] b
fill_row-next x ra b m =
    subst (λ i. (fill_row x b (table_row ra [] b) i m).0 ≡ row_rest (x ∷ ra) [] b)
      (lev-nil_right (x ∷ ra)) (fill_row-table_row x ra [] b m)

next_row :
    (x : ℕ) (ra b : Bytes) (m : ℕ)
    → suc (length ra) ∷ (fill_row x b (table_row ra [] b) (suc (length ra)) m).0
      ≡ table_row (x ∷ ra) [] b
next_row x ra b m =
    ap₂ ◌∷◌ (sym (lev-nil_right (x ∷ ra))) (fill_row-next x ra b m)
    ∙ sym (table_row_cons (x ∷ ra) [] b)

next_row_bound :
    (x : ℕ) (ra b : Bytes)
    → All
        (λ v. (fill_row x b (table_row ra [] b) (suc (length ra)) (suc (length ra))).1 ≤ v)
        (table_row (x ∷ ra) [] b)
next_row_bound x ra b =
    subst (All _) (next_row x ra b _)
      (fill_row_min x b (table_row ra [] b) (suc (length ra)) (suc (length ra)))

rows_from-lev :
    (a ra b : Bytes) (limit : ℕ)
    → Agrees limit
        (lev (onto a ra) (onto b []))
        (rows_from (suc (length ra)) a b limit (table_row ra [] b))
unfolding rows_from
rows_from-lev [] ra b limit = inl (at-table_row ra [] b)
rows_from-lev (x ∷ a) ra b limit =
    let i = suc (length ra) in
    let m = (fill_row x b (table_row ra [] b) i i).1 in
    elim (Bool-cases (ltb limit m)) [
      | inl past ↦
          let low = bound-lev m a (x ∷ ra) b (next_row_bound x ra b) in
          rw past (inr (omega arith, omega (arith, ltb→lt limit m past)))
      | inr on ↦ rw on (rw (next_row x ra b i) (rows_from-lev a (x ∷ ra) b limit))
    ]

levenshtein_with-rows :
    (x y : ℕ) (a b : Bytes) (limit : ℕ)
    → levenshtein_with (x ∷ a) (y ∷ b) limit
      ≡ rows_from 1 (x ∷ a) (y ∷ b) limit (table_row [] [] (y ∷ b))
unfolding levenshtein_with
levenshtein_with-rows x y a b limit = ground (arith, first_row-table_row [] (y ∷ b))

length-onto : (a b : Bytes) → length (onto a b) ≡ length a + length b
length-onto [] b = omega arith
length-onto (x ∷ a) b = omega (arith, length-onto a (x ∷ b))

levenshtein_with-Agrees :
    (a b : Bytes) (limit : ℕ)
    → Agrees limit (lev (onto a []) (onto b [])) (levenshtein_with a b limit)
levenshtein_with-Agrees [] b limit =
    inl (unfold levenshtein_with lev in omega (arith, length-onto b []))
levenshtein_with-Agrees (x ∷ a) [] limit = inl (
    unfold levenshtein_with in
    ground (arith, lev-nil_right (onto a (x ∷ [])), length-onto a (x ∷ [])))
levenshtein_with-Agrees (x ∷ a) (y ∷ b) limit =
    rw (levenshtein_with-rows x y a b limit) (rows_from-lev (x ∷ a) [] (y ∷ b) limit)

pub levenshtein_with-edit_distance :
    (a b : Bytes) (limit : ℕ) → Agrees limit (edit_distance a b) (levenshtein_with a b limit)
unfolding edit_distance
levenshtein_with-edit_distance a b limit = levenshtein_with-Agrees a b limit

-- Let `d` be the least number of single-byte insertions, deletions and substitutions that turn `a`
-- into `b`. If `d` is at most the limit, `levenshtein_with a b limit` is `d`. If `d` is above the
-- limit, so is `levenshtein_with a b limit`.
pub levenshtein_with_lem :
    (a b : Bytes) (limit d : ℕ)
    → IsEditDistance a b d
    → (d ≤ limit → levenshtein_with a b limit ≡ d)
      × (limit < d → limit < levenshtein_with a b limit)
levenshtein_with_lem a b limit d h =
    let agrees = levenshtein_with-edit_distance a b limit in
    let same = IsEditDistance-unique a b _ d (edit_distance-IsEditDistance a b) h in omega arith
