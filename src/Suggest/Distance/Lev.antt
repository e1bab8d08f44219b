-- ===== src/Suggest/Distance/Lev.antt =====
-- The recursion that the table of `levenshteinWith` fills, and why it is the edit distance.
use runecho.Prelude.{
  ℕ, suc, ◌+◌, ◌≤◌, ◌≡◌, refl, sym, subst, Bool-cases, ◌⊎◌, inl, inr, [], ◌∷◌, arith, length, ◌==◌,
  ==_iff,
}
use mathlib.Core.List.{append-nil}
use runecho.Text.{Bytes}
use runecho.Suggest.Distance.{min3, cost}
use runecho.Suggest.Distance.Edits.{
  Edits, done, keep, change, remove, add, IsEditDistance, onto, onto-onto, Edits-onto,
}

unfoldable pub lev : Bytes → Bytes → ℕ
lev [] ys = length ys
lev (x ∷ xs) [] = suc (length xs)
lev (x ∷ xs) (y ∷ ys) = min3 (lev xs (y ∷ ys) + 1) (lev (x ∷ xs) ys + 1) (lev xs ys + cost x y)

pub lev-nil_right : (xs : Bytes) → lev xs [] ≡ length xs
unfolding lev
lev-nil_right [] = refl
lev-nil_right (x ∷ xs) = refl

min3_bounds : (a b c : ℕ) → (min3 a b c ≤ a) × (min3 a b c ≤ b) × (min3 a b c ≤ c)
min3_bounds a b c = ground arith

min3_cases : (a b c : ℕ) → (min3 a b c ≡ a) ⊎ (min3 a b c ≡ b) ⊎ (min3 a b c ≡ c)
min3_cases a b c = ground arith

lev-remove : (x : ℕ) (xs ys : Bytes) → lev (x ∷ xs) ys ≤ suc (lev xs ys)
unfolding lev
lev-remove x xs [] = omega (arith, lev-nil_right xs)
lev-remove x xs (y ∷ ys) = ground arith

lev-add : (y : ℕ) (xs ys : Bytes) → lev xs (y ∷ ys) ≤ suc (lev xs ys)
unfolding lev
lev-add y [] ys = omega arith
lev-add y (x ∷ xs) ys = ground arith

lev-change : (x y : ℕ) (xs ys : Bytes) → lev (x ∷ xs) (y ∷ ys) ≤ suc (lev xs ys)
unfolding lev
lev-change x y xs ys = ground arith

lev-keep : (x y : ℕ) (xs ys : Bytes) → x ≡ y → lev (x ∷ xs) (y ∷ ys) ≤ lev xs ys
unfolding lev
lev-keep x y xs ys e = ground arith

-- No script has fewer edits than `lev`.
lev-le : {xs ys : Bytes} {n : ℕ} → Edits xs ys n → lev xs ys ≤ n
lev-le (done e) = unfold lev in omega arith
lev-le (keep {x} {y} {xs = xs} {ys = ys} e d) = omega (arith, lev-keep x y xs ys e, lev-le d)
lev-le (change {x} {y} {xs = xs} {ys = ys} d) = omega (arith, lev-change x y xs ys, lev-le d)
lev-le (remove {x} {xs = xs} {ys = ys} d) = omega (arith, lev-remove x xs ys, lev-le d)
lev-le (add {y} {xs = xs} {ys = ys} d) = omega (arith, lev-add y xs ys, lev-le d)

Edits-length : (ys : Bytes) → Edits [] ys (length ys)
Edits-length [] = done refl
Edits-length (y ∷ ys) = add (Edits-length ys)

Edits-length_left : (xs : Bytes) → Edits xs [] (length xs)
Edits-length_left [] = done refl
Edits-length_left (x ∷ xs) = remove (Edits-length_left xs)

Edits-cost : (x y n : ℕ) (xs ys : Bytes) → Edits xs ys n → Edits (x ∷ xs) (y ∷ ys) (n + cost x y)
Edits-cost x y n xs ys d = elim (Bool-cases (x == y)) [
  | inl e ↦ rw e (subst (Edits (x ∷ xs) (y ∷ ys)) (omega arith) (keep ((==_iff x y).0 e) d))
  | inr e ↦ rw e (subst (Edits (x ∷ xs) (y ∷ ys)) (omega arith) (change d))
]

-- A script of `lev` edits.
Edits-lev : (xs ys : Bytes) → Edits xs ys (lev xs ys)
unfolding lev
Edits-lev [] ys = Edits-length ys
Edits-lev (x ∷ xs) [] = Edits-length_left (x ∷ xs)
Edits-lev (x ∷ xs) (y ∷ ys) =
    let goal = Edits (x ∷ xs) (y ∷ ys) in
    elim (min3_cases (lev xs (y ∷ ys) + 1) (lev (x ∷ xs) ys + 1) (lev xs ys + cost x y)) [
      | inl e ↦ subst goal (omega arith) (remove (Edits-lev xs (y ∷ ys)))
      | inr (inl e) ↦ subst goal (omega arith) (add (Edits-lev (x ∷ xs) ys))
      | inr (inr e) ↦ subst goal (sym e) (Edits-cost x y _ xs ys (Edits-lev xs ys))
    ]

-- A script between the reversed texts, read from its end.
Edits-reversed : (a b : Bytes) {n : ℕ} → Edits (onto a []) (onto b []) n → Edits a b n
Edits-reversed a b {n} d =
    subst (Edits a b) (omega arith) (simp (onto-onto, append-nil) at (Edits-onto 0 d (done refl)))

-- The distance that the table of the two texts ends in.
unfoldable pub edit_distance : Bytes → Bytes → ℕ
edit_distance a b = lev (onto a []) (onto b [])

pub edit_distance-IsEditDistance : (a b : Bytes) → IsEditDistance a b (edit_distance a b)
unfolding edit_distance
edit_distance-IsEditDistance a b = (
  Edits-reversed a b (Edits-lev (onto a []) (onto b [])),
  λ n script.
      subst (λ k. edit_distance a b ≤ k) (omega arith) (lev-le (Edits-onto 0 script (done refl))),
)

pub IsEditDistance-unique :
    (a b : Bytes) (c d : ℕ) → IsEditDistance a b c → IsEditDistance a b d → c ≡ d
IsEditDistance-unique a b c d (s, least) (t, least') = omega (arith, least d t, least' c s)

Edits-length-le :
    {xs ys : Bytes} {n : ℕ}
    → Edits xs ys n
    → (length xs ≤ length ys + n) × (length ys ≤ length xs + n)
Edits-length-le (done e) = omega arith
Edits-length-le (keep e d) = omega (arith, Edits-length-le d)
Edits-length-le (change d) = omega (arith, Edits-length-le d)
Edits-length-le (remove d) = omega (arith, Edits-length-le d)
Edits-length-le (add d) = omega (arith, Edits-length-le d)

-- The distance is at least the difference of the lengths.
pub length-le-edit_distance :
    (a b : Bytes)
    → (length a ≤ length b + edit_distance a b) × (length b ≤ length a + edit_distance a b)
length-le-edit_distance a b = Edits-length-le (edit_distance-IsEditDistance a b).0
