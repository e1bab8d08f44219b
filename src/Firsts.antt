-- ===== src/Firsts.antt =====
-- The first entry of each kind in a list: what a loop with a set of the kinds that it has seen keeps.

use runecho.Prelude.{
  ◌≡◌, ◌≤◌, ◌++◌, length, subst, refl, sym, ap, ◌∙◌, inl, inr, Bool, true, false, not, ◌&&◌,
  Bool-cases, List, [], ◌∷◌, keep, All, arith,
}

module _ {ℓ} {A : Type ℓ} where
  -- Drop every entry that an earlier one is the same as.
  abbrev pub first_of_each : (A → A → Bool) → List A → List A
  first_of_each same [] = []
  first_of_each same (x ∷ xs) = x ∷ keep (λ y. not (same x y)) (first_of_each same xs)

  -- Two filters in a row are one.
  pub keep-keep :
      (p q r : A → Bool)
      → ((x : A) → (p x && q x) ≡ r x)
      → (xs : List A) → keep p (keep q xs) ≡ keep r xs
  keep-keep p q r h [] = refl
  keep-keep p q r h (x ∷ xs) = ground (arith, h x, keep-keep p q r h xs)

  pub keep_all : (p : A → Bool) (xs : List A) → ((x : A) → p x ≡ true) → keep p xs ≡ xs
  keep_all p [] h = refl
  keep_all p (x ∷ xs) h = ground (arith, h x, keep_all p xs h)

  pub keep_pass :
      (p : A → Bool) (x : A) (xs : List A) → p x ≡ true → keep p (x ∷ xs) ≡ x ∷ keep p xs
  keep_pass p x xs h = ground (arith, h)

  pub keep_fail : (p : A → Bool) (x : A) (xs : List A) → p x ≡ false → keep p (x ∷ xs) ≡ keep p xs
  keep_fail p x xs h = ground (arith, h)

  pub keep-append : (p : A → Bool) (xs ys : List A) → keep p (xs ++ ys) ≡ keep p xs ++ keep p ys
  keep-append p [] ys = refl
  keep-append p (x ∷ xs) ys = ground (arith, keep-append p xs ys)

  pub keep_none : (xs : List A) → keep (λ x. false) xs ≡ []
  keep_none [] = refl
  keep_none (x ∷ xs) = keep_none xs

  pub length-keep-keep :
      (p q : A → Bool) (xs : List A) → length (keep p (keep q xs)) ≤ length (keep p xs)
  length-keep-keep p q [] = omega arith
  length-keep-keep p q (x ∷ xs) = ground (arith, length-keep-keep p q xs)

-- Entries with a property.
module _ {ℓ κ} {A : Type ℓ} (P : A → Type κ) where
  pub keep-All : (p : A → Bool) (xs : List A) → All P xs → All P (keep p xs)
  keep-All p [] h = tt
  keep-All p (x ∷ xs) (hx, h) = elim (Bool-cases (p x)) [
    | inl e ↦ subst (All P) (sym (keep_pass p x xs e)) (hx, keep-All p xs h)
    | inr e ↦ subst (All P) (sym (keep_fail p x xs e)) (keep-All p xs h)
  ]

  pub first_of_each-All :
      (same : A → A → Bool) (xs : List A) → All P xs → All P (first_of_each same xs)
  first_of_each-All same [] h = tt
  first_of_each-All same (x ∷ xs) (hx, h) =
      (hx, keep-All (λ y. not (same x y)) (first_of_each same xs) (first_of_each-All same xs h))

  pub keep_congr :
      (p q : A → Bool) (xs : List A)
      → ((y : A) → P y → p y ≡ q y)
      → All P xs
      → keep p xs ≡ keep q xs
  keep_congr p q [] e h = refl
  keep_congr p q (x ∷ xs) e (hx, h) = ground (arith, e x hx, keep_congr p q xs e h)

  -- Two tests that agree on such entries keep the same ones.
  pub first_of_each_congr :
      (s t : A → A → Bool) (xs : List A)
      → ((x y : A) → P x → P y → s x y ≡ t x y)
      → All P xs
      → first_of_each s xs ≡ first_of_each t xs
  first_of_each_congr s t [] e h = refl
  first_of_each_congr s t (x ∷ xs) e (hx, h) = ap (◌∷◌ x) (
      ap (keep (λ y. not (s x y))) (first_of_each_congr s t xs e h)
      ∙ keep_congr (λ y. not (s x y)) (λ y. not (t x y)) (first_of_each t xs)
          (λ y hy. ap not (e x y hx hy)) (first_of_each-All t xs h))
