-- ===== src/Order.antt =====
-- Keys with a decidable equality and a strict total order: Go's `==` and `<` on strings and ints,
-- and the lexicographic orders that the `less` functions of the source build from them.
use runecho.Prelude.{
  ℕ, ◌≡◌, refl, subst, ◌↔◌, Bool, true, false, ◌&&◌, ◌||◌, List, [], ◌∷◌, arith, ltb, ◌==◌, ==_iff,
  if◌then◌else◌,
}

pub record Ord {ℓ} (A : Type ℓ) : Type ℓ where
  pub beq : A → A → Bool
  pub lt : A → A → Bool
  pub beq_iff : (a b : A) → (beq a b ≡ true) ↔ (a ≡ b)
  pub lt_irrefl : (a : A) → lt a a ≡ false
  pub lt_trans : (a b c : A) → lt a b ≡ true → lt b c ≡ true → lt a c ≡ true
  pub lt_connex : (a b : A) → lt a b ≡ false → lt b a ≡ false → a ≡ b

infix 50 ◌=?◌ ◌<?◌
abbrev pub ◌=?◌ {ℓ} : {A : Type ℓ} ⦃o : Ord A⦄ → A → A → Bool
◌=?◌ ⦃o⦄ = o.beq

abbrev pub ◌<?◌ {ℓ} : {A : Type ℓ} ⦃o : Ord A⦄ → A → A → Bool
◌<?◌ ⦃o⦄ = o.lt

pub ltb_irrefl : (a : ℕ) → ltb a a ≡ false
ltb_irrefl a = ground arith

pub ltb_trans : (a b c : ℕ) → ltb a b ≡ true → ltb b c ≡ true → ltb a c ≡ true
ltb_trans a b c h k = ground arith

pub ltb_connex : (a b : ℕ) → ltb a b ≡ false → ltb b a ≡ false → a ≡ b
ltb_connex a b h k = ground arith

instance abbrev pub nat_ord : Ord ℕ
nat_ord = record {
  beq = ◌==◌;
  lt = ltb;
  beq_iff = ==_iff;
  lt_irrefl = ltb_irrefl;
  lt_trans = ltb_trans;
  lt_connex = ltb_connex;
}

-- The lexicographic order on lists: for lists of bytes, Go's order on strings.
module _ {ℓ} {A : Type ℓ} ⦃o : Ord A⦄ where
  abbrev pub list_beq : List A → List A → Bool
  list_beq [] [] = true
  list_beq [] (y ∷ ys) = false
  list_beq (x ∷ xs) [] = false
  list_beq (x ∷ xs) (y ∷ ys) = o.beq x y && list_beq xs ys

  abbrev pub list_lt : List A → List A → Bool
  list_lt [] [] = false
  list_lt [] (y ∷ ys) = true
  list_lt (x ∷ xs) [] = false
  list_lt (x ∷ xs) (y ∷ ys) = o.lt x y || (o.beq x y && list_lt xs ys)

  list_beq→eq : (xs ys : List A) → list_beq xs ys ≡ true → xs ≡ ys
  list_beq→eq [] [] h = refl
  list_beq→eq [] (y ∷ ys) h = cc
  list_beq→eq (x ∷ xs) [] h = cc
  list_beq→eq (x ∷ xs) (y ∷ ys) h = ground (arith, o.beq_iff x y, list_beq→eq xs ys)

  list_beq_refl : (xs : List A) → list_beq xs xs ≡ true
  list_beq_refl [] = refl
  list_beq_refl (x ∷ xs) = ground (arith, o.beq_iff x x, list_beq_refl xs)

  pub list_beq_iff : (xs ys : List A) → (list_beq xs ys ≡ true) ↔ (xs ≡ ys)
  list_beq_iff xs ys =
      (list_beq→eq xs ys, λ e. subst (λ zs. list_beq xs zs ≡ true) e (list_beq_refl xs))

  pub list_lt_irrefl : (xs : List A) → list_lt xs xs ≡ false
  list_lt_irrefl [] = refl
  list_lt_irrefl (x ∷ xs) = ground (arith, o.lt_irrefl x, list_lt_irrefl xs)

  pub list_lt_trans :
      (xs ys zs : List A) → list_lt xs ys ≡ true → list_lt ys zs ≡ true → list_lt xs zs ≡ true
  list_lt_trans [] [] zs h k = cc
  list_lt_trans [] (y ∷ ys) [] h k = cc
  list_lt_trans [] (y ∷ ys) (z ∷ zs) h k = refl
  list_lt_trans (x ∷ xs) [] zs h k = cc
  list_lt_trans (x ∷ xs) (y ∷ ys) [] h k = cc
  list_lt_trans (x ∷ xs) (y ∷ ys) (z ∷ zs) h k =
      ground (
        arith,
        o.beq_iff x y,
        o.beq_iff y z,
        o.beq_iff x z,
        o.lt_trans x y z,
        list_lt_trans xs ys zs,
      )

  pub list_lt_connex : (xs ys : List A) → list_lt xs ys ≡ false → list_lt ys xs ≡ false → xs ≡ ys
  list_lt_connex [] [] h k = refl
  list_lt_connex [] (y ∷ ys) h k = cc
  list_lt_connex (x ∷ xs) [] h k = cc
  list_lt_connex (x ∷ xs) (y ∷ ys) h k =
      ground (arith, o.beq_iff x y, o.beq_iff y x, o.lt_connex x y, list_lt_connex xs ys)

  instance abbrev pub list_ord : Ord (List A)
  list_ord = record {
    beq = list_beq;
    lt = list_lt;
    beq_iff = list_beq_iff;
    lt_irrefl = list_lt_irrefl;
    lt_trans = list_lt_trans;
    lt_connex = list_lt_connex;
  }

-- The lexicographic order on pairs, `if a.x != b.x { return a.x < b.x }; return a.y < b.y`.
module _ {ℓ} {A B : Type ℓ} ⦃o : Ord A⦄ ⦃q : Ord B⦄ where
  abbrev pub pair_beq : A × B → A × B → Bool
  pair_beq (a, b) (c, d) = o.beq a c && q.beq b d

  abbrev pub pair_lt : A × B → A × B → Bool
  pair_lt (a, b) (c, d) = if o.beq a c then q.lt b d else o.lt a c

  pub pair_beq_iff : (x y : A × B) → (pair_beq x y ≡ true) ↔ (x ≡ y)
  pair_beq_iff (a, b) (c, d) = ground (arith, o.beq_iff a c, q.beq_iff b d)

  pub pair_lt_irrefl : (x : A × B) → pair_lt x x ≡ false
  pair_lt_irrefl (a, b) = ground (arith, o.lt_irrefl a, q.lt_irrefl b)

  pub pair_lt_trans : (x y z : A × B) → pair_lt x y ≡ true → pair_lt y z ≡ true → pair_lt x z ≡ true
  pair_lt_trans (a, b) (c, d) (e, f) h k = ground (
    arith,
    o.beq_iff a c,
    o.beq_iff c e,
    o.beq_iff a e,
    o.lt_trans a c e,
    q.lt_trans b d f,
    o.lt_irrefl a,
    o.lt_trans a c a,
  )

  pub pair_lt_connex : (x y : A × B) → pair_lt x y ≡ false → pair_lt y x ≡ false → x ≡ y
  pair_lt_connex (a, b) (c, d) h k =
      ground (arith, o.beq_iff a c, o.beq_iff c a, o.lt_connex a c, q.lt_connex b d)

  instance abbrev pub pair_ord : Ord (A × B)
  pair_ord = record {
    beq = pair_beq;
    lt = pair_lt;
    beq_iff = pair_beq_iff;
    lt_irrefl = pair_lt_irrefl;
    lt_trans = pair_lt_trans;
    lt_connex = pair_lt_connex;
  }
