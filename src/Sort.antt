-- ===== src/Sort.antt =====
-- Go's `sort.Slice` and `sort.Strings`, as insertion by a key. Which algorithm sorts makes no
-- difference where the keys differ: `sort_by-unique` and `sort_by-perm`.
use mathlib.Core.List.{
  Perm, Mem, mem-cons, not-mem-nil, Nodup, Nodup-cons, Nodup-nil, perm_ext_iff_of_Nodup,
}
use mathlib.Core.List.Perm
use mathlib.Core.Logic.Or
use mathlib.Core.HLevel.{⊥_prop}
use mathlib.Core.Bool.{Bool-set}
use runecho.Prelude.{
  ◌≡◌, ◌↔◌, refl, sym, ap, ap₂, subst, inl, inr, Bool, Bool-cases, true, false, List, [], ◌∷◌,
  arith, if◌then◌else◌, All, keep, any, ◌∙◌, ◌||◌,
}
use runecho.Firsts.{keep-All, keep_pass, keep_fail}
use runecho.Order.{Ord, ◌<?◌, ◌=?◌}

module _ {ℓ} {A K : Type ℓ} ⦃o : Ord K⦄ (key : A → K) where
  -- The first place before an entry whose key is not smaller.
  abbrev pub insert_by : A → List A → List A
  insert_by x [] = x ∷ []
  insert_by x (y ∷ ys) = if key y <? key x then y ∷ insert_by x ys else x ∷ y ∷ ys

  unfoldable pub sort_by : List A → List A
  sort_by [] = []
  sort_by (x ∷ xs) = insert_by x (sort_by xs)

  insert_by-perm : (x : A) (ys : List A) → Perm (insert_by x ys) (x ∷ ys)
  insert_by-perm x [] = Perm.refl (x ∷ [])
  insert_by-perm x (y ∷ ys) =
      elim (key y <? key x)
        as (λ b. Perm (if b then y ∷ insert_by x ys else x ∷ y ∷ ys) (x ∷ y ∷ ys)) [
          | true ↦ Perm.trans (Perm.cons y (insert_by-perm x ys)) (Perm.swap x y ys)
          | false ↦ Perm.refl (x ∷ y ∷ ys)
        ]

  pub sort_by-perm : (xs : List A) → Perm (sort_by xs) xs
  unfolding sort_by
  sort_by-perm [] = Perm.refl []
  sort_by-perm (x ∷ xs) = Perm.trans (insert_by-perm x (sort_by xs)) (Perm.cons x (sort_by-perm xs))

  any-insert_by : (p : A → Bool) (x : A) (ys : List A) → any p (insert_by x ys) ≡ (p x || any p ys)
  any-insert_by p x [] = refl
  any-insert_by p x (y ∷ ys) = ground (arith, any-insert_by p x ys)

  pub any-sort_by : (p : A → Bool) (xs : List A) → any p (sort_by xs) ≡ any p xs
  unfolding sort_by
  any-sort_by p [] = refl
  any-sort_by p (x ∷ xs) = any-insert_by p x (sort_by xs) ∙ ap (λ b. p x || b) (any-sort_by p xs)

-- Entries in strictly increasing order of their keys, and entries with distinct keys.
module _ {ℓ} {A K : Type ℓ} ⦃o : Ord K⦄ (key : A → K) where
  abbrev pub IsStrict : List A → Type 0
  IsStrict [] = Unit
  IsStrict (x ∷ xs) = All (λ y. (key x <? key y) ≡ true) xs × IsStrict xs

  abbrev pub IsDistinct : List A → Type 0
  IsDistinct [] = Unit
  IsDistinct (x ∷ xs) = All (λ y. (key x =? key y) ≡ false) xs × IsDistinct xs

  pub keep-IsDistinct : (p : A → Bool) (xs : List A) → IsDistinct xs → IsDistinct (keep p xs)
  keep-IsDistinct p [] d = tt
  keep-IsDistinct p (x ∷ xs) (dx, d) = elim (Bool-cases (p x)) [
    | inl e ↦
        subst IsDistinct (sym (keep_pass p x xs e))
          (keep-All (λ y. (key x =? key y) ≡ false) p xs dx, keep-IsDistinct p xs d)
    | inr e ↦ subst IsDistinct (sym (keep_fail p x xs e)) (keep-IsDistinct p xs d)
  ]

  All-insert_by {κ} :
      (P : A → Type κ) (x : A) (ys : List A) → P x → All P ys → All P (insert_by key x ys)
  All-insert_by P x [] p h = (p, tt)
  All-insert_by P x (y ∷ ys) p (q, h) =
      elim (key y <? key x) as (λ b. All P (if b then y ∷ insert_by key x ys else x ∷ y ∷ ys)) [
        | true ↦ (q, All-insert_by P x ys p h)
        | false ↦ (p, (q, h))
      ]

  pub All-sort_by {κ} : (P : A → Type κ) (xs : List A) → All P xs → All P (sort_by key xs)
  unfolding sort_by
  All-sort_by P [] h = tt
  All-sort_by P (x ∷ xs) (p, h) = All-insert_by P x (sort_by key xs) p (All-sort_by P xs h)

  lt_of_lt_head :
      (x y : A) (ys : List A)
      → (key x <? key y) ≡ true
      → All (λ z. (key y <? key z) ≡ true) ys
      → All (λ z. (key x <? key z) ≡ true) ys
  lt_of_lt_head x y [] h all = tt
  lt_of_lt_head x y (z ∷ ys) h (p, all) =
      (o.lt_trans (key x) (key y) (key z) h p, lt_of_lt_head x y ys h all)

  lt_of_distinct :
      (x y : A) → (key x =? key y) ≡ false → (key y <? key x) ≡ false → (key x <? key y) ≡ true
  lt_of_distinct x y d h = ground (arith, o.lt_connex (key x) (key y), o.beq_iff (key x) (key y))

  insert_by-IsStrict :
      (x : A) (ys : List A)
      → IsStrict ys
      → All (λ y. (key x =? key y) ≡ false) ys
      → IsStrict (insert_by key x ys)
  insert_by-IsStrict x [] s d = (tt, tt)
  insert_by-IsStrict x (y ∷ ys) (a, s) (e, d) = elim (Bool-cases (key y <? key x)) [
    | inl before ↦
        rw before
          (All-insert_by (λ z. (key y <? key z) ≡ true) x ys before a, insert_by-IsStrict x ys s d)
    | inr after ↦
        let first = lt_of_distinct x y e after in
        rw after ((first, lt_of_lt_head x y ys first a), (a, s))
  ]

  -- Sorting entries with distinct keys puts them in strictly increasing order.
  pub sort_by-IsStrict : (xs : List A) → IsDistinct xs → IsStrict (sort_by key xs)
  unfolding sort_by
  sort_by-IsStrict [] d = tt
  sort_by-IsStrict (x ∷ xs) (e, d) =
      insert_by-IsStrict x (sort_by key xs) (sort_by-IsStrict xs d)
        (All-sort_by (λ y. (key x =? key y) ≡ false) xs e)

  lt_head_of_mem :
      {x b : A} (ys : List A)
      → All (λ y. (key b <? key y) ≡ true) ys
      → Mem x ys
      → (key b <? key x) ≡ true
  lt_head_of_mem [] h m = absurd (not-mem-nil m)
  lt_head_of_mem {x} {b} (y ∷ ys) (p, h) m =
      Or.elim (hlevel Bool-set) (mem-cons.0 m) (λ e. rw e p) (lt_head_of_mem ys h)

  not_lt_head :
      (a b : A) (l r : List A)
      → IsStrict (b ∷ r)
      → Perm (a ∷ l) (b ∷ r)
      → (key a <? key b) ≡ true
      → ⊥
  not_lt_head a b l r s p h =
      Or.elim ⊥_prop (mem-cons.0 ((Perm.mem_iff p).0 (mem-cons.1 (Or.inl refl))))
        (λ e. cc (o.lt_irrefl (key a), ap key e))
        (λ m.
          cc (o.lt_irrefl (key a), o.lt_trans (key a) (key b) (key a) h (lt_head_of_mem r s.0 m)))

  module _ (A-set : IsSet A) where
    heads_eq :
        (a b : A) (l r : List A)
        → IsStrict (a ∷ l)
        → IsStrict (b ∷ r)
        → Perm (a ∷ l) (b ∷ r)
        → a ≡ b
    heads_eq a b l r sl sr p =
        Or.elim (A-set a b) (mem-cons.0 ((Perm.mem_iff p).0 (mem-cons.1 (Or.inl refl)))) (λ e. e)
          (λ m. absurd (not_lt_head b a r l sl (Perm.symm p) (lt_head_of_mem r sr.0 m)))

    -- Two strictly sorted arrangements of the same entries are one list.
    pub IsStrict-eq_of_perm : (l r : List A) → IsStrict l → IsStrict r → Perm l r → l ≡ r
    IsStrict-eq_of_perm [] r sl sr p = Perm.nil-eq p
    IsStrict-eq_of_perm (a ∷ l) [] sl sr p = Perm.eq-nil p
    IsStrict-eq_of_perm (a ∷ l) (b ∷ r) sl sr p =
        let heads = heads_eq a b l r sl sr p in
        let tails = Perm.cons_inv (Perm.trans p (Perm.symm (Perm.cons' heads Perm.rfl))) in
        ap₂ ◌∷◌ heads (IsStrict-eq_of_perm l r sl.1 sr.1 tails)

    -- The order in which the entries came makes no difference to the sorted list.
    pub sort_by-eq_of_perm :
        (xs ys : List A)
        → IsDistinct xs
        → IsDistinct ys
        → Perm xs ys
        → sort_by key xs ≡ sort_by key ys
    sort_by-eq_of_perm xs ys dx dy p =
        IsStrict-eq_of_perm (sort_by key xs) (sort_by key ys) (sort_by-IsStrict xs dx)
          (sort_by-IsStrict ys dy)
          (Perm.trans (sort_by-perm key xs) (Perm.trans p (Perm.symm (sort_by-perm key ys))))

    not-mem_of_lt : (x : A) (ys : List A) → All (λ y. (key x <? key y) ≡ true) ys → ¬ Mem x ys
    not-mem_of_lt x ys h m = cc (o.lt_irrefl (key x), lt_head_of_mem {x = x} {b = x} ys h m)

    IsStrict-Nodup : (xs : List A) → IsStrict xs → Nodup xs
    IsStrict-Nodup [] s = Nodup-nil
    IsStrict-Nodup (x ∷ xs) (h, s) = Nodup-cons.1 (not-mem_of_lt x xs h, IsStrict-Nodup xs s)

    -- Two strictly sorted lists with the same members are one list.
    pub IsStrict-eq_of_mem :
        (l r : List A) → IsStrict l → IsStrict r → ((x : A) → Mem x l ↔ Mem x r) → l ≡ r
    IsStrict-eq_of_mem l r sl sr same =
        IsStrict-eq_of_perm l r sl sr
          ((perm_ext_iff_of_Nodup (IsStrict-Nodup l sl) (IsStrict-Nodup r sr)).1 same)
