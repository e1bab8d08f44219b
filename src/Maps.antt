-- ===== src/Maps.antt =====
-- Go maps as association lists with distinct keys. The order of the entries is the order in which
-- a `range` walks the map, which Go leaves open.
use mathlib.Core.List.{Mem, mem-cons, not-mem-nil}
use mathlib.Core.Logic.Or
use mathlib.Core.Bool.{Bool-set}
use runecho.Prelude.{
  ◌≡◌, refl, sym, ap, subst, ◌∙◌, ◌↔◌, inl, inr, Bool, true, false, not, ◌||◌, Bool-cases, Option,
  none, some, List, [], ◌∷◌, map, arith, if◌then◌else◌, All, keep,
}
use runecho.Order.{Ord, ◌=?◌}
use runecho.Sort.{IsDistinct, keep-IsDistinct}

module _ {ℓ} {K V : Type ℓ} ⦃o : Ord K⦄ where
  -- `v, ok := m[k]`
  abbrev pub lookup : K → List (K × V) → Option V
  lookup k [] = none
  lookup k ((j, v) ∷ m) = if j =? k then some v else lookup k m

  -- `m[k] = v`
  abbrev pub put : K → V → List (K × V) → List (K × V)
  put k v [] = (k, v) ∷ []
  put k v ((j, w) ∷ m) = if j =? k then (j, v) ∷ m else (j, w) ∷ put k v m

  abbrev pub key_of : K × V → K
  key_of e = e.0

  pub lookup-put :
      (k j : K) (v : V) (m : List (K × V))
      → lookup j (put k v m) ≡ (if k =? j then some v else lookup j m)
  lookup-put k j v [] = refl
  lookup-put k j v ((i, w) ∷ m) =
      ground (arith, o.beq_iff k j, o.beq_iff i k, o.beq_iff i j, lookup-put k j v m)

  All-put :
      (i k : K) (v : V) (m : List (K × V))
      → (i =? k) ≡ false
      → All (λ e. (i =? key_of e) ≡ false) m
      → All (λ e. (i =? key_of e) ≡ false) (put k v m)
  All-put i k v [] h d = (h, tt)
  All-put i k v ((j, w) ∷ m) h (e, d) = elim (Bool-cases (j =? k)) [
    | inl p ↦ rw p (e, d)
    | inr p ↦ rw p (e, All-put i k v m h d)
  ]

  pub put-IsDistinct :
      (k : K) (v : V) (m : List (K × V)) → IsDistinct key_of m → IsDistinct key_of (put k v m)
  put-IsDistinct k v [] d = (tt, tt)
  put-IsDistinct k v ((j, w) ∷ m) (e, d) = elim (Bool-cases (j =? k)) [
    | inl p ↦ rw p (e, d)
    | inr p ↦ rw p (All-put j k v m p e, put-IsDistinct k v m d)
  ]

  lookup-absent :
      (k : K) (m : List (K × V)) → All (λ e. (k =? key_of e) ≡ false) m → lookup k m ≡ none
  lookup-absent k [] d = refl
  lookup-absent k ((j, w) ∷ m) (e, d) =
      ground (arith, o.beq_iff j k, o.beq_iff k j, lookup-absent k m d)

  pub mem_of_lookup : (k : K) (v : V) (m : List (K × V)) → lookup k m ≡ some v → Mem (k, v) m
  mem_of_lookup k v [] e = cc
  mem_of_lookup k v ((j, w) ∷ m) e = elim (Bool-cases (j =? k)) [
    | inl p ↦ mem-cons.1 (Or.inl (ground (arith, o.beq_iff j k)))
    | inr p ↦ mem-cons.1 (Or.inr (mem_of_lookup k v m (ground arith)))
  ]

  lookup_head_ne :
      (k j : K) (v w : V) (m : List (K × V))
      → All (λ e. (j =? key_of e) ≡ false) m
      → Mem (k, v) m
      → (j =? k) ≡ false
  lookup_head_ne k j v w [] d h = absurd (not-mem-nil h)
  lookup_head_ne k j v w ((i, u) ∷ m) (e, d) h =
      Or.elim (Bool-set (j =? k) false) (mem-cons.0 h) (λ p. let q : k ≡ i = ap key_of p in rw q e)
        (lookup_head_ne k j v w m d)

  -- In a map with distinct keys an entry is what its key is looked up to.
  pub lookup_of_mem :
      (V-set : IsSet V) (k : K) (v : V) (m : List (K × V))
      → IsDistinct key_of m
      → Mem (k, v) m
      → lookup k m ≡ some v
  lookup_of_mem V-set k v [] d h = absurd (not-mem-nil h)
  lookup_of_mem V-set k v ((j, w) ∷ m) (e, d) h =
      Or.elim (hlevel V-set) (mem-cons.0 h)
        (λ p.
          let q : k ≡ j = ap key_of p in
          let r : v ≡ w = ap (λ (x : K × V). x.1) p in ground (arith, o.beq_iff j k))
        (λ t. let ne = lookup_head_ne k j v w m e t in rw ne (lookup_of_mem V-set k v m d t))

-- `delete(m, k)`
module _ {ℓ} {K V : Type ℓ} ⦃o : Ord K⦄ where
  abbrev pub remove : K → List (K × V) → List (K × V)
  remove k m = keep (λ e. not (key_of e =? k)) m

  pub lookup-remove :
      (k j : K) (m : List (K × V)) → lookup j (remove k m) ≡ (if k =? j then none else lookup j m)
  lookup-remove k j [] = ground arith
  lookup-remove k j ((i, w) ∷ m) =
      ground (arith, o.beq_iff k j, o.beq_iff i k, o.beq_iff i j, lookup-remove k j m)

  pub remove-IsDistinct :
      (k : K) (m : List (K × V)) → IsDistinct key_of m → IsDistinct key_of (remove k m)
  remove-IsDistinct k m d = keep-IsDistinct key_of (λ e. not (key_of e =? k)) m d

-- What is left of an entry when those that fail a test are deleted.
abbrev pub keep_if {ℓ} : {V : Type ℓ} → (V → Bool) → Option V → Option V
keep_if p none = none
keep_if p (some v) = if p v then some v else none

abbrev pub is_some {ℓ} : {V : Type ℓ} → Option V → Bool
is_some none = false
is_some (some v) = true

-- Whether a map has a key: `_, ok := m[k]`.
module _ {ℓ} {K V : Type ℓ} ⦃o : Ord K⦄ where
  abbrev pub has : K → List (K × V) → Bool
  has k m = is_some (lookup k m)

  pub has-put : (k j : K) (v : V) (m : List (K × V)) → has j (put k v m) ≡ (k =? j || has j m)
  has-put k j v m = ground (arith, lookup-put k j v m)

  has→mem : (k : K) (m : List (K × V)) → has k m ≡ true → Mem k (map key_of m)
  has→mem k [] h = cc
  has→mem k ((j, v) ∷ m) h = elim (Bool-cases (j =? k)) [
    | inl p ↦ mem-cons.1 (Or.inl (sym ((o.beq_iff j k).0 p)))
    | inr p ↦ mem-cons.1 (Or.inr (has→mem k m (ground arith)))
  ]

  mem→has : (k : K) (m : List (K × V)) → Mem k (map key_of m) → has k m ≡ true
  mem→has k [] h = absurd (not-mem-nil h)
  mem→has k ((j, v) ∷ m) h =
      Or.elim (Bool-set _ true) (mem-cons.0 h) (λ p. ground (arith, o.beq_iff j k))
        (λ t. ground (arith, mem→has k m t))

  pub mem-keys : (k : K) (m : List (K × V)) → Mem k (map key_of m) ↔ (has k m ≡ true)
  mem-keys k m = (mem→has k m, has→mem k m)

  All-keys :
      (k : K) (m : List (K × V))
      → All (λ e. (k =? key_of e) ≡ false) m
      → All (λ j. (k =? j) ≡ false) (map key_of m)
  All-keys k [] d = tt
  All-keys k (e ∷ m) (h, d) = (h, All-keys k m d)

  pub keys-IsDistinct :
      (m : List (K × V)) → IsDistinct key_of m → IsDistinct (λ (k : K). k) (map key_of m)
  keys-IsDistinct [] d = tt
  keys-IsDistinct (e ∷ m) (h, d) = (All-keys e.0 m h, keys-IsDistinct m d)

  rekey :
      (j k : K) (m : List (K × V))
      → (j =? k) ≡ true
      → All (λ e. (j =? key_of e) ≡ false) m
      → All (λ e. (k =? key_of e) ≡ false) m
  rekey j k [] s h = tt
  rekey j k (x ∷ m) s (hx, h) =
      (subst (λ i. (i =? key_of x) ≡ false) ((o.beq_iff j k).0 s) hx, rekey j k m s h)

  -- The key of the first entry has no other one.
  pub lookup-rest :
      (j k : K) (v : V) (m : List (K × V))
      → (j =? k) ≡ true
      → IsDistinct key_of ((j, v) ∷ m)
      → lookup k m ≡ none
  lookup-rest j k v m same (e, d) = lookup-absent k m (rekey j k m same e)

  pub lookup-keep :
      (p : V → Bool) (k : K) (m : List (K × V))
      → IsDistinct key_of m
      → lookup k (keep (λ e. p e.1) m) ≡ keep_if p (lookup k m)
  lookup-keep p k [] d = refl
  lookup-keep p k ((j, v) ∷ m) (e, d) = elim (Bool-cases (j =? k)) [
    | inl same ↦
        let gone : lookup k (keep (λ e. p e.1) m) ≡ none =
          lookup-keep p k m d ∙ ap (keep_if p) (lookup-rest j k v m same (e, d)) in
        ground (arith, same)
    | inr other ↦ ground (arith, other, lookup-keep p k m d)
  ]
