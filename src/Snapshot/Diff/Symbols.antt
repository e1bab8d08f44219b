-- ===== src/Snapshot/Diff/Symbols.antt =====
-- internal/snapshot/diff.go: which symbols of a changed file are reported, and in which order.
use mathlib.Core.List.{filter_map, mem-filter_map, Mem}
use mathlib.Core.List.Perm
use mathlib.Core.Logic.{∥∥₁_elim}
use mathlib.Core.Logic.Iff
use runecho.Prelude.{
  ◌≡◌, ◌≢◌, ◌↔◌, refl, sym, ap, ◌∙◌, subst, inl, inr, Option-cases, Bool-cases, true, false, Option,
  none, some, List, [], ◌∷◌, ◌++◌, arith, if◌then◌else◌, All,
}
use runecho.Order.{nat_ord, list_ord, list_beq_iff, pair_ord, pair_beq_iff, ◌=?◌}
use runecho.Sort.{sort_by-perm, sort_by-IsStrict, IsStrict, IsDistinct}
use runecho.Maps.{lookup, put, key_of, lookup-put, put-IsDistinct, mem_of_lookup, lookup_of_mem}
use runecho.Text.{Bytes}
use runecho.Snapshot.Types.{SymbolDelta, Status}
use runecho.Snapshot.Diff.{
  symbol_key, symbol_set_from, symbol_set, name_kind, is_added, hash_changed, if_changed,
  is_modified, collect, file_diff,
}

-- The last symbol of a file with a key.
abbrev pub find_last : Bytes → List SymbolDelta → Option SymbolDelta
find_last k [] = none
find_last k (s ∷ syms) = elim (find_last k syms) [
  | some t ↦ some t
  | none ↦ if symbol_key s =? k then some s else none
]

abbrev or_else : Option SymbolDelta → Option SymbolDelta → Option SymbolDelta
or_else (some s) o = some s
or_else none o = o

lookup-symbol_set_from :
    (k : Bytes) (m : List (Bytes × SymbolDelta)) (syms : List SymbolDelta)
    → lookup k (symbol_set_from m syms) ≡ or_else (find_last k syms) (lookup k m)
unfolding symbol_set_from
lookup-symbol_set_from k m [] = refl
lookup-symbol_set_from k m (s ∷ syms) =
    ground (
      arith,
      lookup-symbol_set_from k (put (symbol_key s) s m) syms,
      lookup-put (symbol_key s) k s m,
    )

-- The set holds, under each key, the last symbol with that key.
pub lookup-symbol_set :
    (k : Bytes) (syms : List SymbolDelta) → lookup k (symbol_set syms) ≡ find_last k syms
unfolding symbol_set
lookup-symbol_set k syms = ground (arith, lookup-symbol_set_from k [] syms)

symbol_set_from-IsDistinct :
    (m : List (Bytes × SymbolDelta)) (syms : List SymbolDelta)
    → IsDistinct key_of m
    → IsDistinct key_of (symbol_set_from m syms)
unfolding symbol_set_from
symbol_set_from-IsDistinct m [] d = d
symbol_set_from-IsDistinct m (s ∷ syms) d =
    symbol_set_from-IsDistinct (put (symbol_key s) s m) syms (put-IsDistinct (symbol_key s) s m d)

-- Every symbol of the set stands under its own key.
abbrev IsKeyed : List (Bytes × SymbolDelta) → Type 0
IsKeyed m = All (λ e. e.0 ≡ symbol_key e.1) m

put-IsKeyed :
    (s : SymbolDelta) (m : List (Bytes × SymbolDelta))
    → IsKeyed m
    → IsKeyed (put (symbol_key s) s m)
put-IsKeyed s [] h = (refl, tt)
put-IsKeyed s ((j, t) ∷ m) (e, h) = elim (Bool-cases (j =? symbol_key s)) [
  | inl p ↦ rw p ((list_beq_iff j (symbol_key s)).0 p, h)
  | inr p ↦ rw p (e, put-IsKeyed s m h)
]

symbol_set_from-IsKeyed :
    (m : List (Bytes × SymbolDelta)) (syms : List SymbolDelta)
    → IsKeyed m
    → IsKeyed (symbol_set_from m syms)
unfolding symbol_set_from
symbol_set_from-IsKeyed m [] h = h
symbol_set_from-IsKeyed m (s ∷ syms) h =
    symbol_set_from-IsKeyed (put (symbol_key s) s m) syms (put-IsKeyed s m h)

-- A test that passes on the symbol that it is given.
abbrev IsSelection : (Bytes × SymbolDelta → Option SymbolDelta) → Type 0
IsSelection test = (e : Bytes × SymbolDelta) (s : SymbolDelta) → test e ≡ some s → s ≡ e.1

is_added-IsSelection : (set : List (Bytes × SymbolDelta)) → IsSelection (is_added set)
is_added-IsSelection set (k, t) s h = ground arith

is_modified-IsSelection : (set : List (Bytes × SymbolDelta)) → IsSelection (is_modified set)
is_modified-IsSelection set (k, t) s h = ground arith

SymbolDelta-set : IsSet SymbolDelta
SymbolDelta-set = hlevel

name_kind_ne :
    (s t : SymbolDelta)
    → (symbol_key s =? symbol_key t) ≡ false
    → (name_kind s =? name_kind t) ≡ false
name_kind_ne s t h = elim (Bool-cases (name_kind s =? name_kind t)) [
  | inl p ↦
      let same =
        ap (λ (x : Bytes × Bytes). x.1 ++ b':' ∷ x.0)
          ((pair_beq_iff (name_kind s) (name_kind t)).0 p) in
      cc (h, (list_beq_iff (symbol_key s) (symbol_key t)).1 same)
  | inr p ↦ p
]

symbol_key-find_last :
    (k : Bytes) (s : SymbolDelta) (syms : List SymbolDelta)
    → find_last k syms ≡ some s
    → symbol_key s ≡ k
symbol_key-find_last k s [] h = cc
symbol_key-find_last k s (t ∷ syms) h =
    ground (arith, symbol_key-find_last k s syms, list_beq_iff (symbol_key t) k)

module _ (test : Bytes × SymbolDelta → Option SymbolDelta) (sel : IsSelection test) where
  filter_map-All :
      (t : SymbolDelta) (m : List (Bytes × SymbolDelta))
      → IsKeyed m
      → All (λ e. (symbol_key t =? key_of e) ≡ false) m
      → All (λ s. (name_kind t =? name_kind s) ≡ false) (filter_map test m)
  unfolding filter_map
  filter_map-All t [] k d = tt
  filter_map-All t ((j, u) ∷ m) (k, ks) (e, d) = elim (Option-cases (test (j, u))) [
    | inl p ↦ rw p (filter_map-All t m ks d)
    | inr (s, p) ↦ rw p (
      name_kind_ne t s (rw (sel (j, u) s p) (subst (λ i. (symbol_key t =? i) ≡ false) k e)),
      filter_map-All t m ks d,
    )
  ]

  filter_map-IsDistinct :
      (m : List (Bytes × SymbolDelta))
      → IsKeyed m
      → IsDistinct key_of m
      → IsDistinct name_kind (filter_map test m)
  unfolding filter_map
  filter_map-IsDistinct [] k d = tt
  filter_map-IsDistinct ((j, u) ∷ m) (k, ks) (e, d) = elim (Option-cases (test (j, u))) [
    | inl p ↦ rw p (filter_map-IsDistinct m ks d)
    | inr (s, p) ↦ rw p (
      filter_map-All s m ks
          (rw (sel (j, u) s p) (subst (λ i. All (λ x. (i =? key_of x) ≡ false) m) k e)),
      filter_map-IsDistinct m ks d,
    )
  ]

  collect-IsStrict : (syms : List SymbolDelta) → IsStrict name_kind (collect test (symbol_set syms))
  unfolding collect symbol_set
  collect-IsStrict syms = sort_by-IsStrict name_kind _ (
      filter_map-IsDistinct (symbol_set syms) (symbol_set_from-IsKeyed [] syms tt)
        (symbol_set_from-IsDistinct [] syms tt))

  -- What is collected from a file's symbols: those that stand last under their key and pass.
  mem-collect :
      (s : SymbolDelta) (syms : List SymbolDelta)
      → Mem s (collect test (symbol_set syms))
        ↔ ((find_last (symbol_key s) syms ≡ some s) × (test (symbol_key s, s) ≡ some s))
  unfolding collect
  mem-collect s syms = (
    λ m.
        ∥∥₁_elim
          ((mem-filter_map test (symbol_set syms)).0
            ((Perm.mem_iff (sort_by-perm name_kind _)).0 m))
          (hlevel SymbolDelta-set) (λ (e, me, p). found e me p),
    λ (last, p). (Perm.mem_iff (sort_by-perm name_kind _)).1 (
        (mem-filter_map test (symbol_set syms)).1 ∣ (
          (symbol_key s, s),
          mem_of_lookup _ s (symbol_set syms) (lookup-symbol_set (symbol_key s) syms ∙ last),
          p,
        ) ∣₁),
  )
    where
      found :
          (e : Bytes × SymbolDelta)
          → Mem e (symbol_set syms)
          → test e ≡ some s
          → (find_last (symbol_key s) syms ≡ some s) × (test (symbol_key s, s) ≡ some s)
      found (k, t) me p =
          let same : s ≡ t = sel (k, t) s p in
          let last : find_last k syms ≡ some t =
            sym (lookup-symbol_set k syms)
            ∙ lookup_of_mem SymbolDelta-set k t (symbol_set syms)
                (unfold symbol_set in symbol_set_from-IsDistinct [] syms tt) me in
          let keyed = symbol_key-find_last k t syms last in ground (arith, same, last, keyed, p)

-- Whether the body of a symbol that both sides have has changed: both hashes are known and differ.
abbrev pub IsChanged : Option SymbolDelta → SymbolDelta → Type 0
IsChanged none s = ⊥
IsChanged (some t) s = (t.hash ≢ []) × (s.hash ≢ []) × (t.hash ≢ s.hash)

hash_changed_iff : (s t : SymbolDelta) → (hash_changed t s ≡ true) ↔ IsChanged (some t) s
hash_changed_iff s t =
    ground (arith, list_beq_iff t.hash [], list_beq_iff s.hash [], list_beq_iff t.hash s.hash)

is_added_iff :
    (s : SymbolDelta) (k : Bytes) (syms : List SymbolDelta)
    → (is_added (symbol_set syms) (k, s) ≡ some s) ↔ (find_last k syms ≡ none)
is_added_iff s k syms = ground (arith, lookup-symbol_set k syms)

if_changed_iff :
    (s : SymbolDelta) (o : Option SymbolDelta) → (if_changed s o ≡ some s) ↔ IsChanged o s
if_changed_iff s none = (λ e. cc, λ e. absurd e)
if_changed_iff s (some t) = ground (arith, hash_changed_iff s t)

is_modified_iff :
    (s : SymbolDelta) (k : Bytes) (syms : List SymbolDelta)
    → (is_modified (symbol_set syms) (k, s) ≡ some s) ↔ (IsChanged (find_last k syms) s)
is_modified_iff s k syms = rw (lookup-symbol_set k syms) (if_changed_iff s (find_last k syms))

×_iff_right {ℓ} : {A B C : Type ℓ} → B ↔ C → (A × B) ↔ (A × C)
×_iff_right e = (λ (a, b). (a, e.0 b), λ (a, c). (a, e.1 c))

module _ (path : Bytes) (status : Status) (a_hash b_hash : Option Bytes)
    (a_syms b_syms : List SymbolDelta) where
  -- Take a changed file with the symbols `a_syms` before and `b_syms` after, where the last symbol
  -- with a given kind and name counts. Its diff lists as added exactly the symbols of the new side
  -- whose key the old side lacks, as removed exactly those of the old side whose key the new side
  -- lacks, and as modified exactly those of the new side whose key the old side has, with two
  -- non-empty and different body hashes. Each list is strictly increasing by name and then kind.
  pub file_diff_symbols :
      let fd = file_diff path status a_hash b_hash a_syms b_syms in
      ((s : SymbolDelta)
        → (Mem s fd.added_syms ↔ (
            (find_last (symbol_key s) b_syms ≡ some s) × (find_last (symbol_key s) a_syms ≡ none)))
          × (Mem s fd.removed_syms ↔ (
              (find_last (symbol_key s) a_syms ≡ some s)
              × (find_last (symbol_key s) b_syms ≡ none)))
          × (Mem s fd.modified_syms ↔ (
              (find_last (symbol_key s) b_syms ≡ some s)
              × (IsChanged (find_last (symbol_key s) a_syms) s))))
      × IsStrict name_kind fd.added_syms
      × IsStrict name_kind fd.removed_syms
      × IsStrict name_kind fd.modified_syms
  unfolding file_diff
  file_diff_symbols =
      let a_set = symbol_set a_syms in
      let b_set = symbol_set b_syms in
      let plus = is_added-IsSelection a_set in
      let minus = is_added-IsSelection b_set in
      let tilde = is_modified-IsSelection a_set in
      (
        λ s. (
          Iff.trans (mem-collect (is_added a_set) plus s b_syms)
              (×_iff_right (is_added_iff s (symbol_key s) a_syms)),
          Iff.trans (mem-collect (is_added b_set) minus s a_syms)
              (×_iff_right (is_added_iff s (symbol_key s) b_syms)),
          Iff.trans (mem-collect (is_modified a_set) tilde s b_syms)
              (×_iff_right (is_modified_iff s (symbol_key s) a_syms)),
        ),
        collect-IsStrict (is_added a_set) plus b_syms,
        collect-IsStrict (is_added b_set) minus a_syms,
        collect-IsStrict (is_modified a_set) tilde b_syms,
      )
