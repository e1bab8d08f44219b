-- ===== src/Suggest/Ranking.antt =====
-- What `Suggest` returns: the nearest known names, by a rank that no map order can change.
use mathlib.Core.Logic.Iff
use mathlib.Core.List.{
  filter_map, mem-filter_map, filter_map-cons-none, filter_map-cons-some, Mem, Perm,
}
use mathlib.Core.List.Perm
use mathlib.Core.Logic.{∥∥₁_elim, ∥∥₁_prop}
use mathlib.Core.HLevel.{×_prop}
use native.Mathlib.Bridge.{le_prop}
use runecho.Prelude.{
  ◌*◌, ◌≤◌, ◌≡◌, ◌↔◌, refl, sym, ap, ◌∙◌, subst, inl, inr, Option-cases, Bool, true, false, some,
  List, [], ◌∷◌, map, length, take, if◌then◌else◌, arith, All,
}
use runecho.Order.{nat_ord, list_ord, pair_ord, ◌=?◌, ◌<?◌}
use runecho.Sort.{
  sort_by, insert_by, IsStrict, IsDistinct, sort_by-IsStrict, sort_by-perm, sort_by-eq_of_perm,
}
use runecho.Text.{Bytes}
use runecho.Suggest.{Scored, rank, score, hits_of, offer, suggest}
use runecho.Suggest.Distance.Lev.{edit_distance, length-le-edit_distance}
use runecho.Suggest.Distance.Exact.{levenshtein_with-edit_distance}

-- `h` is a name at its edit distance, which is at most 2 and at most half of the length of `name`.
abbrev pub IsNear : Bytes → Scored → Type 0
IsNear name h = (edit_distance name h.name ≡ h.dist) × (h.dist ≤ 2) × (2 * h.dist ≤ length name)

score→IsNear :
    (name cand : Bytes) (h : Scored) → score name cand ≡ some h → (h.name ≡ cand) × IsNear name h
unfolding score
score→IsNear name cand h e =
    let same : h.name ≡ cand = ground arith in
    (same, rw same (ground (arith, levenshtein_with-edit_distance name cand 2)))

IsNear→score : (name : Bytes) (h : Scored) → IsNear name h → score name h.name ≡ some h
unfolding score
IsNear→score name h e =
    ground
      (arith, levenshtein_with-edit_distance name h.name 2, length-le-edit_distance name h.name)

IsNear-prop : (name : Bytes) (h : Scored) → IsProp (IsNear name h)
IsNear-prop name h = hlevel le_prop

-- The hits are the known names that are near, each at its distance.
mem-hits_of :
    (name : Bytes) (known : List Bytes) (h : Scored)
    → Mem h (hits_of name known) ↔ (Mem h.name known × IsNear name h)
unfolding hits_of
mem-hits_of name known h = (
  λ m.
      ∥∥₁_elim ((mem-filter_map (score name) known).0 m) (×_prop ∥∥₁_prop (IsNear-prop name h))
        (λ (c, mc, e).
          let (same, near) = score→IsNear name c h e in
          (subst (λ n. Mem n known) (sym same) mc, near)),
  λ (m, near). (mem-filter_map (score name) known).1 ∣ (h.name, m, IsNear→score name h near) ∣₁,
)

abbrev pub self : Bytes → Bytes
self n = n

hits_of-All :
    (name : Bytes) (h : Scored) (known : List Bytes)
    → All (λ n. (h.name =? n) ≡ false) known
    → All (λ s. (rank h =? rank s) ≡ false) (hits_of name known)
unfolding hits_of filter_map
hits_of-All name h [] d = tt
hits_of-All name h (n ∷ known) (e, d) = elim (Option-cases (score name n)) [
  | inl p ↦ rw (filter_map-cons-none (score name) n known p) (hits_of-All name h known d)
  | inr (s, p) ↦
      let same : s.name ≡ n = (score→IsNear name n s p).0 in
      rw (filter_map-cons-some (score name) n known p)
        (ground (arith, e, same), hits_of-All name h known d)
]

-- Distinct known names give hits of distinct ranks.
hits_of-IsDistinct :
    (name : Bytes) (known : List Bytes)
    → IsDistinct self known
    → IsDistinct rank (hits_of name known)
unfolding hits_of filter_map
hits_of-IsDistinct name [] d = tt
hits_of-IsDistinct name (n ∷ known) (e, d) = elim (Option-cases (score name n)) [
  | inl p ↦ rw (filter_map-cons-none (score name) n known p) (hits_of-IsDistinct name known d)
  | inr (s, p) ↦
      let same : s.name ≡ n = (score→IsNear name n s p).0 in
      rw (filter_map-cons-some (score name) n known p) (
        hits_of-All name s known (subst (λ m. All (λ k. (m =? k) ≡ false) known) (sym same) e),
        hits_of-IsDistinct name known d,
      )
]

-- `offer` by the sorted hits.
present : List Scored → List Bytes × Bool
present [] = ([], false)
present (h ∷ hits) = (map (λ s. s.name) (take 3 (h ∷ hits)), true)

present-insert_by :
    (h : Scored) (hits : List Scored)
    → present (insert_by rank h hits) ≡ (map (λ s. s.name) (take 3 (insert_by rank h hits)), true)
unfolding present
present-insert_by h [] = refl
present-insert_by h (g ∷ hits) =
    elim (rank g <? rank h)
      as (λ b.
        let l = if b then g ∷ insert_by rank h hits else h ∷ g ∷ hits in
        present l ≡ (map (λ s. s.name) (take 3 l), true)) [ true ↦ refl | false ↦ refl ]

offer-present : (hits : List Scored) → offer hits ≡ present (sort_by rank hits)
unfolding offer present sort_by
offer-present [] = refl
offer-present (h ∷ hits) = sym (present-insert_by h (sort_by rank hits))

suggest-present :
    (name : Bytes) (known : List Bytes)
    → suggest name known ≡ present (sort_by rank (hits_of name known))
suggest-present name known = unfold suggest in offer-present (hits_of name known)

present_found : (ranked : List Scored) → ((present ranked).1 ≡ false) ↔ (ranked ≡ [])
unfolding present
present_found [] = (λ _. refl, λ _. refl)
present_found (h ∷ ranked) = (λ e. cc, λ e. cc)

present_names : (ranked : List Scored) → (present ranked).0 ≡ map (λ s. s.name) (take 3 ranked)
unfolding present
present_names [] = refl
present_names (h ∷ ranked) = refl

-- For distinct known names: there is a list of all known names that are near `name` (at an edit
-- distance of at most 2 and of at most half of its length), each with its distance, in strictly
-- increasing order of distance and then name. `suggest` returns the first three names of that
-- list, and says that it found none exactly when the list is empty.
pub suggest_ranked :
    (name : Bytes) (known : List Bytes)
    → IsDistinct self known
    → (ranked : List Scored) × IsStrict rank ranked
      × ((h : Scored) → Mem h ranked ↔ (Mem h.name known × IsNear name h))
      × ((suggest name known).0 ≡ map (λ s. s.name) (take 3 ranked))
      × (((suggest name known).1 ≡ false) ↔ (ranked ≡ []))
suggest_ranked name known d =
    let hits = hits_of name known in
    let ranked = sort_by rank hits in
    let same = sort_by-perm rank hits in
    (
      ranked,
      sort_by-IsStrict rank hits (hits_of-IsDistinct name known d),
      λ h. Iff.trans (Perm.mem_iff same) (mem-hits_of name known h),
      rw (suggest-present name known) (present_names ranked),
      rw (suggest-present name known) (present_found ranked),
    )

Scored-set : IsSet Scored
Scored-set = hlevel

-- The suggestions do not depend on the order in which a map of distinct known names is walked.
pub suggest-eq_of_perm :
    (name : Bytes) (known known' : List Bytes)
    → IsDistinct self known
    → IsDistinct self known'
    → Perm known known'
    → suggest name known ≡ suggest name known'
suggest-eq_of_perm name known known' d d' p =
    let hits : Perm (hits_of name known) (hits_of name known') =
      unfold hits_of in Perm.filter_map (score name) p in
    let sorted =
      sort_by-eq_of_perm rank Scored-set (hits_of name known) (hits_of name known')
        (hits_of-IsDistinct name known d) (hits_of-IsDistinct name known' d') hits in
    suggest-present name known ∙ ap present sorted ∙ sym (suggest-present name known')
