-- ===== src/Contract/Glob/Relation.antt =====
-- What it means for segments to match a pattern with `**`, with no search order in it.
use runecho.Prelude.{
  ◌≡◌, ◌↔◌, ◌⊎◌, refl, sym, ◌∙◌, inl, inr, Bool, true, false, not, Bool-cases, Option, none, some,
  List, [], ◌∷◌, ◌++◌, arith, if◌then◌else◌,
}
use runecho.Order.{nat_ord, list_ord, list_beq_iff, ◌=?◌}
use runecho.Text.{Bytes, codes, has_prefix, trim_last, contains_any}
use runecho.Text.Laws.{has_prefix→append, has_prefix-append}
use runecho.Contract.Glob.{
  globstar, is_empty, is_match, some_suffix, match_head, match_segments, match_glob,
}

module _ (path_match : Bytes → Bytes → Option Bool) where
  -- A `**` at the end takes one or more segments, a `**` before other patterns any number.
  pub data SegMatches : List Bytes → List Bytes → Type 0 where
    none_left : SegMatches [] []
    segment :
        {g s : Bytes} {pat seg : List Bytes}
        → (g =? globstar) ≡ false
        → path_match g s ≡ some true
        → SegMatches pat seg
        → SegMatches (g ∷ pat) (s ∷ seg)
    contents : {g s : Bytes} {seg : List Bytes} → g ≡ globstar → SegMatches (g ∷ []) (s ∷ seg)
    leave :
        {g h : Bytes} {pat seg : List Bytes}
        → g ≡ globstar
        → SegMatches (h ∷ pat) seg
        → SegMatches (g ∷ h ∷ pat) seg
    skip :
        {g h s : Bytes} {pat seg : List Bytes}
        → g ≡ globstar
        → SegMatches (g ∷ h ∷ pat) seg
        → SegMatches (g ∷ h ∷ pat) (s ∷ seg)

  some_suffix→SegMatches :
      (g h : Bytes) (pat seg : List Bytes)
      → g ≡ globstar
      → ((seg' : List Bytes)
          → match_segments path_match (h ∷ pat) seg' ≡ true
          → SegMatches (h ∷ pat) seg')
      → some_suffix (match_segments path_match (h ∷ pat)) seg ≡ true
      → SegMatches (g ∷ h ∷ pat) seg
  unfolding some_suffix
  some_suffix→SegMatches g h pat [] star sound e = leave star (sound [] e)
  some_suffix→SegMatches g h pat (s ∷ seg) star sound e =
      elim (Bool-cases (match_segments path_match (h ∷ pat) (s ∷ seg))) [
        | inl now ↦ leave star (sound (s ∷ seg) now)
        | inr later ↦ skip star (some_suffix→SegMatches g h pat seg star sound (rw later at e))
      ]

  is_match→some : (o : Option Bool) → is_match o ≡ true → o ≡ some true
  is_match→some none e = cc
  is_match→some (some true) e = refl
  is_match→some (some false) e = cc

  match_head→SegMatches :
      (g : Bytes) (pat seg : List Bytes)
      → (g =? globstar) ≡ false
      → ((seg' : List Bytes) → match_segments path_match pat seg' ≡ true → SegMatches pat seg')
      → match_head path_match (match_segments path_match pat) g seg ≡ true
      → SegMatches (g ∷ pat) seg
  match_head→SegMatches g pat [] plain sound e = cc
  match_head→SegMatches g pat (s ∷ seg) plain sound e =
      elim (Bool-cases (is_match (path_match g s))) [
        | inl ok ↦ segment plain (is_match→some (path_match g s) ok) (sound seg (rw ok at e))
        | inr bad ↦ absurd (cc (rw bad at e))
      ]

  star→SegMatches :
      (g : Bytes) (pat seg : List Bytes)
      → g ≡ globstar
      → ((seg' : List Bytes) → match_segments path_match pat seg' ≡ true → SegMatches pat seg')
      → (if is_empty pat
          then not (is_empty seg)
          else some_suffix (match_segments path_match pat) seg)
        ≡ true
      → SegMatches (g ∷ pat) seg
  star→SegMatches g [] [] star sound e = cc
  star→SegMatches g [] (s ∷ seg) star sound e = contents star
  star→SegMatches g (h ∷ pat) seg star sound e = some_suffix→SegMatches g h pat seg star sound e

  -- What the matcher accepts is a match.
  match_segments→SegMatches :
      (pat seg : List Bytes) → match_segments path_match pat seg ≡ true → SegMatches pat seg
  match_segments→SegMatches [] [] e = none_left
  match_segments→SegMatches [] (s ∷ seg) e = unfold match_segments in cc
  match_segments→SegMatches (g ∷ pat) seg e = elim (Bool-cases (g =? globstar)) [
    | inl star ↦
        star→SegMatches g pat seg ((list_beq_iff g globstar).0 star) (match_segments→SegMatches pat)
          (unfold match_segments in ground (arith, star, e))
    | inr plain ↦
        match_head→SegMatches g pat seg plain (match_segments→SegMatches pat)
          (unfold match_segments in ground (arith, plain, e))
  ]

  some_suffix-here :
      (f : List Bytes → Bool) (seg : List Bytes) → f seg ≡ true → some_suffix f seg ≡ true
  unfolding some_suffix
  some_suffix-here f [] e = e
  some_suffix-here f (s ∷ seg) e = rw e

  some_suffix-later :
      (f : List Bytes → Bool) (s : Bytes) (seg : List Bytes)
      → some_suffix f seg ≡ true
      → some_suffix f (s ∷ seg) ≡ true
  unfolding some_suffix
  some_suffix-later f s seg e = ground (arith, e)

  match_segments-segment :
      (g s : Bytes) (pat seg : List Bytes)
      → (g =? globstar) ≡ false
      → path_match g s ≡ some true
      → match_segments path_match (g ∷ pat) (s ∷ seg) ≡ match_segments path_match pat seg
  unfolding match_segments
  match_segments-segment g s pat seg plain ok = rw (plain, ok)

  match_segments-star :
      (g h : Bytes) (pat seg : List Bytes)
      → g ≡ globstar
      → match_segments path_match (g ∷ h ∷ pat) seg
        ≡ some_suffix (match_segments path_match (h ∷ pat)) seg
  unfolding match_segments
  match_segments-star g h pat seg star = rw ((list_beq_iff g globstar).1 star)

  -- Every match is accepted.
  SegMatches→match_segments :
      {pat seg : List Bytes} → SegMatches pat seg → match_segments path_match pat seg ≡ true
  SegMatches→match_segments none_left = unfold match_segments in refl
  SegMatches→match_segments (segment {g = g} {s = s} {pat = pat} {seg = seg} plain ok d) =
      match_segments-segment g s pat seg plain ok ∙ SegMatches→match_segments d
  SegMatches→match_segments (contents {g = g} star) =
      unfold match_segments in rw ((list_beq_iff g globstar).1 star)
  SegMatches→match_segments (leave {g = g} {h = h} {pat = pat} {seg = seg} star d) =
      match_segments-star g h pat seg star
      ∙ some_suffix-here (match_segments path_match (h ∷ pat)) seg (SegMatches→match_segments d)
  SegMatches→match_segments (skip {g = g} {h = h} {s = s} {pat = pat} {seg = seg} star d) =
      match_segments-star g h pat (s ∷ seg) star
      ∙ some_suffix-later (match_segments path_match (h ∷ pat)) s seg
          (sym (match_segments-star g h pat seg star) ∙ SegMatches→match_segments d)

  -- Whatever `path.Match` decides of one segment, `match_segments` is true exactly of the segments
  -- that match: a pattern other than `**` takes one segment that `path.Match` accepts without an
  -- error, a last `**` takes one or more segments, and any other `**` takes any number.
  pub match_segments_iff :
      (pat seg : List Bytes) → (match_segments path_match pat seg ≡ true) ↔ SegMatches pat seg
  match_segments_iff pat seg = (match_segments→SegMatches pat seg, SegMatches→match_segments)

  below_dir :
      (glob p : Bytes)
      → (glob =? p) ≡ false
      → (p ≡ glob) ⊎ ((below : Bytes) × (p ≡ (trim_last b'/' glob ++ b'/' ∷ []) ++ below))
      → has_prefix (trim_last b'/' glob ++ b'/' ∷ []) p ≡ true
  below_dir glob p other (inl e) = cc (other, (list_beq_iff glob p).1 (sym e))
  below_dir glob p other (inr (below, e)) =
      rw e (has_prefix-append (trim_last b'/' glob ++ b'/' ∷ []) below)

  -- A glob with none of `*`, `?` and `[` matches exactly the path that it names and the paths below
  -- it: those that continue the glob, less one slash at its end, with a slash.
  pub match_glob_plain :
      (glob p : Bytes)
      → contains_any (codes "*?[") glob ≡ false
      → (match_glob path_match glob p ≡ true)
        ↔ ((p ≡ glob) ⊎ ((below : Bytes) × (p ≡ (trim_last b'/' glob ++ b'/' ∷ []) ++ below)))
  unfolding match_glob
  match_glob_plain glob p plain = elim (Bool-cases (glob =? p)) [
    | inl same ↦
        let e : p ≡ glob = sym ((list_beq_iff glob p).0 same) in rw same (λ _. inl e, λ _. refl)
    | inr other ↦
        rw (other, plain)
          (
            λ h. inr (has_prefix→append (trim_last b'/' glob ++ b'/' ∷ []) p h),
            below_dir glob p other,
          )
  ]
