-- ===== src/Contract/Scope/Laws.antt =====
-- Which paths a contract allows: the last match decides, and without a positive glob none is.
use runecho.Prelude.{
  ◌≡◌, ◌↔◌, ◌⊎◌, refl, ap, ◌∙◌, inl, inr, Bool, true, false, not, Bool-cases, Option, List, [], ◌∷◌,
  ◌++◌, arith, keep, any, All, if◌then◌else◌,
}
use runecho.Text.{Bytes}
use runecho.Contract.Types.{Pattern, Contract}
use runecho.Contract.Glob.{match_glob}
use runecho.Contract.Scope.{has_positive, in_scope_from, in_scope, out_of_scope}

module _ (path_match : Bytes → Bytes → Option Bool) where
  abbrev pub hits : Bytes → Pattern → Bool
  hits rel_path p = match_glob path_match p.glob rel_path

  -- The last of the patterns that match the path is positive.
  abbrev pub LastIsPositive : List Pattern → Bytes → Type 0
  LastIsPositive patterns rel_path =
      (before : List Pattern) × (p : Pattern) × (after : List Pattern) × (patterns
        ≡ before ++ p ∷ after)
      × (hits rel_path p ≡ true)
      × (p.negated ≡ false)
      × All (λ q. hits rel_path q ≡ false) after

  -- No pattern matches the path, and the verdict was positive before.
  abbrev Untouched : Bool → List Pattern → Bytes → Type 0
  Untouched verdict patterns rel_path =
      (verdict ≡ true) × All (λ q. hits rel_path q ≡ false) patterns

  extend :
      (p : Pattern) (patterns : List Pattern) (rel_path : Bytes)
      → LastIsPositive patterns rel_path
      → LastIsPositive (p ∷ patterns) rel_path
  extend p patterns rel_path (before, q, after, e, hit, pos, rest) =
      (p ∷ before, q, after, ap (◌∷◌ p) e, hit, pos, rest)

  in_scope_from→LastIsPositive :
      (verdict : Bool) (patterns : List Pattern) (rel_path : Bytes)
      → in_scope_from path_match verdict patterns rel_path ≡ true
      → LastIsPositive patterns rel_path ⊎ Untouched verdict patterns rel_path
  unfolding in_scope_from
  in_scope_from→LastIsPositive verdict [] rel_path e = inr (e, tt)
  in_scope_from→LastIsPositive verdict (p ∷ patterns) rel_path e =
      elim (Bool-cases (hits rel_path p)) [
        | inl hit ↦
            elim (in_scope_from→LastIsPositive (not p.negated) patterns rel_path (rw hit at e)) [
              | inl last ↦ inl (extend p patterns rel_path last)
              | inr (pos, rest) ↦ inl ([], p, patterns, refl, hit, ground (arith, pos), rest)
            ]
        | inr miss ↦ elim (in_scope_from→LastIsPositive verdict patterns rel_path (rw miss at e)) [
          | inl last ↦ inl (extend p patterns rel_path last)
          | inr (pos, rest) ↦ inr (pos, (miss, rest))
        ]
      ]

  in_scope_from_untouched :
      (verdict : Bool) (patterns : List Pattern) (rel_path : Bytes)
      → All (λ q. hits rel_path q ≡ false) patterns
      → in_scope_from path_match verdict patterns rel_path ≡ verdict
  unfolding in_scope_from
  in_scope_from_untouched verdict [] rel_path h = refl
  in_scope_from_untouched verdict (p ∷ patterns) rel_path (miss, h) =
      rw miss (in_scope_from_untouched verdict patterns rel_path h)

  in_scope_from-append :
      (verdict : Bool) (before after : List Pattern) (rel_path : Bytes)
      → in_scope_from path_match verdict (before ++ after) rel_path
        ≡ in_scope_from path_match (in_scope_from path_match verdict before rel_path) after rel_path
  unfolding in_scope_from
  in_scope_from-append verdict [] after rel_path = refl
  in_scope_from-append verdict (p ∷ before) after rel_path =
      in_scope_from-append (if hits rel_path p then not p.negated else verdict) before after
        rel_path

  in_scope_from-last :
      (verdict : Bool) (p : Pattern) (after : List Pattern) (rel_path : Bytes)
      → hits rel_path p ≡ true
      → p.negated ≡ false
      → All (λ q. hits rel_path q ≡ false) after
      → in_scope_from path_match verdict (p ∷ after) rel_path ≡ true
  in_scope_from-last verdict p after rel_path hit pos rest =
      unfold in_scope_from in rw (hit, pos) (in_scope_from_untouched true after rel_path rest)

  -- A path is in scope exactly when some pattern matches it and the last one that does is not
  -- negated.
  pub in_scope_iff :
      (c : Contract) (rel_path : Bytes)
      → (in_scope path_match c rel_path ≡ true) ↔ LastIsPositive c.patterns rel_path
  in_scope_iff c rel_path = (
    λ e. elim (in_scope_from→LastIsPositive false c.patterns rel_path (unfold in_scope in e)) [
      | inl last ↦ last
      | inr (pos, _) ↦ cc
    ],
    λ (before, p, after, e, hit, pos, rest).
        unfold in_scope in
        rw e (
          in_scope_from-append false before (p ∷ after) rel_path
          ∙ in_scope_from-last (in_scope_from path_match false before rel_path) p after rel_path hit
              pos rest),
  )

  in_scope_from_negative :
      (patterns : List Pattern) (rel_path : Bytes)
      → any (λ p. not p.negated) patterns ≡ false
      → in_scope_from path_match false patterns rel_path ≡ false
  unfolding in_scope_from
  in_scope_from_negative [] rel_path h = refl
  in_scope_from_negative (p ∷ patterns) rel_path h =
      ground (arith, in_scope_from_negative patterns rel_path)

  keep_all :
      (f : Bytes → Bool) (paths : List Bytes) → ((p : Bytes) → f p ≡ true) → keep f paths ≡ paths
  keep_all f [] h = refl
  keep_all f (p ∷ paths) h = rw (h p, keep) (ap (◌∷◌ p) (keep_all f paths h))

  -- A contract whose globs are all negated, or that has none, allows no path: `out_of_scope` then
  -- returns every path that it is given.
  pub out_of_scope_negative :
      (c : Contract) (paths : List Bytes)
      → has_positive c ≡ false
      → ((p : Bytes) → in_scope path_match c p ≡ false) × (out_of_scope path_match c paths ≡ paths)
  unfolding in_scope has_positive out_of_scope
  out_of_scope_negative c paths h =
      let never = λ (p : Bytes). in_scope_from_negative c.patterns p h in
      (never, keep_all (λ p. not (in_scope path_match c p)) paths (λ p. ap not (never p)))
