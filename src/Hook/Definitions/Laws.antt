-- ===== src/Hook/Definitions/Laws.antt =====
-- Which definitions are reported: the sets that an edit removes or adds, and the loop that asks the
-- store about each of them.
use runecho.Prelude.{
  ℕ, ◌≡◌, refl, ap, ◌∙◌, Bool, true, false, not, ◌&&◌, ◌||◌, Bool-cases, inl, inr, Option, none,
  some, List, [], ◌∷◌, any, keep, arith, if◌then◌else◌,
}
use runecho.Order.{nat_ord, list_ord, list_beq_iff, ◌=?◌}
use runecho.Sort.{any-sort_by}
use runecho.Text.{Bytes}
use runecho.Guard.Lang.{Lang}
use runecho.Guard.Known.{has_name, has_name-keep}
use runecho.Guard.Validate.{Extractors}
use runecho.Hook.Store.{Files, Store, latest, open_latest_snapshot}
use runecho.Hook.Definitions.{
  def_set, without, deleted_defs, added_defs, exclude_self, DefWarning, Checked, warn_one,
  warn_each, answered_by, check_latest, check_dangling_refs,
}

-- A name is in the list of the definitions that an edit removes where the old text defines it and
-- the new text does not, and in the list of those that it adds where it is the other way round.
pub has_name-deleted_defs :
    (ex : Extractors) (lang : Lang) (old_text new_text x : Bytes)
    → (has_name x (deleted_defs ex lang old_text new_text)
        ≡ (has_name x (def_set ex lang old_text) && not (has_name x (def_set ex lang new_text))))
      × (has_name x (added_defs ex lang old_text new_text)
          ≡ (has_name x (def_set ex lang new_text) && not (has_name x (def_set ex lang old_text))))
unfolding deleted_defs added_defs
has_name-deleted_defs ex lang old_text new_text x =
    let old = def_set ex lang old_text in
    let new = def_set ex lang new_text in (guarded old new, guarded new old)
  where
    guarded :
        (names others : List Bytes)
        → has_name x (if names =? [] then [] else without names others)
          ≡ (has_name x names && not (has_name x others))
    guarded [] others = refl
    guarded (n ∷ names) others =
        any-sort_by (λ (s : Bytes). s) (λ k. k =? x)
          (keep (λ d. not (has_name d others)) (n ∷ names))
        ∙ has_name-keep x (λ d. not (has_name d others)) (n ∷ names)

abbrev pub is_about : Bytes → DefWarning → Bool
is_about x w = w.symbol =? x

abbrev pub is_flagged : Option (List Bytes × ℕ) → Bool
is_flagged none = false
is_flagged (some ([], unknown)) = false
is_flagged (some (p ∷ others, unknown)) = true

is_about-warn_one :
    (x d : Bytes) (o : Option (List Bytes × ℕ)) (rest : Checked)
    → any (is_about x) (warn_one d o rest).warns
      ≡ ((d =? x && is_flagged o) || any (is_about x) rest.warns)
is_about-warn_one x d none rest = ground arith
is_about-warn_one x d (some ([], unknown)) rest = ground arith
is_about-warn_one x d (some (p ∷ others, unknown)) rest = ground arith

is_about-warn_each :
    (x : Bytes) (f : Bytes → Option (List Bytes × ℕ)) (ds : List Bytes)
    → any (is_about x) (warn_each f ds).warns ≡ (has_name x ds && is_flagged (f x))
unfolding warn_each
is_about-warn_each x f [] = refl
is_about-warn_each x f (d ∷ ds) = elim (Bool-cases (d =? x)) [
  | inl e ↦
      let same : is_flagged (f d) ≡ is_flagged (f x) =
        ap (λ s. is_flagged (f s)) ((list_beq_iff d x).0 e) in
      ground (arith, is_about-warn_one x d (f d) (warn_each f ds), is_about-warn_each x f ds)
  | inr e ↦ ground (arith, is_about-warn_one x d (f d) (warn_each f ds), is_about-warn_each x f ds)
]

-- Whether a file other than the edited one refers to a name.
abbrev pub is_referred : Bytes → Option (List Bytes) → Bool
is_referred self none = false
is_referred self (some paths) = any (λ p. not (not (self =? []) && p =? self)) paths

is_flagged-exclude_self :
    (self : Bytes) (o : Option (List Bytes))
    → is_flagged (answered_by (λ paths. (exclude_self paths self, 0)) o) ≡ is_referred self o
is_flagged-exclude_self self none = refl
is_flagged-exclude_self self (some paths) = go paths
  where
    go :
        (ps : List Bytes)
        → is_flagged (some (exclude_self ps self, 0))
          ≡ any (λ p. not (not (self =? []) && p =? self)) ps
    go [] = refl
    go (p ∷ ps) = ground (arith, go ps)

module _ (files : Files) (store : Store) (dir file_path : Bytes) where
  abbrev refs_in : ℕ → Bytes → Bytes → Option (List Bytes × ℕ)
  refs_in snap_id self d =
      answered_by (λ paths. (exclude_self paths self, 0)) (store.refs_to_name snap_id d)

  check-latest :
      (snap_id : ℕ) (self d : Bytes) (ds : List Bytes)
      → open_latest_snapshot files store dir file_path ≡ latest snap_id self
      → check_dangling_refs files store dir file_path (d ∷ ds)
        ≡ warn_each (refs_in snap_id self) (d ∷ ds)
  unfolding check_dangling_refs
  check-latest snap_id self d ds e = ap (check_latest (λ n s. warn_each (refs_in n s) (d ∷ ds))) e

  check-deleted :
      (snap_id : ℕ) (self x : Bytes) (deleted : List Bytes)
      → open_latest_snapshot files store dir file_path ≡ latest snap_id self
      → any (is_about x) (check_dangling_refs files store dir file_path deleted).warns
        ≡ (has_name x deleted && is_referred self (store.refs_to_name snap_id x))
  unfolding check_dangling_refs
  check-deleted snap_id self x [] e = refl
  check-deleted snap_id self x (d ∷ ds) e =
      ap (λ (c : Checked). any (is_about x) c.warns) (check-latest snap_id self d ds e)
      ∙ is_about-warn_each x (refs_in snap_id self) (d ∷ ds)
      ∙ ap (λ b. has_name x (d ∷ ds) && b)
          (is_flagged-exclude_self self (store.refs_to_name snap_id x))

  -- Take a store with a latest snapshot. The edit is reported for a name exactly where its old text
  -- defines the name, its new text does not, and a file other than the edited one refers to the
  -- name in that snapshot.
  pub check_dangling_refs-deleted_defs :
      (ex : Extractors) (lang : Lang) (old_text new_text x self : Bytes) (snap_id : ℕ)
      → open_latest_snapshot files store dir file_path ≡ latest snap_id self
      → any
          (is_about x)
          (check_dangling_refs files store dir file_path
            (deleted_defs ex lang old_text new_text)).warns
        ≡ (has_name x (def_set ex lang old_text)
            && not (has_name x (def_set ex lang new_text))
            && is_referred self (store.refs_to_name snap_id x))
  check_dangling_refs-deleted_defs ex lang old_text new_text x self snap_id e =
      let (deleted, added) = has_name-deleted_defs ex lang old_text new_text x in
      check-deleted snap_id self x (deleted_defs ex lang old_text new_text) e
      ∙ ap (λ b. b && is_referred self (store.refs_to_name snap_id x)) deleted

  -- The store has answered for a name, and only the edited file refers to it.
  abbrev pub IsClear : ℕ → Bytes → Bytes → Type 0
  IsClear snap_id self d =
      (paths : List Bytes) × (store.refs_to_name snap_id d ≡ some paths)
      × (is_referred self (some paths) ≡ false)
