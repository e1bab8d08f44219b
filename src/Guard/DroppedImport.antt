-- ===== src/Guard/DroppedImport.antt =====
-- internal/guard/dropped_import.go: the imports that an edit removes while its new text still uses them.
-- The functions of extract.go that read names out of lines are arguments.
mod Tests
use runecho.Prelude.{
  ℕ, ◌≡◌, refl, ap, ◌∙◌, Bool, true, false, not, ◌&&◌, ◌||◌, Bool-cases, inl, inr, Option, none,
  some, List, [], ◌∷◌, any, keep, ltb, arith, if◌then◌else◌,
}
use runecho.Order.{nat_ord, list_ord, list_beq_iff, ◌=?◌}
use runecho.Int.{ℤ, pos, negsuc}
use runecho.Sort.{sort_by, any-sort_by}
use runecho.Maps.{lookup}
use runecho.Text.{Bytes}
use runecho.Guard.Types.{AddedLine}
use runecho.Guard.Lang.{Lang, is_js, is_python}
use runecho.Guard.Known.{has_name, add_names, has_name-keep, has_name-add_names}
use runecho.Guard.Validate.Seeds.{int_eq}
use runecho.Guard.Validate.{Extractors}

pub record DroppedImport : Type 0 where
  pub name : Bytes
  pub line_no : ℤ

-- The line of the first use; `uses[name] > 0`.
abbrev pub used_at : Option ℤ → Option ℤ
used_at none = none
used_at (some (pos n)) = if ltb 0 n then some (pos n) else none
used_at (some (negsuc n)) = none

abbrev pub add_used : Bytes → Option ℤ → List DroppedImport → List DroppedImport
add_used name none out = out
add_used name (some n) out = record { name = name; line_no = n } ∷ out

-- The loop over the dropped names.
abbrev pub collect_used : List (Bytes × ℤ) → List Bytes → List DroppedImport
collect_used uses [] = []
collect_used uses (name ∷ dropped) =
    add_used name (used_at (lookup name uses)) (collect_used uses dropped)

abbrev pub dropped_name : DroppedImport → Bytes
dropped_name d = d.name

abbrev pub is_used : Option ℤ → Bool
is_used none = false
is_used (some n) = true

-- The number of a line, where there is one and it is positive.
abbrev pub is_on_line : Option ℤ → Bool
is_on_line none = false
is_on_line (some (pos n)) = ltb 0 n
is_on_line (some (negsuc n)) = false

is_used-used_at : (o : Option ℤ) → is_used (used_at o) ≡ is_on_line o
is_used-used_at none = refl
is_used-used_at (some (pos n)) = ground arith
is_used-used_at (some (negsuc n)) = refl

-- A number is the one that was looked up.
abbrev pub is_line : Option ℤ → ℤ → Bool
is_line none n = false
is_line (some m) n = int_eq m n

used_at-line : (o : Option ℤ) (k : ℤ) → used_at o ≡ some k → is_line o k ≡ true
used_at-line none k e = cc
used_at-line (some (pos n)) k e = ground (arith, e)
used_at-line (some (negsuc n)) k e = cc

module _ (ex : Extractors) (locally_bound_names : Lang → List AddedLine → List Bytes)
    (first_use_lines : Lang → List AddedLine → List (Bytes × ℤ)) where
  abbrev pub name_set : Lang → List AddedLine → List Bytes
  name_set lang lines = add_names (ex.extract_imports lang lines) []

  abbrev pub bound_in : Lang → List AddedLine → List Bytes → List Bytes
  bound_in lang new_lines pre_bound =
      add_names pre_bound
        (add_names (ex.extract_defs lang new_lines) (locally_bound_names lang new_lines))

  abbrev pub dropped_from : List Bytes → List Bytes → List Bytes → List Bytes
  dropped_from old_imps new_imps bound =
      keep (λ n. not (has_name n new_imps) && not (has_name n bound)) old_imps

  unfoldable pub dropped_import_refs :
      Lang → List AddedLine → List AddedLine → List Bytes → List DroppedImport
  dropped_import_refs lang old_lines new_lines pre_bound =
      if not (is_python lang) && not (is_js lang)
      then []
      else sort_by dropped_name (
          collect_used (first_use_lines lang new_lines) (
            dropped_from (name_set lang old_lines) (name_set lang new_lines)
              (bound_in lang new_lines pre_bound)))

  has_name-bound_in :
      (lang : Lang) (new_lines : List AddedLine) (pre_bound : List Bytes) (x : Bytes)
      → has_name x (bound_in lang new_lines pre_bound) ≡ (
          has_name x pre_bound
          || (has_name x (ex.extract_defs lang new_lines)
              || has_name x (locally_bound_names lang new_lines)))
  has_name-bound_in lang new_lines pre_bound x =
      let defs = ex.extract_defs lang new_lines in
      let local = locally_bound_names lang new_lines in
      has_name-add_names x pre_bound (add_names defs local)
      ∙ ap (λ b. has_name x pre_bound || b) (has_name-add_names x defs local)

  any-collect_used :
      (x : Bytes) (uses : List (Bytes × ℤ)) (dropped : List Bytes)
      → any (λ d. dropped_name d =? x) (collect_used uses dropped)
        ≡ (has_name x dropped && is_used (used_at (lookup x uses)))
  any-collect_used x uses [] = refl
  any-collect_used x uses (n ∷ dropped) = elim (Bool-cases (n =? x)) [
    | inl e ↦
        let same : is_used (used_at (lookup n uses)) ≡ is_used (used_at (lookup x uses)) =
          ap (λ k. is_used (used_at (lookup k uses))) ((list_beq_iff n x).0 e) in
        any-add_used (used_at (lookup n uses))
        ∙ ground (arith, e, same, any-collect_used x uses dropped)
    | inr e ↦
        any-add_used (used_at (lookup n uses)) ∙ ground (arith, e, any-collect_used x uses dropped)
  ]
    where
      any-add_used :
          (u : Option ℤ)
          → any (λ d. dropped_name d =? x) (add_used n u (collect_used uses dropped))
            ≡ ((n =? x && is_used u) || any (λ d. dropped_name d =? x) (collect_used uses dropped))
      any-add_used none = ground arith
      any-add_used (some k) = ground arith

  line_of :
      (uses : List (Bytes × ℤ)) (dropped : List Bytes)
      → any (λ d. not (is_line (lookup d.name uses) d.line_no)) (collect_used uses dropped) ≡ false
  line_of uses [] = refl
  line_of uses (n ∷ dropped) =
      go (used_at (lookup n uses)) (used_at-line (lookup n uses)) (line_of uses dropped)
    where
      go :
          (u : Option ℤ)
          → ((k : ℤ) → u ≡ some k → is_line (lookup n uses) k ≡ true)
          → any (λ d. not (is_line (lookup d.name uses) d.line_no)) (collect_used uses dropped)
            ≡ false
          → any
              (λ d. not (is_line (lookup d.name uses) d.line_no))
              (add_used n u (collect_used uses dropped))
            ≡ false
      go none h rest = rest
      go (some k) h rest =
          let others =
            any (λ d. not (is_line (lookup d.name uses) d.line_no)) (collect_used uses dropped) in
          ap (λ b. not b || others) (h k refl) ∙ rest

  -- An import is reported exactly where the edit is of Python or JS, the old text imports the name,
  -- and the new text neither imports nor defines it nor binds it to a local name, the rest of the
  -- file does not bind it, and the first use of it in the new text is on a line with a positive
  -- number. Every report has the number of that line.
  pub dropped_import_refs_lem :
      (lang : Lang) (old_lines new_lines : List AddedLine) (pre_bound : List Bytes) (x : Bytes)
      → let found = dropped_import_refs lang old_lines new_lines pre_bound in
        let uses = first_use_lines lang new_lines in
        (any (λ d. dropped_name d =? x) found ≡ (
          (is_python lang || is_js lang)
          && has_name x (ex.extract_imports lang old_lines)
          && not (has_name x (ex.extract_imports lang new_lines))
          && not (has_name x (ex.extract_defs lang new_lines))
          && not (has_name x (locally_bound_names lang new_lines))
          && not (has_name x pre_bound)
          && is_on_line (lookup x uses)))
        × (any (λ d. not (is_line (lookup d.name uses) d.line_no)) found ≡ false)
  unfolding dropped_import_refs
  dropped_import_refs_lem lang old_lines new_lines pre_bound x =
      let old = name_set lang old_lines in
      let new = name_set lang new_lines in
      let bound = bound_in lang new_lines pre_bound in
      let uses = first_use_lines lang new_lines in
      let found = collect_used uses (dropped_from old new bound) in
      (
        ground (
          arith,
          any-sort_by dropped_name (λ (d : DroppedImport). dropped_name d =? x) found,
          any-collect_used x uses (dropped_from old new bound),
          has_name-keep x (λ n. not (has_name n new) && not (has_name n bound)) old,
          has_name-add_names x (ex.extract_imports lang old_lines) [],
          has_name-add_names x (ex.extract_imports lang new_lines) [],
          has_name-bound_in lang new_lines pre_bound x,
          is_used-used_at (lookup x uses),
        ),
        ground (
          arith,
          any-sort_by dropped_name
              (λ (d : DroppedImport). not (is_line (lookup d.name uses) d.line_no)) found,
          line_of uses (dropped_from old new bound),
        ),
      )
