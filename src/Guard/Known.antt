-- ===== src/Guard/Known.antt =====
-- Sets of names, `map[string]struct{}`, as lists without repetition.
use mathlib.Core.List.{foldl}
use runecho.Prelude.{
  ◌≡◌, refl, ap, ◌∙◌, Bool, ◌||◌, ◌&&◌, Bool-cases, inl, inr, keep, List, [], ◌∷◌, ◌++◌, any, foldr,
  arith, if◌then◌else◌,
}
use runecho.Order.{nat_ord, list_ord, list_beq_iff, ◌=?◌}
use runecho.Text.{Bytes}

-- `_, ok := known[name]`
abbrev pub has_name : Bytes → List Bytes → Bool
has_name name known = any (λ k. k =? name) known

-- `known[name] = struct{}{}`
abbrev pub add_name : List Bytes → Bytes → List Bytes
add_name known name = if has_name name known then known else known ++ name ∷ []

-- A loop that adds every name of a list.
abbrev pub add_names : List Bytes → List Bytes → List Bytes
add_names names known = foldl add_name known names

pub has_name-append :
    (x : Bytes) (ks ls : List Bytes) → has_name x (ks ++ ls) ≡ (has_name x ks || has_name x ls)
has_name-append x [] ls = refl
has_name-append x (k ∷ ks) ls = ground (arith, has_name-append x ks ls)

pub has_name-add_name :
    (x name : Bytes) (known : List Bytes)
    → has_name x (add_name known name) ≡ (name =? x || has_name x known)
has_name-add_name x name known =
    ground (arith, has_name-append x known (name ∷ []), list_beq_iff name x)

pub has_name-add_names :
    (x : Bytes) (names known : List Bytes)
    → has_name x (add_names names known) ≡ (has_name x names || has_name x known)
has_name-add_names x [] known = refl
has_name-add_names x (n ∷ names) known =
    ground (arith, has_name-add_names x names (add_name known n), has_name-add_name x n known)

-- The names of the parts of a list.
pub has_name-foldr {ℓ} :
    {A : Type ℓ} (x : Bytes) (f : A → List Bytes) (rows : List A)
    → has_name x (foldr (λ r names. f r ++ names) [] rows) ≡ any (λ r. has_name x (f r)) rows
has_name-foldr x f [] = refl
has_name-foldr x f (r ∷ rows) =
    has_name-append x (f r) (foldr (λ r names. f r ++ names) [] rows)
    ∙ ap (λ b. has_name x (f r) || b) (has_name-foldr x f rows)

pub has_name-keep :
    (x : Bytes) (p : Bytes → Bool) (names : List Bytes)
    → has_name x (keep p names) ≡ (has_name x names && p x)
has_name-keep x p [] = refl
has_name-keep x p (n ∷ names) = elim (Bool-cases (n =? x)) [
  | inl e ↦
      let same : p n ≡ p x = ap p ((list_beq_iff n x).0 e) in
      ground (arith, has_name-keep x p names)
  | inr e ↦ ground (arith, has_name-keep x p names)
]
