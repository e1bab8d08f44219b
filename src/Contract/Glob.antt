-- ===== src/Contract/Glob.antt =====
-- internal/contract/contract.go: `matchGlob` and `matchSegments`. `path.Match` of the standard
-- library, which matches one segment, is a parameter: `none` is its `ErrBadPattern`.
pub mod Relation
use runecho.Prelude.{Bool, true, false, not, Option, none, some, List, [], ◌∷◌, ◌++◌, if◌then◌else◌}
use runecho.Order.{nat_ord, list_ord, ◌=?◌}
use runecho.Text.{Bytes, codes, has_prefix, trim_last, contains_any, split}

abbrev pub globstar : Bytes
globstar = codes "**"

abbrev pub is_empty {ℓ} : {A : Type ℓ} → List A → Bool
is_empty [] = true
is_empty (x ∷ xs) = false

-- `err == nil && ok`
abbrev pub is_match : Option Bool → Bool
is_match none = false
is_match (some ok) = ok

-- The loop over the suffixes of the segments, the whole list first.
unfoldable pub some_suffix : (List Bytes → Bool) → List Bytes → Bool
some_suffix matches [] = matches []
some_suffix matches (s ∷ seg) =
    let rest = some_suffix matches seg in if matches (s ∷ seg) then true else rest

module _ (path_match : Bytes → Bytes → Option Bool) where
  -- One segment against one pattern that is no `**`.
  abbrev pub match_head : (List Bytes → Bool) → Bytes → List Bytes → Bool
  match_head matches g [] = false
  match_head matches g (s ∷ seg) = if is_match (path_match g s) then matches seg else false

  unfoldable pub match_segments : List Bytes → List Bytes → Bool
  match_segments [] seg = is_empty seg
  match_segments (g ∷ pat) seg =
      if g =? globstar
      then (if is_empty pat then not (is_empty seg) else some_suffix (match_segments pat) seg)
      else match_head (match_segments pat) g seg

  unfoldable pub match_glob : Bytes → Bytes → Bool
  match_glob glob p =
      if glob =? p
      then true
      else if not (contains_any (codes "*?[") glob)
      then has_prefix (trim_last b'/' glob ++ b'/' ∷ []) p
      else match_segments (split b'/' glob) (split b'/' p)
