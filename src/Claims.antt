-- ===== src/Claims.antt =====
-- internal/claims/claims.go: `KnownSet`, the names against which the claims of a text are checked.
mod Tests
use mathlib.Core.List.{foldl}
use runecho.Prelude.{
  ℕ, ◌≡◌, refl, sym, ap, Bool, true, false, not, ◌&&◌, ◌||◌, Bool-cases, inl, inr, Option, none,
  some, List, [], ◌∷◌, any, arith, ◌==◌, if◌then◌else◌,
}
use runecho.Order.{nat_ord, list_ord, list_beq_iff, ◌=?◌}
use runecho.Maps.{is_some}
use runecho.Text.{Bytes, contains_byte}
use runecho.Guard.Lang.{has_suffix}
use runecho.Guard.Known.{has_name, add_name, has_name-add_name}

-- The last segment of a name with one more byte before it.
abbrev pub segment_after : ℕ → Bytes → Option Bytes → Option Bytes
segment_after c n (some leaf) = some leaf
segment_after c n none = if c == b'.' then some n else none

-- What follows the last dot, if there is one: `strings.LastIndexByte(n, '.')` and `n[i+1:]`.
abbrev pub last_segment : Bytes → Option Bytes
last_segment [] = none
last_segment (c ∷ n) = segment_after c n (last_segment n)

abbrev pub add_leaf : List Bytes → Option Bytes → List Bytes
add_leaf set none = set
add_leaf set (some leaf) = add_name set leaf

-- One round of the loop.
abbrev pub add_claimable : List Bytes → Bytes → List Bytes
add_claimable set n = add_leaf (add_name set n) (last_segment n)

unfoldable pub claim_set : List Bytes → List Bytes
claim_set names = foldl add_claimable [] names

abbrev pub is_leaf : Bytes → Option Bytes → Bool
is_leaf x none = false
is_leaf x (some leaf) = leaf =? x

has_name-add_leaf :
    (x : Bytes) (set : List Bytes) (leaf : Option Bytes)
    → has_name x (add_leaf set leaf) ≡ (is_leaf x leaf || has_name x set)
has_name-add_leaf x set none = refl
has_name-add_leaf x set (some leaf) = has_name-add_name x leaf set

-- A name that ends in a dot and `x`, where `x` has no dot: its last segment is `x`.
abbrev pub ends_in : Bytes → Bytes → Bool
ends_in x n = not (contains_byte b'.' x) && has_suffix (b'.' ∷ x) n

is_some-last_segment : (n : Bytes) → is_some (last_segment n) ≡ contains_byte b'.' n
is_some-last_segment [] = refl
is_some-last_segment (c ∷ n) = cases (last_segment n) (is_some-last_segment n)
  where
    cases :
        (o : Option Bytes)
        → is_some o ≡ contains_byte b'.' n
        → is_some (segment_after c n o) ≡ (c == b'.' || contains_byte b'.' n)
    cases none e = ground (arith, e)
    cases (some leaf) e = ground (arith, e)

-- A byte is put before a name: the last segment stays, or the name becomes one.
grow-ends_in :
    (x n : Bytes) (c : ℕ) (o : Option Bytes)
    → is_some o ≡ contains_byte b'.' n
    → is_leaf x o ≡ ends_in x n
    → is_leaf x (segment_after c n o) ≡ ends_in x (c ∷ n)
grow-ends_in x n c o dot leaf = elim (Bool-cases (x =? n)) [
  | inl e ↦
      let same = (list_beq_iff x n).0 e in
      let dots : contains_byte b'.' x ≡ contains_byte b'.' n = ap (contains_byte b'.') same in
      let back : (n =? x) ≡ true = (list_beq_iff n x).1 (sym same) in grown o dot leaf dots back e
  | inr e ↦ other o dot leaf e
]
  where
    grown :
        (o : Option Bytes)
        → is_some o ≡ contains_byte b'.' n
        → is_leaf x o ≡ ends_in x n
        → contains_byte b'.' x ≡ contains_byte b'.' n
        → (n =? x) ≡ true
        → (x =? n) ≡ true
        → is_leaf x (segment_after c n o) ≡ ends_in x (c ∷ n)
    grown none dot leaf dots back e = ground (arith, dots, back, e)
    grown (some l) dot leaf dots back e = ground (arith, dots, e)

    other :
        (o : Option Bytes)
        → is_some o ≡ contains_byte b'.' n
        → is_leaf x o ≡ ends_in x n
        → (x =? n) ≡ false
        → is_leaf x (segment_after c n o) ≡ ends_in x (c ∷ n)
    other none dot leaf e = ground (arith, e, (list_beq_iff n x).0, (list_beq_iff x n).1)
    other (some l) dot leaf e = ground (arith, e)

is_leaf-last_segment : (x n : Bytes) → is_leaf x (last_segment n) ≡ ends_in x n
is_leaf-last_segment x [] = ground arith
is_leaf-last_segment x (c ∷ n) =
    grow-ends_in x n c (last_segment n) (is_some-last_segment n) (is_leaf-last_segment x n)

-- What a name of the index lets a text say.
abbrev pub answers : Bytes → Bytes → Bool
answers x n = n =? x || ends_in x n

has_name-add_claimables :
    (x : Bytes) (set names : List Bytes)
    → has_name x (foldl add_claimable set names) ≡ (has_name x set || any (answers x) names)
has_name-add_claimables x set [] = ground arith
has_name-add_claimables x set (n ∷ names) = ground (
  arith,
  has_name-add_claimables x (add_claimable set n) names,
  has_name-add_leaf x (add_name set n) (last_segment n),
  has_name-add_name x n set,
  is_leaf-last_segment x n,
)

-- A text may use `x` exactly where the index has the name `x`, or `x` has no dot and a name of the
-- index ends in a dot and `x`: no prefix and no middle segment of a name.
pub has_name-claim_set :
    (x : Bytes) (names : List Bytes)
    → has_name x (claim_set names)
      ≡ any (λ n. n =? x || (not (contains_byte b'.' x) && has_suffix (b'.' ∷ x) n)) names
unfolding claim_set
has_name-claim_set x names = has_name-add_claimables x [] names
