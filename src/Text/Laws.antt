-- ===== src/Text/Laws.antt =====
-- Laws of the functions on texts.

use runecho.Prelude.{
  ℕ, ◌≡◌, refl, ap, true, false, List, [], ◌∷◌, ◌++◌, arith, ◌==◌, ==_iff, All, leb, length, none,
  ◌∙◌,
}
use runecho.Order.{nat_ord, list_ord, ◌=?◌}
use runecho.Text.{
  Bytes, has_prefix, contains_byte, is_space, trim_left, trim_right, trim_space, split, drop_cr,
  cut, line_feed, drop_last_empty, scan_limited, scan_lines,
}

pub has_prefix→append : (p s : Bytes) → has_prefix p s ≡ true → (r : Bytes) × (s ≡ p ++ r)
has_prefix→append [] s h = (s, refl)
has_prefix→append (c ∷ p) [] h = cc
has_prefix→append (c ∷ p) (d ∷ s) h =
    let (r, e) = has_prefix→append p s (ground arith) in (r, ground (arith, ==_iff c d, e))

pub has_prefix-append : (p r : Bytes) → has_prefix p (p ++ r) ≡ true
has_prefix-append [] r = refl
has_prefix-append (c ∷ p) r = ground (arith, ==_iff c c, has_prefix-append p r)

-- A text without white space is its own line and its own trimmed form.
abbrev pub IsSolid : Bytes → Type 0
IsSolid s = All (λ c. is_space c ≡ false) s

pub split-line :
    (l s : Bytes) → IsSolid l → split line_feed (l ++ line_feed ∷ s) ≡ l ∷ split line_feed s
split-line [] s h = refl
split-line (c ∷ l) s (hc, h) =
    let other : (c == line_feed) ≡ false = ground (arith, hc) in
    let ih = split-line l s h in rw other (ap (λ (x : List Bytes). push c x) ih)
  where
    push : ℕ → List Bytes → List Bytes
    push c [] = []
    push c (x ∷ xs) = (c ∷ x) ∷ xs

pub drop_cr_solid : (s : Bytes) → IsSolid s → drop_cr s ≡ s
drop_cr_solid [] h = refl
drop_cr_solid (c ∷ []) h = ground arith
drop_cr_solid (c ∷ d ∷ s) (hc, h) = ap (◌∷◌ c) (drop_cr_solid (d ∷ s) h)

trim_right_solid : (s : Bytes) → IsSolid s → trim_right s ≡ s
trim_right_solid [] h = refl
trim_right_solid (c ∷ []) (hc, h) = rw hc
trim_right_solid (c ∷ d ∷ s) (hc, h) = rw (trim_right_solid (d ∷ s) h)

trim_left_solid : (s : Bytes) → IsSolid s → trim_left s ≡ s
trim_left_solid [] h = refl
trim_left_solid (c ∷ s) (hc, h) = rw hc

pub trim_space_solid : (s : Bytes) → IsSolid s → trim_space s ≡ s
trim_space_solid s h = rw (trim_left_solid s h) (trim_right_solid s h)

pub cut_absent : (sep : ℕ) (s : Bytes) → contains_byte sep s ≡ false → cut sep s ≡ none
cut_absent sep [] h = refl
cut_absent sep (c ∷ s) h = ground (arith, cut_absent sep s)

drop_last_empty-cons :
    (l : Bytes) (ls : List Bytes)
    → (l =? []) ≡ false
    → drop_last_empty (l ∷ ls) ≡ l ∷ drop_last_empty ls
drop_last_empty-cons [] ls h = cc
drop_last_empty-cons (c ∷ l) ls h = refl

-- A scanner reads a line that its buffer holds and goes on after it.
pub scan_lines-line :
    (limit : ℕ) (l s : Bytes)
    → IsSolid l
    → (l =? []) ≡ false
    → leb limit (length l) ≡ false
    → scan_lines limit (l ++ line_feed ∷ s) ≡ (l ∷ (scan_lines limit s).0, (scan_lines limit s).1)
unfolding scan_lines
scan_lines-line limit l s solid full short =
    ap (scan_limited limit)
      (ap drop_last_empty (split-line l s solid) ∙ drop_last_empty-cons l (split line_feed s) full)
    ∙ rw (short, drop_cr_solid l solid)
