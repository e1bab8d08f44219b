-- ===== src/Guard/Scanner/Blanking.antt =====
-- What `stripLiteralsStateful` writes has a byte for every byte of the line: that byte or a blank.
use mathlib.Core.List.{append_assoc}
use runecho.Prelude.{
  ℕ, zero, suc, ◌≡◌, refl, sym, ◌∙◌, ap, ◌⊎◌, inl, inr, Bool, true, false, [], ◌∷◌, ◌++◌, length,
  take, drop,
}
use runecho.Text.{Bytes}
use runecho.Guard.Scanner.Literals.{Stop, closed, ended, still_open, blank, blanks, put_before}

-- Byte for byte the same, or a blank.
abbrev pub IsBlanked : Bytes → Bytes → Type 0
IsBlanked [] [] = Unit
IsBlanked [] (c ∷ s) = ⊥
IsBlanked (o ∷ out) [] = ⊥
IsBlanked (o ∷ out) (c ∷ s) = ((o ≡ c) ⊎ (o ≡ blank)) × IsBlanked out s

pub length-IsBlanked : (out s : Bytes) → IsBlanked out s → length out ≡ length s
length-IsBlanked [] [] h = refl
length-IsBlanked [] (c ∷ s) h = absurd h
length-IsBlanked (o ∷ out) [] h = absurd h
length-IsBlanked (o ∷ out) (c ∷ s) (_, h) = ap suc (length-IsBlanked out s h)

pub IsBlanked-refl : (s : Bytes) → IsBlanked s s
IsBlanked-refl [] = tt
IsBlanked-refl (c ∷ s) = (inl refl, IsBlanked-refl s)

pub IsBlanked-append :
    (out s more rest : Bytes)
    → IsBlanked out s
    → IsBlanked more rest
    → IsBlanked (out ++ more) (s ++ rest)
IsBlanked-append [] [] more rest h k = k
IsBlanked-append [] (c ∷ s) more rest h k = absurd h
IsBlanked-append (o ∷ out) [] more rest h k = absurd h
IsBlanked-append (o ∷ out) (c ∷ s) more rest (e, h) k = (e, IsBlanked-append out s more rest h k)

pub IsBlanked-blanks : (s : Bytes) → IsBlanked (blanks (length s)) s
IsBlanked-blanks [] = tt
IsBlanked-blanks (c ∷ s) = (inr refl, IsBlanked-blanks s)

-- A result accounts for the bytes up to where it stops, which is the end of the line if it does not
-- close.
abbrev pub Consumes : Bytes → Bytes × Stop → Type 0
Consumes s (out, closed rest) = (front : Bytes) × (s ≡ front ++ rest) × IsBlanked out front
Consumes s (out, ended) = IsBlanked out s
Consumes s (out, still_open delim) = IsBlanked out s

pub put_before-Consumes :
    (out front s : Bytes) (r : Bytes × Stop)
    → IsBlanked out front
    → Consumes s r
    → Consumes (front ++ s) (put_before out r)
put_before-Consumes out front s (more, closed rest) h (mid, e, k) = (
  front ++ mid,
  ap (◌++◌ front) e ∙ sym (append_assoc front mid rest),
  IsBlanked-append out front more mid h k,
)
put_before-Consumes out front s (more, ended) h k = IsBlanked-append out front more s h k
put_before-Consumes out front s (more, still_open delim) h k = IsBlanked-append out front more s h k

pub elim-Consumes :
    (s : Bytes) (b : Bool) (x y : Bytes × Stop)
    → Consumes s x
    → Consumes s y
    → Consumes s (elim b [ true ↦ x | false ↦ y ])
elim-Consumes s true x y p q = p
elim-Consumes s false x y p q = q

pub take-drop : (n : ℕ) (s : Bytes) → s ≡ take n s ++ drop n s
take-drop zero s = refl
take-drop (suc n) [] = refl
take-drop (suc n) (c ∷ s) = ap (◌∷◌ c) (take-drop n s)

-- A delimiter that is kept.
pub kept : (n : ℕ) (s : Bytes) → Consumes s (take n s, closed (drop n s))
kept n s = (take n s, take-drop n s, IsBlanked-refl (take n s))

pub IsBlanked-two : (c d : ℕ) → IsBlanked (blanks 2) (c ∷ d ∷ [])
IsBlanked-two c d = (inr refl, (inr refl, tt))
