-- ===== src/Guard/Scanner/Fuel.antt =====
-- The loop of `stripLiteralsStateful` gets on at every round, so that it ends.
use runecho.Prelude.{
  ℕ, zero, suc, ◌≤◌, ◌≡◌, refl, sym, ap, ◌∙◌, subst, inl, inr, Bool, true, false, ◌&&◌, Bool-cases,
  [], ◌∷◌, ◌++◌, length, length-append, take, drop, arith, ◌==◌, if◌then◌else◌,
}
use runecho.Order.{nat_ord, list_ord}
use runecho.Text.{Bytes, codes, has_prefix}
use runecho.Guard.Lang.{Lang, is_python}
use runecho.Guard.Scanner.{
  is_go_or_js, is_inline_comment_at, is_f_string_prefix, is_triple, is_quote, Token, line_comment,
  literal, code_byte, after_opening, token_at,
}
use runecho.Guard.Scanner.Literals.{
  Stop, closed, ended, still_open, blanks, blank_to, blank_comment, in_triple, in_f_string,
  in_string,
}
use runecho.Guard.Scanner.Blanking.{
  IsBlanked, IsBlanked-refl, Consumes, put_before-Consumes, IsBlanked-two, take-drop,
}
use runecho.Guard.Scanner.Consumed.{
  blank_to-Consumes, blank_comment-Consumes, in_triple-Consumes, in_f_string-Consumes,
  in_string-Consumes,
}

-- What is left after a literal is shorter.
abbrev pub IsShorter : Bytes → Stop → Type 0
IsShorter s (closed rest) = length rest ≤ length s
IsShorter s ended = Unit
IsShorter s (still_open delim) = Unit

-- A token accounts for its bytes, of which there is one at least.
abbrev pub IsAt : ℕ → Bytes → Token → Type 0
IsAt c s line_comment = Unit
IsAt c s (literal out stop) = Consumes (c ∷ s) (out, stop) × IsShorter s stop
IsAt c s code_byte = Unit

Consumes-IsShorter : (s : Bytes) (r : Bytes × Stop) → Consumes s r → IsShorter s r.1
Consumes-IsShorter s (out, closed rest) (front, e, h) =
    let sum = ap length e ∙ length-append front rest in omega arith
Consumes-IsShorter s (out, ended) h = tt
Consumes-IsShorter s (out, still_open delim) h = tt

IsShorter-mono :
    (s t : Bytes) (stop : Stop) → length s ≤ length t → IsShorter s stop → IsShorter t stop
IsShorter-mono s t (closed rest) h k = omega arith
IsShorter-mono s t ended h k = tt
IsShorter-mono s t (still_open delim) h k = tt

-- A literal whose opening bytes are `front`.
after_opening-IsAt :
    (c : ℕ) (s opening front rest : Bytes) (r : Bytes × Stop)
    → c ∷ s ≡ front ++ rest
    → length rest ≤ length s
    → IsBlanked opening front
    → Consumes rest r
    → IsAt c s (after_opening opening r)
after_opening-IsAt c s opening front rest (out, stop) e short h k = (
  subst (λ l. Consumes l (opening ++ out, stop)) (sym e) (shaped stop k),
  IsShorter-mono rest s stop short (Consumes-IsShorter rest (out, stop) k),
)
  where
    shaped : (st : Stop) → Consumes rest (out, st) → Consumes (front ++ rest) (opening ++ out, st)
    shaped (closed l) j = put_before-Consumes opening front rest (out, closed l) h j
    shaped ended j = put_before-Consumes opening front rest (out, ended) h j
    shaped (still_open d) j = put_before-Consumes opening front rest (out, still_open d) h j

length-drop_le : (n : ℕ) (s : Bytes) → length (drop n s) ≤ length s
length-drop_le zero s = omega arith
length-drop_le (suc n) [] = omega arith
length-drop_le (suc n) (c ∷ s) = let ih = length-drop_le n s in omega arith

if-IsAt :
    (c : ℕ) (s : Bytes) (b : Bool) (x y : Token)
    → IsAt c s x
    → IsAt c s y
    → IsAt c s (if b then x else y)
if-IsAt c s true x y p q = p
if-IsAt c s false x y p q = q

comment-IsAt :
    (b : Bool) (c : ℕ) (s : Bytes) (y : Token)
    → IsAt c s y
    → IsAt c s (
        if b && has_prefix (codes "/*") (c ∷ s)
        then after_opening (blanks 2) (blank_comment (drop 2 (c ∷ s)))
        else y)
comment-IsAt b c s y q = elim (Bool-cases (b && has_prefix (codes "/*") (c ∷ s))) [
  | inl opens ↦ rw opens (opened s opens)
  | inr other ↦ rw other q
]
  where
    opened :
        (l : Bytes)
        → (b && has_prefix (codes "/*") (c ∷ l)) ≡ true
        → IsAt c l (after_opening (blanks 2) (blank_comment (drop 2 (c ∷ l))))
    opened [] e = absurd (ground (arith, e))
    opened (d ∷ l) e =
        after_opening-IsAt c (d ∷ l) (blanks 2) (c ∷ d ∷ []) l (blank_comment l) refl (omega arith)
          (IsBlanked-two c d) (blank_comment-Consumes l)

pub token_at-IsAt :
    (lang : Lang) (line : Bytes) (c : ℕ) (s : Bytes) → IsAt c s (token_at lang line c s)
unfolding token_at
token_at-IsAt lang line c s =
    let fstr = is_f_string_prefix line (c ∷ s) in
    let one = λ (r : Bytes × Stop) (k : Consumes s r).
      after_opening-IsAt c s (c ∷ []) (c ∷ []) s r refl (omega arith) (inl refl, tt) k in
    if-IsAt c s (is_inline_comment_at lang (c ∷ s)) _ _ tt (
      comment-IsAt (is_go_or_js lang) c s _ (
        if-IsAt c s (is_python lang && is_triple (c ∷ s)) _ _
          (after_opening-IsAt c s (take 3 (c ∷ s)) (take 3 (c ∷ s)) (drop 3 (c ∷ s))
            (in_triple (take 3 (c ∷ s)) fstr 0 (drop 3 (c ∷ s))) (take-drop 3 (c ∷ s))
            (length-drop_le 2 s) (IsBlanked-refl (take 3 (c ∷ s)))
            (in_triple-Consumes (take 3 (c ∷ s)) fstr 0 (drop 3 (c ∷ s))))
          (if-IsAt c s (is_go_or_js lang && c == b'`') _ _
            (one (blank_to (codes "`") s) (blank_to-Consumes (codes "`") s))
            (if-IsAt c s (is_quote c) _ _
              (if-IsAt c s (is_python lang && fstr) _ _
                (one (in_f_string c 0 s) (in_f_string-Consumes c 0 s))
                (one (in_string c s) (in_string-Consumes c s)))
              tt))))
