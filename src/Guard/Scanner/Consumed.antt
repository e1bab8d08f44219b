-- ===== src/Guard/Scanner/Consumed.antt =====
-- Each loop inside of a string or a comment accounts for the bytes that it passes, and so does the
-- token at a position.
use runecho.Prelude.{
  ℕ, zero, suc, ◌≡◌, refl, inl, inr, Bool, true, false, ◌&&◌, ◌||◌, [], ◌∷◌, length, drop, arith,
  ◌==◌,
}
use runecho.Text.{Bytes, codes, has_prefix}
use runecho.Guard.Scanner.Literals.{
  Stop, closed, blank, blanks, put_before, blank_to, blank_comment, is_escaped_brace, next_depth,
  in_triple, in_f_string, in_string,
}
use runecho.Guard.Scanner.Blanking.{
  Consumes, put_before-Consumes, elim-Consumes, kept, IsBlanked-two,
}

-- One byte that is blanked or left as it is, before the rest.
blank_one :
    (c : ℕ) (s : Bytes) (r : Bytes × Stop)
    → Consumes s r
    → Consumes (c ∷ s) (put_before (blank ∷ []) r)
blank_one c s r h = put_before-Consumes (blank ∷ []) (c ∷ []) s r (inr refl, tt) h

keep_one :
    (c : ℕ) (s : Bytes) (r : Bytes × Stop) → Consumes s r → Consumes (c ∷ s) (put_before (c ∷ []) r)
keep_one c s r h = put_before-Consumes (c ∷ []) (c ∷ []) s r (inl refl, tt) h

blank_both :
    (c d : ℕ) (s : Bytes) (r : Bytes × Stop)
    → Consumes s r
    → Consumes (c ∷ d ∷ s) (put_before (blanks 2) r)
blank_both c d s r h = put_before-Consumes (blanks 2) (c ∷ d ∷ []) s r (IsBlanked-two c d) h

close_here : (c : ℕ) (s : Bytes) → Consumes (c ∷ s) (c ∷ [], closed s)
close_here c s = (c ∷ [], refl, (inl refl, tt))

pub blank_to-Consumes : (delim s : Bytes) → Consumes s (blank_to delim s)
unfolding blank_to
blank_to-Consumes delim [] = tt
blank_to-Consumes delim (c ∷ s) =
    elim-Consumes (c ∷ s) (has_prefix delim (c ∷ s)) _ _ (kept (length delim) (c ∷ s))
      (blank_one c s (blank_to delim s) (blank_to-Consumes delim s))

-- A comment's end has two bytes, so that a prefix test that holds gives them.
comment_end :
    (c : ℕ) (s : Bytes)
    → has_prefix (codes "*/") (c ∷ s) ≡ true
    → Consumes (c ∷ s) (blanks 2, closed (drop 2 (c ∷ s)))
comment_end c [] h = absurd (ground (arith, h))
comment_end c (d ∷ s) h = (c ∷ d ∷ [], refl, IsBlanked-two c d)

pub blank_comment-Consumes : (s : Bytes) → Consumes s (blank_comment s)
unfolding blank_comment
blank_comment-Consumes [] = tt
blank_comment-Consumes (c ∷ s) =
    by_case (has_prefix (codes "*/") (c ∷ s)) refl (blank_comment-Consumes s)
  where
    by_case :
        (b : Bool)
        → has_prefix (codes "*/") (c ∷ s) ≡ b
        → Consumes s (blank_comment s)
        → Consumes (c ∷ s) (elim b [
          | true ↦ (blanks 2, closed (drop 2 (c ∷ s)))
          | false ↦ put_before (blank ∷ []) (blank_comment s)
        ])
    by_case true e ih = comment_end c s e
    by_case false e ih = blank_one c s (blank_comment s) ih

pub in_triple-Consumes :
    (delim : Bytes) (fstr : Bool) (depth : ℕ) (s : Bytes)
    → Consumes s (in_triple delim fstr depth s)
unfolding in_triple
in_triple-Consumes delim fstr zero [] = tt
in_triple-Consumes delim fstr (suc depth) [] = tt
in_triple-Consumes delim fstr zero (c ∷ []) =
    elim-Consumes (c ∷ []) (fstr && c == b'{') _ _ (inl refl, tt) (inr refl, tt)
in_triple-Consumes delim fstr zero (c ∷ d ∷ s) =
    elim-Consumes (c ∷ d ∷ s) (has_prefix delim (c ∷ d ∷ s)) _ _ (kept 3 (c ∷ d ∷ s)) (
      elim-Consumes (c ∷ d ∷ s) (fstr && is_escaped_brace c d) _ _
        (blank_both c d s _ (in_triple-Consumes delim fstr zero s))
        (elim-Consumes (c ∷ d ∷ s) (fstr && c == b'{') _ _
          (keep_one c (d ∷ s) _ (in_triple-Consumes delim fstr 1 (d ∷ s)))
          (blank_one c (d ∷ s) _ (in_triple-Consumes delim fstr zero (d ∷ s)))))
in_triple-Consumes delim fstr (suc depth) (c ∷ s) =
    elim-Consumes (c ∷ s) (has_prefix delim (c ∷ s)) _ _ (kept 3 (c ∷ s))
      (keep_one c s _ (in_triple-Consumes delim fstr (next_depth depth c) s))

pub in_f_string-Consumes : (quote depth : ℕ) (s : Bytes) → Consumes s (in_f_string quote depth s)
unfolding in_f_string
in_f_string-Consumes quote zero [] = tt
in_f_string-Consumes quote (suc depth) [] = tt
in_f_string-Consumes quote zero (c ∷ []) =
    elim-Consumes (c ∷ []) (c == quote) _ _ (close_here c [])
      (elim-Consumes (c ∷ []) (c == b'{') _ _ (inl refl, tt) (inr refl, tt))
in_f_string-Consumes quote zero (c ∷ d ∷ s) =
    elim-Consumes (c ∷ d ∷ s) (c == quote) _ _ (close_here c (d ∷ s)) (
      elim-Consumes (c ∷ d ∷ s) (c == 92 || is_escaped_brace c d) _ _
        (blank_both c d s _ (in_f_string-Consumes quote zero s))
        (elim-Consumes (c ∷ d ∷ s) (c == b'{') _ _
          (keep_one c (d ∷ s) _ (in_f_string-Consumes quote 1 (d ∷ s)))
          (blank_one c (d ∷ s) _ (in_f_string-Consumes quote zero (d ∷ s)))))
in_f_string-Consumes quote (suc depth) (c ∷ s) =
    elim-Consumes (c ∷ s) (c == quote) _ _ (close_here c s)
      (keep_one c s _ (in_f_string-Consumes quote (next_depth depth c) s))

pub in_string-Consumes : (quote : ℕ) (s : Bytes) → Consumes s (in_string quote s)
unfolding in_string
in_string-Consumes quote [] = tt
in_string-Consumes quote (c ∷ []) =
    elim-Consumes (c ∷ []) (c == quote) _ _ (close_here c []) (inr refl, tt)
in_string-Consumes quote (c ∷ d ∷ s) =
    elim-Consumes (c ∷ d ∷ s) (c == quote) _ _ (close_here c (d ∷ s)) (
      elim-Consumes (c ∷ d ∷ s) (c == 92) _ _ (blank_both c d s _ (in_string-Consumes quote s))
        (blank_one c (d ∷ s) _ (in_string-Consumes quote (d ∷ s))))
