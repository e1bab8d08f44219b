-- ===== src/Guard/Scanner/Whole.antt =====
-- The whole of `stripLiteralsStateful`: it ends, and it keeps the length of the line.
use runecho.Prelude.{
  ℕ, zero, suc, ◌≤◌, ◌≡◌, refl, sym, ap, ◌∙◌, subst, inl, inr, Bool-cases, [], ◌∷◌, ◌++◌, length,
  arith,
}
use runecho.Order.{nat_ord, list_ord, ◌=?◌}
use runecho.Text.{Bytes}
use runecho.Guard.Lang.{Lang}
use runecho.Guard.Scanner.{
  Token, line_comment, literal, code_byte, token_at, scan_code, after_open, strip_literals_stateful,
}
use runecho.Guard.Scanner.Literals.{Stop, closed, ended, still_open, blanks, blank_to}
use runecho.Guard.Scanner.Blanking.{
  IsBlanked, IsBlanked-append, IsBlanked-blanks, Consumes, length-IsBlanked,
}
use runecho.Guard.Scanner.Consumed.{blank_to-Consumes}
use runecho.Guard.Scanner.Fuel.{IsAt, token_at-IsAt}

module _ (lang : Lang) (line : Bytes) where
  -- What a round gives for a token, with the loop on the rest as a function.
  abbrev pub round : (Bytes → Bytes × Bytes) → ℕ → Bytes → Token → Bytes × Bytes
  round loop c s line_comment = (blanks (length (c ∷ s)), [])
  round loop c s (literal out (closed rest)) = let more = loop rest in (out ++ more.0, more.1)
  round loop c s (literal out ended) = (out, [])
  round loop c s (literal out (still_open delim)) = (out, delim)
  round loop c s code_byte = let more = loop s in (c ∷ more.0, more.1)

  pub scan_code-round :
      (fuel c : ℕ) (s : Bytes)
      → scan_code lang line (suc fuel) (c ∷ s)
        ≡ round (scan_code lang line fuel) c s (token_at lang line c s)
  unfolding scan_code
  scan_code-round fuel c s = by_token (token_at lang line c s)
    where
      by_token :
          (t : Token)
          → elim t [
            | line_comment ↦ (blanks (length (c ∷ s)), [])
            | literal out (closed rest) ↦
                let more = scan_code lang line fuel rest in (out ++ more.0, more.1)
            | literal out ended ↦ (out, [])
            | literal out (still_open delim) ↦ (out, delim)
            | code_byte ↦ let more = scan_code lang line fuel s in (c ∷ more.0, more.1)
          ]
            ≡ round (scan_code lang line fuel) c s t
      by_token line_comment = refl
      by_token (literal out (closed rest)) = refl
      by_token (literal out ended) = refl
      by_token (literal out (still_open delim)) = refl
      by_token code_byte = refl

  round-eq :
      (f g : Bytes → Bytes × Bytes) (c : ℕ) (s : Bytes) (t : Token)
      → IsAt c s t
      → ((rest : Bytes) → length rest ≤ length s → f rest ≡ g rest)
      → round f c s t ≡ round g c s t
  round-eq f g c s line_comment h e = refl
  round-eq f g c s (literal out (closed rest)) (_, short) e =
      ap (λ (more : Bytes × Bytes). (out ++ more.0, more.1)) (e rest short)
  round-eq f g c s (literal out ended) h e = refl
  round-eq f g c s (literal out (still_open delim)) h e = refl
  round-eq f g c s code_byte h e =
      ap (λ (more : Bytes × Bytes). (c ∷ more.0, more.1)) (e s (omega arith))

  -- The loop of `strip_literals_stateful` over the rest of a line ends: as much fuel as the rest has
  -- bytes is enough, and more fuel gives the same.
  pub scan_code-enough :
      (fuel more : ℕ) (s : Bytes)
      → length s ≤ fuel
      → length s ≤ more
      → scan_code lang line fuel s ≡ scan_code lang line more s
  unfolding scan_code
  scan_code-enough zero zero [] h k = refl
  scan_code-enough zero (suc more) [] h k = refl
  scan_code-enough (suc fuel) zero [] h k = refl
  scan_code-enough (suc fuel) (suc more) [] h k = refl
  scan_code-enough zero more (c ∷ s) h k = absurd (omega arith)
  scan_code-enough (suc fuel) zero (c ∷ s) h k = absurd (omega arith)
  scan_code-enough (suc fuel) (suc more) (c ∷ s) h k =
      scan_code-round fuel c s
      ∙ round-eq (scan_code lang line fuel) (scan_code lang line more) c s (token_at lang line c s)
          (token_at-IsAt lang line c s)
          (λ rest short. scan_code-enough fuel more rest (omega arith) (omega arith))
      ∙ sym (scan_code-round more c s)

  round-IsBlanked :
      (f : Bytes → Bytes × Bytes) (c : ℕ) (s : Bytes) (t : Token)
      → IsAt c s t
      → ((rest : Bytes) → length rest ≤ length s → IsBlanked (f rest).0 rest)
      → IsBlanked (round f c s t).0 (c ∷ s)
  round-IsBlanked f c s line_comment h e = IsBlanked-blanks (c ∷ s)
  round-IsBlanked f c s (literal out (closed rest)) ((front, split, k), short) e =
      subst (IsBlanked (out ++ (f rest).0)) (sym split)
        (IsBlanked-append out front (f rest).0 rest k (e rest short))
  round-IsBlanked f c s (literal out ended) (k, _) e = k
  round-IsBlanked f c s (literal out (still_open delim)) (k, _) e = k
  round-IsBlanked f c s code_byte h e = (inl refl, e s (omega arith))

  scan_code-IsBlanked :
      (fuel : ℕ) (s : Bytes) → length s ≤ fuel → IsBlanked (scan_code lang line fuel s).0 s
  unfolding scan_code
  scan_code-IsBlanked zero [] h = tt
  scan_code-IsBlanked (suc fuel) [] h = tt
  scan_code-IsBlanked zero (c ∷ s) h = absurd (omega arith)
  scan_code-IsBlanked (suc fuel) (c ∷ s) h =
      subst (λ (r : Bytes × Bytes). IsBlanked r.0 (c ∷ s)) (sym (scan_code-round fuel c s))
        (round-IsBlanked (scan_code lang line fuel) c s (token_at lang line c s)
          (token_at-IsAt lang line c s) (λ rest short. scan_code-IsBlanked fuel rest (omega arith)))

  after_open-IsBlanked :
      (s : Bytes) (r : Bytes × Stop) → Consumes s r → IsBlanked (after_open lang line r).0 s
  after_open-IsBlanked s (out, closed rest) (front, split, k) =
      subst (IsBlanked (out ++ (scan_code lang line (length rest) rest).0)) (sym split) (
        IsBlanked-append out front (scan_code lang line (length rest) rest).0 rest k
          (scan_code-IsBlanked (length rest) rest (omega arith)))
  after_open-IsBlanked s (out, ended) k = k
  after_open-IsBlanked s (out, still_open delim) k = k

-- Whatever is open at the start of a line, the line that is written has a byte for every byte of the
-- line, that byte or a blank: indices into the one are indices into the other.
pub strip_literals_stateful-IsBlanked :
    (lang : Lang) (text open_delim : Bytes)
    → IsBlanked (strip_literals_stateful lang text open_delim).0 text
      × (length (strip_literals_stateful lang text open_delim).0 ≡ length text)
unfolding strip_literals_stateful
strip_literals_stateful-IsBlanked lang text open_delim = (all, length-IsBlanked _ text all)
  where
    all : IsBlanked (strip_literals_stateful lang text open_delim).0 text
    all = elim (Bool-cases (open_delim =? [])) [
      | inl outside ↦ rw outside (scan_code-IsBlanked lang text (length text) text (omega arith))
      | inr inside ↦ rw inside (
          after_open-IsBlanked lang text text (blank_to open_delim text)
            (blank_to-Consumes open_delim text))
    ]
