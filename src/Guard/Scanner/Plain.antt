-- ===== src/Guard/Scanner/Plain.antt =====
-- Code that no string or comment can begin in is left as it is.
use runecho.Prelude.{
  ℕ, suc, ◌≡◌, refl, ap, ◌∙◌, Bool, true, false, not, ◌&&◌, ◌||◌, [], ◌∷◌, ◌++◌, length, All, arith,
  ◌==◌, if◌then◌else◌,
}
use runecho.Order.{nat_ord, list_ord}
use runecho.Text.{Bytes, codes, has_prefix}
use runecho.Guard.Lang.{Lang, lang_go, lang_js, lang_python, lang_unknown, is_python}
use runecho.Guard.Scanner.{
  is_go_or_js, is_inline_comment_at, is_triple, is_quote, code_byte, token_at, scan_code,
  strip_literals_stateful,
}
use runecho.Guard.Scanner.Whole.{round, scan_code-round}

-- None of `"`, `#`, `'`, `/` and the backtick.
abbrev pub is_plain : ℕ → Bool
is_plain c = not (c == b'"' || c == b'#' || c == 39 || c == b'/' || c == b'`')

if_false {ℓ} : {A : Type ℓ} (b : Bool) (x y : A) → b ≡ false → (if b then x else y) ≡ y
if_false b x y h = rw h refl

and_false : (a b : Bool) → b ≡ false → (a && b) ≡ false
and_false a b h = ground (arith, h)

plain_inline :
    (lang : Lang) (c : ℕ) (s : Bytes)
    → is_plain c ≡ true
    → is_inline_comment_at lang (c ∷ s) ≡ false
plain_inline lang_go c s h = ground (arith, h)
plain_inline lang_js c s h = ground (arith, h)
plain_inline lang_python c s h = ground (arith, h)
plain_inline lang_unknown c s h = refl

plain_block : (c : ℕ) (s : Bytes) → is_plain c ≡ true → has_prefix (codes "/*") (c ∷ s) ≡ false
plain_block c s h = ground (arith, h)

plain_triple : (c : ℕ) (s : Bytes) → is_plain c ≡ true → is_triple (c ∷ s) ≡ false
plain_triple c s h = ground (arith, h)

plain_tick : (c : ℕ) → is_plain c ≡ true → (c == b'`') ≡ false
plain_tick c h = ground (arith, h)

plain_quote : (c : ℕ) → is_plain c ≡ true → is_quote c ≡ false
plain_quote c h = ground (arith, h)

token_at_plain :
    (lang : Lang) (line : Bytes) (c : ℕ) (s : Bytes)
    → is_plain c ≡ true
    → token_at lang line c s ≡ code_byte
unfolding token_at
token_at_plain lang line c s h =
    if_false (is_inline_comment_at lang (c ∷ s)) _ _ (plain_inline lang c s h)
    ∙ if_false (is_go_or_js lang && has_prefix (codes "/*") (c ∷ s)) _ _
        (and_false (is_go_or_js lang) _ (plain_block c s h))
    ∙ if_false (is_python lang && is_triple (c ∷ s)) _ _
        (and_false (is_python lang) _ (plain_triple c s h))
    ∙ if_false (is_go_or_js lang && c == b'`') _ _ (and_false (is_go_or_js lang) _ (plain_tick c h))
    ∙ if_false (is_quote c) _ _ (plain_quote c h)

abbrev before_rest : Bytes → Bytes × Bytes → Bytes × Bytes
before_rest code r = (code ++ r.0, r.1)

module _ (lang : Lang) (line : Bytes) where
  scan_code-byte :
      (fuel c : ℕ) (s : Bytes)
      → is_plain c ≡ true
      → scan_code lang line (suc fuel) (c ∷ s) ≡ before_rest (c ∷ []) (scan_code lang line fuel s)
  scan_code-byte fuel c s h =
      scan_code-round lang line fuel c s
      ∙ ap (round lang line (scan_code lang line fuel) c s) (token_at_plain lang line c s h)

  scan_code_plain :
      (code rest : Bytes)
      → All (λ c. is_plain c ≡ true) code
      → scan_code lang line (length (code ++ rest)) (code ++ rest) ≡ (
        code ++ (scan_code lang line (length rest) rest).0,
        (scan_code lang line (length rest) rest).1,
      )
  scan_code_plain [] rest h = refl
  scan_code_plain (c ∷ code) rest (hc, h) =
      scan_code-byte (length (code ++ rest)) c (code ++ rest) hc
      ∙ ap (before_rest (c ∷ [])) (scan_code_plain code rest h)

-- Where nothing is open, the bytes of a line up to its first quote, backtick, slash or hash are left
-- as they are, and the loop goes on after them. A line that has none of these is left as it is and
-- leaves nothing open.
pub strip_literals_stateful_plain :
    (lang : Lang) (code rest : Bytes)
    → All (λ c. is_plain c ≡ true) code
    → let r = scan_code lang (code ++ rest) (length rest) rest in
      (strip_literals_stateful lang (code ++ rest) [] ≡ (code ++ r.0, r.1))
      × (strip_literals_stateful lang code [] ≡ (code, []))
unfolding strip_literals_stateful scan_code
strip_literals_stateful_plain lang code rest h =
    (scan_code_plain lang (code ++ rest) code rest h, all code h)
  where
    all : (s : Bytes) → All (λ c. is_plain c ≡ true) s → scan_code lang code (length s) s ≡ (s, [])
    all [] k = refl
    all (c ∷ s) (kc, k) =
        scan_code-byte lang code (length s) c s kc ∙ ap (before_rest (c ∷ [])) (all s k)
