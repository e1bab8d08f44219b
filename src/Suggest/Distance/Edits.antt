-- ===== src/Suggest/Distance/Edits.antt =====
-- What an edit distance is, with no table in it: the least number of single-byte edits.
use runecho.Prelude.{ℕ, suc, ◌+◌, ◌≤◌, ◌≡◌, refl, subst, [], ◌∷◌, ◌++◌, arith}
use runecho.Text.{Bytes}

-- `Edits xs ys n`: a script of `n` edits turns `xs` into `ys`.
pub data Edits : Bytes → Bytes → ℕ → Type 0 where
  done : {n : ℕ} → n ≡ 0 → Edits [] [] n
  keep : {x y n : ℕ} {xs ys : Bytes} → x ≡ y → Edits xs ys n → Edits (x ∷ xs) (y ∷ ys) n
  change : {x y n : ℕ} {xs ys : Bytes} → Edits xs ys n → Edits (x ∷ xs) (y ∷ ys) (suc n)
  remove : {x n : ℕ} {xs ys : Bytes} → Edits xs ys n → Edits (x ∷ xs) ys (suc n)
  add : {y n : ℕ} {xs ys : Bytes} → Edits xs ys n → Edits xs (y ∷ ys) (suc n)

-- `d` edits are enough, and no script has fewer.
abbrev pub IsEditDistance : Bytes → Bytes → ℕ → Type 0
IsEditDistance a b d = Edits a b d × ((n : ℕ) → Edits a b n → d ≤ n)

-- The reversal of `xs` before `ys`.
abbrev pub onto : Bytes → Bytes → Bytes
onto [] ys = ys
onto (x ∷ xs) ys = onto xs (x ∷ ys)

pub onto-onto : (xs ys zs : Bytes) → onto (onto xs ys) zs ≡ onto ys (xs ++ zs)
onto-onto [] ys zs = refl
onto-onto (x ∷ xs) ys zs = onto-onto xs (x ∷ ys) zs

-- A script read from its end edits the reversed texts.
pub Edits-onto :
    {xs ys xs' ys' : Bytes} {n : ℕ} (k : ℕ)
    → Edits xs ys n
    → Edits xs' ys' k
    → Edits (onto xs xs') (onto ys ys') (n + k)
Edits-onto {xs'} {ys'} k (done {n = n} e) s = subst (Edits xs' ys') (omega arith) s
Edits-onto k (keep e d) s = Edits-onto k d (keep e s)
Edits-onto {xs = x ∷ xs} {ys = y ∷ ys} {xs'} {ys'} k (change {n = n} d) s =
    subst (Edits (onto xs (x ∷ xs')) (onto ys (y ∷ ys'))) (omega arith)
      (Edits-onto (suc k) d (change s))
Edits-onto {xs = x ∷ xs} {ys} {xs'} {ys'} k (remove {n = n} d) s =
    subst (Edits (onto xs (x ∷ xs')) (onto ys ys')) (omega arith) (Edits-onto (suc k) d (remove s))
Edits-onto {xs} {ys = y ∷ ys} {xs'} {ys'} k (add {n = n} d) s =
    subst (Edits (onto xs xs') (onto ys (y ∷ ys'))) (omega arith) (Edits-onto (suc k) d (add s))
