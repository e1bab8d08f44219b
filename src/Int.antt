-- ===== src/Int.antt =====
-- Go's signed `int` and `int64` as integers.
use runecho.Prelude.{ℕ, zero, suc, ◌==◌, if◌then◌else◌}

-- `negsuc n` is -(n + 1).
pub data ℤ : Type 0 where
  pos : ℕ → ℤ
  negsuc : ℕ → ℤ

-- `n + 1` on the integers
abbrev pub suc_ℤ : ℤ → ℤ
suc_ℤ (pos n) = pos (suc n)
suc_ℤ (negsuc zero) = pos 0
suc_ℤ (negsuc (suc n)) = negsuc n

-- `n++` on 64 bits, which wraps around: after 2^63 - 1 comes -2^63.
abbrev pub next_int : ℤ → ℤ
next_int (pos n) = if n == 9223372036854775807 then negsuc 9223372036854775807 else pos (suc n)
next_int (negsuc n) = suc_ℤ (negsuc n)
