-- ===== src/Guard/Validate/Seeds.antt =====
-- internal/guard/validate.go: `seedFunc` and `openSeedFor`, the open string at the start of a line.
use mathlib.Core.List.{foldl}
use runecho.Prelude.{
  ℕ, zero, suc, ◌-◌, ◌≡◌, refl, ◌≤◌, Bool, false, ◌&&◌, Option, none, some, List, [], ◌∷◌, length,
  take, arith, ltb, leb, if◌then◌else◌,
}
use runecho.Order.{nat_ord, list_ord, ◌=?◌}
use runecho.Int.{ℤ, pos, negsuc}
use runecho.Text.{Bytes, split, line_feed}
use runecho.Guard.Types.{FileDiff}
use runecho.Guard.Lang.{Lang}

-- The open string at the start of a line, by the number of the line.
abbrev pub Seed : Type 0
Seed = ℤ → Bytes

-- 8 MiB
abbrev pub max_seed_file_bytes : ℕ
max_seed_file_bytes = 8388608

-- `seeds[lineNo]`, empty where there is no entry
abbrev pub int_eq : ℤ → ℤ → Bool
int_eq (pos m) (pos n) = leb m n && leb n m
int_eq (pos m) (negsuc n) = false
int_eq (negsuc m) (pos n) = false
int_eq (negsuc m) (negsuc n) = leb m n && leb n m

abbrev pub seed_at : List (ℤ × Bytes) → Seed
seed_at [] line_no = []
seed_at ((n, state) ∷ seeds) line_no = if int_eq n line_no then state else seed_at seeds line_no

-- `lineNo - 1`, or 0 below it
abbrev pub line_index : ℤ → ℕ
line_index (pos n) = n - 1
line_index (negsuc n) = 0

-- `prefix[idx]`, the last entry past the end
abbrev pub at_clamped : Bytes → List Bytes → ℕ → Bytes
at_clamped last [] idx = last
at_clamped last (p ∷ states) zero = p
at_clamped last (p ∷ states) (suc idx) = at_clamped p states idx

module _ (strip : Lang → Bytes → Bytes → Bytes × Bytes) where
  -- The entries of `prefix`: the state before each line, and after the last one.
  unfoldable pub prefix_from : Lang → Bytes → List Bytes → List Bytes
  prefix_from lang state [] = state ∷ []
  prefix_from lang state (line ∷ lines) = state ∷ prefix_from lang (strip lang line state).1 lines

  unfoldable pub open_seed_for : Lang → Option Bytes → Option Seed
  open_seed_for lang none = none
  open_seed_for lang (some content) =
      if ltb max_seed_file_bytes (length content)
      then none
      else some (λ line_no.
        at_clamped [] (prefix_from lang [] (split line_feed content)) (line_index line_no))

  abbrev pub map_seed : List (ℤ × Bytes) → Option Seed
  map_seed [] = none
  map_seed (e ∷ seeds) = some (seed_at (e ∷ seeds))

  unfoldable pub seed_func : (Bytes → Option Bytes) → Lang → FileDiff → Option Seed
  seed_func read_file lang fd =
      if fd.abs_path =? []
      then map_seed fd.seed_by_line
      else open_seed_for lang (read_file fd.abs_path)

  at_clamped-prefix_from :
      (lang : Lang) (state last : Bytes) (lines : List Bytes) (idx : ℕ)
      → at_clamped last (prefix_from lang state lines) idx
        ≡ foldl (λ s line. (strip lang line s).1) state (take idx lines)
  unfolding prefix_from
  at_clamped-prefix_from lang state last [] zero = refl
  at_clamped-prefix_from lang state last [] (suc idx) = refl
  at_clamped-prefix_from lang state last (l ∷ lines) zero = refl
  at_clamped-prefix_from lang state last (l ∷ lines) (suc idx) =
      at_clamped-prefix_from lang (strip lang l state).1 state lines idx

  -- The seed of a file that was read and is not too large is, at a line number, the state in which
  -- the scanner leaves the lines above that line when it starts at the top of the file. A number
  -- below 1 counts as 1, and one past the end gives the state at the end.
  pub open_seed_for_lem :
      (lang : Lang) (content : Bytes) (line_no : ℤ)
      → length content ≤ max_seed_file_bytes
      → (seed : Seed) × (open_seed_for lang (some content) ≡ some seed)
        × (seed line_no
            ≡ foldl
                (λ state line. (strip lang line state).1)
                []
                (take (line_index line_no) (split line_feed content)))
  unfolding open_seed_for
  open_seed_for_lem lang content line_no small = (
    λ n. at_clamped [] (prefix_from lang [] (split line_feed content)) (line_index n),
    ground arith,
    at_clamped-prefix_from lang [] [] (split line_feed content) (line_index line_no),
  )
