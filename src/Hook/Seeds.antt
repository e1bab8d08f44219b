-- ===== src/Hook/Seeds.antt =====
-- cmd/runecho-guard/main.go: `hookSeedByLine` and `blockStartLine`, which find out in which string or
-- comment of the file an edit begins. The index -1 is `none`.
pub mod Blocks
use runecho.Prelude.{
  ℕ, zero, suc, ◌+◌, ◌≡◌, refl, sym, ap, subst, ◌∙◌, Bool, true, false, not, ◌&&◌, Bool-cases, inl,
  inr, Option, none, some, List, [], ◌∷◌, ◌++◌, map, length, drop, keep, arith, if◌then◌else◌,
}
use runecho.Order.{nat_ord, list_ord, ◌=?◌}
use runecho.Int.{ℤ, pos}
use runecho.Text.{Bytes, split, line_feed}
use runecho.Guard.Types.{AddedLine}
use runecho.Guard.Lang.{Lang}
use runecho.Guard.Scanner.Lines.{open_state_before}
use runecho.Hook.Payload.{EditOp, edit_tool, multi_edit_tool}

-- Whether the texts stand at the beginning of the lines. They do not where the lines are too few.
abbrev pub is_hit : List Bytes → List AddedLine → Bool
is_hit [] lines = true
is_hit (w ∷ want) [] = false
is_hit (w ∷ want) (l ∷ lines) = l.text =? w && is_hit want lines

-- The loop at the index `i`.
unfoldable pub find_block : List Bytes → Option ℕ → ℕ → List AddedLine → Option ℕ
find_block want found i [] = found
find_block want none i (l ∷ lines) = elim (is_hit want (l ∷ lines)) [
  | true ↦ find_block want (some i) (suc i) lines
  | false ↦ find_block want none (suc i) lines
]
find_block want (some first) i (l ∷ lines) = elim (is_hit want (l ∷ lines)) [
  | true ↦ none
  | false ↦ find_block want (some first) (suc i) lines
]

unfoldable pub block_start_line : List AddedLine → Bytes → Option ℕ
block_start_line file_lines block =
    if block =? [] then none else find_block (split line_feed block) none 0 file_lines

-- The open string or comment at the place of a block, if it is found.
abbrev pub state_at : Lang → List AddedLine → Option ℕ → Bytes
state_at lang file_lines none = []
state_at lang file_lines (some idx) = open_state_before lang file_lines idx

abbrev pub state_of : Lang → List AddedLine → Bytes → Bytes
state_of lang file_lines block = state_at lang file_lines (block_start_line file_lines block)

-- `if open != "" { seeds[n] = open }`, where `n` is not a key yet.
abbrev pub with_seed : ℕ → Bytes → List (ℤ × Bytes) → List (ℤ × Bytes)
with_seed n state seeds = if state =? [] then seeds else (pos n, state) ∷ seeds

-- The number before the first line of the next block.
abbrev pub skip_gap : Bool → ℕ → ℕ
skip_gap first last = if first then last else last + 1

-- The loop over the edits, with the number of the last line so far.
unfoldable pub multi_edit_seeds : Lang → List AddedLine → Bool → ℕ → List EditOp → List (ℤ × Bytes)
multi_edit_seeds lang file_lines first last [] = []
multi_edit_seeds lang file_lines first last (e ∷ edits) = elim (e.new_string =? []) [
  | true ↦ multi_edit_seeds lang file_lines first last edits
  | false ↦ with_seed (skip_gap first last + 1) (state_of lang file_lines e.old_string) (
      multi_edit_seeds lang file_lines false
        (skip_gap first last + length (split line_feed e.new_string)) edits)
]

-- The map, where an empty one stands for a nil one too.
unfoldable pub hook_seed_by_line :
    Bytes → Bytes → List EditOp → List AddedLine → Lang → List (ℤ × Bytes)
hook_seed_by_line tool_name old_string edits [] lang = []
hook_seed_by_line tool_name old_string edits (l ∷ lines) lang =
    if tool_name =? edit_tool
    then with_seed 1 (state_of lang (l ∷ lines) old_string) []
    else if tool_name =? multi_edit_tool
    then multi_edit_seeds lang (l ∷ lines) true 0 edits
    else []

abbrev count_from : ℕ → ℕ → List ℕ
count_from i zero = []
count_from i (suc n) = i ∷ count_from (suc i) n

-- The only entry of a list.
abbrev only {ℓ} : {A : Type ℓ} → List A → Option A
only [] = none
only (x ∷ []) = some x
only (x ∷ y ∷ xs) = none

abbrev together : Option ℕ → List ℕ → List ℕ
together none ks = ks
together (some k) ks = k ∷ ks

only_two : (x y : ℕ) (xs : List ℕ) → only (x ∷ y ∷ xs) ≡ none
only_two x y xs = refl

-- The same index, counted from the next line.
shifted : (p : ℕ → Bool) (b : Bool) (i j : ℕ) → p (suc j + i) ≡ b → p (j + suc i) ≡ b
shifted p b i j e = subst (λ n. p n ≡ b) (omega arith) e

find_block-only :
    (want : List Bytes) (p : ℕ → Bool) (found : Option ℕ) (i : ℕ) (lines : List AddedLine)
    → ((j : ℕ) → p (j + i) ≡ is_hit want (drop j lines))
    → find_block want found i lines ≡ only (together found (keep p (count_from i (length lines))))
unfolding find_block
find_block-only want p none i [] h = refl
find_block-only want p (some k) i [] h = refl
find_block-only want p none i (l ∷ lines) h =
    let at_i = h 0 in
    let next = λ (j : ℕ). shifted p (is_hit want (drop j lines)) i j (h (suc j)) in
    ground (
      arith,
      at_i,
      find_block-only want p (some i) (suc i) lines next,
      find_block-only want p none (suc i) lines next,
    )
find_block-only want p (some k) i (l ∷ lines) h =
    let at_i = h 0 in
    let next = λ (j : ℕ). shifted p (is_hit want (drop j lines)) i j (h (suc j)) in
    ground (arith, at_i, find_block-only want p (some k) (suc i) lines next)

-- The indices at which the lines of a block stand in the file.
abbrev places : List AddedLine → Bytes → List ℕ
places file_lines block =
    keep (λ i. is_hit (split line_feed block) (drop i file_lines))
      (count_from 0 (length file_lines))

-- A block that is not empty is found where its lines stand at one place of the file and no other. Of
-- two places none is chosen.
block_start_line_lem :
    (file_lines : List AddedLine) (block : Bytes)
    → (block =? []) ≡ false
    → block_start_line file_lines block ≡ only (places file_lines block)
unfolding block_start_line
block_start_line_lem file_lines block some_text = rw some_text (
    find_block-only (split line_feed block)
      (λ i. is_hit (split line_feed block) (drop i file_lines)) none 0 file_lines
      (λ j. ap (λ n. is_hit (split line_feed block) (drop n file_lines)) (omega arith)))
