-- ===== src/Hook/Seeds/Blocks.antt =====
-- The seeds of several edits stand at the first lines of the edits.
use mathlib.Core.List.{append_assoc}
use runecho.Prelude.{
  ℕ, suc, ◌+◌, ◌≤◌, ◌≡◌, refl, sym, ap, ◌∙◌, Bool, true, false, Bool-cases, inl, inr, List, [], ◌∷◌,
  ◌++◌, length, arith,
}
use runecho.Order.{nat_ord, list_ord, list_beq_iff, ◌=?◌}
use runecho.Int.{ℤ, pos}
use runecho.Text.{Bytes, split, line_feed}
use runecho.Guard.Types.{AddedLine}
use runecho.Guard.Lang.{Lang}
use runecho.Guard.Lines.{number_lines, numbered, added_lines_with_gap_lem}
use runecho.Guard.Validate.Seeds.{seed_at}
use runecho.Hook.Payload.{EditOp, multi_edit_tool, new_strings, hook_added_lines}
use runecho.Hook.Seeds.{state_of, with_seed, skip_gap, multi_edit_seeds, hook_seed_by_line}

seed_at-with_seed :
    (m n : ℕ) (state : Bytes) (seeds : List (ℤ × Bytes))
    → (seed_at seeds (pos n) ≡ [] → seed_at (with_seed n state seeds) (pos n) ≡ state)
      × (suc m ≤ n → seed_at (with_seed m state seeds) (pos n) ≡ seed_at seeds (pos n))
      × (suc n ≤ m → seed_at (with_seed m state seeds) (pos n) ≡ seed_at seeds (pos n))
seed_at-with_seed m n state seeds = ground (arith, list_beq_iff state [])

new_strings_empty :
    (e : EditOp) (edits : List EditOp)
    → (e.new_string =? []) ≡ true
    → new_strings (e ∷ edits) ≡ new_strings edits
new_strings_empty e edits h = ground (arith, h)

new_strings_text :
    (e : EditOp) (edits : List EditOp)
    → (e.new_string =? []) ≡ false
    → new_strings (e ∷ edits) ≡ e.new_string ∷ new_strings edits
new_strings_text e edits h = ground (arith, h)

case_true {ℓ} : {A : Type ℓ} (b : Bool) (x y : A) → b ≡ true → (elim b [ true ↦ x | false ↦ y ]) ≡ x
case_true true x y h = refl
case_true false x y h = cc

case_false {ℓ} :
    {A : Type ℓ} (b : Bool) (x y : A) → b ≡ false → (elim b [ true ↦ x | false ↦ y ]) ≡ y
case_false true x y h = cc
case_false false x y h = refl

module _ (lang : Lang) (file_lines : List AddedLine) where
  abbrev seeds_of : Bool → ℕ → List EditOp → List (ℤ × Bytes)
  seeds_of first last edits = multi_edit_seeds lang file_lines first last edits

  seeds_empty :
      (first : Bool) (last : ℕ) (e : EditOp) (edits : List EditOp)
      → (e.new_string =? []) ≡ true
      → seeds_of first last (e ∷ edits) ≡ seeds_of first last edits
  unfolding multi_edit_seeds
  seeds_empty first last e edits h = case_true (e.new_string =? []) _ _ h

  seeds_text :
      (first : Bool) (last : ℕ) (e : EditOp) (edits : List EditOp)
      → (e.new_string =? []) ≡ false
      → seeds_of first last (e ∷ edits)
        ≡ with_seed
            (skip_gap first last + 1)
            (state_of lang file_lines e.old_string)
            (seeds_of false (skip_gap first last + length (split line_feed e.new_string)) edits)
  unfolding multi_edit_seeds
  seeds_text first last e edits h = case_false (e.new_string =? []) _ _ h

  -- The numbers up to the next block have no seed.
  seed_at-low :
      (first : Bool) (last m : ℕ) (edits : List EditOp)
      → m ≤ skip_gap first last
      → seed_at (seeds_of first last edits) (pos m) ≡ []
  unfolding multi_edit_seeds
  seed_at-low first last m [] h = refl
  seed_at-low first last m (e ∷ edits) h = elim (Bool-cases (e.new_string =? [])) [
    | inl p ↦
        ap (λ s. seed_at s (pos m)) (seeds_empty first last e edits p)
        ∙ seed_at-low first last m edits h
    | inr p ↦
        let base = skip_gap first last in
        let next = base + length (split line_feed e.new_string) in
        ap (λ s. seed_at s (pos m)) (seeds_text first last e edits p)
        ∙ (seed_at-with_seed (base + 1) m (state_of lang file_lines e.old_string)
              (seeds_of false next edits)).2
            (omega arith)
        ∙ seed_at-low false next m edits (omega arith)
  ]

  -- Where the block of an edit begins, among the blocks from `first` and `last` on.
  abbrev IsPlaced : Bool → ℕ → List EditOp → EditOp → List EditOp → Type 0
  IsPlaced first last before e after =
      (n : ℕ) × (rest : List AddedLine) × (numbered (skip_gap first last)
          (new_strings (before ++ e ∷ after))
        ≡ numbered (skip_gap first last) (new_strings before)
          ++ (number_lines n (split line_feed e.new_string) ++ rest))
      × (seed_at (seeds_of first last (before ++ e ∷ after)) (pos (n + 1))
          ≡ state_of lang file_lines e.old_string)
      × (skip_gap first last ≤ n)

  place :
      (first : Bool) (last : ℕ) (before : List EditOp) (e : EditOp) (after : List EditOp)
      → (e.new_string =? []) ≡ false
      → IsPlaced first last before e after
  unfolding multi_edit_seeds
  place first last [] e after h =
      let base = skip_gap first last in
      let raw = split line_feed e.new_string in
      (
        base,
        numbered (base + length raw + 1) (new_strings after),
        ap (numbered base) (new_strings_text e after h),
        ap (λ s. seed_at s (pos (base + 1))) (seeds_text first last e after h)
            ∙ (seed_at-with_seed 0 (base + 1) (state_of lang file_lines e.old_string)
                  (seeds_of false (base + length raw) after)).0
                (seed_at-low false (base + length raw) (base + 1) after (omega arith)),
        omega arith,
      )
  place first last (b ∷ before) e after h = elim (Bool-cases (b.new_string =? [])) [
    | inl p ↦
        let (n, rest, lines, seed, low) = place first last before e after h in
        (
          n,
          rest,
          ap (numbered (skip_gap first last)) (new_strings_empty b (before ++ e ∷ after) p)
              ∙ lines
              ∙ ap
                  (λ l.
                    numbered (skip_gap first last) l
                    ++ (number_lines n (split line_feed e.new_string) ++ rest))
                  (sym (new_strings_empty b before p)),
          ap (λ s. seed_at s (pos (n + 1))) (seeds_empty first last b (before ++ e ∷ after) p)
              ∙ seed,
          low,
        )
    | inr p ↦
        let base = skip_gap first last in
        let raw = split line_feed b.new_string in
        let next = base + length raw in
        let (n, rest, lines, seed, low) = place false next before e after h in
        let block = number_lines n (split line_feed e.new_string) ++ rest in
        (
          n,
          rest,
          ap (numbered base) (new_strings_text b (before ++ e ∷ after) p)
              ∙ ap (λ l. number_lines base raw ++ l) lines
              ∙ sym (
                  append_assoc (number_lines base raw)
                    (numbered (skip_gap false next) (new_strings before)) block)
              ∙ ap (λ l. numbered base l ++ block) (sym (new_strings_text b before p)),
          ap (λ s. seed_at s (pos (n + 1))) (seeds_text first last b (before ++ e ∷ after) p)
              ∙ (seed_at-with_seed (base + 1) (n + 1) (state_of lang file_lines b.old_string)
                    (seeds_of false next (before ++ e ∷ after))).1
                  (omega arith)
              ∙ seed,
          omega arith,
        )
  ]

-- Take an edit of a MultiEdit that adds a text. Its lines come right after those of the edits before
-- it, numbered upwards, and the seed at the number of its first line is the state of the file where
-- the text that it replaces stands, if that is one place.
pub hook_seed_by_line-hook_added_lines :
    (lang : Lang) (l : AddedLine) (lines : List AddedLine) (before : List EditOp) (e : EditOp)
    (after : List EditOp)
    → (e.new_string =? []) ≡ false
    → (n : ℕ) × (rest : List AddedLine) × (hook_added_lines multi_edit_tool [] []
          (before ++ e ∷ after)
        ≡ hook_added_lines multi_edit_tool [] [] before
          ++ (number_lines n (split line_feed e.new_string) ++ rest))
      × (seed_at
            (hook_seed_by_line multi_edit_tool [] (before ++ e ∷ after) (l ∷ lines) lang)
            (pos (n + 1))
          ≡ state_of lang (l ∷ lines) e.old_string)
unfolding hook_added_lines hook_seed_by_line
hook_seed_by_line-hook_added_lines lang l lines before e after h =
    let (n, rest, added, seed, low) = place lang (l ∷ lines) true 0 before e after h in
    let gap = λ (bs : List Bytes). (added_lines_with_gap_lem bs []).0 in
    (
      n,
      rest,
      gap (new_strings (before ++ e ∷ after))
          ∙ added
          ∙ ap (λ k. k ++ (number_lines n (split line_feed e.new_string) ++ rest))
              (sym (gap (new_strings before))),
      seed,
    )
