-- ===== src/Guard/Lines.antt =====
-- internal/guard/util.go: the lines of an edit and of several edits.
use mathlib.Core.List.{foldl, append_assoc, append-nil}
use runecho.Prelude.{
  ℕ, ◌+◌, ◌≡◌, refl, sym, ap, ◌∙◌, Bool, true, false, List, [], ◌∷◌, ◌++◌, length, take, arith, ltb,
  if◌then◌else◌,
}
use runecho.Int.{pos}
use runecho.Text.{Bytes, split, line_feed}
use runecho.Guard.Types.{AddedLine}

-- 64 KiB
abbrev pub max_line_bytes : ℕ
max_line_bytes = 65536

abbrev pub cap_line : Bytes → Bytes
cap_line s = if ltb max_line_bytes (length s) then take max_line_bytes s else s

-- The loop of `TextToAddedLines` from the index `i` on.
abbrev pub number_lines : ℕ → List Bytes → List AddedLine
number_lines i [] = []
number_lines i (l ∷ raw) =
    record { line_no = pos (i + 1); text = cap_line l } ∷ number_lines (i + 1) raw

abbrev pub text_to_added_lines : Bytes → List AddedLine
text_to_added_lines s = number_lines 0 (split line_feed s)

-- The variables of `AddedLinesWithGap`.
pub record Numbering : Type 0 where
  pub lines : List AddedLine
  pub no : ℕ

abbrev pub add_text : Numbering → Bytes → Numbering
add_text s t = record {
  lines = s.lines ++ record { line_no = pos (s.no + 1); text = cap_line t } ∷ [];
  no = s.no + 1;
}

abbrev pub add_block : Numbering → Bytes → Numbering
add_block s b = foldl add_text s (split line_feed b)

-- `later` says that a block came before.
unfoldable pub add_blocks : Bool → Numbering → List Bytes → Numbering
add_blocks later s [] = s
add_blocks later s (b ∷ blocks) =
    add_blocks true (add_block (if later then record s { no = s.no + 1 } else s) b) blocks

unfoldable pub added_lines_with_gap : List Bytes → List AddedLine
added_lines_with_gap blocks = (add_blocks false (record { lines = []; no = 0 }) blocks).lines

add_texts :
    (s : Numbering) (texts : List Bytes)
    → foldl add_text s texts
      ≡ record { lines = s.lines ++ number_lines s.no texts; no = s.no + length texts }
add_texts s [] = ground (arith, append-nil s.lines)
add_texts s (t ∷ texts) =
    let one : List AddedLine = record { line_no = pos (s.no + 1); text = cap_line t } ∷ [] in
    ground (
      arith,
      add_texts (add_text s t) texts,
      append_assoc s.lines one (number_lines (s.no + 1) texts),
    )

-- Number the lines of the first block from `n + 1` on, leave out one number, and go on.
abbrev pub numbered : ℕ → List Bytes → List AddedLine
numbered n [] = []
numbered n (b ∷ blocks) =
    number_lines n (split line_feed b) ++ numbered (n + length (split line_feed b) + 1) blocks

add_blocks-later :
    (s : Numbering) (blocks : List Bytes)
    → (add_blocks true s blocks).lines ≡ s.lines ++ numbered (s.no + 1) blocks
unfolding add_blocks
add_blocks-later s [] = sym (append-nil s.lines)
add_blocks-later s (b ∷ blocks) =
    let first = number_lines (s.no + 1) (split line_feed b) in
    let rest = numbered (s.no + 1 + length (split line_feed b) + 1) blocks in
    ap (λ t. (add_blocks true t blocks).lines)
      (add_texts (record s { no = s.no + 1 }) (split line_feed b))
    ∙ add_blocks-later
        (record { lines = s.lines ++ first; no = s.no + 1 + length (split line_feed b) }) blocks
    ∙ append_assoc s.lines first rest

-- The lines of several edits, in order: those of the first are numbered from 1 as
-- `text_to_added_lines` numbers them, and between the last line of an edit and the first of the
-- next one number is left out. One edit gives the lines that `text_to_added_lines` gives.
pub added_lines_with_gap_lem :
    (blocks : List Bytes) (block : Bytes)
    → (added_lines_with_gap blocks ≡ numbered 0 blocks)
      × (added_lines_with_gap (block ∷ []) ≡ text_to_added_lines block)
unfolding added_lines_with_gap add_blocks
added_lines_with_gap_lem blocks block =
    (all blocks, all (block ∷ []) ∙ append-nil (text_to_added_lines block))
  where
    all :
        (bs : List Bytes)
        → (add_blocks false (record { lines = []; no = 0 }) bs).lines ≡ numbered 0 bs
    all [] = refl
    all (b ∷ bs) =
        let raw = split line_feed b in
        ap (λ t. (add_blocks true t bs).lines) (add_texts (record { lines = []; no = 0 }) raw)
        ∙ add_blocks-later (record { lines = number_lines 0 raw; no = 0 + length raw }) bs
