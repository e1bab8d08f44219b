-- ===== src/Guard/Scanner/Blocks.antt =====
-- The state of the scanner over several lines: edits that are not neighbours do not see each other,
-- and the two ways to find the state in which a change begins agree.
use mathlib.Core.List.{foldl, append-nil}
use runecho.Prelude.{
  ℕ, zero, suc, ◌+◌, ◌≤◌, ◌≡◌, refl, sym, ap, ◌∙◌, Bool, true, false, List, [], ◌∷◌, ◌++◌, map,
  length, take, All, arith, ltb, some, if◌then◌else◌,
}
use runecho.Int.{ℤ, pos}
use runecho.Text.{Bytes, split, split_more, line_feed}
use runecho.Guard.Types.{AddedLine}
use runecho.Guard.Lang.{Lang}
use runecho.Guard.Lines.{
  max_line_bytes, cap_line, number_lines, text_to_added_lines, added_lines_with_gap, numbered,
  added_lines_with_gap_lem,
}
use runecho.Guard.Scanner.{strip_literals_stateful}
use runecho.Guard.Scanner.Lines.{
  kept_state, scan_from, scan_stripped, next_state, open_state_before,
}
use runecho.Guard.Validate.Seeds.{
  Seed, max_seed_file_bytes, line_index, open_seed_for, open_seed_for_lem,
}

module _ (lang : Lang) where
  abbrev pub scans : List (Bytes × AddedLine) → List Bytes
  scans calls = map (λ e. e.0) calls

  -- The scans of the lines of one block, and the state after it.
  abbrev strip_all : Bytes → List Bytes → List Bytes × Bytes
  strip_all state [] = ([], state)
  strip_all state (t ∷ raw) =
      let stripped = strip_literals_stateful lang (cap_line t) state in
      let more = strip_all stripped.1 raw in (stripped.0 ∷ more.0, more.1)

  neighbour : (i : ℕ) (state : Bytes) → kept_state true (pos i) (pos (i + 1)) state ≡ state
  neighbour i state = ground arith

  after_gap : (i : ℕ) (state : Bytes) → kept_state true (pos i) (pos (i + 1 + 1)) state ≡ []
  after_gap i state = ground arith

  -- The calls from a line on whose starting state is known.
  scans-line :
      (later : Bool) (prev : ℤ) (state start : Bytes) (l : AddedLine) (lines : List AddedLine)
      → kept_state later prev l.line_no state ≡ start
      → scans (scan_from lang later prev state (l ∷ lines))
        ≡ (strip_literals_stateful lang l.text start).0
          ∷ scans
              (scan_from lang true l.line_no (strip_literals_stateful lang l.text start).1 lines)
  unfolding scan_from
  scans-line later prev state start l lines e =
      ap
        (λ k.
          (strip_literals_stateful lang l.text k).0
          ∷ scans (scan_from lang true l.line_no (strip_literals_stateful lang l.text k).1 lines))
        e

  scan_from-neighbours :
      (i j : ℕ) (state : Bytes) (raw : List Bytes) (rest : List AddedLine)
      → j ≡ i + length raw
      → scans (scan_from lang true (pos i) state (number_lines i raw ++ rest))
        ≡ (strip_all state raw).0
          ++ scans (scan_from lang true (pos j) (strip_all state raw).1 rest)
  scan_from-neighbours i j state [] rest e =
      let same : i ≡ j = omega arith in
      ap (λ k. scans (scan_from lang true (pos k) state rest)) same
  scan_from-neighbours i j state (t ∷ raw) rest e =
      let stripped = strip_literals_stateful lang (cap_line t) state in
      scans-line true (pos i) state state (record { line_no = pos (i + 1); text = cap_line t })
        (number_lines (i + 1) raw ++ rest) (neighbour i state)
      ∙ ap (◌∷◌ stripped.0) (scan_from-neighbours (i + 1) j stripped.1 raw rest (omega arith))

  -- A block that starts with no state: the first one, or one after a gap.
  scan_from-block :
      (later : Bool) (prev : ℤ) (i j : ℕ) (state t : Bytes) (raw : List Bytes)
      (rest : List AddedLine)
      → kept_state later prev (pos (i + 1)) state ≡ []
      → j ≡ i + length (t ∷ raw)
      → scans (scan_from lang later prev state (number_lines i (t ∷ raw) ++ rest))
        ≡ (strip_all [] (t ∷ raw)).0
          ++ scans (scan_from lang true (pos j) (strip_all [] (t ∷ raw)).1 rest)
  scan_from-block later prev i j state t raw rest k e =
      let stripped = strip_literals_stateful lang (cap_line t) [] in
      scans-line later prev state [] (record { line_no = pos (i + 1); text = cap_line t })
        (number_lines (i + 1) raw ++ rest) k
      ∙ ap (◌∷◌ stripped.0) (scan_from-neighbours (i + 1) j stripped.1 raw rest (omega arith))

  scan_from_nil :
      (later : Bool) (prev : ℤ) (state : Bytes) → scans (scan_from lang later prev state []) ≡ []
  unfolding scan_from
  scan_from_nil later prev state = refl

  -- One block alone.
  scan_stripped-text :
      (b : Bytes)
      → scans (scan_stripped lang (text_to_added_lines b)) ≡ (strip_all [] (split line_feed b)).0
  scan_stripped-text b =
      let raw = split line_feed b in
      ap (λ l. scans (scan_stripped lang l)) (sym (append-nil (number_lines 0 raw)))
      ∙ scan_from-block false (pos 0) 0 (length raw) [] (split_more line_feed b).0
          (split_more line_feed b).1 [] refl (omega arith)
      ∙ ap (λ l. (strip_all [] raw).0 ++ l)
          (scan_from_nil true (pos (length raw)) (strip_all [] raw).1)
      ∙ append-nil (strip_all [] raw).0

  abbrev pub each_alone : List Bytes → List Bytes
  each_alone [] = []
  each_alone (b ∷ blocks) = scans (scan_stripped lang (text_to_added_lines b)) ++ each_alone blocks

  scan_from-numbered :
      (later : Bool) (prev : ℤ) (i : ℕ) (state : Bytes) (blocks : List Bytes)
      → kept_state later prev (pos (i + 1)) state ≡ []
      → scans (scan_from lang later prev state (numbered i blocks)) ≡ each_alone blocks
  scan_from-numbered later prev i state [] k = scan_from_nil later prev state
  scan_from-numbered later prev i state (b ∷ blocks) k =
      let raw = split line_feed b in
      let next = numbered (i + length raw + 1) blocks in
      let end = (strip_all [] raw).1 in
      scan_from-block later prev i (i + length raw) state (split_more line_feed b).0
        (split_more line_feed b).1 next k refl
      ∙ ap (λ l. (strip_all [] raw).0 ++ l)
          (scan_from-numbered true (pos (i + length raw)) (i + length raw + 1) end blocks
            (after_gap (i + length raw) end))
      ∙ ap (λ l. l ++ each_alone blocks) (sym (scan_stripped-text b))

-- The lines of several edits are blanked as if each edit stood alone: a string or a comment that one
-- leaves open does not reach into the next.
pub scan_stripped-added_lines_with_gap :
    (lang : Lang) (blocks : List Bytes)
    → scans lang (scan_stripped lang (added_lines_with_gap blocks)) ≡ each_alone lang blocks
scan_stripped-added_lines_with_gap lang blocks =
    ap (λ l. scans lang (scan_stripped lang l)) ((added_lines_with_gap_lem blocks []).0)
    ∙ scan_from-numbered lang false (pos 0) 0 [] blocks refl

-- Lines that are not too long are not cut.
short_line : (m : ℕ) (t : Bytes) → length t ≤ m → t ≡ (if ltb m (length t) then take m t else t)
short_line m t h = ground arith

take-number_lines :
    (lang : Lang) (i n : ℕ) (state : Bytes) (raw : List Bytes)
    → All (λ t. length t ≤ max_line_bytes) raw
    → foldl (λ s t. (strip_literals_stateful lang t s).1) state (take n raw)
      ≡ foldl (next_state lang) state (take n (number_lines i raw))
take-number_lines lang i zero state raw h = refl
take-number_lines lang i (suc n) state [] h = refl
take-number_lines lang i (suc n) state (t ∷ raw) (short, h) =
    let same : t ≡ cap_line t = short_line max_line_bytes t short in
    ap
      (λ u.
        foldl (λ s v. (strip_literals_stateful lang v s).1) (strip_literals_stateful lang u state).1
          (take n raw))
      same
    ∙ take-number_lines lang (i + 1) n (strip_literals_stateful lang (cap_line t) state).1 raw h

-- Take a file that is not too large and whose lines are not too long. The state that `openSeedFor`
-- gives for a line is the one that `OpenStateBefore` gives for the lines of the file above it.
pub open_seed_for-open_state_before :
    (lang : Lang) (content : Bytes) (n : ℕ)
    → length content ≤ max_seed_file_bytes
    → All (λ t. length t ≤ max_line_bytes) (split line_feed content)
    → (seed : Seed) × (open_seed_for strip_literals_stateful lang (some content) ≡ some seed)
      × (seed (pos (n + 1)) ≡ open_state_before lang (text_to_added_lines content) n)
unfolding open_state_before
open_seed_for-open_state_before lang content n small short =
    let (seed, is_seed, at_line) =
      open_seed_for_lem strip_literals_stateful lang content (pos (n + 1)) small in
    let same : line_index (pos (n + 1)) ≡ n = omega arith in
    (
      seed,
      is_seed,
      at_line
          ∙ ap
              (λ k.
                foldl (λ s t. (strip_literals_stateful lang t s).1) []
                  (take k (split line_feed content)))
              same
          ∙ take-number_lines lang 0 n [] (split line_feed content) short,
    )
