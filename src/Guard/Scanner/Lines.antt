-- ===== src/Guard/Scanner/Lines.antt =====
-- internal/guard/extract.go: `scanStripped`, which blanks the lines of a file or of a change one after
-- the other, and `OpenStateBefore`. The callback of `scanStripped` is the list of its calls.
use mathlib.Core.List.{foldl}
use runecho.Prelude.{ℕ, Bool, true, false, not, ◌&&◌, ◌||◌, List, [], ◌∷◌, take, if◌then◌else◌}
use runecho.Int.{ℤ, pos, suc_ℤ, next_int}
use runecho.Text.{Bytes}
use runecho.Guard.Types.{AddedLine}
use runecho.Guard.Lang.{Lang}
use runecho.Guard.Scanner.{strip_literals_stateful}
use runecho.Guard.Validate.Seeds.{int_eq}

-- `line_no == prev_no+1`. The second test is for the one number where `prev_no+1` wraps around.
abbrev pub follows : ℤ → ℤ → Bool
follows prev_no line_no = int_eq line_no (suc_ℤ prev_no) || int_eq line_no (next_int prev_no)

-- The state that a line starts in: none after a gap in the numbers.
abbrev pub kept_state : Bool → ℤ → ℤ → Bytes → Bytes
kept_state later prev_no line_no state =
    if later && not (follows prev_no line_no) then [] else state

module _ (lang : Lang) where
  -- The loop: `later` says that a line came before, `prev_no` is its number.
  unfoldable pub scan_from : Bool → ℤ → Bytes → List AddedLine → List (Bytes × AddedLine)
  scan_from later prev_no state [] = []
  scan_from later prev_no state (l ∷ lines) =
      let stripped =
        strip_literals_stateful lang l.text (kept_state later prev_no l.line_no state) in
      (stripped.0, l) ∷ scan_from true l.line_no stripped.1 lines

  abbrev pub scan_stripped : List AddedLine → List (Bytes × AddedLine)
  scan_stripped lines = scan_from false (pos 0) [] lines

  abbrev pub next_state : Bytes → AddedLine → Bytes
  next_state state l = (strip_literals_stateful lang l.text state).1

  -- An index that is not above 0 is 0.
  unfoldable pub open_state_before : List AddedLine → ℕ → Bytes
  open_state_before file_lines idx = foldl next_state [] (take idx file_lines)
