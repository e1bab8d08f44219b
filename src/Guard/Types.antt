-- ===== src/Guard/Types.antt =====
-- internal/guard/diff.go: the added lines of a file, which every check of the guard reads.
use runecho.Prelude.{List}
use runecho.Int.{ℤ}
use runecho.Text.{Bytes}

pub record AddedLine : Type 0 where
  pub line_no : ℤ
  pub text : Bytes

pub record FileDiff : Type 0 where
  pub path : Bytes
  pub added_lines : List AddedLine
  pub abs_path : Bytes
  pub seed_by_line : List (ℤ × Bytes)
