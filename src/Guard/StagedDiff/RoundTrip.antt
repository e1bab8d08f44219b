-- ===== src/Guard/StagedDiff/RoundTrip.antt =====
-- The diffs that git writes are read back: every added line of every file, with its line number,
-- whatever the contents of the lines look like.
use mathlib.Core.List.{append_assoc, append-nil}
use runecho.Prelude.{
  ◌≡◌, refl, sym, ap, ◌∙◌, Bool, true, false, Option, List, [], ◌∷◌, ◌++◌, map, All, arith,
}
use runecho.Order.{nat_ord, list_ord}
use runecho.Int.{ℤ, pos, next_int}
use runecho.Text.{Bytes, codes, has_prefix}
use runecho.Guard.Types.{AddedLine, FileDiff}
use runecho.Guard.StagedDiff.{
  Parser, add_to_last, new_file, is_header, parse_hunk_start, parse_diff_new_path, parse_step,
  parse_lines,
}

-- A line of a hunk.
pub data HunkLine : Type 0 where
  removed : Bytes → HunkLine
  added : Bytes → HunkLine
  context : Bytes → HunkLine

-- A hunk: its header line after `@@ `, and its lines.
pub record Hunk : Type 0 where
  pub header : Bytes
  pub body : List HunkLine

-- The part of a diff about one file: what follows `diff --git `, the other header lines, the path
-- of the new file and the hunks.
pub record Section : Type 0 where
  pub git_header : Bytes
  pub headers : List Bytes
  pub new_path : Bytes
  pub hunks : List Hunk

abbrev pub line_text : HunkLine → Bytes
line_text (removed t) = b'-' ∷ t
line_text (added t) = b'+' ∷ t
line_text (context t) = 32 ∷ t

abbrev pub hunk_header : Hunk → Bytes
hunk_header h = codes "@@ " ++ h.header

abbrev pub hunks_text : List Hunk → List Bytes
hunks_text [] = []
hunks_text (h ∷ hunks) = hunk_header h ∷ (map line_text h.body ++ hunks_text hunks)

abbrev pub section_text : Section → List Bytes
section_text s =
    (codes "diff --git " ++ s.git_header)
    ∷ (s.headers ++ (codes "+++ b/" ++ s.new_path) ∷ hunks_text s.hunks)

abbrev pub diff_text : List Section → List Bytes
diff_text [] = []
diff_text (s ∷ sections) = section_text s ++ diff_text sections

-- The added lines of a hunk that starts at a line number of the new file. Added lines and context
-- lines are lines of the new file.
abbrev pub added_from : ℤ → List HunkLine → List AddedLine
added_from n [] = []
added_from n (removed t ∷ body) = added_from n body
added_from n (added t ∷ body) = record { line_no = n; text = t } ∷ added_from (next_int n) body
added_from n (context t ∷ body) = added_from (next_int n) body

abbrev pub added_of : List Hunk → List AddedLine
added_of [] = []
added_of (h ∷ hunks) = added_from (parse_hunk_start (hunk_header h)) h.body ++ added_of hunks

abbrev pub file_of : Section → FileDiff
file_of s = record (new_file s.new_path) { added_lines = added_of s.hunks }

-- A header line that is passed over before the `+++` line.
abbrev pub IsPassedOver : Bytes → Type 0
IsPassedOver line =
    (is_header line ≡ true)
    × (has_prefix (codes "diff --git ") line ≡ false)
    × (has_prefix (codes "+++ ") line ≡ false)

module _ (unquote : Bytes → Option Bytes) where
  -- In a hunk of the file at the end of the result.
  abbrev inside : List FileDiff → FileDiff → List AddedLine → ℤ → Parser
  inside done fd lines n = record {
    result = done ++ record fd { added_lines = lines } ∷ [];
    attached = true;
    new_line_no = n;
    in_hunk = true;
  }

  add_to_last-append :
      (l : AddedLine) (done : List FileDiff) (fd : FileDiff)
      → add_to_last l (done ++ fd ∷ [])
        ≡ done ++ record fd { added_lines = fd.added_lines ++ l ∷ [] } ∷ []
  add_to_last-append l [] fd = refl
  add_to_last-append l (e ∷ []) fd = refl
  add_to_last-append l (e ∷ f ∷ done) fd = ap (◌∷◌ e) (add_to_last-append l (f ∷ done) fd)

  step_removed :
      (done : List FileDiff) (fd : FileDiff) (lines : List AddedLine) (n : ℤ) (t : Bytes)
      → parse_step unquote (inside done fd lines n) (line_text (removed t)) ≡ inside done fd lines n
  unfolding parse_step
  step_removed done fd lines n t = ground arith

  step_added :
      (done : List FileDiff) (fd : FileDiff) (lines : List AddedLine) (n : ℤ) (t : Bytes)
      → parse_step unquote (inside done fd lines n) (line_text (added t))
        ≡ inside done fd (lines ++ record { line_no = n; text = t } ∷ []) (next_int n)
  unfolding parse_step
  step_added done fd lines n t = ground (
    arith,
    add_to_last-append (record { line_no = n; text = t }) done (record fd { added_lines = lines }),
  )

  step_context :
      (done : List FileDiff) (fd : FileDiff) (lines : List AddedLine) (n : ℤ) (t : Bytes)
      → parse_step unquote (inside done fd lines n) (line_text (context t))
        ≡ inside done fd lines (next_int n)
  unfolding parse_step
  step_context done fd lines n t = refl

  -- The line number after a hunk.
  abbrev end_of : ℤ → List HunkLine → ℤ
  end_of n [] = n
  end_of n (removed t ∷ body) = end_of n body
  end_of n (added t ∷ body) = end_of (next_int n) body
  end_of n (context t ∷ body) = end_of (next_int n) body

  parse_lines-body :
      (done : List FileDiff) (fd : FileDiff) (lines : List AddedLine) (n : ℤ) (body : List HunkLine)
      (rest : List Bytes)
      → parse_lines unquote (inside done fd lines n) (map line_text body ++ rest)
        ≡ parse_lines unquote (inside done fd (lines ++ added_from n body) (end_of n body)) rest
  parse_lines-body done fd lines n [] rest =
      ap (λ l. parse_lines unquote (inside done fd l n) rest) (sym (append-nil lines))
  parse_lines-body done fd lines n (removed t ∷ body) rest =
      ap (λ p. parse_lines unquote p (map line_text body ++ rest)) (step_removed done fd lines n t)
      ∙ parse_lines-body done fd lines n body rest
  parse_lines-body done fd lines n (added t ∷ body) rest =
      ap (λ p. parse_lines unquote p (map line_text body ++ rest)) (step_added done fd lines n t)
      ∙ parse_lines-body done fd (lines ++ record { line_no = n; text = t } ∷ []) (next_int n) body
          rest
      ∙ ap (λ l. parse_lines unquote (inside done fd l (end_of (next_int n) body)) rest)
          (append_assoc lines (record { line_no = n; text = t } ∷ [])
            (added_from (next_int n) body))
  parse_lines-body done fd lines n (context t ∷ body) rest =
      ap (λ p. parse_lines unquote p (map line_text body ++ rest)) (step_context done fd lines n t)
      ∙ parse_lines-body done fd lines (next_int n) body rest

  -- At the file at the end of the result, in a hunk or before its first one.
  abbrev at : Bool → List FileDiff → FileDiff → List AddedLine → ℤ → Parser
  at hunk done fd lines n = record (inside done fd lines n) { in_hunk = hunk }

  step_hunk :
      (hunk : Bool) (done : List FileDiff) (fd : FileDiff) (lines : List AddedLine) (n : ℤ)
      (h : Hunk)
      → parse_step unquote (at hunk done fd lines n) (hunk_header h)
        ≡ inside done fd lines (parse_hunk_start (hunk_header h))
  unfolding parse_step
  step_hunk true done fd lines n h = refl
  step_hunk false done fd lines n h = refl

  parse_lines-hunks :
      (hunk : Bool) (done : List FileDiff) (fd : FileDiff) (lines : List AddedLine) (n : ℤ)
      (hunks : List Hunk) (rest : List Bytes)
      → (last : Bool) × (m : ℤ) × (parse_lines unquote
            (at hunk done fd lines n)
            (hunks_text hunks ++ rest)
          ≡ parse_lines unquote (at last done fd (lines ++ added_of hunks) m) rest)
  parse_lines-hunks hunk done fd lines n [] rest =
      (hunk, n, ap (λ l. parse_lines unquote (at hunk done fd l n) rest) (sym (append-nil lines)))
  parse_lines-hunks hunk done fd lines n (h ∷ hunks) rest =
      let begin = parse_hunk_start (hunk_header h) in
      let body = added_from begin h.body in
      let (last, m, e) =
        parse_lines-hunks true done fd (lines ++ body) (end_of begin h.body) hunks rest in
      (
        last,
        m,
        ap (λ p. parse_lines unquote p ((map line_text h.body ++ hunks_text hunks) ++ rest))
              (step_hunk hunk done fd lines n h)
            ∙ ap (parse_lines unquote (inside done fd lines begin))
                (append_assoc (map line_text h.body) (hunks_text hunks) rest)
            ∙ parse_lines-body done fd lines begin h.body (hunks_text hunks ++ rest)
            ∙ e
            ∙ ap (λ l. parse_lines unquote (at last done fd l m) rest)
                (append_assoc lines body (added_of hunks)),
      )

  step_git :
      (p : Parser) (t : Bytes)
      → parse_step unquote p (codes "diff --git " ++ t) ≡ record p { in_hunk = false }
  unfolding parse_step
  step_git p t = refl

  step_header :
      (p : Parser) (line : Bytes)
      → p.in_hunk ≡ false
      → IsPassedOver line
      → parse_step unquote p line ≡ p
  unfolding parse_step
  step_header p line outside (header, git, plus) = rw (git, plus, header) (ground arith)

  step_plus :
      (p : Parser) (path : Bytes)
      → p.in_hunk ≡ false
      → parse_step unquote p (codes "+++ b/" ++ path) ≡ at false p.result (new_file path) [] (pos 0)
  unfolding parse_step parse_diff_new_path
  step_plus p path outside = ground (arith, outside)

  parse_lines-headers :
      (p : Parser) (headers rest : List Bytes)
      → p.in_hunk ≡ false
      → All IsPassedOver headers
      → parse_lines unquote p (headers ++ rest) ≡ parse_lines unquote p rest
  parse_lines-headers p [] rest outside h = refl
  parse_lines-headers p (line ∷ headers) rest outside (hl, h) =
      ap (λ q. parse_lines unquote q (headers ++ rest)) (step_header p line outside hl)
      ∙ parse_lines-headers p headers rest outside h

  parse_lines-section :
      (p : Parser) (s : Section) (rest : List Bytes)
      → All IsPassedOver s.headers
      → (q : Parser) × (q.result ≡ p.result ++ file_of s ∷ [])
        × (parse_lines unquote p (section_text s ++ rest) ≡ parse_lines unquote q rest)
  parse_lines-section p s rest h =
      let out : Parser = record p { in_hunk = false } in
      let plus = codes "+++ b/" ++ s.new_path in
      let (last, m, e) =
        parse_lines-hunks false p.result (new_file s.new_path) [] (pos 0) s.hunks rest in
      (
        at last p.result (new_file s.new_path) (added_of s.hunks) m,
        refl,
        ap (λ q. parse_lines unquote q ((s.headers ++ plus ∷ hunks_text s.hunks) ++ rest))
              (step_git p s.git_header)
            ∙ ap (parse_lines unquote out) (append_assoc s.headers (plus ∷ hunks_text s.hunks) rest)
            ∙ parse_lines-headers out s.headers (plus ∷ (hunks_text s.hunks ++ rest)) refl h
            ∙ ap (λ q. parse_lines unquote q (hunks_text s.hunks ++ rest))
                (step_plus out s.new_path refl)
            ∙ e,
      )

  -- Read the lines of a diff from any state: for every file a `diff --git` line, header lines of the
  -- kinds that are passed over, the `+++ b/` line, and hunks of removed, added and context lines
  -- with any contents. The result grows by the files in order, each with its path and with its
  -- added lines, numbered from the start in the hunk's header over the added and context lines, by
  -- an `int` that wraps around.
  pub parse_lines-diff_text :
      (p : Parser) (sections : List Section)
      → All (λ s. All IsPassedOver s.headers) sections
      → (parse_lines unquote p (diff_text sections)).result ≡ p.result ++ map file_of sections
  parse_lines-diff_text p [] h = sym (append-nil p.result)
  parse_lines-diff_text p (s ∷ sections) (hs, h) =
      let (q, grown, e) = parse_lines-section p s (diff_text sections) hs in
      ap (λ (r : Parser). r.result) e
      ∙ parse_lines-diff_text q sections h
      ∙ ap (λ l. l ++ map file_of sections) grown
      ∙ append_assoc p.result (file_of s ∷ []) (map file_of sections)
