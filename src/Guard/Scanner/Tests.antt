-- ===== src/Guard/Scanner/Tests.antt =====
-- internal/guard/extract.go: runs of the scanner on lines of each language, and the theorems at
-- concrete lines.
use runecho.Prelude.{◌≡◌, refl, some, [], ◌∷◌, ◌++◌, length, arith}
use runecho.Int.{pos}
use runecho.Text.{codes}
use runecho.Guard.Lang.{lang_go, lang_js, lang_python}
use runecho.Guard.Lines.{text_to_added_lines, added_lines_with_gap}
use runecho.Guard.Scanner.{
  is_f_string_prefix, token_at, scan_code, strip_literals_stateful, strip_literals,
}
use runecho.Guard.Scanner.Literals.{blank_to, blank_comment, in_triple, in_f_string, in_string}
use runecho.Guard.Scanner.Blanking.{IsBlanked}
use runecho.Guard.Scanner.Whole.{scan_code-enough, strip_literals_stateful-IsBlanked}
use runecho.Guard.Scanner.Plain.{strip_literals_stateful_plain}
use runecho.Guard.Scanner.Lines.{scan_stripped, open_state_before}
use runecho.Guard.Scanner.Blocks.{
  scans, each_alone, scan_stripped-added_lines_with_gap, open_seed_for-open_state_before,
}
use runecho.Guard.Validate.Seeds.{Seed, open_seed_for}

go_string :
    strip_literals lang_go (codes "x := Foo(\"Bar(\\\"\") // Baz()")
    ≡ codes "x := Foo(\"      \")         "
unfolding strip_literals_stateful scan_code token_at in_string
go_string = refl

go_comment : strip_literals_stateful lang_go (codes "a /* B()") [] ≡ (codes "a       ", codes "*/")
unfolding strip_literals_stateful scan_code token_at blank_comment
go_comment = refl

js_goes_on :
    strip_literals_stateful lang_js (codes "A() ` + B()") (codes "`") ≡ (codes "    ` + B()", [])
unfolding strip_literals_stateful blank_to scan_code token_at
js_goes_on = refl

python_f_string :
    strip_literals lang_python (codes "s = f\"a{Build(y)}{{b\"") ≡ codes "s = f\" {Build(y)}   \""
unfolding strip_literals_stateful scan_code token_at is_f_string_prefix in_f_string
python_f_string = refl

python_docstring :
    strip_literals_stateful lang_python (codes "  \"\"\"Call()") []
    ≡ (codes "  \"\"\"      ", codes "\"\"\"")
unfolding strip_literals_stateful scan_code token_at is_f_string_prefix in_triple
python_docstring = refl

scan_code-enough_example :
    scan_code lang_go (codes "a 'b") 4 (codes "a 'b")
    ≡ scan_code lang_go (codes "a 'b") 9 (codes "a 'b")
scan_code-enough_example =
    scan_code-enough lang_go (codes "a 'b") 4 9 (codes "a 'b") (omega arith) (omega arith)

strip_literals_stateful-IsBlanked_example :
    IsBlanked (strip_literals_stateful lang_js (codes "f(`x") []).0 (codes "f(`x")
    × (length (strip_literals_stateful lang_js (codes "f(`x") []).0 ≡ 4)
strip_literals_stateful-IsBlanked_example =
    strip_literals_stateful-IsBlanked lang_js (codes "f(`x") []

strip_literals_stateful_plain_example :
    let r = scan_code lang_go (codes "f(\"x\")") 4 (codes "\"x\")") in
    (strip_literals_stateful lang_go (codes "f(" ++ codes "\"x\")") [] ≡ (codes "f(" ++ r.0, r.1))
    × (strip_literals_stateful lang_go (codes "f(") [] ≡ (codes "f(", []))
strip_literals_stateful_plain_example =
    strip_literals_stateful_plain lang_go (codes "f(") (codes "\"x\")") (refl, (refl, tt))

scan_stripped-added_lines_with_gap_example :
    scans lang_js (scan_stripped lang_js (added_lines_with_gap (codes "a `" ∷ codes "b()" ∷ [])))
    ≡ each_alone lang_js (codes "a `" ∷ codes "b()" ∷ [])
scan_stripped-added_lines_with_gap_example =
    scan_stripped-added_lines_with_gap lang_js (codes "a `" ∷ codes "b()" ∷ [])

open_seed_for-open_state_before_example :
    (seed : Seed) × (open_seed_for strip_literals_stateful lang_js (some (codes "a `\nb"))
      ≡ some seed)
    × (seed (pos 2) ≡ open_state_before lang_js (text_to_added_lines (codes "a `\nb")) 1)
open_seed_for-open_state_before_example =
    open_seed_for-open_state_before lang_js (codes "a `\nb") 1 (omega arith)
      (omega arith, (omega arith, tt))

state_in_the_file : open_state_before lang_js (text_to_added_lines (codes "a `\nb")) 1 ≡ codes "`"
unfolding open_state_before strip_literals_stateful scan_code token_at blank_to
state_in_the_file = refl
