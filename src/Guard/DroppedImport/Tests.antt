-- ===== src/Guard/DroppedImport/Tests.antt =====
-- internal/guard/dropped_import.go on an edit that drops an import.
use runecho.Prelude.{◌≡◌, refl, false, not, ◌&&◌, ◌||◌, List, [], ◌∷◌, map, any}
use runecho.Order.{nat_ord, list_ord, ◌=?◌}
use runecho.Int.{ℤ, pos}
use runecho.Sort.{sort_by}
use runecho.Maps.{lookup}
use runecho.Text.{Bytes, codes}
use runecho.Guard.Types.{AddedLine}
use runecho.Guard.Lang.{lang_python, is_python, is_js}
use runecho.Guard.Lines.{text_to_added_lines}
use runecho.Guard.Known.{has_name}
use runecho.Guard.Validate.{Extractors}
use runecho.Guard.DroppedImport.{
  dropped_name, dropped_import_refs, is_on_line, is_line, dropped_import_refs_lem,
}

-- Every line imports the name that it consists of.
abbrev importing : Extractors
importing = record {
  extract_defs = λ lang lines. [];
  extract_imports = λ lang lines. map (λ (l : AddedLine). l.text) lines;
  js_declared_names = λ lines. [];
  py_declared_names = λ lines. [];
  py_param_names = λ lines. [];
  extract_refs = λ lang lines seed. [];
  strip_literals_stateful = λ lang text state. (text, state);
}

dropped_import_refs_lem_example :
    let found =
      dropped_import_refs importing
        (λ lang lines. [])
        (λ lang lines. (codes "b", pos 1) ∷ [])
        lang_python
        (text_to_added_lines (codes "a\nb"))
        (text_to_added_lines (codes "a"))
        [] in
    let uses : List (Bytes × ℤ) = (codes "b", pos 1) ∷ [] in
    (any (λ d. dropped_name d =? codes "b") found ≡ (
      (is_python lang_python || is_js lang_python)
      && has_name (codes "b") (codes "a" ∷ codes "b" ∷ [])
      && not (has_name (codes "b") (codes "a" ∷ []))
      && not (has_name (codes "b") [])
      && not (has_name (codes "b") [])
      && not (has_name (codes "b") [])
      && is_on_line (lookup (codes "b") uses)))
    × (any (λ d. not (is_line (lookup d.name uses) d.line_no)) found ≡ false)
dropped_import_refs_lem_example =
    dropped_import_refs_lem importing (λ lang lines. []) (λ lang lines. (codes "b", pos 1) ∷ [])
      lang_python (text_to_added_lines (codes "a\nb")) (text_to_added_lines (codes "a")) []
      (codes "b")

-- A name that the rest of the file binds is not reported.
bound_elsewhere :
    dropped_import_refs importing
      (λ lang lines. [])
      (λ lang lines. (codes "b", pos 1) ∷ [])
      lang_python
      (text_to_added_lines (codes "a\nb"))
      (text_to_added_lines (codes "a"))
      (codes "b" ∷ [])
    ≡ []
unfolding dropped_import_refs sort_by
bound_elsewhere = refl
