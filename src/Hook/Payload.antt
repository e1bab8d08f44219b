-- ===== src/Hook/Payload.antt =====
-- cmd/runecho-guard/main.go and dangling.go: the edit that the hook is asked about, and the texts that
-- it adds and removes.
use runecho.Prelude.{not, List, [], ◌∷◌, ◌++◌, map, keep, if◌then◌else◌}
use runecho.Order.{nat_ord, list_ord, ◌=?◌}
use runecho.Text.{Bytes, codes, line_feed}
use runecho.Guard.Types.{AddedLine}
use runecho.Guard.Lines.{text_to_added_lines, added_lines_with_gap}

pub record EditOp : Type 0 where
  pub old_string : Bytes
  pub new_string : Bytes

pub record Payload : Type 0 where
  pub session_id : Bytes
  pub tool_name : Bytes
  pub file_path : Bytes
  pub old_string : Bytes
  pub new_string : Bytes
  pub content : Bytes
  pub edits : List EditOp

abbrev pub edit_tool : Bytes
edit_tool = codes "Edit"

abbrev pub write_tool : Bytes
write_tool = codes "Write"

abbrev pub multi_edit_tool : Bytes
multi_edit_tool = codes "MultiEdit"

-- `strings.Join(parts, "\n")`
abbrev pub join_lines : List Bytes → Bytes
join_lines [] = []
join_lines (p ∷ []) = p
join_lines (p ∷ q ∷ parts) = p ++ line_feed ∷ join_lines (q ∷ parts)

-- The texts of the edits that have one.
abbrev pub non_empty : List Bytes → List Bytes
non_empty parts = keep (λ p. not (p =? [])) parts

abbrev pub new_strings : List EditOp → List Bytes
new_strings edits = non_empty (map (λ (e : EditOp). e.new_string) edits)

abbrev pub old_strings : List EditOp → List Bytes
old_strings edits = non_empty (map (λ (e : EditOp). e.old_string) edits)

unfoldable pub hook_text : Bytes → Bytes → Bytes → List EditOp → Bytes
hook_text tool_name new_string content edits =
    if tool_name =? edit_tool
    then new_string
    else if tool_name =? write_tool
    then content
    else if tool_name =? multi_edit_tool
    then join_lines (new_strings edits)
    else []

unfoldable pub hook_old_text : Bytes → Bytes → List EditOp → Bytes
hook_old_text tool_name old_string edits =
    if tool_name =? edit_tool
    then old_string
    else if tool_name =? multi_edit_tool
    then join_lines (old_strings edits)
    else []

unfoldable pub hook_added_lines : Bytes → Bytes → Bytes → List EditOp → List AddedLine
hook_added_lines tool_name new_string content edits =
    if tool_name =? multi_edit_tool
    then added_lines_with_gap (new_strings edits)
    else if tool_name =? edit_tool
    then text_to_added_lines new_string
    else if tool_name =? write_tool
    then text_to_added_lines content
    else []

unfoldable pub hook_old_lines : Bytes → Bytes → List EditOp → Bytes → List AddedLine
hook_old_lines tool_name old_string edits single_block =
    if tool_name =? multi_edit_tool
    then added_lines_with_gap (old_strings edits)
    else text_to_added_lines single_block
