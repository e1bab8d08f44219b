-- ===== src/Index.antt =====
-- internal/ir/hasher.go: the hash of an index. SHA-256, as a text of hexadecimal digits, is a
-- parameter.
pub mod Locations
mod Tests
use mathlib.Core.List.{Perm}
use runecho.Prelude.{◌≡◌, ap, Bool, true, false, List, [], ◌∷◌, ◌++◌}
use runecho.Order.{nat_ord, list_ord}
use runecho.Sort.{sort_by, IsDistinct, sort_by-eq_of_perm}
use runecho.Text.{Bytes}
use runecho.Snapshot.Store.{FileIr, path_of}

-- `path:hash` of the sorted files, joined by line feeds: the loop over the indices, where a line feed
-- stands before every entry but the first.
abbrev pub entry_text : Bytes × FileIr → Bytes
entry_text (path, file) = path ++ b':' ∷ file.hash

abbrev pub write_entries : Bytes → List (Bytes × FileIr) → Bytes
write_entries built [] = built
write_entries built (e ∷ files) = write_entries (built ++ 10 ∷ entry_text e) files

abbrev pub root_text : List (Bytes × FileIr) → Bytes
root_text [] = []
root_text (e ∷ files) = write_entries (entry_text e) files

unfoldable pub compute_root_hash : (Bytes → Bytes) → List (Bytes × FileIr) → Bytes
compute_root_hash sha256_hex files = sha256_hex (root_text (sort_by path_of files))

entry-set : IsSet (Bytes × FileIr)
entry-set = hlevel

-- For a map of files, whose paths differ, the root hash does not depend on the order in which the
-- map is walked.
pub compute_root_hash-eq_of_perm :
    (sha256_hex : Bytes → Bytes) (files other : List (Bytes × FileIr))
    → IsDistinct path_of files
    → IsDistinct path_of other
    → Perm files other
    → compute_root_hash sha256_hex files ≡ compute_root_hash sha256_hex other
unfolding compute_root_hash
compute_root_hash-eq_of_perm sha256_hex files other d e p =
    ap (λ l. sha256_hex (root_text l)) (sort_by-eq_of_perm path_of entry-set files other d e p)
