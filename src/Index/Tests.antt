-- ===== src/Index/Tests.antt =====
-- internal/ir/hasher.go: the text that is hashed, and the theorem at two orders of one map.
use mathlib.Core.List.Perm
use runecho.Prelude.{◌≡◌, refl, [], ◌∷◌}
use runecho.Order.{nat_ord, list_ord}
use runecho.Sort.{sort_by}
use runecho.Text.{Bytes, codes}
use runecho.Snapshot.Store.{FileIr}
use runecho.Index.{compute_root_hash, compute_root_hash-eq_of_perm}

abbrev entry : Bytes → Bytes → Bytes × FileIr
entry path hash = (path, record { hash = hash; symbols = []; refs = [] })

hashed_text :
    compute_root_hash (λ s. s) (entry (codes "b") (codes "2") ∷ entry (codes "a") (codes "1") ∷ [])
    ≡ codes "a:1\nb:2"
unfolding compute_root_hash sort_by
hashed_text = refl

compute_root_hash-eq_of_perm_example :
    compute_root_hash (λ s. s) (entry (codes "b") (codes "2") ∷ entry (codes "a") (codes "1") ∷ [])
    ≡ compute_root_hash
        (λ s. s)
        (entry (codes "a") (codes "1") ∷ entry (codes "b") (codes "2") ∷ [])
compute_root_hash-eq_of_perm_example =
    compute_root_hash-eq_of_perm (λ s. s)
      (entry (codes "b") (codes "2") ∷ entry (codes "a") (codes "1") ∷ [])
      (entry (codes "a") (codes "1") ∷ entry (codes "b") (codes "2") ∷ []) ((refl, tt), (tt, tt))
      ((refl, tt), (tt, tt))
      (Perm.swap (entry (codes "a") (codes "1")) (entry (codes "b") (codes "2")) [])
