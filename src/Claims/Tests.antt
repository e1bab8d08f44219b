-- ===== src/Claims/Tests.antt =====
-- internal/claims/claims.go: `KnownSet` on a few names.
use runecho.Prelude.{◌≡◌, refl, false, not, ◌&&◌, ◌||◌, [], ◌∷◌, any}
use runecho.Order.{nat_ord, list_ord, ◌=?◌}
use runecho.Text.{codes, contains_byte}
use runecho.Guard.Lang.{has_suffix}
use runecho.Guard.Known.{has_name}
use runecho.Claims.{claim_set, has_name-claim_set}

segments :
    claim_set (codes "a.Reader.fetch" ∷ codes "Open" ∷ [])
    ≡ codes "a.Reader.fetch" ∷ codes "fetch" ∷ codes "Open" ∷ []
unfolding claim_set
segments = refl

no_middle : has_name (codes "Reader.fetch") (claim_set (codes "a.Reader.fetch" ∷ [])) ≡ false
unfolding claim_set
no_middle = refl

has_name-claim_set_example :
    has_name (codes "fetch") (claim_set (codes "a.Reader.fetch" ∷ []))
    ≡ any
        (λ n.
          n =? codes "fetch"
          || (not (contains_byte b'.' (codes "fetch")) && has_suffix (b'.' ∷ codes "fetch") n))
        (codes "a.Reader.fetch" ∷ [])
has_name-claim_set_example = has_name-claim_set (codes "fetch") (codes "a.Reader.fetch" ∷ [])
