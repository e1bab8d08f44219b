-- ===== src/Hook/Learned/Tests.antt =====
-- cmd/runecho-guard/learnedallow.go on a store with two repositories.
use runecho.Prelude.{ℕ, ◌*◌, ◌%◌, ◌≡◌, refl, true, Option, none, some, [], ◌∷◌}
use runecho.Order.{nat_ord, list_ord}
use runecho.Int.{ℤ, pos, negsuc}
use runecho.Text.{Bytes, codes}
use runecho.Hook.Learned.{
  LearnedAllow, LearnOptions, learned_threshold, learned_ttl, wrapped, record_approvals,
  prune_learned_allow, learned_allowed_set,
}

abbrev atoi : Bytes → Option ℤ
atoi s = none

-- A time is its own text.
abbrev read : Bytes → Option ℕ
read [] = none
read (t ∷ text) = some t

abbrev written : ℕ → Bytes
written t = t ∷ []

abbrev on : LearnOptions
on = record { enabled = true; learn_n = []; ttl_days = [] }

abbrev la : LearnedAllow
la =
    (codes "r", (codes "f", record { count = pos 1; last_seen = written 7 }) ∷ [])
    ∷ (codes "q", (codes "g", record { count = pos 5; last_seen = written 7 }) ∷ [])
    ∷ []

now_trusted :
    learned_allowed_set atoi read written on
      (record_approvals atoi read written on la (codes "r") (codes "f" ∷ codes "h" ∷ []) 8)
      (codes "r")
      8
    ≡ codes "f" ∷ []
unfolding learned_allowed_set record_approvals prune_learned_allow learned_threshold learned_ttl
now_trusted = refl

-- A window of 106752 days is 2^63 nanoseconds and more, and lies in the future.
wrapped_window :
    wrapped ((106752 * 86400000000000) % 18446744073709551616) ≡ negsuc 9223371273709551615
wrapped_window = refl

-- The count of an entry that was approved 2^63 - 1 times wraps around.
abbrev full : LearnedAllow
full =
    (codes "r", (codes "f", record { count = pos 9223372036854775807; last_seen = written 7 }) ∷ [])
    ∷ []

wrapped_count :
    learned_allowed_set atoi read written on
      (record_approvals atoi read written on full (codes "r") (codes "f" ∷ []) 8)
      (codes "r")
      8
    ≡ []
unfolding learned_allowed_set record_approvals prune_learned_allow learned_threshold learned_ttl
wrapped_count = refl
