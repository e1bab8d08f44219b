-- ===== src/Snapshot/Contracts/Tests.antt =====
-- internal/snapshot/contracts.go on two sessions of a repository.
use runecho.Prelude.{◌≡◌, refl, inr, Option, some, List, [], ◌∷◌}
use runecho.Order.{nat_ord, list_ord, pair_ord}
use runecho.Text.{Bytes, codes}
use runecho.Snapshot.Contracts.{
  activate_contract, active_contract, get_active_contract, deactivate_contract,
}
use runecho.Snapshot.Contracts.History.{
  Command, activate, deactivate, answer_of, newest, run, get_active_contract-run,
}

-- A clock whose times are their own texts.
abbrev written : Bytes → Bytes
written t = t

abbrev read : Bytes → Option Bytes
read t = some t

abbrev session_a : Bytes
session_a = codes "a"

abbrev session_b : Bytes
session_b = codes "b"

-- Newest first.
abbrev history : List (Command Bytes)
history =
    deactivate 1 session_b
    ∷ activate 1 session_a (codes "docs") (codes "docs.md") (codes "h2") (codes "t3")
    ∷ activate 1 session_b (codes "api") (codes "api.md") (codes "h1") (codes "t2")
    ∷ activate 1 session_a (codes "api") (codes "api.md") (codes "h1") (codes "t1")
    ∷ []

replaced :
    get_active_contract [] read (run written history) 1 session_a
    ≡ inr (active_contract (codes "docs") (codes "docs.md") (codes "h2") (codes "t3"))
unfolding activate_contract deactivate_contract get_active_contract
replaced = refl

get_active_contract-run_example :
    get_active_contract [] read (run written history) 1 session_b
    ≡ answer_of (newest 1 session_b history)
get_active_contract-run_example =
    get_active_contract-run written [] read (λ t. refl) 1 session_b history
