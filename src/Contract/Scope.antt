-- ===== src/Contract/Scope.antt =====
-- internal/contract/contract.go: `InScope`, `HasPositive` and `OutOfScope`.
pub mod Laws
use runecho.Prelude.{Bool, true, false, not, Option, List, [], ◌∷◌, keep, any, if◌then◌else◌}
use runecho.Text.{Bytes}
use runecho.Contract.Types.{Pattern, Contract}
use runecho.Contract.Glob.{match_glob}

unfoldable pub has_positive : Contract → Bool
has_positive c = any (λ p. not p.negated) c.patterns

module _ (path_match : Bytes → Bytes → Option Bool) where
  -- The loop, with the verdict so far.
  unfoldable pub in_scope_from : Bool → List Pattern → Bytes → Bool
  in_scope_from verdict [] rel_path = verdict
  in_scope_from verdict (p ∷ patterns) rel_path =
      in_scope_from (if match_glob path_match p.glob rel_path then not p.negated else verdict)
        patterns rel_path

  unfoldable pub in_scope : Contract → Bytes → Bool
  in_scope c rel_path = in_scope_from false c.patterns rel_path

  unfoldable pub out_of_scope : Contract → List Bytes → List Bytes
  out_of_scope c paths = keep (λ p. not (in_scope c p)) paths
