-- ===== src/Contract/Types.antt =====
-- internal/contract/contract.go: `Contract` and `Pattern`.
use runecho.Prelude.{Bool, List}
use runecho.Text.{Bytes}

pub record Pattern : Type 0 where
  pub glob : Bytes
  pub negated : Bool

pub record Contract : Type 0 where
  pub name : Bytes
  pub description : Bytes
  pub patterns : List Pattern
  pub hash : Bytes
  pub path : Bytes
