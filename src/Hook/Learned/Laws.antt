-- ===== src/Hook/Learned/Laws.antt =====
-- What an approval does to the set of trusted symbols.

use runecho.Prelude.{ℕ, Bool, Option, All}
use runecho.Order.{nat_ord, list_ord}
use runecho.Int.{ℤ}
use runecho.Sort.{IsDistinct}
use runecho.Maps.{key_of}
use runecho.Text.{Bytes}
use runecho.Guard.Known.{has_name}
use runecho.Hook.Learned.{
  LearnedEntry, LearnedAllow, LearnOptions, learned_ttl, is_fresh, is_trusted, learned_allowed_set,
}

-- A store read from a file has every repository, and every symbol of a repository, once.
abbrev pub IsWellFormed : LearnedAllow → Type 0
IsWellFormed la = IsDistinct key_of la × All (λ r. IsDistinct key_of r.1) la

module _ (atoi : Bytes → Option ℤ) (parse_time : Bytes → Option ℕ) (format_time : ℕ → Bytes)
    (o : LearnOptions) (now : ℕ) where
  abbrev pub trusts : LearnedAllow → Bytes → Bytes → Bool
  trusts la repo x = has_name x (learned_allowed_set atoi parse_time format_time o la repo now)

  abbrev trusted : LearnedEntry → Bool
  trusted e = is_trusted atoi parse_time format_time o now e

  abbrev fresh : LearnedEntry → Bool
  fresh e = is_fresh parse_time now (learned_ttl atoi o) e
