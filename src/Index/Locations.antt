-- ===== src/Index/Locations.antt =====
-- internal/ir/symbols.go: `SymbolLocations`, where every symbol of an index stands.
use runecho.Prelude.{ℕ, ◌≡◌, refl, List, [], ◌∷◌, ◌++◌, map, foldr}
use runecho.Order.{nat_ord, list_ord, pair_ord}
use runecho.Sort.{sort_by}
use runecho.Text.{Bytes, codes}
use runecho.Snapshot.Store.{Symbol, FileIr, Ir}

pub record SymbolLoc : Type 0 where
  pub name : Bytes
  pub kind : Bytes
  pub file : Bytes
  pub line : ℕ
  pub hash : Bytes

abbrev pub loc_of : Bytes → Symbol → SymbolLoc
loc_of path s = record { name = s.name; kind = s.kind; file = path; line = s.line; hash = s.hash }

-- By name, then file, then line, then kind.
abbrev pub loc_key : SymbolLoc → (Bytes × Bytes) × (ℕ × Bytes)
loc_key l = ((l.name, l.file), (l.line, l.kind))

unfoldable pub symbol_locations : Ir → List SymbolLoc
symbol_locations ir =
    sort_by loc_key
      (foldr (λ (e : Bytes × FileIr) out. map (loc_of e.0) e.1.symbols ++ out) [] ir.files)

abbrev found_in : Bytes → ℕ → Bytes × FileIr
found_in path line = (
  path,
  record {
    hash = [];
    symbols = record { name = codes "F"; kind = codes "function"; line = line; hash = [] } ∷ [];
    refs = [];
  },
)

by_file :
    map
      (λ (l : SymbolLoc). l.line)
      (symbol_locations
        (record { root_hash = []; files = found_in (codes "b") 1 ∷ found_in (codes "a") 7 ∷ [] }))
    ≡ 7 ∷ 1 ∷ []
unfolding symbol_locations sort_by
by_file = refl
