-- ===== src/Snapshot/Trail.antt =====
-- internal/snapshot/truthtrail.go: `TruthTrail`, the receipt of a change. The regular expressions that
-- find the symbols of a text (`claims.ExtractSymbolRefs`) are a parameter: a map from a symbol to the
-- line it stands in. The maps are walked in the order of their lists.
mod Tests
use mathlib.Core.List.{foldl, filter_map}
use runecho.Prelude.{
  ℕ, ◌≡◌, refl, ap, ◌∙◌, sym, Bool, true, false, ◌&&◌, ◌||◌, Bool-cases, inl, inr, Option, none,
  some, List, [], ◌∷◌, ◌++◌, map, foldr, any, arith, leb, ◌==◌, if◌then◌else◌,
}
use runecho.Order.{nat_ord, list_ord, list_beq_iff, ◌=?◌}
use runecho.Int.{ℤ, pos, negsuc}
use runecho.Sort.{sort_by}
use runecho.Maps.{lookup, put, is_some, has, lookup-put}
use runecho.Text.{Bytes}
use runecho.Claims.{claim_set}
use runecho.Guard.Known.{has_name, has_name-foldr}
use runecho.Snapshot.Types.{SnapshotMeta, SymbolDelta, FileDiff, DiffResult}
use runecho.Snapshot.Store.{Symbol, FileIr, Ir, Db, FileRow, RefRow}
use runecho.Snapshot.Store.Queries.{refs_to_name}
use runecho.Snapshot.Store.Queries.Refs.{has_name-refs_to_name}
use runecho.Snapshot.Churn.{FileChurn, row_id, diff_live, churn}

pub record StaleClaim : Type 0 where
  pub symbol : Bytes
  pub context : Bytes

pub record TrailResult : Type 0 where
  pub snapshot_ref : SnapshotMeta
  pub diff : DiffResult
  pub callers : List (Bytes × List Bytes)
  pub file_hot : List (Bytes × ℕ)
  pub churn_diffs : ℕ
  pub stale_claims : List StaleClaim

-- The callers of one removed symbol, unless its name was met before.
unfoldable pub add_callers :
    (Bytes → List Bytes) → List (Bytes × List Bytes) → Bytes → List (Bytes × List Bytes)
add_callers refs m name = if has name m then m else put name (refs name) m

abbrev pub removed_names : DiffResult → List Bytes
removed_names d =
    foldr (λ (fd : FileDiff) names. map (λ (s : SymbolDelta). s.name) fd.removed_syms ++ names) []
      d.files

abbrev pub callers_of : (Bytes → List Bytes) → List Bytes → List (Bytes × List Bytes)
callers_of refs names = foldl (add_callers refs) [] names

-- `n <= 0` is 20.
abbrev pub lookback : ℤ → ℤ
lookback (pos n) = if leb n 0 then pos 20 else pos n
lookback (negsuc n) = pos 20

abbrev pub hot_file : FileChurn → Option (Bytes × ℕ)
hot_file f = if leb 2 f.changes then some (f.path, f.changes) else none

-- `liveSymbolSet`
abbrev pub live_symbol_set : Ir → List Bytes
live_symbol_set live = claim_set (
    foldr (λ (e : Bytes × FileIr) names. map (λ (s : Symbol). s.name) e.1.symbols ++ names) []
      live.files)

abbrev pub stale_claim : List Bytes → Bytes × Bytes → Option StaleClaim
stale_claim known (sym, ctx) =
    if has_name sym known then none else some (record { symbol = sym; context = ctx })

-- The stale claims of a text, empty without one.
unfoldable pub stale_of : (Bytes → List (Bytes × Bytes)) → Ir → Bytes → List StaleClaim
stale_of extract live text =
    if text =? []
    then []
    else sort_by (λ (c : StaleClaim). c.symbol)
        (filter_map (stale_claim (live_symbol_set live)) (extract text))

unfoldable pub truth_trail :
    (Bytes → List (Bytes × Bytes)) → Db → ℕ → SnapshotMeta → Ir → ℤ → Bytes → ℕ → TrailResult
truth_trail extract db repo_id meta live churn_n text now =
    let d = diff_live db meta live now in
    let report = churn db repo_id (lookback churn_n) in
    record {
      snapshot_ref = meta;
      diff = d;
      callers = callers_of (refs_to_name db (row_id meta.id)) (removed_names d);
      file_hot = filter_map hot_file report.files;
      churn_diffs = report.diff_count;
      stale_claims = stale_of extract live text;
    }

abbrev or_refs : (Bytes → List Bytes) → Bytes → Bool → Option (List Bytes) → Option (List Bytes)
or_refs refs name met (some paths) = some paths
or_refs refs name true none = some (refs name)
or_refs refs name false none = none

lookup-add_callers :
    (refs : Bytes → List Bytes) (name other : Bytes) (m : List (Bytes × List Bytes))
    → lookup name (add_callers refs m other) ≡ or_refs refs name (other =? name) (lookup name m)
unfolding add_callers
lookup-add_callers refs name other m = elim (Bool-cases (other =? name)) [
  | inl same ↦
      let e = (list_beq_iff other name).0 same in
      ground (arith, same, e, lookup-put other name (refs other) m)
  | inr apart ↦ ground (arith, apart, lookup-put other name (refs other) m)
]

or_refs_twice :
    (refs : Bytes → List Bytes) (name : Bytes) (b c : Bool) (o : Option (List Bytes))
    → or_refs refs name c (or_refs refs name b o) ≡ or_refs refs name (b || c) o
or_refs_twice refs name b c (some paths) = refl
or_refs_twice refs name true c none = refl
or_refs_twice refs name false c none = refl

lookup-foldl :
    (refs : Bytes → List Bytes) (name : Bytes) (m : List (Bytes × List Bytes)) (names : List Bytes)
    → lookup name (foldl (add_callers refs) m names)
      ≡ or_refs refs name (has_name name names) (lookup name m)
lookup-foldl refs name m [] = nothing_met (lookup name m)
  where
    nothing_met : (o : Option (List Bytes)) → o ≡ or_refs refs name false o
    nothing_met none = refl
    nothing_met (some paths) = refl
lookup-foldl refs name m (n ∷ names) =
    lookup-foldl refs name (add_callers refs m n) names
    ∙ ap (or_refs refs name (has_name name names)) (lookup-add_callers refs name n m)
    ∙ or_refs_twice refs name (n =? name) (has_name name names) (lookup name m)

-- A file of the diff has lost a symbol of the name.
abbrev pub is_lost : Bytes → DiffResult → Bool
is_lost name d = any (λ (fd : FileDiff). any (λ s. s.name =? name) fd.removed_syms) d.files

has_name-map :
    (name : Bytes) (syms : List SymbolDelta)
    → has_name name (map (λ (s : SymbolDelta). s.name) syms) ≡ any (λ s. s.name =? name) syms
has_name-map name [] = refl
has_name-map name (s ∷ syms) = ap (λ b. s.name =? name || b) (has_name-map name syms)

has_name-removed_names :
    (name : Bytes) (d : DiffResult) → has_name name (removed_names d) ≡ is_lost name d
has_name-removed_names name d =
    has_name-foldr name (λ (fd : FileDiff). map (λ (s : SymbolDelta). s.name) fd.removed_syms)
      d.files
    ∙ (λ i. any (λ (fd : FileDiff). has_name-map name fd.removed_syms i) d.files)

-- The files that the receipt lists for a name.
abbrev pub listed : Option (List Bytes) → List Bytes
listed none = []
listed (some paths) = paths

-- The receipt has an entry for a name exactly if some file of the diff has lost a symbol of that
-- name, and then it lists exactly the paths of the files of the baseline that have a reference to
-- the name.
pub lookup-callers :
    (extract : Bytes → List (Bytes × Bytes)) (db : Db) (repo_id : ℕ) (meta : SnapshotMeta)
    (live : Ir) (churn_n : ℤ) (text : Bytes) (now : ℕ) (name path : Bytes)
    → let trail = truth_trail extract db repo_id meta live churn_n text now in
      (is_some (lookup name trail.callers) ≡ is_lost name trail.diff)
      × (has_name path (listed (lookup name trail.callers)) ≡ (
          is_lost name trail.diff
          && any
              (λ (r : RefRow).
                r.name =? name
                && any
                    (λ (f : FileRow).
                      f.id == r.file_id && f.snapshot_id == row_id meta.id && f.path =? path)
                    db.files)
              db.refs))
unfolding truth_trail
lookup-callers extract db repo_id meta live churn_n text now name path =
    let d = diff_live db meta live now in
    let refs = refs_to_name db (row_id meta.id) in
    let found = lookup-foldl refs name [] (removed_names d) in
    let lost = has_name-removed_names name d in
    (
      ap is_some found ∙ is_some-or_refs refs (has_name name (removed_names d)) ∙ lost,
      ap (λ o. has_name path (listed o)) found
          ∙ listed-or_refs refs (has_name name (removed_names d))
          ∙ (λ i. lost i && has_name-refs_to_name db (row_id meta.id) name path i),
    )
  where
    is_some-or_refs :
        (refs : Bytes → List Bytes) (b : Bool) → is_some (or_refs refs name b none) ≡ b
    is_some-or_refs refs true = refl
    is_some-or_refs refs false = refl

    listed-or_refs :
        (refs : Bytes → List Bytes) (b : Bool)
        → has_name path (listed (or_refs refs name b none)) ≡ (b && has_name path (refs name))
    listed-or_refs refs true = refl
    listed-or_refs refs false = refl
