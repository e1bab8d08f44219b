-- ===== src/Lib.antt =====
-- RunEcho checks the references of new code against an index of the symbols of a repository. The
-- index is a set of files with their hashes and symbols; snapshots of it are kept and compared, the
-- guard reads the added lines of a change and reports the names that nothing defines, with
-- suggestions, and a contract says which paths a change may touch.
--
-- Parts and files:
--   Suggest          internal/guard/suggest.go: `Suggest` is `suggest`, `levenshteinWith` is
--                    `levenshtein_with`, one row of its table is `fill_row`
--   Snapshot         internal/snapshot/diff.go and types.go: `computeDiff` is `compute_diff`, which
--                    takes the files and the symbols of the two sides as maps
--   Snapshot/Store   internal/snapshot/snapshot.go: the tables as lists of rows, `SaveSnapshot`,
--                    `RollAutoSnapshot` and `deleteSnapshotsTx` (internal/snapshot/registry.go); the
--                    queries are in Snapshot/Store/Queries
--   Snapshot/Churn   `Diff` and `DiffLive` over the tables, and internal/snapshot/churn.go
--   Snapshot/Trail   internal/snapshot/truthtrail.go: `TruthTrail`
--   Snapshot/Contracts internal/snapshot/contracts.go: `ActivateContract`, `GetActiveContract` and
--                    `DeactivateContract`; a history of them is in Snapshot/Contracts/History
--   Index            internal/ir/hasher.go: `ComputeRootHash`; internal/ir/symbols.go: `SymbolLocations`
--                    (Index/Locations)
--   Claims           internal/claims/claims.go: `KnownSet` is `claim_set`
--   Contract         internal/contract/contract.go: `Parse` and `Load` (Contract/Parse), `matchGlob`
--                    and `matchSegments` (Contract/Glob), `InScope`, `HasPositive` and `OutOfScope`
--                    (Contract/Scope)
--   Guard            internal/guard/diff.go: `parseDiffOutput` is `parse_diff_output`
--                    (Guard/StagedDiff), a round of its loop is `parse_step`
--                    internal/guard/validate.go: `Run` is `run` (Guard/Validate), over a record of the
--                    functions of extract.go that it calls; `seedFunc` and `openSeedFor` are in
--                    Guard/Validate/Seeds; Guard/Known is the known set, Guard/Lang the language of a
--                    file (internal/guard/extract.go), Guard/Lines internal/guard/util.go
--                    Guard/Scanner `stripLiteralsStateful` and its callers over lines
--                    (internal/guard/extract.go)
--                    Guard/DroppedImport is internal/guard/dropped_import.go
--   Hook             cmd/runecho-guard: `runHookMode` is `run_hook_mode` (Hook/Decision), of which
--                    Hook/Findings has the checks and Hook/Log the answers and the log. The texts of an
--                    edit are in Hook/Payload, their place in the file in Hook/Seeds, the reading of the
--                    store in Hook/Store and Hook/Lookup, `contractWarningWith` (contract.go) in
--                    Hook/Scope, `checkDanglingRefs` and `checkDuplicateDefs` (dangling.go, duplicate.go)
--                    in Hook/Definitions. It calls Guard/Validate, Snapshot/Contracts and Contract.
--                    Hook/Learned is learnedallow.go, Hook/Precommit the rest of `runArgs`
--   Version          cmd/runecho-ir/versioncheck.go: `runVersionCheck` is `run_version_check`, which
--                    tells which install scripts are run
-- Shared: Prelude (native numbers, tests, lists), Firsts (what a loop with a set of what it has seen
-- keeps), Order (the order of Go's strings and the lexicographic `less` functions), Sort
-- (`sort.Slice` and `sort.Strings` as an insertion sort), Maps (Go maps as association lists, whose
-- order is the order of a `range`), Text (Go strings as lists of bytes, and what the source uses of
-- `strings` and `bufio.Scanner`), Int (Go's `int`).
--
-- Bounds: the loops run over lists by structural recursion, except for the one of the scanner
-- (Guard/Scanner), whose fuel is the number of bytes that are left and is enough, since every round
-- uses up a byte. Where an `int` is read from a text or a file and then counted on, `next_int` wraps
-- it around at 64 bits: the line numbers of a diff, the counts of approvals, the versions. The
-- numbers of the lines and of the bytes of a text in memory are ℕ, since they stay below 2^63.
--
-- Not modelled: SHA-256, `path.Match`, `path.Base` and `strconv.Unquote`, which are parameters of the
-- definitions that call them; white space beyond ASCII; the reuse of the scratch rows of the edit
-- distance; the regular expressions of the extractors; SQL: the statements are written out
-- over the rows, and an error of the database, which rolls a transaction back, does not occur, but
-- for the hook, to which the store's answers are given with their errors; files, processes and
-- clocks; the wording of the hook's messages.
pub mod Prelude
pub mod Firsts
pub mod Int
pub mod Order
pub mod Sort
pub mod Maps
pub mod Text
pub mod Suggest
pub mod Snapshot
pub mod Contract
pub mod Guard
pub mod Hook
pub mod Version
pub mod Claims
pub mod Index
