-- ===== src/Snapshot/Diff/Files.antt =====
-- internal/snapshot/diff.go: which files a diff reports, in which order, and its totals.
use mathlib.Core.List.{
  filter_map, mem-filter_map, filter_map-cons-none, filter_map-cons-some, Mem, append_assoc,
  append-nil, mem-map,
}
use mathlib.Core.List.Perm
use mathlib.Core.Logic.{∥∥₁_elim}
use mathlib.Core.Logic.Iff
use native.Mathlib.Decide.{ℕ_discrete}
use runecho.Prelude.{
  ℕ, ◌+◌, ◌≡◌, ◌≢◌, ◌↔◌, refl, sym, ap, ◌∙◌, subst, inl, inr, Option-cases, Bool-cases, true, ◌||◌,
  Option, none, some, List, [], ◌∷◌, ◌++◌, map, length, arith, All,
}
use runecho.Order.{nat_ord, list_ord, list_beq_iff, ◌=?◌, ◌<?◌}
use runecho.Sort.{sort_by-perm, sort_by-IsStrict, IsStrict, IsDistinct}
use runecho.Maps.{
  lookup, put, key_of, is_some, has, has-put, mem-keys, keys-IsDistinct, put-IsDistinct,
}
use runecho.Text.{Bytes}
use runecho.Snapshot.Types.{SnapshotMeta, Status, unchanged, FileDiff, DiffResult}
use runecho.Snapshot.Diff.{
  FileMap, SymbolMap, or_empty, status_of, file_diff, add_paths, sorted_paths, unless_unchanged,
  diff_path, append_diff, diff_paths, initial, compute_diff,
}

has-add_paths :
    (p : Bytes) (files : FileMap) (m : List (Bytes × Unit {0}))
    → has p (add_paths files m) ≡ (has p files || has p m)
has-add_paths p [] m = refl
has-add_paths p ((q, h) ∷ files) m =
    ground (arith, has-add_paths p files (put q tt m), has-put q p tt m)

add_paths-IsDistinct :
    (files : FileMap) (m : List (Bytes × Unit {0}))
    → IsDistinct key_of m
    → IsDistinct key_of (add_paths files m)
add_paths-IsDistinct [] m d = d
add_paths-IsDistinct ((q, h) ∷ files) m d =
    add_paths-IsDistinct files (put q tt m) (put-IsDistinct q tt m d)

abbrev pub self : Bytes → Bytes
self p = p

pub sorted_paths-IsStrict :
    (a_files b_files : FileMap) → IsStrict self (sorted_paths a_files b_files)
unfolding sorted_paths
sorted_paths-IsStrict a_files b_files =
    sort_by-IsStrict self _
      (keys-IsDistinct _ (add_paths-IsDistinct b_files _ (add_paths-IsDistinct a_files [] tt)))

pub mem-sorted_paths :
    (p : Bytes) (a_files b_files : FileMap)
    → Mem p (sorted_paths a_files b_files) ↔ ((has p a_files || has p b_files) ≡ true)
unfolding sorted_paths
mem-sorted_paths p a_files b_files =
    let all_paths = add_paths b_files (add_paths a_files []) in
    let found : has p all_paths ≡ (has p a_files || has p b_files) =
      ground (arith, has-add_paths p b_files (add_paths a_files []), has-add_paths p a_files []) in
    Iff.trans (Perm.mem_iff (sort_by-perm self _))
      (subst (λ b. Mem p (map key_of all_paths) ↔ (b ≡ true)) found (mem-keys p all_paths))

abbrev pub sum_by : (FileDiff → ℕ) → List FileDiff → ℕ
sum_by f [] = 0
sum_by f (fd ∷ l) = f fd + sum_by f l

-- A path read from two maps has changed exactly when the two readings differ.
status_iff : (a b : Option Bytes) → (status_of a b ≢ unchanged) ↔ (a ≢ b)
status_iff none none = (λ n e. n refl, λ n e. n refl)
status_iff none (some b) = (λ n e. cc, λ n e. cc)
status_iff (some a) none = (λ n e. cc, λ n e. cc)
status_iff (some a) (some b) = elim (Bool-cases (a =? b)) [
  | inl p ↦ rw p (λ n e. n refl, λ n e. n (ap some ((list_beq_iff a b).0 p)))
  | inr p ↦
      let apart : some a ≢ some b = λ e. ground (arith, list_beq_iff a b) in
      rw p (λ n. apart, λ n e. cc)
]

unless_unchanged-unchanged :
    (s : Status) (fd : FileDiff) → s ≡ unchanged → unless_unchanged s fd ≡ none
unless_unchanged-unchanged s fd e = rw e

unless_unchanged-changed :
    (s : Status) (fd : FileDiff) → s ≢ unchanged → unless_unchanged s fd ≡ some fd
unless_unchanged-changed unchanged fd n = absurd (n refl)
unless_unchanged-changed _ fd n = refl

status_of_same : (o : Option Bytes) → status_of o o ≡ unchanged
status_of_same none = refl
status_of_same (some a) = ground (arith, list_beq_iff a a)

reading-discrete : Discrete (Option Bytes)
reading-discrete = hlevel ℕ_discrete

FileDiff-set : IsSet FileDiff
FileDiff-set = hlevel

read_ne : (o q : Option Bytes) → o ≢ q → (is_some o || is_some q) ≡ true
read_ne none none n = absurd (n refl)
read_ne none (some q) n = refl
read_ne (some p) q n = refl

abbrev to_list : Option FileDiff → List FileDiff
to_list none = []
to_list (some fd) = fd ∷ []

filter_map-to_list :
    (f : Bytes → Option FileDiff) (p : Bytes) (paths : List Bytes)
    → filter_map f (p ∷ paths) ≡ to_list (f p) ++ filter_map f paths
filter_map-to_list f p paths = elim (Option-cases (f p)) [
  | inl e ↦ rw (filter_map-cons-none f p paths e) (rw e)
  | inr (fd, e) ↦ rw (filter_map-cons-some f p paths e) (rw e)
]

sum_by-append :
    (f : FileDiff → ℕ) (l r : List FileDiff) → sum_by f (l ++ r) ≡ sum_by f l + sum_by f r
sum_by-append f [] r = omega arith
sum_by-append f (fd ∷ l) r = omega (arith, sum_by-append f l r)

-- The totals of a result, and what a round adds to them.
abbrev Totals : DiffResult → DiffResult → List FileDiff → Type 0
Totals r acc l =
    (r.files ≡ acc.files ++ l)
    × (r.total_added ≡ acc.total_added + sum_by (λ fd. length fd.added_syms) l)
    × (r.total_removed ≡ acc.total_removed + sum_by (λ fd. length fd.removed_syms) l)
    × (r.total_modified ≡ acc.total_modified + sum_by (λ fd. length fd.modified_syms) l)

append_diff-Totals :
    (acc : DiffResult) (o : Option FileDiff) → Totals (append_diff acc o) acc (to_list o)
append_diff-Totals acc none = (sym (append-nil acc.files), omega arith, omega arith, omega arith)
append_diff-Totals acc (some fd) = (refl, omega arith, omega arith, omega arith)

Totals-trans :
    (r s acc : DiffResult) (l k : List FileDiff)
    → Totals r s k
    → Totals s acc l
    → Totals r acc (l ++ k)
Totals-trans r s acc l k (f, a, m, d) (f', a', m', d') = (
  f ∙ ap (λ x. x ++ k) f' ∙ append_assoc acc.files l k,
  omega (arith, sum_by-append (λ fd. length fd.added_syms) l k),
  omega (arith, sum_by-append (λ fd. length fd.removed_syms) l k),
  omega (arith, sum_by-append (λ fd. length fd.modified_syms) l k),
)

module _ (a_files b_files : FileMap) (a_symbols b_symbols : SymbolMap) where
  -- The diff of one path, whatever its status.
  abbrev pub diff_at : Bytes → FileDiff
  diff_at p =
      file_diff p (status_of (lookup p a_files) (lookup p b_files)) (lookup p a_files)
        (lookup p b_files) (or_empty (lookup p a_symbols)) (or_empty (lookup p b_symbols))

  abbrev changes : List Bytes → List FileDiff
  changes paths = filter_map (diff_path a_files b_files a_symbols b_symbols) paths

  diff_paths-Totals :
      (acc : DiffResult) (paths : List Bytes)
      → Totals (diff_paths a_files b_files a_symbols b_symbols acc paths) acc (changes paths)
  unfolding diff_paths filter_map
  diff_paths-Totals acc [] = (sym (append-nil acc.files), omega arith, omega arith, omega arith)
  diff_paths-Totals acc (p ∷ paths) =
      let o = diff_path a_files b_files a_symbols b_symbols p in
      let next = append_diff acc o in
      subst (Totals (diff_paths a_files b_files a_symbols b_symbols next paths) acc)
        (sym (filter_map-to_list (diff_path a_files b_files a_symbols b_symbols) p paths))
        (Totals-trans (diff_paths a_files b_files a_symbols b_symbols next paths) next acc
          (to_list o) (changes paths) (diff_paths-Totals next paths) (append_diff-Totals acc o))

  diff_path-unchanged :
      (p : Bytes)
      → lookup p a_files ≡ lookup p b_files
      → diff_path a_files b_files a_symbols b_symbols p ≡ none
  unfolding diff_path
  diff_path-unchanged p e =
      unless_unchanged-unchanged (status_of (lookup p a_files) (lookup p b_files)) (diff_at p) (
        subst (λ o. status_of (lookup p a_files) o ≡ unchanged) e
          (status_of_same (lookup p a_files)))

  diff_path-changed :
      (p : Bytes)
      → lookup p a_files ≢ lookup p b_files
      → diff_path a_files b_files a_symbols b_symbols p ≡ some (diff_at p)
  unfolding diff_path
  diff_path-changed p n =
      unless_unchanged-changed (status_of (lookup p a_files) (lookup p b_files)) (diff_at p)
        ((status_iff (lookup p a_files) (lookup p b_files)).1 n)

  path-diff_at : (p : Bytes) → (diff_at p).path ≡ p
  path-diff_at p = unfold file_diff in refl

  path_of :
      (p : Bytes) (fd : FileDiff)
      → diff_path a_files b_files a_symbols b_symbols p ≡ some fd
      → (fd ≡ diff_at p) × (lookup p a_files ≢ lookup p b_files)
  path_of p fd e = elim (reading-discrete (lookup p a_files) (lookup p b_files)) [
    | yes same ↦ absurd (cc (diff_path-unchanged p same, e))
    | no differ ↦ (ground (arith, diff_path-changed p differ), differ)
  ]

  mem-changes :
      (fd : FileDiff) (paths : List Bytes)
      → Mem fd (changes paths)
      → (fd ≡ diff_at fd.path) × (lookup fd.path a_files ≢ lookup fd.path b_files)
  mem-changes fd paths m =
      ∥∥₁_elim ((mem-filter_map (diff_path a_files b_files a_symbols b_symbols) paths).0 m)
        (hlevel FileDiff-set)
        (λ (p, _, e).
          let (same, differ) = path_of p fd e in
          let at : fd.path ≡ p = ap (λ (x : FileDiff). x.path) same ∙ path-diff_at p in
          subst (λ q. (fd ≡ diff_at q) × (lookup q a_files ≢ lookup q b_files)) (sym at)
            (same, differ))

  mem-paths :
      (p : Bytes)
      → Mem p (map (λ fd. fd.path) (changes (sorted_paths a_files b_files)))
        ↔ (lookup p a_files ≢ lookup p b_files)
  mem-paths p = (
    λ m.
        ∥∥₁_elim (mem-map.0 m) (hlevel) (λ (fd, mf, e).
          subst (λ q. lookup q a_files ≢ lookup q b_files) e (mem-changes fd _ mf).1),
    λ differ.
        let listed =
          (mem-sorted_paths p a_files b_files).1
            (read_ne (lookup p a_files) (lookup p b_files) differ) in
        mem-map.1 ∣ (
          diff_at p,
          (mem-filter_map (diff_path a_files b_files a_symbols b_symbols) _).1
              ∣ (p, listed, diff_path-changed p differ) ∣₁,
          path-diff_at p,
        ) ∣₁,
  )

  changes-All :
      (q : Bytes) (paths : List Bytes)
      → All (λ p. (q <? p) ≡ true) paths
      → All (λ fd. (q <? fd.path) ≡ true) (changes paths)
  changes-All q [] h = unfold filter_map in tt
  changes-All q (p ∷ paths) (e, h) =
      elim (Option-cases (diff_path a_files b_files a_symbols b_symbols p)) [
        | inl u ↦
            rw (filter_map-cons-none (diff_path a_files b_files a_symbols b_symbols) p paths u)
              (changes-All q paths h)
        | inr (fd, c) ↦
            let at : fd.path ≡ p =
              ap (λ (x : FileDiff). x.path) (path_of p fd c).0 ∙ path-diff_at p in
            rw (filter_map-cons-some (diff_path a_files b_files a_symbols b_symbols) p paths c)
              (subst (λ x. (q <? x) ≡ true) (sym at) e, changes-All q paths h)
      ]

  changes-IsStrict :
      (paths : List Bytes) → IsStrict self paths → IsStrict (λ fd. fd.path) (changes paths)
  changes-IsStrict [] h = unfold filter_map in tt
  changes-IsStrict (p ∷ paths) (e, h) =
      elim (Option-cases (diff_path a_files b_files a_symbols b_symbols p)) [
        | inl u ↦
            rw (filter_map-cons-none (diff_path a_files b_files a_symbols b_symbols) p paths u)
              (changes-IsStrict paths h)
        | inr (fd, c) ↦
            let at : fd.path ≡ p =
              ap (λ (x : FileDiff). x.path) (path_of p fd c).0 ∙ path-diff_at p in
            rw (filter_map-cons-some (diff_path a_files b_files a_symbols b_symbols) p paths c) (
              changes-All fd.path paths (subst (λ x. All (λ y. (x <? y) ≡ true) paths) (sym at) e),
              changes-IsStrict paths h,
            )
      ]

  -- The diff of two snapshots reports exactly the paths at which the two file maps differ (one side
  -- lacks the path, or the hashes differ), once each, in increasing order. What it reports of a
  -- path is `file_diff` of the two readings of that path. The three totals are the sums of the
  -- lengths of the reported lists.
  pub compute_diff_files :
      (a b : SnapshotMeta)
      → let r = compute_diff a b a_files b_files a_symbols b_symbols in
        IsStrict (λ fd. fd.path) r.files
        × ((p : Bytes)
            → Mem p (map (λ fd. fd.path) r.files) ↔ (lookup p a_files ≢ lookup p b_files))
        × ((fd : FileDiff) → Mem fd r.files → fd ≡ diff_at fd.path)
        × (r.total_added ≡ sum_by (λ fd. length fd.added_syms) r.files)
        × (r.total_removed ≡ sum_by (λ fd. length fd.removed_syms) r.files)
        × (r.total_modified ≡ sum_by (λ fd. length fd.modified_syms) r.files)
  unfolding compute_diff
  compute_diff_files a b =
      let paths = sorted_paths a_files b_files in
      let (files, plus, minus, tilde) = diff_paths-Totals (initial a b) paths in
      (
        rw files (changes-IsStrict paths (sorted_paths-IsStrict a_files b_files)),
        λ p. rw files (mem-paths p),
        λ fd m. (mem-changes fd paths (rw files at m)).0,
        rw files (omega (arith, plus)),
        rw files (omega (arith, minus)),
        rw files (omega (arith, tilde)),
      )
