-- ===== src/Guard/Validate/Report.antt =====
-- What `Run` reports: every reference of a file that is neither known nor ignored, the first of each
-- name in a file, in order.
use mathlib.Core.List.{foldl, append_assoc, append-nil}
use runecho.Prelude.{
  ◌≡◌, refl, sym, ap, ◌∙◌, Bool, true, false, not, ◌&&◌, ◌||◌, Bool-cases, inl, inr, Option, List,
  [], ◌∷◌, ◌++◌, map, keep, All, arith, if◌then◌else◌, ◌==◌,
}
use runecho.Order.{nat_ord, list_ord, pair_ord, pair_beq, list_beq_iff, ◌=?◌}
use runecho.Text.{Bytes}
use runecho.Firsts.{
  first_of_each, keep-keep, keep_all, keep_pass, keep_fail, keep-All, first_of_each_congr,
}
use runecho.Guard.Types.{FileDiff}
use runecho.Guard.Lang.{is_unknown, lang_for}
use runecho.Guard.Known.{has_name, add_name, has_name-add_name}
use runecho.Guard.Validate.{
  Ref, Violation, Extractors, Scan, seen_key, violation_of, matches_ignore_glob, check_ref,
  check_file, refs_of, empty_scan, known_set, ignored_names, ignore_globs_of, run,
}

-- A reference together with the file that it stands in.
abbrev pub Use : Type 0
Use = FileDiff × Ref

abbrev pub same_use : Use → Use → Bool
same_use (fd, r) (gd, s) = pair_beq (fd.path, r.name) (gd.path, s.name)

abbrev pub NoNul : Bytes → Type 0
NoNul s = All (λ c. (c == 0) ≡ false) s

abbrev same_key : Use → Use → Bool
same_key (fd, r) (gd, s) = seen_key fd.path r.name =? seen_key gd.path s.name

seen_key-beq :
    (p q n m : Bytes) → NoNul p → NoNul q → (seen_key p n =? seen_key q m) ≡ pair_beq (p, n) (q, m)
seen_key-beq [] [] n m hp hq = refl
seen_key-beq [] (d ∷ q) n m hp (hd, hq) = ground arith
seen_key-beq (c ∷ p) [] n m (hc, hp) hq = ground arith
seen_key-beq (c ∷ p) (d ∷ q) n m (hc, hp) (hd, hq) = ground (arith, seen_key-beq p q n m hp hq)

-- What is reported of a use.
abbrev pub report : List Bytes → Use → Violation
report known (fd, r) = violation_of known fd r

abbrev unseen : Scan → Use → Bool
unseen scan (fd, r) = not (has_name (seen_key fd.path r.name) scan.seen)

module _ (path_match : Bytes → Bytes → Option Bool) (known globs : List Bytes) where
  -- Neither known nor ignored.
  abbrev pub is_unresolved : Use → Bool
  is_unresolved (fd, r) = not (has_name r.name known || matches_ignore_glob path_match r.name globs)

  abbrev check_use : Scan → Use → Scan
  check_use scan (fd, r) = check_ref path_match known globs fd scan r

  abbrev firsts : List Use → List Use
  firsts uses = first_of_each same_key (keep is_unresolved uses)

  check_use_new :
      (scan : Scan) (u : Use)
      → is_unresolved u ≡ true
      → unseen scan u ≡ true
      → check_use scan u ≡ record {
        seen = add_name scan.seen (seen_key u.0.path u.1.name);
        violations = scan.violations ++ report known u ∷ [];
      }
  unfolding check_ref
  check_use_new scan (fd, r) h k = ground (arith, h, k)

  check_use_old :
      (scan : Scan) (u : Use) → (is_unresolved u && unseen scan u) ≡ false → check_use scan u ≡ scan
  unfolding check_ref
  check_use_old scan (fd, r) h = ground (arith, h)

  unseen_other :
      (scan : Scan) (u v : Use)
      → unseen scan u ≡ false
      → (unseen scan v && not (same_key u v)) ≡ unseen scan v
  unseen_other scan (fd, r) (gd, s) h =
      ground (arith, list_beq_iff (seen_key fd.path r.name) (seen_key gd.path s.name))

  unseen_later :
      (scan : Scan) (u v : Use)
      → (unseen scan v && not (same_key u v))
        ≡ not (
            has_name (seen_key v.0.path v.1.name) (add_name scan.seen (seen_key u.0.path u.1.name)))
  unseen_later scan (fd, r) (gd, s) =
      ground
        (arith, has_name-add_name (seen_key gd.path s.name) (seen_key fd.path r.name) scan.seen)

  check_uses :
      (scan : Scan) (uses : List Use)
      → (foldl check_use scan uses).violations
        ≡ scan.violations ++ map (report known) (keep (unseen scan) (firsts uses))
  check_uses scan [] = sym (append-nil scan.violations)
  check_uses scan (u ∷ uses) = elim (Bool-cases (is_unresolved u)) [
    | inr settled ↦
        ap (λ s. (foldl check_use s uses).violations) (check_use_old scan u (rw settled refl))
        ∙ check_uses scan uses
        ∙ ap
            (λ l.
              scan.violations ++ map (report known) (keep (unseen scan) (first_of_each same_key l)))
            (sym (keep_fail is_unresolved u uses settled))
    | inl h ↦
        let take =
          ap
            (λ l.
              scan.violations ++ map (report known) (keep (unseen scan) (first_of_each same_key l)))
            (keep_pass is_unresolved u uses h) in
        elim (Bool-cases (unseen scan u)) [
          | inl new ↦
              let next : Scan = record {
                seen = add_name scan.seen (seen_key u.0.path u.1.name);
                violations = scan.violations ++ report known u ∷ [];
              } in
              ap (λ s. (foldl check_use s uses).violations) (check_use_new scan u h new)
              ∙ check_uses next uses
              ∙ append_assoc scan.violations (report known u ∷ [])
                  (map (report known) (keep (unseen next) (firsts uses)))
              ∙ ap (λ l. scan.violations ++ report known u ∷ map (report known) l)
                  (sym (
                    keep-keep (unseen scan) (λ v. not (same_key u v)) (unseen next)
                      (unseen_later scan u) (firsts uses)))
              ∙ ap (λ l. scan.violations ++ map (report known) l)
                  (sym
                    (keep_pass (unseen scan) u (keep (λ v. not (same_key u v)) (firsts uses)) new))
              ∙ sym take
          | inr old ↦
              ap (λ s. (foldl check_use s uses).violations)
                (check_use_old scan u (rw (h, old) refl))
              ∙ check_uses scan uses
              ∙ ap (λ l. scan.violations ++ map (report known) l)
                  (sym (
                      keep-keep (unseen scan) (λ v. not (same_key u v)) (unseen scan)
                        (λ v. unseen_other scan u v old) (firsts uses))
                    ∙ sym (
                        keep_fail (unseen scan) u (keep (λ v. not (same_key u v)) (firsts uses))
                          old))
              ∙ sym take
        ]
  ]

-- The references of a file of a known language, and of all files in order.
abbrev pub uses_of : Extractors → (Bytes → Option Bytes) → FileDiff → List Use
uses_of ex read_file fd =
    if is_unknown (lang_for fd.path) then [] else map (λ r. (fd, r)) (refs_of ex read_file fd)

abbrev pub all_uses : Extractors → (Bytes → Option Bytes) → List FileDiff → List Use
all_uses ex read_file [] = []
all_uses ex read_file (fd ∷ diffs) = uses_of ex read_file fd ++ all_uses ex read_file diffs

module _ (path_match : Bytes → Bytes → Option Bool) (ex : Extractors)
    (read_file : Bytes → Option Bytes) (known globs : List Bytes) where
  abbrev step : Scan → Use → Scan
  step = check_use path_match known globs

  foldl-append :
      (scan : Scan) (us vs : List Use)
      → foldl step scan (us ++ vs) ≡ foldl step (foldl step scan us) vs
  foldl-append scan [] vs = refl
  foldl-append scan (u ∷ us) vs = foldl-append (step scan u) us vs

  foldl-uses :
      (fd : FileDiff) (scan : Scan) (refs : List Ref)
      → foldl step scan (map (λ r. (fd, r)) refs)
        ≡ foldl (check_ref path_match known globs fd) scan refs
  foldl-uses fd scan [] = refl
  foldl-uses fd scan (r ∷ refs) = foldl-uses fd (check_ref path_match known globs fd scan r) refs

  check_file-uses :
      (scan : Scan) (fd : FileDiff)
      → foldl step scan (uses_of ex read_file fd)
        ≡ check_file path_match known globs ex read_file scan fd
  unfolding check_file
  check_file-uses scan fd = ground (arith, foldl-uses fd scan (refs_of ex read_file fd))

  check_files :
      (scan : Scan) (diffs : List FileDiff)
      → foldl step scan (all_uses ex read_file diffs)
        ≡ foldl (check_file path_match known globs ex read_file) scan diffs
  check_files scan [] = refl
  check_files scan (fd ∷ diffs) =
      foldl-append scan (uses_of ex read_file fd) (all_uses ex read_file diffs)
      ∙ ap (λ s. foldl step s (all_uses ex read_file diffs)) (check_file-uses scan fd)
      ∙ check_files (check_file path_match known globs ex read_file scan fd) diffs

-- The file of a use has no zero byte in its path.
abbrev IsNamed : Use → Type 0
IsNamed u = NoNul u.0.path

All-append {ℓ κ} :
    {A : Type ℓ} (P : A → Type κ) (xs ys : List A) → All P xs → All P ys → All P (xs ++ ys)
All-append P [] ys h k = k
All-append P (x ∷ xs) ys (hx, h) k = (hx, All-append P xs ys h k)

map-IsNamed :
    (fd : FileDiff) (refs : List Ref) → NoNul fd.path → All IsNamed (map (λ r. (fd, r)) refs)
map-IsNamed fd [] h = tt
map-IsNamed fd (r ∷ refs) h = (h, map-IsNamed fd refs h)

uses_of-IsNamed :
    (ex : Extractors) (read_file : Bytes → Option Bytes) (fd : FileDiff)
    → NoNul fd.path
    → All IsNamed (uses_of ex read_file fd)
uses_of-IsNamed ex read_file fd h = elim (Bool-cases (is_unknown (lang_for fd.path))) [
  | inl e ↦ rw e tt
  | inr e ↦ rw e (map-IsNamed fd (refs_of ex read_file fd) h)
]

all_uses-IsNamed :
    (ex : Extractors) (read_file : Bytes → Option Bytes) (diffs : List FileDiff)
    → All (λ fd. NoNul fd.path) diffs
    → All IsNamed (all_uses ex read_file diffs)
all_uses-IsNamed ex read_file [] h = tt
all_uses-IsNamed ex read_file (fd ∷ diffs) (hd, h) =
    All-append IsNamed (uses_of ex read_file fd) (all_uses ex read_file diffs)
      (uses_of-IsNamed ex read_file fd hd) (all_uses-IsNamed ex read_file diffs h)

-- Where no path has a zero byte, the guard reports the references of the files of known languages
-- that are neither in the known set nor matched by a glob of the ignore file, in order, and of
-- those with one path and one name only the first.
pub run_lem :
    (path_match : Bytes → Bytes → Option Bool) (ex : Extractors) (read_file : Bytes → Option Bytes)
    (symbols : List Bytes) (ignore_path : Bytes) (diffs : List FileDiff)
    → All (λ fd. NoNul fd.path) diffs
    → let ignored = ignored_names read_file ignore_path in
      let known = known_set ex symbols ignored diffs in
      run path_match ex read_file symbols ignore_path diffs
      ≡ map (report known) (
          first_of_each same_use (
            keep
              (is_unresolved path_match known (ignore_globs_of ignored))
              (all_uses ex read_file diffs)))
unfolding run
run_lem path_match ex read_file symbols ignore_path diffs h =
    let ignored = ignored_names read_file ignore_path in
    let known = known_set ex symbols ignored diffs in
    let globs = ignore_globs_of ignored in
    let uses = all_uses ex read_file diffs in
    let open_uses = keep (is_unresolved path_match known globs) uses in
    ap (λ (s : Scan). s.violations)
      (sym (check_files path_match ex read_file known globs empty_scan diffs))
    ∙ check_uses path_match known globs empty_scan uses
    ∙ ap (map (report known))
        (keep_all (unseen empty_scan) (first_of_each same_key open_uses) (λ u. refl))
    ∙ ap (map (report known)) (
        first_of_each_congr IsNamed same_key same_use open_uses
          (λ (fd, r) (gd, s) p q. seen_key-beq fd.path gd.path r.name s.name p q)
          (keep-All IsNamed (is_unresolved path_match known globs) uses
            (all_uses-IsNamed ex read_file diffs h)))
