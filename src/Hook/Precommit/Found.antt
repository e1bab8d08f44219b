-- ===== src/Hook/Precommit/Found.antt =====
-- The violations of a commit, file by file and check by check.

use runecho.Prelude.{
  ◌≡◌, refl, ap, ◌∙◌, Bool, true, false, not, ◌&&◌, ◌||◌, List, [], ◌∷◌, ◌++◌, map, any, arith,
  if◌then◌else◌,
}
use runecho.Order.{nat_ord, list_ord, ◌=?◌}
use runecho.Text.{Bytes}
use runecho.Guard.Types.{FileDiff}
use runecho.Guard.Lang.{lang_python, lang_for, is_python}
use runecho.Guard.Validate.{Violation, run}
use runecho.Hook.Store.{Files, Store}
use runecho.Hook.Definitions.{is_go}
use runecho.Hook.Lookup.{ignore_path_for}
use runecho.Hook.Findings.{Switches, Checks, in_file, content_of, read_file_lines}
use runecho.Hook.Precommit.{
  CommitInput, commit_violations, for_each, qualified_in, dependencies_in, file_scope_in,
}
use runecho.Hook.Precommit.Ready.{
  Ready, of_symbol, in_qualified, in_dependencies, in_file_scope, found,
}

any-append :
    (q : Violation → Bool) (vs ws : List Violation) → any q (vs ++ ws) ≡ (any q vs || any q ws)
any-append q [] ws = refl
any-append q (v ∷ vs) ws = ground (arith, any-append q vs ws)

any-parts :
    (q : Violation → Bool) (vs ws xs ys : List Violation)
    → any q (vs ++ ws ++ xs ++ ys) ≡ (any q vs || any q ws || any q xs || any q ys)
any-parts q vs ws xs ys =
    any-append q (vs ++ ws ++ xs) ys
    ∙ ap (λ b. b || any q ys)
        (any-append q (vs ++ ws) xs ∙ ap (λ b. b || any q xs) (any-append q vs ws))

module _ (p : Bytes → Bool) where
  any-in_file :
      (path : Bytes) (vs : List Violation)
      → any (of_symbol p) (map (in_file path) vs) ≡ any (of_symbol p) vs
  any-in_file path [] = refl
  any-in_file path (v ∷ vs) = ap (λ b. p v.symbol || b) (any-in_file path vs)

  any-checked :
      (b : Bool) (path : Bytes) (vs : List Violation)
      → any (of_symbol p) (if b then map (in_file path) vs else []) ≡ (b && any (of_symbol p) vs)
  any-checked true path vs = any-in_file path vs
  any-checked false path vs = refl

  pub any-symbols :
      (vs : List Violation) → any p (map (λ (v : Violation). v.symbol) vs) ≡ any (of_symbol p) vs
  any-symbols [] = refl
  any-symbols (v ∷ vs) = ap (λ b. p v.symbol || b) (any-symbols vs)

module _ (sw : Switches) (files : Files) (store : Store) (checks : Checks)
    (input : CommitInput) where
  any-for_each :
      (q : Violation → Bool) (f : FileDiff → List Violation) (b : FileDiff → Bool)
      → ((fd : FileDiff) → any q (f fd) ≡ b fd)
      → (diffs : List FileDiff) → any q (for_each sw files store checks input f diffs) ≡ any b diffs
  any-for_each q f b h [] = refl
  any-for_each q f b h (fd ∷ diffs) =
      any-append q (f fd) (for_each sw files store checks input f diffs)
      ∙ (λ i. h fd i || any-for_each q f b h diffs i)

  pub any-commit_violations :
      (p : Bytes → Bool) (r : Ready)
      → any
          (of_symbol p)
          (commit_violations sw files store checks input r.cwd r.root r.symbols r.diffs)
        ≡ found sw files store checks input p r
  unfolding commit_violations
  any-commit_violations p r =
      let q = of_symbol p in
      let placed =
        map (λ (fd : FileDiff). record fd { abs_path = files.join r.root fd.path }) r.diffs in
      let qualified = qualified_in sw files store checks input r.root r.symbols in
      let dependencies = dependencies_in sw files store checks input r.root in
      let scoped = file_scope_in sw files store checks input r.symbols in
      let each = for_each sw files store checks input in
      let go_module = checks.go_module_path r.root in
      let unknown =
        run files.path_match checks.extractors (λ path. content_of (files.read_file path)) r.symbols
          (ignore_path_for files r.cwd r.root) placed in
      any-parts q unknown (each qualified placed) (each dependencies placed) (each scoped placed)
      ∙ (λ i.
          any q unknown
          || any-for_each q qualified (in_qualified sw files store checks input p r)
              (λ fd.
                any-checked p (sw.qualified && not (go_module =? []) && is_go (lang_for fd.path))
                  fd.path
                  (checks.go_qualified_violations (read_file_lines files fd.abs_path) fd.added_lines
                    r.symbols go_module))
              placed i
          || any-for_each q dependencies (in_dependencies sw files store checks input p r)
              (λ fd. any-checked p (sw.deps_go && is_go (lang_for fd.path)) fd.path (
                checks.go_dep_qualified_violations r.root (read_file_lines files fd.abs_path)
                  fd.added_lines go_module))
              placed i
          || any-for_each q scoped (in_file_scope sw files store checks input p r)
              (λ fd. any-checked p (sw.file_scope && is_python (lang_for fd.path)) fd.path (
                checks.file_scope_violations lang_python (read_file_lines files fd.abs_path) fd
                  r.symbols))
              placed i)

  pub nothing_staged :
      (p : Bytes → Bool) (r : Ready) → r.diffs ≡ [] → found sw files store checks input p r ≡ false
  unfolding run
  nothing_staged p r e = rw e refl
