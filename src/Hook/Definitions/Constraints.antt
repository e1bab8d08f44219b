-- ===== src/Hook/Definitions/Constraints.antt =====
-- cmd/runecho-guard/duplicate.go: test files, and the Go files that a build configuration may leave
-- out.
use runecho.Prelude.{
  ℕ, ◌+◌, ◌⊎◌, inl, inr, Bool, true, false, ◌&&◌, ◌||◌, Option, none, some, List, [], ◌∷◌, any,
  take, length, ◌-◌, ◌==◌, if◌then◌else◌,
}
use runecho.Order.{nat_ord, list_ord, ◌=?◌}
use runecho.Text.{Bytes, codes, has_prefix, trim_space, split, line_feed, drop_last_empty}
use runecho.Guard.Lang.{contains, has_suffix}
use runecho.Hook.Store.{Files}

unfoldable pub is_test_file : Files → Bytes → Bool
is_test_file files p =
    let base = files.path_base p in
    has_suffix (codes "_test.go") base
    || has_suffix (codes "_test.py") base
    || (has_prefix (codes "test_") base && has_suffix (codes ".py") base)
    || contains (codes ".test.") base
    || contains (codes ".spec.") base
    || has_prefix (codes "tests/") p
    || contains (codes "/tests/") p

-- The lines up to the package clause.
unfoldable pub tagged_lines : List Bytes → Bool
tagged_lines [] = false
tagged_lines (line ∷ lines) =
    let t = trim_space line in
    let rest = tagged_lines lines in
    if has_prefix (codes "//go:build") t || has_prefix (codes "// +build") t
    then true
    else if has_prefix (codes "package ") t
    then false
    else rest

abbrev pub go_build_tagged : Bytes → Bool
go_build_tagged src = tagged_lines (drop_last_empty (split line_feed src))

-- What stands before and after the last underscore.
abbrev pub push_before : ℕ → Option (Bytes × Bytes) → Option (Bytes × Bytes)
push_before c none = none
push_before c (some (before, after)) = some (c ∷ before, after)

abbrev pub here_or_later : ℕ → Bytes → Option (Bytes × Bytes) → Option (Bytes × Bytes)
here_or_later c s none = if c == b'_' then some ([], s) else none
here_or_later c s (some later) = push_before c (some later)

abbrev pub cut_last : Bytes → Option (Bytes × Bytes)
cut_last [] = none
cut_last (c ∷ s) = here_or_later c s (cut_last s)

abbrev pub goos_names : List Bytes
goos_names =
    codes "aix"
    ∷ codes "android"
    ∷ codes "darwin"
    ∷ codes "dragonfly"
    ∷ codes "freebsd"
    ∷ codes "hurd"
    ∷ codes "illumos"
    ∷ codes "ios"
    ∷ codes "js"
    ∷ codes "linux"
    ∷ codes "nacl"
    ∷ codes "netbsd"
    ∷ codes "openbsd"
    ∷ codes "plan9"
    ∷ codes "solaris"
    ∷ codes "wasip1"
    ∷ codes "windows"
    ∷ codes "zos"
    ∷ []

abbrev pub goarch_names : List Bytes
goarch_names =
    codes "386"
    ∷ codes "amd64"
    ∷ codes "amd64p32"
    ∷ codes "arm"
    ∷ codes "arm64"
    ∷ codes "arm64be"
    ∷ codes "armbe"
    ∷ codes "loong64"
    ∷ codes "mips"
    ∷ codes "mips64"
    ∷ codes "mips64le"
    ∷ codes "mips64p32"
    ∷ codes "mips64p32le"
    ∷ codes "mipsle"
    ∷ codes "ppc"
    ∷ codes "ppc64"
    ∷ codes "ppc64le"
    ∷ codes "riscv"
    ∷ codes "riscv64"
    ∷ codes "s390"
    ∷ codes "s390x"
    ∷ codes "sparc"
    ∷ codes "sparc64"
    ∷ codes "wasm"
    ∷ []

-- `strings.TrimSuffix`
abbrev pub trim_suffix : Bytes → Bytes → Bytes
trim_suffix suffix s = if has_suffix suffix s then take (length s - length suffix) s else s

abbrev pub is_platform : Option (Bytes × Bytes) → Bool
is_platform none = false
is_platform (some ([], last)) = false
is_platform (some (c ∷ before, last)) =
    any (λ n. n =? last) goos_names || any (λ n. n =? last) goarch_names

unfoldable pub go_filename_constrained : Files → Bytes → Bool
go_filename_constrained files p =
    is_platform (cut_last (trim_suffix (codes ".go") (files.path_base (files.to_slash p))))

abbrev pub go_build_constrained : Files → Bytes → Bytes → Bytes → Bool
go_build_constrained files file_path old_text new_text =
    go_filename_constrained files file_path || go_build_tagged old_text || go_build_tagged new_text

-- 8 KiB
abbrev pub max_build_header_bytes : ℕ
max_build_header_bytes = 8192

abbrev pub head_tagged : Bool ⊎ Bytes → Option Bool
head_tagged (inl missing) = none
head_tagged (inr src) = some (go_build_tagged (take max_build_header_bytes src))

-- `none` is a file that cannot be read.
unfoldable pub go_file_constrained : Files → Bytes → Bytes → Option Bool
go_file_constrained files top rel =
    if go_filename_constrained files rel
    then some true
    else head_tagged (files.read_file (files.join top rel))

abbrev pub drop_one : Bytes → Option Bool → List Bytes × ℕ → List Bytes × ℕ
drop_one o none (kept, unknown) = (kept, unknown + 1)
drop_one o (some true) (kept, unknown) = (kept, unknown)
drop_one o (some false) (kept, unknown) = (o ∷ kept, unknown)

-- What is kept, and how many files are unknown.
unfoldable pub drop_constrained : Files → Bytes → List Bytes → List Bytes × ℕ
drop_constrained files top [] = ([], 0)
drop_constrained files top (o ∷ others) =
    drop_one o (go_file_constrained files top o) (drop_constrained files top others)
