-- ===== src/Guard/Lang.antt =====
-- internal/guard/extract.go: the language of a file and the names of a JS test runner.
-- `strings.ToLower` is written for ASCII letters: the texts that are looked for have no others, and
-- no other letter has one of theirs as its lower case.
use runecho.Prelude.{
  ℕ, ◌+◌, Bool, true, false, ◌&&◌, ◌||◌, List, [], ◌∷◌, map, any, leb, ◌==◌, if◌then◌else◌,
}
use runecho.Order.{nat_ord, list_ord, ◌=?◌}
use runecho.Text.{Bytes, codes, has_prefix}

pub data Lang : Type 0 where
  lang_go : Lang
  lang_js : Lang
  lang_python : Lang
  lang_unknown : Lang

abbrev pub is_js : Lang → Bool
is_js lang_go = false
is_js lang_js = true
is_js lang_python = false
is_js lang_unknown = false

abbrev pub is_python : Lang → Bool
is_python lang_go = false
is_python lang_js = false
is_python lang_python = true
is_python lang_unknown = false

abbrev pub is_unknown : Lang → Bool
is_unknown lang_go = false
is_unknown lang_js = false
is_unknown lang_python = false
is_unknown lang_unknown = true

-- `strings.HasSuffix(s, suffix)`
abbrev pub has_suffix : Bytes → Bytes → Bool
has_suffix suffix [] = suffix =? []
has_suffix suffix (c ∷ s) = suffix =? (c ∷ s) || has_suffix suffix s

abbrev pub js_suffixes : List Bytes
js_suffixes =
    codes ".js"
    ∷ codes ".mjs"
    ∷ codes ".cjs"
    ∷ codes ".ts"
    ∷ codes ".jsx"
    ∷ codes ".tsx"
    ∷ codes ".gs"
    ∷ []

abbrev pub lang_for : Bytes → Lang
lang_for path =
    if has_suffix (codes ".go") path
    then lang_go
    else if any (λ s. has_suffix s path) js_suffixes
    then lang_js
    else if has_suffix (codes ".py") path
    then lang_python
    else lang_unknown

-- `strings.Contains(s, sub)`
abbrev pub contains : Bytes → Bytes → Bool
contains sub [] = sub =? []
contains sub (c ∷ s) = has_prefix sub (c ∷ s) || contains sub s

abbrev pub to_slash : ℕ → ℕ
to_slash c = if c == 92 then b'/' else c

abbrev pub to_lower : ℕ → ℕ
to_lower c = if leb b'A' c && leb c b'Z' then c + 32 else c

-- What follows the last slash, or all of it.
abbrev pub after_last_slash : Bytes → Bytes → Bytes
after_last_slash base [] = base
after_last_slash base (c ∷ s) = after_last_slash (if c == b'/' then s else base) s

abbrev pub is_js_test_file : Bytes → Bool
is_js_test_file path =
    let p = map (λ c. to_lower (to_slash c)) path in
    let base = after_last_slash p p in
    is_js (lang_for path)
    && (contains (codes "/__tests__/") p
        || has_prefix (codes "__tests__/") p
        || contains (codes ".test.") base
        || contains (codes ".spec.") base)

abbrev pub js_test_globals : List Bytes
js_test_globals =
    codes "describe"
    ∷ codes "it"
    ∷ codes "test"
    ∷ codes "expect"
    ∷ codes "beforeEach"
    ∷ codes "afterEach"
    ∷ codes "beforeAll"
    ∷ codes "afterAll"
    ∷ codes "suite"
    ∷ codes "context"
    ∷ codes "specify"
    ∷ codes "xit"
    ∷ codes "xdescribe"
    ∷ codes "fit"
    ∷ codes "fdescribe"
    ∷ []
