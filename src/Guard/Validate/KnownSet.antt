-- ===== src/Guard/Validate/KnownSet.antt =====
-- Which names a reference is checked against.
use mathlib.Core.List.{foldl}
use runecho.Prelude.{
  ◌≡◌, ap, ◌∙◌, Bool, true, false, not, ◌&&◌, ◌||◌, Bool-cases, inl, inr, List, [], ◌∷◌, ◌++◌, any,
  arith, if◌then◌else◌,
}
use runecho.Order.{nat_ord, list_ord, list_beq_iff, ◌=?◌}
use runecho.Text.{Bytes}
use runecho.Guard.Types.{FileDiff}
use runecho.Guard.Lang.{is_js, is_python, lang_for, is_js_test_file, js_test_globals}
use runecho.Guard.Known.{
  has_name, add_name, add_names, has_name-append, has_name-add_name, has_name-add_names,
}
use runecho.Guard.Validate.{
  Extractors, is_ignore_glob, add_unless_glob, add_ignored, add_bound, known_set,
}

abbrev when : Bool → List Bytes → List Bytes
when true names = names
when false names = []

-- The names that the added lines of a file bind, and what its test runner gives it.
abbrev pub bound_names : Extractors → FileDiff → List Bytes
bound_names ex fd =
    let lang = lang_for fd.path in
    (((ex.extract_defs lang fd.added_lines ++ ex.extract_imports lang fd.added_lines)
        ++ when (is_js lang) (ex.js_declared_names fd.added_lines))
      ++ when (is_python lang)
          (ex.py_declared_names fd.added_lines ++ ex.py_param_names fd.added_lines))
    ++ when (is_js_test_file fd.path) js_test_globals

or_and_false : (b c : Bool) → b ≡ (b || (c && false))
or_and_false b c = ground arith

has_name-add_unless_glob :
    (n m : Bytes) (known : List Bytes)
    → has_name n (add_unless_glob known m)
      ≡ (has_name n known || (not (is_ignore_glob n) && m =? n))
has_name-add_unless_glob n m known = elim (Bool-cases (m =? n)) [
  | inl same ↦
      let glob = ap is_ignore_glob ((list_beq_iff m n).0 same) in
      split_glob (is_ignore_glob m) (is_ignore_glob n) glob same
  | inr other ↦ other_name (is_ignore_glob m) other
]
  where
    split_glob :
        (b c : Bool)
        → b ≡ c
        → (m =? n) ≡ true
        → has_name n (if b then known else add_name known m)
          ≡ (has_name n known || (not c && m =? n))
    split_glob true c e same = ground (arith, same, e)
    split_glob false c e same = has_name-add_name n m known ∙ ground (arith, same, e)

    other_name :
        (b : Bool)
        → (m =? n) ≡ false
        → has_name n (if b then known else add_name known m)
          ≡ (has_name n known || (not (is_ignore_glob n) && m =? n))
    other_name true other = rw other (or_and_false (has_name n known) (not (is_ignore_glob n)))
    other_name false other =
        has_name-add_name n m known
        ∙ rw other (or_and_false (has_name n known) (not (is_ignore_glob n)))

or_assoc3 : (a b c d : Bool) → ((a || (b && c)) || (b && d)) ≡ (a || (b && (c || d)))
or_assoc3 a b c d = ground arith

has_name-add_ignored :
    (n : Bytes) (known names : List Bytes)
    → has_name n (add_ignored known names)
      ≡ (has_name n known || (not (is_ignore_glob n) && has_name n names))
has_name-add_ignored n known [] = or_and_false (has_name n known) (not (is_ignore_glob n))
has_name-add_ignored n known (m ∷ names) =
    has_name-add_ignored n (add_unless_glob known m) names
    ∙ ap (λ b. b || (not (is_ignore_glob n) && has_name n names))
        (has_name-add_unless_glob n m known)
    ∙ or_assoc3 (has_name n known) (not (is_ignore_glob n)) (m =? n) (has_name n names)

-- Names that are added under a condition.
abbrev add_when : Bool → List Bytes → List Bytes → List Bytes
add_when b names known = if b then add_names names known else known

has_name-add_when :
    (n : Bytes) (b : Bool) (names known : List Bytes)
    → has_name n (add_when b names known) ≡ (has_name n known || has_name n (when b names))
has_name-add_when n true names known =
    has_name-add_names n names known ∙ or_swap (has_name n names) (has_name n known)
  where
    or_swap : (a b : Bool) → (a || b) ≡ (b || a)
    or_swap a b = ground arith
has_name-add_when n false names known = ground arith

-- Whether a set holds the names of `known` and those of a list.
abbrev IsUnion : Bytes → List Bytes → List Bytes → List Bytes → Type 0
IsUnion n known names set = has_name n set ≡ (has_name n known || has_name n names)

add_when-IsUnion :
    (n : Bytes) (b : Bool) (more known names set : List Bytes)
    → IsUnion n known names set
    → IsUnion n known (names ++ when b more) (add_when b more set)
add_when-IsUnion n b more known names set h =
    ground (arith, h, has_name-add_when n b more set, has_name-append n names (when b more))

add_names-IsUnion :
    (n : Bytes) (more known names set : List Bytes)
    → IsUnion n known names set
    → IsUnion n known (names ++ more) (add_names more set)
add_names-IsUnion n more known names set h =
    ground (arith, h, has_name-add_names n more set, has_name-append n names more)

add_two-IsUnion :
    (n : Bytes) (b : Bool) (ds es known names set : List Bytes)
    → IsUnion n known names set
    → IsUnion n known
        (names ++ when b (ds ++ es))
        (if b then add_names es (add_names ds set) else set)
add_two-IsUnion n true ds es known names set h = ground (
  arith,
  h,
  has_name-add_names n es (add_names ds set),
  has_name-add_names n ds set,
  has_name-append n names (ds ++ es),
  has_name-append n ds es,
)
add_two-IsUnion n false ds es known names set h = ground (arith, h, has_name-append n names [])

add_bound-IsUnion :
    (ex : Extractors) (n : Bytes) (known : List Bytes) (fd : FileDiff)
    → IsUnion n known (bound_names ex fd) (add_bound ex known fd)
unfolding add_bound
add_bound-IsUnion ex n known fd =
    let lang = lang_for fd.path in
    let lines = fd.added_lines in
    let defs = ex.extract_defs lang lines in
    let imports = ex.extract_imports lang lines in
    let bound = add_names imports (add_names defs known) in
    let js = when (is_js lang) (ex.js_declared_names lines) in
    let declared = ex.py_declared_names lines in
    let params = ex.py_param_names lines in
    add_when-IsUnion n (is_js_test_file fd.path) js_test_globals known _ _ (
      add_two-IsUnion n (is_python lang) declared params known _ _ (
        add_when-IsUnion n (is_js lang) (ex.js_declared_names lines) known (defs ++ imports) bound (
          add_names-IsUnion n imports known defs (add_names defs known)
            (add_names-IsUnion n defs known [] known (or_nothing (has_name n known))))))
  where
    or_nothing : (b : Bool) → b ≡ (b || false)
    or_nothing b = ground arith

has_name-add_all :
    (ex : Extractors) (n : Bytes) (known : List Bytes) (diffs : List FileDiff)
    → has_name n (foldl (add_bound ex) known diffs)
      ≡ (has_name n known || any (λ fd. has_name n (bound_names ex fd)) diffs)
has_name-add_all ex n known [] = ground arith
has_name-add_all ex n known (fd ∷ diffs) =
    ground
      (arith, has_name-add_all ex n (add_bound ex known fd) diffs, add_bound-IsUnion ex n known fd)

-- A name is in the known set exactly if it is an indexed symbol, or a name of the ignore file
-- without `*`, `?` and `[`, or bound by the added lines of some file of the diff: defined or
-- imported there, declared there in JS or Python, a parameter there in Python, or a global of the
-- test runner where the file is a JS test file.
pub has_name-known_set :
    (ex : Extractors) (n : Bytes) (symbols ignored : List Bytes) (diffs : List FileDiff)
    → has_name n (known_set ex symbols ignored diffs) ≡ (
        has_name n symbols
        || (not (is_ignore_glob n) && has_name n ignored)
        || any (λ fd. has_name n (bound_names ex fd)) diffs)
unfolding known_set
has_name-known_set ex n symbols ignored diffs = ground (
  arith,
  has_name-add_all ex n (add_ignored (add_names symbols []) ignored) diffs,
  has_name-add_ignored n (add_names symbols []) ignored,
  has_name-add_names n symbols [],
)
