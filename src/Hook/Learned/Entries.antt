-- ===== src/Hook/Learned/Entries.antt =====
-- The entries of learnedallow.go: what approving and pruning do to the lookup of a symbol.

use runecho.Prelude.{
  ℕ, zero, suc, ◌+◌, ◌*◌, ◌%◌, ◌≤◌, ◌≡◌, refl, ap, ◌∙◌, Bool, true, false, not, ◌&&◌, Bool-cases,
  inl, inr, Option, none, some, List, [], ◌∷◌, map, keep, All, leb, arith, if◌then◌else◌,
}
use runecho.Order.{nat_ord, list_ord, list_beq_iff, ◌=?◌}
use runecho.Int.{ℤ, pos, negsuc, next_int}
use runecho.Sort.{IsDistinct}
use runecho.Maps.{
  lookup, put, key_of, keep_if, lookup-put, put-IsDistinct, lookup-rest, lookup-keep,
}
use runecho.Text.{Bytes}
use runecho.Guard.Known.{has_name}
use runecho.Hook.Clock.{is_over, day}
use runecho.Hook.Learned.{
  LearnedEntry, Bucket, LearnedAllow, LearnOptions, wrapped, positive_or, learned_days, learned_ttl,
  bucket_in, bucket_of, count_in, approve_one, approve_all, prune_bucket, has_entries, prune_entry,
  prune_learned_allow,
}

-- How often a symbol is approved.
abbrev pub times : Bytes → List Bytes → ℕ
times x [] = 0
times x (s ∷ symbols) = if not (s =? []) && s =? x then suc (times x symbols) else times x symbols

-- An `int` after some increments, which wrap around.
abbrev pub plus : ℕ → ℤ → ℤ
plus zero z = z
plus (suc n) z = plus n (next_int z)

abbrev pub entry : ℤ → Bytes → LearnedEntry
entry n t = record { count = n; last_seen = t }

-- The entry after some approvals.
abbrev pub approved : ℕ → Bytes → Option LearnedEntry → Option LearnedEntry
approved zero t o = o
approved (suc n) t o = approved n t (some (entry (next_int (count_in o)) t))

pub approved-some :
    (n : ℕ) (t : Bytes) (o : Option LearnedEntry)
    → approved (suc n) t o ≡ some (entry (plus (suc n) (count_in o)) t)
approved-some zero t o = refl
approved-some (suc n) t o = approved-some n t (some (entry (next_int (count_in o)) t))

lookup-approve_one :
    (x t s : Bytes) (b : Bucket)
    → lookup x (approve_one t b s) ≡ (
        if not (s =? []) && s =? x
        then some (entry (next_int (count_in (lookup x b))) t)
        else lookup x b)
lookup-approve_one x t s b = elim (Bool-cases (s =? x)) [
  | inl e ↦
      let same = (list_beq_iff s x).0 e in
      let count = ap (λ k. count_in (lookup k b)) same in
      ground (arith, e, lookup-put s x (entry (next_int (count_in (lookup s b))) t) b)
  | inr e ↦ ground (arith, e, lookup-put s x (entry (next_int (count_in (lookup s b))) t) b)
]

pub lookup-approve_all :
    (x t : Bytes) (symbols : List Bytes) (b : Bucket)
    → lookup x (approve_all t symbols b) ≡ approved (times x symbols) t (lookup x b)
lookup-approve_all x t [] b = refl
lookup-approve_all x t (s ∷ symbols) b =
    let rest = lookup-approve_all x t symbols (approve_one t b s) in
    let one = lookup-approve_one x t s b in
    elim (Bool-cases (not (s =? []) && s =? x)) [
      | inl e ↦ rw e (rest ∙ ap (approved (times x symbols) t) (one ∙ rw e refl))
      | inr e ↦ rw e (rest ∙ ap (approved (times x symbols) t) (one ∙ rw e refl))
    ]

pub approve_all-IsDistinct :
    (t : Bytes) (symbols : List Bytes) (b : Bucket)
    → IsDistinct key_of b
    → IsDistinct key_of (approve_all t symbols b)
approve_all-IsDistinct t [] b d = d
approve_all-IsDistinct t (s ∷ symbols) b d =
    approve_all-IsDistinct t symbols (approve_one t b s) (one (s =? []))
  where
    one :
        (e : Bool)
        → IsDistinct key_of (if e then b else put s (entry (next_int (count_in (lookup s b))) t) b)
    one true = d
    one false = put-IsDistinct s (entry (next_int (count_in (lookup s b))) t) b d

-- Whether a lookup gives an entry that passes a test.
abbrev pub passes : (LearnedEntry → Bool) → Option LearnedEntry → Bool
passes p none = false
passes p (some e) = p e

pub has_name-passes :
    (p : LearnedEntry → Bool) (x : Bytes) (b : Bucket)
    → IsDistinct key_of b
    → has_name x (map key_of (keep (λ e. p e.1) b)) ≡ passes p (lookup x b)
has_name-passes p x [] d = refl
has_name-passes p x ((j, v) ∷ b) (e, d) = elim (Bool-cases (j =? x)) [
  | inl same ↦
      let rest = has_name-passes p x b d ∙ ap (passes p) (lookup-rest j x v b same (e, d)) in
      ground (arith, same, rest)
  | inr other ↦ ground (arith, other, has_name-passes p x b d)
]

module _ (parse_time : Bytes → Option ℕ) (now : ℕ) (ttl : ℤ) where
  bucket_in-keep_if :
      (o : Option Bucket) → bucket_in (keep_if (has_entries parse_time now ttl) o) ≡ bucket_in o
  bucket_in-keep_if none = refl
  bucket_in-keep_if (some []) = refl
  bucket_in-keep_if (some (e ∷ b)) = refl

  All-pruned :
      (k : Bytes) (la : LearnedAllow)
      → All (λ r. (k =? key_of r) ≡ false) la
      → All (λ r. (k =? key_of r) ≡ false) (map (prune_entry parse_time now ttl) la)
  All-pruned k [] h = tt
  All-pruned k (r ∷ la) (e, h) = (e, All-pruned k la h)

  pruned-IsDistinct :
      (la : LearnedAllow)
      → IsDistinct key_of la
      → IsDistinct key_of (map (prune_entry parse_time now ttl) la)
  pruned-IsDistinct [] d = tt
  pruned-IsDistinct (r ∷ la) (h, d) = (All-pruned r.0 la h, pruned-IsDistinct la d)

  bucket_of-map :
      (repo : Bytes) (la : LearnedAllow)
      → bucket_of repo (map (prune_entry parse_time now ttl) la)
        ≡ prune_bucket parse_time now ttl (bucket_of repo la)
  bucket_of-map repo [] = refl
  bucket_of-map repo ((r, b) ∷ la) = ground (arith, bucket_of-map repo la)

  pub bucket_of-prune :
      (repo : Bytes) (la : LearnedAllow)
      → IsDistinct key_of la
      → bucket_of repo (prune_learned_allow parse_time now ttl la)
        ≡ prune_bucket parse_time now ttl (bucket_of repo la)
  unfolding prune_learned_allow
  bucket_of-prune repo la d =
      let pruned = map (prune_entry parse_time now ttl) la in
      ap bucket_in
        (lookup-keep (has_entries parse_time now ttl) repo pruned (pruned-IsDistinct la d))
      ∙ bucket_in-keep_if (lookup repo pruned)
      ∙ bucket_of-map repo la

pub bucket_of-put :
    (repo : Bytes) (b : Bucket) (la : LearnedAllow) → bucket_of repo (put repo b la) ≡ b
bucket_of-put repo b la = ground (arith, lookup-put repo repo b la, list_beq_iff repo repo)

pub bucket_of-put_other :
    (repo other : Bytes) (b : Bucket) (la : LearnedAllow)
    → (repo =? other) ≡ false
    → bucket_of other (put repo b la) ≡ bucket_of other la
bucket_of-put_other repo other b la apart = ground (arith, lookup-put repo other b la, apart)

-- What pruning leaves is trusted as before.
pub passes-pruned :
    (p q : LearnedEntry → Bool) (o : Option LearnedEntry)
    → passes (λ e. q e && p e) (keep_if p o) ≡ passes (λ e. q e && p e) o
passes-pruned p q none = refl
passes-pruned p q (some e) = ground arith

positive_or_pos : (default : ℕ) (o : Option ℤ) → 1 ≤ default → 1 ≤ positive_or default o
positive_or_pos default none h = h
positive_or_pos default (some (pos n)) h = ground arith
positive_or_pos default (some (negsuc n)) h = h

-- Up to 106751 days, which are less than 2^63 nanoseconds, nothing wraps around.
wrapped_days : (d : ℕ) → d ≤ 106751 → wrapped ((d * day) % 18446744073709551616) ≡ pos (d * day)
wrapped_days d h =
    let same : (d * day) % 18446744073709551616 ≡ d * day = omega arith in
    let small : leb (d * day) 9223372036854775808 ≡ true = ground arith in
    ap wrapped same ∙ rw small refl

within :
    (d now seen : ℕ) → 1 ≤ d → now ≤ seen + 1000000000 → is_over now seen (pos (d * day)) ≡ false
within d now seen one near = ground arith

module _ (atoi : Bytes → Option ℤ) (o : LearnOptions) where
  learned_days_pos : 1 ≤ learned_days atoi o
  learned_days_pos = ground (arith, positive_or_pos 14 (atoi o.ttl_days))

  -- A time of a second ago is within the window, of a number of days that does not wrap around.
  pub just_seen :
      (now seen : ℕ)
      → learned_days atoi o ≤ 106751
      → now ≤ seen + 1000000000
      → is_over now seen (learned_ttl atoi o) ≡ false
  unfolding learned_ttl
  just_seen now seen days near =
      let at_least = learned_days_pos in
      let ttl = wrapped_days (learned_days atoi o) days in
      ap (is_over now seen) ttl ∙ within (learned_days atoi o) now seen at_least near
