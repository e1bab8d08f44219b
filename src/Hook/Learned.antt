-- ===== src/Hook/Learned.antt =====
-- cmd/runecho-guard/learnedallow.go: the symbols that the user has approved often enough. The file is
-- the store that it holds; reading, writing and locking it are left out, and `strconv.Atoi`,
-- `time.Parse` and `Time.Format` are parameters.
pub mod Entries
pub mod Laws
mod Tests
use mathlib.Core.List.{foldl}
use runecho.Prelude.{
  ℕ, ◌-◌, ◌*◌, ◌%◌, Bool, true, false, not, ◌&&◌, ◌||◌, Option, none, some, List, [], ◌∷◌, map,
  keep, ltb, leb, if◌then◌else◌,
}
use runecho.Order.{nat_ord, list_ord, ◌=?◌}
use runecho.Int.{ℤ, pos, negsuc, next_int}
use runecho.Maps.{lookup, put, key_of}
use runecho.Text.{Bytes}
use runecho.Hook.Clock.{is_over, day}

pub record LearnedEntry : Type 0 where
  pub count : ℤ
  pub last_seen : Bytes

abbrev pub Bucket : Type 0
Bucket = List (Bytes × LearnedEntry)

-- `Repos` of the store.
abbrev pub LearnedAllow : Type 0
LearnedAllow = List (Bytes × Bucket)

-- The values of the environment.
pub record LearnOptions : Type 0 where
  pub enabled : Bool
  pub learn_n : Bytes
  pub ttl_days : Bytes

abbrev pub positive_or : ℕ → Option ℤ → ℕ
positive_or default none = default
positive_or default (some (pos n)) = if ltb 0 n then n else default
positive_or default (some (negsuc n)) = default

-- The duration that is taken from `now`, of a product that wraps around at 64 bits.
abbrev pub wrapped : ℕ → ℤ
wrapped x = if leb x 9223372036854775808 then pos x else negsuc (18446744073709551616 - x - 1)

module _ (atoi : Bytes → Option ℤ) where
  unfoldable pub learned_threshold : LearnOptions → ℕ
  learned_threshold o = if o.learn_n =? [] then 2 else positive_or 2 (atoi o.learn_n)

  abbrev pub learned_days : LearnOptions → ℕ
  learned_days o = if o.ttl_days =? [] then 14 else positive_or 14 (atoi o.ttl_days)

  unfoldable pub learned_ttl : LearnOptions → ℤ
  learned_ttl o = wrapped ((learned_days o * day) % 18446744073709551616)

abbrev pub bucket_in : Option Bucket → Bucket
bucket_in none = []
bucket_in (some bucket) = bucket

abbrev pub bucket_of : Bytes → LearnedAllow → Bucket
bucket_of repo la = bucket_in (lookup repo la)

-- `e := bucket[s]`, the zero entry where there is none
abbrev pub count_in : Option LearnedEntry → ℤ
count_in none = pos 0
count_in (some e) = e.count

abbrev pub approve_one : Bytes → Bucket → Bytes → Bucket
approve_one now_text bucket s =
    if s =? []
    then bucket
    else put s (record { count = next_int (count_in (lookup s bucket)); last_seen = now_text })
        bucket

abbrev pub approve_all : Bytes → List Bytes → Bucket → Bucket
approve_all now_text symbols bucket = foldl (approve_one now_text) bucket symbols

module _ (parse_time : Bytes → Option ℕ) (now : ℕ) (ttl : ℤ) where
  -- The entry was seen after the cutoff.
  abbrev pub is_recent : Option ℕ → Bool
  is_recent none = false
  is_recent (some ts) = not (is_over now ts ttl)

  abbrev pub is_fresh : LearnedEntry → Bool
  is_fresh e = is_recent (parse_time e.last_seen)

  abbrev pub prune_bucket : Bucket → Bucket
  prune_bucket bucket = keep (λ e. is_fresh e.1) bucket

  abbrev pub has_entries : Bucket → Bool
  has_entries [] = false
  has_entries (e ∷ bucket) = true

  abbrev pub prune_entry : Bytes × Bucket → Bytes × Bucket
  prune_entry r = (r.0, prune_bucket r.1)

  unfoldable pub prune_learned_allow : LearnedAllow → LearnedAllow
  prune_learned_allow la = keep (λ r. has_entries r.1) (map prune_entry la)

abbrev pub is_below : ℤ → ℕ → Bool
is_below (pos n) threshold = ltb n threshold
is_below (negsuc n) threshold = true

module _ (atoi : Bytes → Option ℤ) (parse_time : Bytes → Option ℕ) (format_time : ℕ → Bytes)
    (o : LearnOptions) where
  unfoldable pub record_approvals : LearnedAllow → Bytes → List Bytes → ℕ → LearnedAllow
  record_approvals la repo [] now = la
  record_approvals la repo (s ∷ symbols) now =
      if not o.enabled || repo =? []
      then la
      else prune_learned_allow parse_time now (learned_ttl atoi o)
          (put repo (approve_all (format_time now) (s ∷ symbols) (bucket_of repo la)) la)

  abbrev pub is_trusted : ℕ → LearnedEntry → Bool
  is_trusted now e =
      not (is_below e.count (learned_threshold atoi o))
      && is_fresh parse_time now (learned_ttl atoi o) e

  unfoldable pub learned_allowed_set : LearnedAllow → Bytes → ℕ → List Bytes
  learned_allowed_set la repo now =
      if not o.enabled || repo =? []
      then []
      else map key_of (keep (λ e. is_trusted now e.1) (bucket_of repo la))
