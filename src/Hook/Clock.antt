-- ===== src/Hook/Clock.antt =====
-- cmd/runecho-guard: comparisons of times, which are natural numbers of nanoseconds, with a Go
-- `time.Duration`, which may be negative.
use runecho.Prelude.{ℕ, suc, ◌+◌, Bool, ltb}
use runecho.Int.{ℤ, pos, negsuc}

-- Whether more than a duration has passed since a time: `now.Sub(since) > d`, and
-- `since.Before(now.Add(-d))`.
abbrev pub is_over : ℕ → ℕ → ℤ → Bool
is_over now since (pos d) = ltb (since + d) now
is_over now since (negsuc d) = ltb since (now + suc d)

abbrev pub day : ℕ
day = 86400000000000
