-- ===== src/Limiter.antt =====
-- The fixed-window limiter of the requests of a client (backend/internal/httpapi/ratelimit.go).
pub mod Window
use punchline.Base.{
  ℕ, ◌+◌, ◌-◌, ◌*◌, ◌%◌, ◌^◌, ◌==◌, ◌||◌, not, Bool, true, List, Option, none, some, if◌then◌else◌,
  ltb, leb, Text,
}
use punchline.Base.Int.{ℤ, pos, negsuc}
use punchline.Base.Maps.{find, put, keep}

-- Times are in nanoseconds, and 0 is the zero time.
pub record RateBucket : Type 0 where
  pub window_start : ℕ
  pub count : ℕ
  pub last_seen : ℕ

pub record RateLimiter : Type 0 where
  pub buckets : List (Text × RateBucket)
  pub attempts : ℕ

abbrev pub minute : ℕ
minute = 60000000000

-- Whether `pruneLocked` leaves a bucket.
unfoldable pub is_fresh : ℕ → ℕ → RateBucket → Bool
is_fresh now max_idle b = not (b.last_seen == 0 || ltb max_idle (now - b.last_seen))

unfoldable pub prune : ℕ → ℕ → RateLimiter → RateLimiter
unfolding keep is_fresh
prune now max_idle l = record l { buckets = keep (is_fresh now max_idle) l.buckets }

-- `l.buckets[key]`, the zero bucket if there is none.
unfoldable pub bucket_or_zero : Option RateBucket → RateBucket
bucket_or_zero none = record { window_start = 0; count = 0; last_seen = 0 }
bucket_or_zero (some b) = b

-- The bucket after one more attempt.
unfoldable pub attempted : ℕ → ℕ → RateBucket → RateBucket
attempted now window b =
    if b.window_start == 0 || leb window (now - b.window_start)
    then record { window_start = now; count = 1; last_seen = now }
    else record b { count = b.count + 1; last_seen = now }

-- `window <= 0` is a minute.
unfoldable pub window_or_minute : ℤ → ℕ
window_or_minute (pos n) = if n == 0 then minute else n
window_or_minute (negsuc n) = minute

-- What `allow` does at the time `now` for a limit that is not 0 and a window that is not 0.
unfoldable pub count_attempt : Text → ℕ → ℕ → ℕ → RateLimiter → RateLimiter × Bool
count_attempt key limit window now l =
    let b = attempted now window (bucket_or_zero (find key l.buckets)) in
    let attempts' = (l.attempts + 1) % 2 ^ 64 in
    let l' = record l { buckets = put key b l.buckets; attempts = attempts' } in
    (if attempts' % 256 == 0 then prune now (3 * window) l' else l', leb b.count limit)

unfoldable pub allow : Text → ℤ → ℤ → ℕ → RateLimiter → RateLimiter × Bool
allow key (negsuc n) window now l = (l, true)
allow key (pos limit) window now l =
    if limit == 0 then (l, true) else count_attempt key limit (window_or_minute window) now l
