-- ===== src/Limiter/Window.antt =====
-- How many attempts of a client pass within a window.
use punchline.Base.{
  ℕ, ◌+◌, ◌-◌, ◌*◌, ◌≤◌, ◌<◌, ◌≡◌, ◌≢◌, refl, Bool, true, List, [], ◌∷◌, some, if◌then◌else◌, leb,
  Text, same, All, ◌∙◌, text_discrete, subst, sym, ap, arith,
}
use Prim.Native.Nat.{min}
use punchline.Base.Int.{pos}
use punchline.Base.Maps.{find, put, keep, find-put}
use punchline.Limiter.{
  RateBucket, RateLimiter, is_fresh, prune, bucket_or_zero, attempted, count_attempt, allow,
  window_or_minute,
}

-- Attempts: the key and the time of each.
abbrev pub Attempts : Type 0
Attempts = List (Text × ℕ)

-- How many attempts of a key pass, each key with its limit.
pub admitted : Text → (Text → ℕ) → ℕ → Attempts → RateLimiter → ℕ
admitted key limits window [] l = 0
admitted key limits window ((k, now) ∷ rest) l =
    let (l', passed) = allow k (pos (limits k)) (pos window) now l in
    (if same k key then (if passed then 1 else 0) else 0) + admitted key limits window rest l'

pub attempts_of : Text → Attempts → ℕ
attempts_of key [] = 0
attempts_of key ((k, now) ∷ rest) = (if same k key then 1 else 0) + attempts_of key rest

-- Every attempt is made in the window that begins at `start`.
abbrev pub Within : ℕ → ℕ → Attempts → Type 0
Within start window = All (λ a. (start ≤ a.1) × (a.1 < start + window))

find-keep :
    (key : Text) (ok : RateBucket → Bool) (b : RateBucket) (es : List (Text × RateBucket))
    → find key es ≡ some b
    → ok b ≡ true
    → find key (keep ok es) ≡ some b
unfolding find keep
find-keep key ok b [] h k = cc
find-keep key ok b ((j, c) ∷ es) h k = ground (arith, find-keep key ok b es)

-- A bucket that was seen in the window stays there after an attempt in the window.
find-count_attempt :
    (key k : Text) (limit window now : ℕ) (b : RateBucket) (l : RateLimiter)
    → find key (put k (attempted now window (bucket_or_zero (find k l.buckets))) l.buckets) ≡ some b
    → 0 < b.last_seen
    → now ≤ b.last_seen + window
    → find key (count_attempt k limit window now l).0.buckets ≡ some b
unfolding count_attempt prune is_fresh
find-count_attempt key k limit window now b l h p q = ground (
  arith,
  find-keep key (is_fresh now (3 * window)) b
      (put k (attempted now window (bucket_or_zero (find k l.buckets))) l.buckets) h,
)

last_seen-attempted : (now window : ℕ) (b : RateBucket) → (attempted now window b).last_seen ≡ now
unfolding attempted
last_seen-attempted now window b = ground arith

passed-count_attempt :
    (key : Text) (limit window now : ℕ) (l : RateLimiter)
    → (count_attempt key limit window now l).1
      ≡ leb (attempted now window (bucket_or_zero (find key l.buckets))).count limit
unfolding count_attempt
passed-count_attempt key limit window now l = refl

-- An attempt in the window of a bucket.
attempted_within :
    (now window : ℕ) (b : RateBucket)
    → 0 < b.window_start
    → b.window_start ≤ now
    → now < b.window_start + window
    → attempted now window b ≡ record b { count = b.count + 1; last_seen = now }
unfolding attempted
attempted_within now window b p q r = ground arith

module _ (key : Text) (limits : Text → ℕ) (window : ℕ) (some_time : 0 < window)
    (limited : 0 < limits key) where
  find-allow_other :
      (k : Text) (now : ℕ) (b : RateBucket) (l : RateLimiter)
      → k ≢ key
      → find key l.buckets ≡ some b
      → 0 < b.window_start
      → b.window_start ≤ b.last_seen
      → now < b.window_start + window
      → find key (allow k (pos (limits k)) (pos window) now l).0.buckets ≡ some b
  unfolding allow window_or_minute
  find-allow_other k now b l n f p q r = ground (
    arith,
    find-put key k (attempted now window (bucket_or_zero (find k l.buckets))) l.buckets,
    find-count_attempt key k (limits k) window now b l,
  )

  find-allow_same :
      (now : ℕ) (l : RateLimiter)
      → 0 < now
      → (find key (allow key (pos (limits key)) (pos window) now l).0.buckets
          ≡ some (attempted now window (bucket_or_zero (find key l.buckets))))
        × ((allow key (pos (limits key)) (pos window) now l).1
            ≡ leb (attempted now window (bucket_or_zero (find key l.buckets))).count (limits key))
  unfolding allow window_or_minute
  find-allow_same now l p =
      let b = attempted now window (bucket_or_zero (find key l.buckets)) in
      (
        ground (
          arith,
          find-put key key b l.buckets,
          find-count_attempt key key (limits key) window now b l,
          last_seen-attempted now window (bucket_or_zero (find key l.buckets)),
        ),
        ground (arith, passed-count_attempt key (limits key) window now l),
      )

  -- An attempt of the key in the window of its bucket.
  count-allow :
      (k : Text) (now : ℕ) (b : RateBucket) (l : RateLimiter)
      → k ≡ key
      → find key l.buckets ≡ some b
      → 0 < b.window_start
      → b.window_start ≤ now
      → now < b.window_start + window
      → (find key (allow k (pos (limits k)) (pos window) now l).0.buckets
          ≡ some (record b { count = b.count + 1; last_seen = now }))
        × ((allow k (pos (limits k)) (pos window) now l).1 ≡ leb (b.count + 1) (limits key))
  unfolding bucket_or_zero
  count-allow k now b l e f p q r =
      let (own, passed) = find-allow_same now l (omega arith) in
      let at = attempted_within now window b p q r in
      subst
        (λ j.
          (find key (allow j (pos (limits j)) (pos window) now l).0.buckets
            ≡ some (record b { count = b.count + 1; last_seen = now }))
          × ((allow j (pos (limits j)) (pos window) now l).1 ≡ leb (b.count + 1) (limits key)))
        (sym e) (rw (own, f, at), rw (passed, f, at))

  admitted_from :
      (rest : Attempts) (b : RateBucket) (l : RateLimiter)
      → find key l.buckets ≡ some b
      → 0 < b.window_start
      → b.window_start ≤ b.last_seen
      → Within b.window_start window rest
      → admitted key limits window rest l ≡ min (limits key - b.count) (attempts_of key rest)
  unfolding admitted attempts_of
  admitted_from [] b l f p q h = omega arith
  admitted_from ((k, now) ∷ rest) b l f p q h = elim (text_discrete k key) [
    | yes e ↦
        let (own, passed) = count-allow k now b l e f p h.0.0 h.0.1 in
        ground (
          arith,
          e,
          passed,
          admitted_from rest (record b { count = b.count + 1; last_seen = now })
              (allow k (pos (limits k)) (pos window) now l).0 own p h.0.0 h.1,
        )
    | no e ↦ ground (
      arith,
      e,
      admitted_from rest b (allow k (pos (limits k)) (pos window) now l).0
          (find-allow_other k now b l e f p q h.0.1) p q h.1,
    )
  ]

  opened :
      (now : ℕ) (l : RateLimiter)
      → (bucket_or_zero (find key l.buckets)).window_start + window ≤ now
      → attempted now window (bucket_or_zero (find key l.buckets))
        ≡ record { window_start = now; count = 1; last_seen = now }
  unfolding attempted
  opened now l h = ground arith

  -- Let a client with a limit come back after its last window is over, the first attempt of a new
  -- window, and let more attempts follow, its own and others', all before that window is over. The
  -- client's first attempts up to its limit pass, and no other: pruning does not reset the count.
  pub admitted-window :
      (now : ℕ) (rest : Attempts) (l : RateLimiter)
      → (bucket_or_zero (find key l.buckets)).window_start + window ≤ now
      → Within now window rest
      → admitted key limits window ((key, now) ∷ rest) l
        ≡ min (limits key) (attempts_of key ((key, now) ∷ rest))
  unfolding admitted attempts_of
  admitted-window now rest l h v =
      let (own, passed) = find-allow_same now l (omega arith) in
      let e = opened now l h in
      ground (
        arith,
        passed,
        e,
        admitted_from rest (record { window_start = now; count = 1; last_seen = now })
            (allow key (pos (limits key)) (pos window) now l).0 (own ∙ ap some e) (omega arith)
            (omega arith) v,
      )
