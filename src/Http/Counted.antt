-- ===== src/Http/Counted.antt =====
-- What the counters of the requests add up to.
use punchline.Base.{
  ℕ, zero, suc, refl, ◌+◌, ◌%◌, ◌^◌, ◌<◌, ◌≡◌, All, true, List, [], ◌∷◌, arith, if◌then◌else◌,
  Bool-cases, inl, inr, text_discrete,
}
use punchline.Room.Ids.{In}
use punchline.Http.Labels.{labels, route_label-In}
use punchline.Http.Metrics.{
  HttpMetricKey, Metrics, new_metrics, same_http_key, count_at, add_at, record_http_request,
}
use punchline.Http.Metrics.Instrument.{
  Served, route_label, recorded_status, instrument, instrument_all,
}

same_http_key_refl : (k : HttpMetricKey) → same_http_key k k ≡ true
unfolding same_http_key text_discrete
same_http_key_refl k = ground arith

same_http_key-eq : (k j : HttpMetricKey) → same_http_key k j ≡ true → k ≡ j
unfolding same_http_key text_discrete
same_http_key-eq k j h = ground (arith, h)

count_at-add_at :
    (key other : HttpMetricKey) (n : ℕ) (es : List (HttpMetricKey × ℕ))
    → count_at same_http_key key (add_at same_http_key other n es) ≡ (
        if same_http_key other key
        then (count_at same_http_key key es + n) % 2 ^ 64
        else count_at same_http_key key es)
unfolding count_at add_at
count_at-add_at key other n [] = ground arith
count_at-add_at key other n ((k, old) ∷ es) = ground (
  arith,
  count_at-add_at key other n es,
  same_http_key-eq k other,
  same_http_key-eq k key,
  same_http_key-eq other key,
  same_http_key_refl key,
)

-- The status that a client sees: 200 where the handler wrote none.
abbrev pub seen_status : ℕ → ℕ
seen_status zero = 200
seen_status (suc n) = suc n

recorded_status-seen : (n : ℕ) → recorded_status n ≡ seen_status n
unfolding recorded_status
recorded_status-seen zero = refl
recorded_status-seen (suc n) = ground arith

-- The key under which a request is to be counted.
abbrev key_of : Served → HttpMetricKey
key_of q = record {
  method = q.method;
  route = route_label q.method q.path;
  status = seen_status q.status;
}

-- How many of the requests are counted under a key.
abbrev pub served_under : HttpMetricKey → List Served → ℕ
served_under key [] = 0
served_under key (q ∷ qs) = (if same_http_key (key_of q) key then 1 else 0) + served_under key qs

instrument_all-adds :
    (key : HttpMetricKey) (qs : List Served) (m : Metrics)
    → count_at same_http_key key (instrument_all qs m).http_requests % 2 ^ 64
      ≡ (count_at same_http_key key m.http_requests + served_under key qs) % 2 ^ 64
unfolding instrument_all instrument record_http_request
instrument_all-adds key [] m = omega arith
instrument_all-adds key (q ∷ qs) m = ground (
  arith,
  instrument_all-adds key qs (instrument q m),
  count_at-add_at key (key_of q) 1 m.http_requests,
  recorded_status-seen q.status,
)

instrument_all-below :
    (key : HttpMetricKey) (qs : List Served) (m : Metrics)
    → count_at same_http_key key m.http_requests < 2 ^ 64
    → count_at same_http_key key (instrument_all qs m).http_requests < 2 ^ 64
unfolding instrument_all instrument record_http_request
instrument_all-below key [] m h = h
instrument_all-below key (q ∷ qs) m h = instrument_all-below key qs (instrument q m) (
    ground
      (arith, count_at-add_at key (key_of q) 1 m.http_requests, recorded_status-seen q.status, h))

abbrev pub HasLabel : HttpMetricKey × ℕ → Type 0
HasLabel e = In (e.0.route) labels

add_at-HasLabel :
    (key : HttpMetricKey) (n : ℕ) (es : List (HttpMetricKey × ℕ))
    → In key.route labels
    → All HasLabel es
    → All HasLabel (add_at same_http_key key n es)
unfolding add_at
add_at-HasLabel key n [] h v = (h, tt)
add_at-HasLabel key n ((k, old) ∷ es) h v = elim (Bool-cases (same_http_key k key)) [
  | inl e ↦ rw e (v.0, v.1)
  | inr e ↦ rw e (v.0, add_at-HasLabel key n es h v.1)
]

instrument_all-HasLabel :
    (qs : List Served) (m : Metrics)
    → All HasLabel m.http_requests
    → All HasLabel (instrument_all qs m).http_requests
unfolding instrument_all instrument record_http_request
instrument_all-HasLabel [] m v = v
instrument_all-HasLabel (q ∷ qs) m v = instrument_all-HasLabel qs (instrument q m) (
    add_at-HasLabel
      (record {
        method = q.method;
        route = route_label q.method q.path;
        status = recorded_status q.status;
      })
      1 m.http_requests (route_label-In q.method q.path) v)

-- From new metrics on, the counter of a method, a route and a status is the number of the requests
-- that were served with them, modulo 2^64, in whatever order they came, where the route is the
-- label of the path and a request without a status of its own has the status 200. Whatever paths
-- are asked for, no other routes are counted than the seventeen labels.
pub instrument_all-served :
    (key : HttpMetricKey) (qs : List Served)
    → (count_at same_http_key key (instrument_all qs new_metrics).http_requests
        ≡ served_under key qs % 2 ^ 64)
      × All HasLabel (instrument_all qs new_metrics).http_requests
unfolding count_at
instrument_all-served key qs = (
  omega (
    arith,
    instrument_all-adds key qs new_metrics,
    instrument_all-below key qs new_metrics (omega arith),
  ),
  instrument_all-HasLabel qs new_metrics tt,
)
