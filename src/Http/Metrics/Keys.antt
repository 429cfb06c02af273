-- ===== src/Http/Metrics/Keys.antt =====
-- The order in which the metrics endpoint lists its counters (backend/internal/httpapi/metrics.go).
use punchline.Base.{ℕ, Bool, List, [], ◌∷◌, if◌then◌else◌, ltb, not, Text, same}
use punchline.Base.Sorts.{sort_by}
use punchline.Room.Persist.{text_lt}
use punchline.Http.Metrics.{HttpMetricKey, WsMessageKey, DurationMetric, count_at, same_http_key}

-- `httpKeyLess`.
unfoldable pub http_key_less : HttpMetricKey → HttpMetricKey → Bool
unfolding text_lt
http_key_less a b =
    if not (same a.route b.route)
    then text_lt a.route b.route
    else if not (same a.method b.method)
    then text_lt a.method b.method
    else ltb a.status b.status

-- The comparison of `sortedWSKeys`.
unfoldable pub ws_key_less : WsMessageKey → WsMessageKey → Bool
unfolding text_lt
ws_key_less a b =
    if not (same a.type b.type) then text_lt a.type b.type else text_lt a.result b.result

-- The range over a map, in the order in which it comes.
unfoldable pub keys_of : {K A : Type 0} → List (K × A) → List K
keys_of [] = []
keys_of ((k, _) ∷ es) = k ∷ keys_of es

unfoldable pub sorted_http_keys : List (HttpMetricKey × ℕ) → List HttpMetricKey
unfolding keys_of http_key_less sort_by
sorted_http_keys values = sort_by http_key_less (keys_of values)

unfoldable pub sorted_duration_keys : List (HttpMetricKey × DurationMetric) → List HttpMetricKey
unfolding keys_of http_key_less sort_by
sorted_duration_keys values = sort_by http_key_less (keys_of values)

unfoldable pub sorted_ws_keys : List (WsMessageKey × ℕ) → List WsMessageKey
unfolding keys_of ws_key_less sort_by
sorted_ws_keys values = sort_by ws_key_less (keys_of values)

unfoldable pub sorted_string_keys : {A : Type 0} → List (Text × A) → List Text
unfolding keys_of text_lt sort_by
sorted_string_keys values = sort_by text_lt (keys_of values)

-- The loop over the sorted keys of the requests: what is printed of each entry.
unfoldable pub lines_of : List HttpMetricKey → List (HttpMetricKey × ℕ) → List (HttpMetricKey × ℕ)
unfolding count_at same_http_key
lines_of [] values = []
lines_of (k ∷ ks) values = (k, count_at same_http_key k values) ∷ lines_of ks values

-- The first part of `writePrometheus`.
unfoldable pub request_lines : List (HttpMetricKey × ℕ) → List (HttpMetricKey × ℕ)
unfolding lines_of sorted_http_keys
request_lines values = lines_of (sorted_http_keys values) values
