-- ===== src/Http/Metrics.antt =====
-- The counters of the metrics endpoint (backend/internal/httpapi/metrics.go), without the printing.
pub mod Keys
pub mod Instrument
use punchline.Base.{
  ℕ, ◌+◌, ◌-◌, ◌%◌, ◌^◌, ◌==◌, ◌&&◌, Bool, List, [], ◌∷◌, if◌then◌else◌, ltb, Text, codes, same,
}

pub record HttpMetricKey : Type 0 where
  pub method : Text
  pub route : Text
  pub status : ℕ

pub record WsMessageKey : Type 0 where
  pub type : Text
  pub result : Text

-- The code adds the durations up as floating-point seconds; here they are listed.
pub record DurationMetric : Type 0 where
  pub count : ℕ
  pub durations : List ℕ

-- The struct `metrics`, without its function for the statistics of the recorder. Each map lists its
-- entries.
pub record Metrics : Type 0 where
  pub http_requests : List (HttpMetricKey × ℕ)
  pub http_duration : List (HttpMetricKey × DurationMetric)
  pub rooms_created : List (Text × ℕ)
  pub ws_messages : List (WsMessageKey × ℕ)
  pub action_errors : List (Text × ℕ)
  pub rate_limited : List (Text × ℕ)
  pub daily_actions : List (WsMessageKey × ℕ)
  pub content_actions : List (WsMessageKey × ℕ)
  pub cards_auto_retired : ℕ
  pub daily_transitions : List (Text × ℕ)
  pub daily_worker_errors : ℕ
  pub daily_worker_last_success : ℕ
  pub ws_connections_total : ℕ
  pub ws_active : ℕ

-- `newMetrics`.
abbrev pub new_metrics : Metrics
new_metrics = record {
  http_requests = [];
  http_duration = [];
  rooms_created = [];
  ws_messages = [];
  action_errors = [];
  rate_limited = [];
  daily_actions = [];
  content_actions = [];
  cards_auto_retired = 0;
  daily_transitions = [];
  daily_worker_errors = 0;
  daily_worker_last_success = 0;
  ws_connections_total = 0;
  ws_active = 0;
}

unfoldable pub same_http_key : HttpMetricKey → HttpMetricKey → Bool
same_http_key a b = same a.method b.method && same a.route b.route && a.status == b.status

unfoldable pub same_ws_key : WsMessageKey → WsMessageKey → Bool
same_ws_key a b = same a.type b.type && same a.result b.result

module _ {K : Type 0} (same_key : K → K → Bool) where
  -- `m[key]`, 0 where there is none.
  unfoldable pub count_at : K → List (K × ℕ) → ℕ
  count_at key [] = 0
  count_at key ((k, n) ∷ es) = if same_key k key then n else count_at key es

  -- `m[key] += n` on a `uint64`.
  unfoldable pub add_at : K → ℕ → List (K × ℕ) → List (K × ℕ)
  add_at key n [] = (key, n % 2 ^ 64) ∷ []
  add_at key n ((k, old) ∷ es) =
      let rest = add_at key n es in
      if same_key k key then (k, (old + n) % 2 ^ 64) ∷ es else (k, old) ∷ rest

-- What is not named is counted under `other`.
abbrev pub named_or : Text → Text → Text
named_or other name = if same name [] then other else name

unfoldable pub record_daily_action : Text → Text → Metrics → Metrics
unfolding add_at same_ws_key
record_daily_action action result m =
    let key : WsMessageKey = record {
      type = named_or (codes "unknown") action;
      result = named_or (codes "ok") result;
    } in
    record m { daily_actions = add_at same_ws_key key 1 m.daily_actions }

unfoldable pub record_content_action : Text → Text → Metrics → Metrics
unfolding add_at same_ws_key
record_content_action action result m =
    let key : WsMessageKey = record {
      type = named_or (codes "unknown") action;
      result = named_or (codes "ok") result;
    } in
    record m { content_actions = add_at same_ws_key key 1 m.content_actions }

unfoldable pub record_card_auto_retired : Metrics → Metrics
record_card_auto_retired m = record m { cards_auto_retired = (m.cards_auto_retired + 1) % 2 ^ 64 }

-- `now` is in seconds; the first argument is `err != nil`.
unfoldable pub record_daily_worker : Bool → ℕ → ℕ → ℕ → ℕ → Metrics → Metrics
unfolding add_at
record_daily_worker failed created revealed finalized now m =
    if failed
    then record m { daily_worker_errors = (m.daily_worker_errors + 1) % 2 ^ 64 }
    else record m {
      daily_worker_last_success = now;
      daily_transitions = add_at same (codes "finalized") finalized (
          add_at same (codes "revealed") revealed
            (add_at same (codes "created") created m.daily_transitions));
    }

-- `d.Count++`, `d.Sum += elapsed.Seconds()` at a key, from the zero value where there is none.
unfoldable pub add_duration :
    HttpMetricKey
    → ℕ
    → List (HttpMetricKey × DurationMetric)
    → List (HttpMetricKey × DurationMetric)
unfolding same_http_key
add_duration key elapsed [] = (key, record { count = 1; durations = elapsed ∷ [] }) ∷ []
add_duration key elapsed ((k, d) ∷ es) =
    let rest = add_duration key elapsed es in
    if same_http_key k key
    then (k, record { count = (d.count + 1) % 2 ^ 64; durations = elapsed ∷ d.durations }) ∷ es
    else (k, d) ∷ rest

unfoldable pub record_http_request : Text → Text → ℕ → ℕ → Metrics → Metrics
unfolding add_at same_http_key add_duration
record_http_request method route status elapsed m =
    let key : HttpMetricKey = record { method = method; route = route; status = status } in
    record m {
      http_requests = add_at same_http_key key 1 m.http_requests;
      http_duration = add_duration key elapsed m.http_duration;
    }

unfoldable pub record_room_created : Text → Metrics → Metrics
unfolding add_at
record_room_created mode m = record m {
  rooms_created = add_at same (named_or (codes "friends") mode) 1 m.rooms_created;
}

unfoldable pub record_ws_connect : Metrics → Metrics
record_ws_connect m = record m {
  ws_connections_total = (m.ws_connections_total + 1) % 2 ^ 64;
  ws_active = m.ws_active + 1;
}

unfoldable pub record_ws_disconnect : Metrics → Metrics
record_ws_disconnect m = if ltb 0 m.ws_active then record m { ws_active = m.ws_active - 1 } else m

unfoldable pub record_ws_message : Text → Text → Metrics → Metrics
unfolding add_at same_ws_key
record_ws_message message_type result m =
    let key : WsMessageKey = record {
      type = named_or (codes "unknown") message_type;
      result = named_or (codes "ok") result;
    } in
    record m { ws_messages = add_at same_ws_key key 1 m.ws_messages }

unfoldable pub record_action_error : Text → Metrics → Metrics
unfolding add_at
record_action_error message_type m = record m {
  action_errors = add_at same (named_or (codes "unknown") message_type) 1 m.action_errors;
}

unfoldable pub record_rate_limited : Text → Metrics → Metrics
unfolding add_at
record_rate_limited scope m = record m {
  rate_limited = add_at same (named_or (codes "unknown") scope) 1 m.rate_limited;
}
