-- ===== src/Http/Metrics/Instrument.antt =====
-- The labels of requests (routeLabel of backend/internal/httpapi/metrics.go) and what instrument of
-- middleware.go counts.
use punchline.Base.{ℕ, ◌==◌, ◌&&◌, Bool, List, [], ◌∷◌, if◌then◌else◌, Text, codes, same}
use punchline.Base.Strings.{has_prefix, has_suffix, trim_right_rune}
use punchline.Http.Metrics.{Metrics, record_http_request}

-- Whether a path has a prefix and, without its trailing slashes, a suffix.
abbrev between : Text → Text → Text → Bool
between prefix suffix path = has_prefix prefix path && has_suffix suffix (trim_right_rune 0x2f path)

-- `routeLabel`, of the method and the path of a request.
unfoldable pub route_label : Text → Text → Text
unfolding has_prefix has_suffix trim_right_rune
route_label method path =
    if same path (codes "/")
    then codes "/"
    else if same path (codes "/healthz")
    then codes "/healthz"
    else if same path (codes "/readyz")
    then codes "/readyz"
    else if same path (codes "/metrics")
    then codes "/metrics"
    else if same path (codes "/api/computer-room")
    then codes "/api/computer-room"
    else if same path (codes "/api/rooms")
    then codes "/api/rooms"
    else if between (codes "/api/rooms/") (codes "/join") path
    then codes "/api/rooms/{code}/join"
    else if has_prefix (codes "/api/rooms/") path
    then codes "/api/rooms/{code}"
    else if same path (codes "/api/daily/groups")
    then codes "/api/daily/groups"
    else if has_prefix (codes "/api/daily/groups/") path && same method (codes "DELETE")
    then codes "/api/daily/groups/{code}"
    else if between (codes "/api/daily/groups/") (codes "/join") path
    then codes "/api/daily/groups/{code}/join"
    else if between (codes "/api/daily/groups/") (codes "/today") path
    then codes "/api/daily/groups/{code}/today"
    else if between (codes "/api/daily/rounds/") (codes "/submit") path
    then codes "/api/daily/rounds/{id}/submit"
    else if between (codes "/api/daily/rounds/") (codes "/vote") path
    then codes "/api/daily/rounds/{id}/vote"
    else if has_prefix (codes "/ws/rooms/") path
    then codes "/ws/rooms/{code}"
    else if has_prefix (codes "/assets/") path
    then codes "/assets/*"
    else codes "static"

-- A request that was served, with the status that was written, 0 if none was.
pub record Served : Type 0 where
  pub method : Text
  pub path : Text
  pub status : ℕ
  pub elapsed : ℕ

-- The status of `statusRecorder`, as `instrument` reads it.
unfoldable pub recorded_status : ℕ → ℕ
recorded_status status = if status == 0 then 200 else status

-- What `instrument` does after the request.
unfoldable pub instrument : Served → Metrics → Metrics
unfolding record_http_request route_label recorded_status
instrument q m =
    record_http_request q.method (route_label q.method q.path) (recorded_status q.status) q.elapsed
      m

unfoldable pub instrument_all : List Served → Metrics → Metrics
unfolding instrument
instrument_all [] m = m
instrument_all (q ∷ qs) m = instrument_all qs (instrument q m)
