-- ===== src/Http/Requests.antt =====
-- backend/internal/httpapi/handler.go: what the handlers of rooms share, with their errors. The
-- broadcasts and the logs are left out.
use punchline.Base.{
  ℕ, Bool, true, false, List, [], ◌∷◌, ◌++◌, Option, none, some, if◌then◌else◌, Text, codes, same,
}
use punchline.Base.Int.{ℤ, pos}
use punchline.Base.Maps.{find}
use punchline.Room.Types.{Player, Room}
use punchline.Room.Snapshot.{RoomSnapshot}
use punchline.Registry.{room_not_found, owned_elsewhere}
use punchline.Manager.{Instance, ManagerError, draining, state_unavailable, of_registry}
use punchline.Manager.Rooms.{update_room}
use punchline.Manager.Queue.{enqueue_all}
use punchline.Manager.Calls.{observed_states}
use punchline.Limiter.{RateLimiter, allow, minute}
use punchline.Http.Metrics.{Metrics, record_rate_limited}

-- What decoding the body `{"name": ...}` ends with: a name, `io.EOF` or another error.
pub data NameBody : Type 0 where
  named : Text → NameBody
  no_body bad_body : NameBody

-- What is read of a request. `ip` is what `clientIP` gives for it and `ctx_err` tells whether its
-- context is done.
pub record HttpRequest : Type 0 where
  pub method : Text
  pub path : Text
  pub ip : Text
  pub replay_failed : Text
  pub name_body : NameBody
  pub player_id : Text
  pub token : Text
  pub ctx_err : Bool

-- What is encoded as JSON. A snapshot that is `none` is the panic of `snapshotLocked`.
pub data Body : Type 0 where
  of_error : Text → Body
  of_room : Option RoomSnapshot → Body
  of_player : Player → Text → Option RoomSnapshot → Body

pub record Response : Type 0 where
  pub status : ℕ
  pub headers : List (Text × Text)
  pub body : Body

-- The fields of `Handler` that the handlers of rooms use, and the instance of its manager.
pub record Server (R S : Type 0) : Type 0 where
  pub instance_of : Instance R S
  pub limiter : RateLimiter
  pub metrics : Metrics

pub record RequestLimits : Type 0 where
  pub room_create : ℤ
  pub room_join : ℤ
  pub ws_connect : ℤ

-- `writeError`.
unfoldable pub write_error : ℕ → Text → Response
write_error status message = record { status = status; headers = []; body = of_error message }

-- `writeJSON` of a room, and of a player with the room.
unfoldable pub write_room : ℕ → Option RoomSnapshot → Response
write_room status snapshot = record { status = status; headers = []; body = of_room snapshot }

unfoldable pub write_player : ℕ → Player → Option RoomSnapshot → Response
write_player status p snapshot = record {
  status = status;
  headers = [];
  body = of_player p p.guest_token snapshot;
}

unfoldable pub too_many : Response
too_many = record {
  status = 429;
  headers = (codes "Retry-After", codes "60") ∷ [];
  body = of_error (codes "too many requests");
}

-- The headers for the proxy when the room is elsewhere.
unfoldable pub replay_headers : Text → Text → List (Text × Text)
replay_headers replay_failed instance_id =
    (codes "X-Punchline-Room-Instance", instance_id)
    ∷ (if same replay_failed []
        then (codes "Fly-Replay", codes "instance=" ++ instance_id) ∷ []
        else [])

-- The status and the text of `writeRoomLookupError`.
unfoldable pub lookup_error : ManagerError → ℕ × Text
lookup_error (of_registry (owned_elsewhere code instance_id)) =
    (421, codes "room is hosted by another server instance")
lookup_error state_unavailable = (410, codes "room state is no longer active on this server")
lookup_error draining = (503, codes "server is restarting; reconnect shortly")
lookup_error (of_registry room_not_found) = (404, codes "room not found")
lookup_error _ = (503, codes "room lookup failed")

unfoldable pub lookup_headers : Text → ManagerError → List (Text × Text)
unfolding replay_headers
lookup_headers replay_failed (of_registry (owned_elsewhere code instance_id)) =
    replay_headers replay_failed instance_id
lookup_headers replay_failed _ = []

-- `writeRoomLookupError`.
unfoldable pub write_room_lookup_error : Text → ManagerError → Response
unfolding lookup_error lookup_headers
write_room_lookup_error replay_failed x =
    let (status, text) = lookup_error x in
    record { status = status; headers = lookup_headers replay_failed x; body = of_error text }

module _ {R S : Type 0} where
  unfoldable pub checked : Text → Server R S → RateLimiter × Bool → Server R S × (Option Response)
  unfolding record_rate_limited too_many
  checked scope s (l, true) = (record s { limiter = l }, none)
  checked scope s (l, false) =
      (record s { limiter = l; metrics = record_rate_limited scope s.metrics }, some too_many)

  -- `allowRequest`: the answer, if it is refused.
  unfoldable pub allow_request : Text → ℤ → Text → ℕ → Server R S → Server R S × (Option Response)
  unfolding checked
  allow_request scope limit ip now s =
      checked scope s (allow (scope ++ codes ":" ++ ip) limit (pos minute) now s.limiter)

  -- A handler goes on where the request was not refused.
  unfoldable pub unless_refused {ℓ} :
      {A : Type ℓ}
      → (Response → A)
      → (Server R S → Server R S × A)
      → Server R S × (Option Response)
      → Server R S × A
  unless_refused refusal next (s, none) = next s
  unless_refused refusal next (s, some r) = (s, refusal r)

  -- The room of the pointer that the manager gave.
  unfoldable pub room_at : Text → Server R S → Option Room
  room_at code s = find code s.instance_of.manager.rooms

  -- The map after a call of a room: its observer has put its states in the queue.
  unfoldable pub put_back : Text → Room → Server R S → Server R S
  put_back code room s = record s {
    instance_of = record (s.instance_of) {
      manager =
          enqueue_all (observed_states room.state_observer)
            (update_room code (record room { state_observer = some [] }) s.instance_of.manager);
    };
  }

-- A room whose observer has been heard.
unfoldable pub heard : Room → Room
heard room = record room { state_observer = some [] }
