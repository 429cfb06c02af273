-- ===== src/Http/Sockets.antt =====
-- backend/internal/httpapi/handler.go: the beginning and the end of wsRoom. The loop between them is in
-- Session; the upgrade of the connection, which comes before Attach, is taken to succeed.
pub mod Opened
use punchline.Base.{
  ℕ, Bool, not, ◌||◌, [], Option, none, some, if◌then◌else◌, Text, codes, same, to_upper,
}
use punchline.Base.Strings.{trim_prefix, trim_rune}
use punchline.Room.World.{World}
use punchline.Room.Types.{Room, RoomError}
use punchline.Room.Join.{attach, detach}
use punchline.Manager.{RoomRegistry, RoomStateStore}
use punchline.Manager.Calls.{Outcome, found, no_room, get_room}
use punchline.Http.Metrics.{record_ws_connect, record_ws_disconnect}
use punchline.Http.Requests.{
  HttpRequest, Response, Server, RequestLimits, write_error, write_room_lookup_error, allow_request,
  unless_refused, room_at, put_back,
}

-- How the beginning ends: with an answer, with an error of Attach on the socket, which is then closed,
-- or with a connection that the room of a code has taken.
pub data Opening : Type 0 where
  replied : Response → Opening
  rejected : RoomError → Opening
  opened : Text → Opening
  lost : Opening

module _ {R S : Type 0} (w : World) (reg : RoomRegistry R) (stores : RoomStateStore S) where
  unfoldable pub attached : Text → Server R S → Room × (Option RoomError) → Server R S × Opening
  attached code s (room, some e) = (put_back code room s, rejected e)
  attached code s (room, none) =
      (record (put_back code room s) { metrics = record_ws_connect s.metrics }, opened code)

  -- `Attach` to the room that was found; `conn` names the connection.
  unfoldable pub attach_to : HttpRequest → ℕ → ℕ → Server R S → Outcome → Server R S × Opening
  attach_to q conn now s (no_room x) = (s, replied (write_room_lookup_error q.replay_failed x))
  attach_to q conn now s (found code) = elim (room_at code s) [
    | none ↦ (s, lost)
    | some room ↦ attached code s (attach q.player_id q.token conn (record room { now = now }))
  ]

  unfoldable pub open_socket : HttpRequest → ℕ → ℕ → ℕ → Server R S → Server R S × Opening
  open_socket q conn now seed s =
      let code = to_upper (trim_rune 0x2f (trim_prefix (codes "/ws/rooms/") q.path)) in
      if same code [] || same q.player_id [] || same q.token []
      then (s, replied (write_error 400 (codes "room code, player_id, and token are required")))
      else (let (i, o) = get_room w reg stores q.ctx_err code now seed s.instance_of in
          attach_to q conn now (record s { instance_of = i }) o)

  -- `wsRoom` up to its loop; `is_allowed` is what `originAllowed` gives.
  unfoldable pub ws_open :
      RequestLimits → Bool → HttpRequest → ℕ → ℕ → ℕ → Server R S → Server R S × Opening
  ws_open limits is_allowed q conn now seed s =
      if not is_allowed
      then (s, replied (write_error 403 (codes "origin not allowed")))
      else unless_refused replied (open_socket q conn now seed)
          (allow_request (codes "ws_connect") limits.ws_connect q.ip now s)

  -- What is deferred when a connection was opened.
  unfoldable pub ws_close : Text → Text → ℕ → ℕ → Server R S → Server R S
  ws_close code player_id conn now s = elim (room_at code s) [
    | none ↦ record s { metrics = record_ws_disconnect s.metrics }
    | some room ↦ record (put_back code (detach player_id conn (record room { now = now })) s) {
      metrics = record_ws_disconnect s.metrics;
    }
  ]
