-- ===== src/Http/Rooms.antt =====
-- backend/internal/httpapi/handler.go: rooms, computerRoom and roomByCode. Each reads the clock once.
use punchline.Base.{
  ℕ, Bool, true, false, not, ◌&&◌, List, [], ◌∷◌, Option, none, some, if◌then◌else◌, Text, codes,
  same, to_upper,
}
use punchline.Base.Strings.{trim_prefix, trim_rune, split_at}
use punchline.Base.Int.{pos}
use punchline.Room.World.{World}
use punchline.Room.Types.{Player, Room, RoomError, room_full, invalid_name}
use punchline.Room.Join.{try_join, new_player, undo_join}
use punchline.Room.Settings.{Settings, update_settings}
use punchline.Room.Host.{start_computer_game}
use punchline.Room.Persist.{persisted_state}
use punchline.Room.Snapshot.{snapshot_for}
use punchline.Store.{StateError}
use punchline.Manager.{RoomRegistry, RoomStateStore}
use punchline.Manager.Queue.{save_state}
use punchline.Manager.Calls.{Outcome, found, no_room, create_room, get_room}
use punchline.Http.Metrics.{record_room_created}
use punchline.Http.Requests.{
  NameBody, named, no_body, bad_body, HttpRequest, Response, Server, RequestLimits, write_error,
  write_room, write_player, write_room_lookup_error, allow_request, unless_refused, room_at,
  put_back, heard,
}

abbrev invalid_name_text : Text
invalid_name_text = codes "that name has characters we can't use — try letters and numbers"

-- The settings of a room against the computer.
abbrev pub computer_settings : Settings
computer_settings = record {
  score_limit = pos 3;
  round_seconds = pos 45;
  max_players = pos 4;
  content_tier = [];
}

-- `len(parts) == 1` and `len(parts) == 2 && parts[1] == word`, of the parts after the first.
abbrev is_alone : List Text → Bool
is_alone [] = true
is_alone (_ ∷ _) = false

abbrev is_word : Text → List Text → Bool
is_word word [] = false
is_word word (part ∷ []) = same part word
is_word word (part ∷ _ ∷ _) = false

-- The statuses and the texts for what `TryJoin` refuses; only `roomByCode` tells a full room apart.
unfoldable pub refuse_computer_join : RoomError → ℕ × Text
refuse_computer_join invalid_name = (400, invalid_name_text)
refuse_computer_join _ = (503, codes "could not join room")

unfoldable pub refuse_join : RoomError → ℕ × Text
refuse_join room_full = (409, codes "room is full")
refuse_join invalid_name = (400, invalid_name_text)
refuse_join _ = (503, codes "could not join room")

-- `TryJoin` at a time, with the copy of the player that it gives where it gives no error.
unfoldable pub join_at : World → Text → ℕ → Room → Room × ((Option RoomError) × Player)
join_at w name now r =
    let (r', e) = try_join w name (record r { now = now }) in
    (r', (e, (new_player w name false r.piles).0))

module _ {R S : Type 0} (w : World) (reg : RoomRegistry R) (stores : RoomStateStore S) where
  -- `PersistRoom` of a room of the map.
  unfoldable pub persist_at : Bool → Room → Server R S → Server R S × (Option StateError)
  persist_at ctx_err room s =
      let (i, e) = save_state stores ctx_err (persisted_state room) s.instance_of in
      (record s { instance_of = i }, e)

  unfoldable pub on_created : Server R S → Outcome → Server R S × (Option Response)
  on_created s (no_room x) = (s, some (write_error 503 (codes "could not create room")))
  on_created s (found code) = elim (room_at code s) [
    | none ↦ (s, none)
    | some room ↦ (
      record s { metrics = record_room_created (codes "friends") s.metrics },
      some (write_room 201 (snapshot_for [] room)),
    )
  ]

  unfoldable pub create_friends : HttpRequest → ℕ → ℕ → Server R S → Server R S × (Option Response)
  create_friends q now seed s =
      let (i, o) = create_room w reg stores q.ctx_err now seed s.instance_of in
      on_created (record s { instance_of = i }) o

  -- `rooms`. No response is the panic at a room that is not there.
  unfoldable pub rooms_handler :
      RequestLimits → HttpRequest → ℕ → ℕ → Server R S → Server R S × (Option Response)
  rooms_handler limits q now seed s =
      if not (same q.method (codes "POST"))
      then (s, some (write_error 405 (codes "method not allowed")))
      else unless_refused some (create_friends q now seed)
          (allow_request (codes "room_create") limits.room_create q.ip now s)

  unfoldable pub computer_saved :
      Room → Player → Server R S × (Option StateError) → Server R S × (Option Response)
  computer_saved room p (s, some x) =
      (s, some (write_error 503 (codes "could not save computer room")))
  computer_saved room p (s, none) = (
    record s { metrics = record_room_created (codes "computer") s.metrics },
    some (write_player 201 p (snapshot_for p.id room)),
  )

  unfoldable pub computer_started :
      Bool → Player → Server R S → Room × (Option RoomError) → Server R S × (Option Response)
  computer_started ctx_err p s (room, some e) =
      (s, some (write_error 503 (codes "could not start computer room")))
  computer_started ctx_err p s (room, none) = computer_saved room p (persist_at ctx_err room s)

  unfoldable pub computer_prepared :
      Bool → Text → Player → Server R S → Room × (Option RoomError) → Server R S × (Option Response)
  computer_prepared ctx_err code p s (room, some e) =
      (s, some (write_error 503 (codes "could not prepare computer room")))
  computer_prepared ctx_err code p s (room, none) =
      let (room', e) = start_computer_game w p.id room in
      computer_started ctx_err p (put_back code room' s) (heard room', e)

  unfoldable pub computer_joined :
      Bool
      → Text
      → Server R S
      → Room × ((Option RoomError) × Player)
      → Server R S × (Option Response)
  computer_joined ctx_err code s (room, (some e, p)) =
      let (status, text) = refuse_computer_join e in (s, some (write_error status text))
  computer_joined ctx_err code s (room, (none, p)) =
      let (room', e) = update_settings w p.id (some computer_settings) room in
      computer_prepared ctx_err code p (put_back code room' s) (heard room', e)

  unfoldable pub computer_created :
      Bool → Text → ℕ → Server R S → Outcome → Server R S × (Option Response)
  computer_created ctx_err name now s (no_room x) =
      (s, some (write_error 503 (codes "could not create room")))
  computer_created ctx_err name now s (found code) = elim (room_at code s) [
    | none ↦ (s, none)
    | some room ↦
        let (room', o) = join_at w name now room in
        computer_joined ctx_err code (put_back code room' s) (heard room', o)
  ]

  unfoldable pub create_computer : Bool → Text → ℕ → ℕ → Server R S → Server R S × (Option Response)
  create_computer ctx_err name now seed s =
      let (i, o) = create_room w reg stores ctx_err now seed s.instance_of in
      computer_created ctx_err name now (record s { instance_of = i }) o

  -- The body may be empty.
  unfoldable pub read_computer :
      Bool → NameBody → ℕ → ℕ → Server R S → Server R S × (Option Response)
  read_computer ctx_err (named name) now seed s = create_computer ctx_err name now seed s
  read_computer ctx_err no_body now seed s = create_computer ctx_err [] now seed s
  read_computer ctx_err bad_body now seed s =
      (s, some (write_error 400 (codes "invalid computer room request")))

  -- `computerRoom`.
  unfoldable pub computer_room :
      RequestLimits → HttpRequest → ℕ → ℕ → Server R S → Server R S × (Option Response)
  computer_room limits q now seed s =
      if not (same q.method (codes "POST"))
      then (s, some (write_error 405 (codes "method not allowed")))
      else unless_refused some (read_computer q.ctx_err q.name_body now seed)
          (allow_request (codes "room_create") limits.room_create q.ip now s)

  -- The end of a join: a player who could not be saved loses the seat again.
  unfoldable pub join_saved :
      Text → Room → Player → Server R S × (Option StateError) → Server R S × (Option Response)
  join_saved code room p (s, some x) =
      (put_back code (undo_join p.id room) s, some (write_error 503 (codes "could not save room")))
  join_saved code room p (s, none) = (s, some (write_player 201 p (snapshot_for p.id room)))

  unfoldable pub joined :
      Bool
      → Text
      → Server R S
      → Room × ((Option RoomError) × Player)
      → Server R S × (Option Response)
  joined ctx_err code s (room, (some e, p)) =
      let (status, text) = refuse_join e in (s, some (write_error status text))
  joined ctx_err code s (room, (none, p)) = join_saved code room p (persist_at ctx_err room s)

  unfoldable pub join_room :
      Bool → NameBody → Text → ℕ → Room → Server R S → Server R S × (Option Response)
  join_room ctx_err (named name) code now room s =
      let (room', o) = join_at w name now room in
      joined ctx_err code (put_back code room' s) (heard room', o)
  join_room ctx_err no_body code now room s =
      (s, some (write_error 400 (codes "invalid join request")))
  join_room ctx_err bad_body code now room s =
      (s, some (write_error 400 (codes "invalid join request")))

  -- What `roomByCode` does with the room; `is_get` asks for the code alone.
  unfoldable pub with_room :
      HttpRequest → Bool → Bool → ℕ → Server R S → Outcome → Server R S × (Option Response)
  with_room q is_get is_join now s (no_room x) =
      (s, some (write_room_lookup_error q.replay_failed x))
  with_room q is_get is_join now s (found code) = elim (room_at code s) [
    | none ↦ (s, none)
    | some room ↦
        if is_get
        then (s, some (write_room 200 (snapshot_for [] room)))
        else if is_join
        then join_room q.ctx_err q.name_body code now room s
        else (s, some (write_error 404 (codes "not found")))
  ]

  unfoldable pub look_up :
      HttpRequest → Bool → Bool → Text → ℕ → ℕ → Server R S → Server R S × (Option Response)
  look_up q is_get is_join code now seed s =
      let (i, o) = get_room w reg stores q.ctx_err code now seed s.instance_of in
      with_room q is_get is_join now (record s { instance_of = i }) o

  unfoldable pub by_parts :
      RequestLimits → HttpRequest → ℕ → ℕ → Server R S → List Text → Server R S × (Option Response)
  by_parts limits q now seed s [] = (s, some (write_error 404 (codes "room code required")))
  by_parts limits q now seed s (first ∷ rest) =
      let is_get = is_alone rest && same q.method (codes "GET") in
      let is_join = is_word (codes "join") rest && same q.method (codes "POST") in
      if same first []
      then (s, some (write_error 404 (codes "room code required")))
      else if is_join
      then unless_refused some (look_up q is_get is_join (to_upper first) now seed)
          (allow_request (codes "room_join") limits.room_join q.ip now s)
      else look_up q is_get is_join (to_upper first) now seed s

  -- `roomByCode`.
  unfoldable pub room_by_code :
      RequestLimits → HttpRequest → ℕ → ℕ → Server R S → Server R S × (Option Response)
  room_by_code limits q now seed s =
      by_parts limits q now seed s
        (split_at 0x2f (trim_rune 0x2f (trim_prefix (codes "/api/rooms/") q.path)))
