-- ===== src/Http/Made.antt =====
-- What a client that made a room can rely on.
use punchline.Base.{ℕ, ◌≡◌, refl, Bool, Option, none, some, Text, if_both, true, false, []}
use punchline.Room.World.{World}
use punchline.Room.Types.{Player, Room, RoomError}
use punchline.Room.Host.{start_computer_game}
use punchline.Room.Snapshot.{snapshot_for}
use punchline.Room.Settings.{update_settings}
use punchline.Store.{StateError}
use punchline.Manager.{RoomRegistry, RoomStateStore}
use punchline.Manager.Kept.{Remembers}
use punchline.Manager.Calls.{Outcome, found, no_room, create_room}
use punchline.Limiter.{RateLimiter}
use punchline.Http.Requests.{
  NameBody, named, no_body, bad_body, Body, of_error, of_room, of_player, HttpRequest, Response,
  Server, RequestLimits, room_at, put_back, heard, unless_refused, allow_request, checked,
  write_player, write_error, write_room, too_many,
}
use punchline.Http.Answered.Created.{IsMade, create_room-IsMade}
use punchline.Http.Rooms.{
  join_at, persist_at, on_created, create_friends, rooms_handler, computer_saved, computer_started,
  computer_prepared, computer_joined, computer_created, create_computer, read_computer,
  computer_room, refuse_computer_join, computer_settings,
}
use punchline.Http.Stored.{room_at-put_back, IsBacked, persist_at-IsBacked}

module _ {R S : Type 0} (stored : Text → S → ℕ) where
  -- One with a room is what a stranger sees of a room that is backed, one with a player and a room is
  -- what the player sees of it, with the player's token.
  abbrev pub BodyBacked : Server R S → Body → Type 0
  BodyBacked s (of_error _) = Unit {0}
  BodyBacked s (of_room snapshot) =
      (code : Text) × (room : Room) × IsBacked stored s code room
      × (snapshot ≡ snapshot_for [] room)
  BodyBacked s (of_player p token snapshot) =
      (code : Text) × (room : Room) × IsBacked stored s code room
      × (snapshot ≡ snapshot_for p.id room)
      × (token ≡ p.guest_token)

  -- There is an answer, and it is backed.

  pub RoomBacked : Server R S × (Option Response) → Type 0
  RoomBacked (s, none) = ⊥
  RoomBacked (s, some r) = BodyBacked s r.body

module _ {R S : Type 0} (w : World) (reg : RoomRegistry R) (stores : RoomStateStore S)
    (stored : Text → S → ℕ) where
  error-RoomBacked :
      (status : ℕ) (text : Text) (s : Server R S)
      → RoomBacked stored (s, some (write_error status text))
  unfolding RoomBacked write_error
  error-RoomBacked status text s = tt

  -- A request that is refused is given no room.
  allowed-RoomBacked :
      (next : Server R S → Server R S × (Option Response)) (scope : Text) (s : Server R S)
      (o : RateLimiter × Bool)
      → ((t : Server R S) → RoomBacked stored (next t))
      → RoomBacked stored (unless_refused some next (checked scope s o))
  unfolding RoomBacked unless_refused checked too_many
  allowed-RoomBacked next scope s (l, true) h = h _
  allowed-RoomBacked next scope s (l, false) h = tt

  module _ (law : Remembers stores stored) where
    on_created-RoomBacked :
        (s : Server R S) (o : Outcome)
        → IsMade w reg stores stored (s.instance_of, o)
        → RoomBacked stored (on_created w reg stores s o)
    unfolding RoomBacked on_created write_error write_room room_at
    on_created-RoomBacked s (no_room x) h = tt
    on_created-RoomBacked s (found code) (room, f, k) =
        rw (f, on_created) (code, room, record { there = f; kept = k }, refl)

    -- The answers of `POST /api/rooms`.
    rooms_handler-RoomBacked :
        (limits : RequestLimits) (q : HttpRequest) (now seed : ℕ) (s : Server R S)
        → RoomBacked stored (rooms_handler w reg stores limits q now seed s)
    unfolding rooms_handler allow_request create_friends
    rooms_handler-RoomBacked limits q now seed s =
        if_both (RoomBacked stored) _ _ _ (error-RoomBacked 405 _ s) (
          allowed-RoomBacked (create_friends w reg stores q now seed) _ s _ (λ t.
            let (i, o) = create_room w reg stores q.ctx_err now seed t.instance_of in
            on_created-RoomBacked (record t { instance_of = i }) o
              (create_room-IsMade w reg stores stored law q.ctx_err now seed t.instance_of)))

    computer_saved-RoomBacked :
        (code : Text) (room : Room) (p : Player) (o : Server R S × (Option StateError))
        → (o.1 ≡ none → IsBacked stored o.0 code room)
        → RoomBacked stored (computer_saved w reg stores room p o)
    unfolding RoomBacked computer_saved write_error write_player room_at
    computer_saved-RoomBacked code room p (s, some x) h = tt
    computer_saved-RoomBacked code room p (s, none) h =
        let b = h refl in (code, room, record { there = b.there; kept = b.kept }, refl, refl)

    computer_started-RoomBacked :
        (b : Bool) (code : Text) (p : Player) (s : Server R S) (o : Room × (Option RoomError))
        → room_at code s ≡ some (o.0)
        → RoomBacked stored (computer_started w reg stores b p s o)
    unfolding computer_started
    computer_started-RoomBacked b code p s (room, some e) f = error-RoomBacked 503 _ s
    computer_started-RoomBacked b code p s (room, none) f =
        computer_saved-RoomBacked code room p (persist_at w reg stores b room s)
          (persist_at-IsBacked w reg stores stored law b code room s f)

    computer_prepared-RoomBacked :
        (b : Bool) (code : Text) (p : Player) (s : Server R S) (o : Room × (Option RoomError))
        → room_at code s ≡ some (o.0)
        → RoomBacked stored (computer_prepared w reg stores b code p s o)
    unfolding computer_prepared
    computer_prepared-RoomBacked b code p s (room, some e) f = error-RoomBacked 503 _ s
    computer_prepared-RoomBacked b code p s (room, none) f =
        let (r, e) = start_computer_game w p.id room in
        computer_started-RoomBacked b code p (put_back code r s) (heard r, e)
          (room_at-put_back code room r s f)

    computer_joined-RoomBacked :
        (b : Bool) (code : Text) (s : Server R S) (o : Room × ((Option RoomError) × Player))
        → room_at code s ≡ some (o.0)
        → RoomBacked stored (computer_joined w reg stores b code s o)
    unfolding computer_joined
    computer_joined-RoomBacked b code s (room, (some e, p)) f =
        let (status, text) = refuse_computer_join e in error-RoomBacked status text s
    computer_joined-RoomBacked b code s (room, (none, p)) f =
        let (r, e) = update_settings w p.id (some computer_settings) room in
        computer_prepared-RoomBacked b code p (put_back code r s) (heard r, e)
          (room_at-put_back code room r s f)

    computer_created-RoomBacked :
        (b : Bool) (name : Text) (now : ℕ) (s : Server R S) (o : Outcome)
        → IsMade w reg stores stored (s.instance_of, o)
        → RoomBacked stored (computer_created w reg stores b name now s o)
    unfolding computer_created room_at
    computer_created-RoomBacked b name now s (no_room x) h = error-RoomBacked 503 _ s
    computer_created-RoomBacked b name now s (found code) (room, f, k) =
        let (r, o) = join_at w name now room in
        rw (f, computer_created)
          (computer_joined-RoomBacked b code (put_back code r s) (heard r, o)
            (room_at-put_back code room r s f))

    create_computer-RoomBacked :
        (b : Bool) (name : Text) (now seed : ℕ) (s : Server R S)
        → RoomBacked stored (create_computer w reg stores b name now seed s)
    unfolding create_computer
    create_computer-RoomBacked b name now seed s =
        let (i, o) = create_room w reg stores b now seed s.instance_of in
        computer_created-RoomBacked b name now (record s { instance_of = i }) o
          (create_room-IsMade w reg stores stored law b now seed s.instance_of)

    read_computer-RoomBacked :
        (b : Bool) (body : NameBody) (now seed : ℕ) (s : Server R S)
        → RoomBacked stored (read_computer w reg stores b body now seed s)
    unfolding read_computer
    read_computer-RoomBacked b (named name) now seed s =
        create_computer-RoomBacked b name now seed s
    read_computer-RoomBacked b no_body now seed s = create_computer-RoomBacked b [] now seed s
    read_computer-RoomBacked b bad_body now seed s = error-RoomBacked 400 _ s

    computer_room-RoomBacked :
        (limits : RequestLimits) (q : HttpRequest) (now seed : ℕ) (s : Server R S)
        → RoomBacked stored (computer_room w reg stores limits q now seed s)
    unfolding computer_room allow_request
    computer_room-RoomBacked limits q now seed s =
        if_both (RoomBacked stored) _ _ _ (error-RoomBacked 405 _ s) (
          allowed-RoomBacked (read_computer w reg stores q.ctx_err q.name_body now seed) _ s _
            (read_computer-RoomBacked q.ctx_err q.name_body now seed))

    -- Every request that makes a room, with friends or against the computer, is answered. Over a
    -- store that keeps its promise, when it is answered with a room, this instance has the room, and
    -- the store has it at its version or a later one: what is answered is the snapshot of this room
    -- for a stranger, or, with a player and the player's token, its snapshot for that player.
    pub creations-RoomBacked :
        (limits : RequestLimits) (q : HttpRequest) (now seed : ℕ) (s : Server R S)
        → RoomBacked stored (rooms_handler w reg stores limits q now seed s)
          × RoomBacked stored (computer_room w reg stores limits q now seed s)
    creations-RoomBacked limits q now seed s =
        (rooms_handler-RoomBacked limits q now seed s, computer_room-RoomBacked limits q now seed s)
