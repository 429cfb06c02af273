-- ===== src/Http/Stored.antt =====
-- What a client whose request made or joined a room can rely on.
use punchline.Base.{
  ℕ, ◌≤◌, ◌≡◌, refl, ap, ◌∙◌, Bool, Option, none, some, Text, arith, Option-cases, inl, inr, List,
  [], ◌∷◌, true, false, if_both,
}
use punchline.Base.Maps.{find}
use punchline.Base.Keys.{find-put_same}
use punchline.Room.World.{World}
use punchline.Room.Types.{Player, Room, RoomError}
use punchline.Room.Roster.{find_player, put_player}
use punchline.Room.Restore.{normalize_room_code}
use punchline.Room.Persist.{persisted_state, touch}
use punchline.Room.Join.{try_join, add_player, seat, new_player}
use punchline.Store.{StateError}
use punchline.Manager.{RoomRegistry, RoomStateStore}
use punchline.Manager.Rooms.{update_room, has_local_room}
use punchline.Manager.Kept.{Remembers, enqueue_all-rooms}
use punchline.Manager.Kept.Saves.{save_state-rooms, save_state-stored}
use punchline.Manager.Calls.{Outcome, found, no_room, get_room, observed_states}
use punchline.Limiter.{RateLimiter}
use punchline.Http.Requests.{
  NameBody, named, no_body, bad_body, Body, of_player, HttpRequest, Response, Server, RequestLimits,
  room_at, put_back, heard, unless_refused, allow_request, checked, write_player, write_error,
  write_room, write_room_lookup_error, too_many,
}
use punchline.Http.Answered.{IsHosted, get_room-IsHosted}
use punchline.Http.Rooms.{
  join_at, persist_at, join_saved, joined, join_room, with_room, look_up, by_parts, room_by_code,
}

module _ {R S : Type 0} where
  pub room_at-put_back :
      (code : Text) (old room : Room) (s : Server R S)
      → room_at code s ≡ some old
      → room_at code (put_back code room s) ≡ some (heard room)
  unfolding room_at put_back update_room heard
  room_at-put_back code old room s e =
      let m = s.instance_of.manager in
      ap (find code)
        (enqueue_all-rooms (observed_states room.state_observer) (update_room code (heard room) m))
      ∙ ground (arith, e, find-put_same code (heard room) m.rooms)

pub find_player-put_player :
    (p : Player) (ps : List Player) → find_player p.id (put_player p ps) ≡ some p
unfolding find_player put_player
find_player-put_player p [] = ground arith
find_player-put_player p (q ∷ ps) = ground (arith, find_player-put_player p ps)

-- The player that a join gives is in the room.
join_at-seated :
    (w : World) (name : Text) (now : ℕ) (r : Room)
    → (join_at w name now r).1.0 ≡ none
    → let o = join_at w name now r in find_player (o.1.1).id (o.0).players ≡ some (o.1.1)
unfolding join_at try_join add_player seat touch
join_at-seated w name now r e =
    ground (arith, e, find_player-put_player (new_player w name false r.piles).0 r.players)

module _ {R S : Type 0} (stored : Text → S → ℕ) where
  -- A room of the map that the store has at its version or a later one.
  pub record IsBacked (s : Server R S) (code : Text) (room : Room) : Type 0 where
    pub there : room_at code s ≡ some room
    pub kept : room.state_version ≤ stored (normalize_room_code room.code) s.instance_of.store

  abbrev pub PlayerBacked : Server R S → Body → Type 0
  PlayerBacked s (of_player p token snapshot) =
      (code : Text) × (room : Room) × IsBacked s code room
      × (find_player p.id room.players ≡ some p)
      × (token ≡ p.guest_token)
  PlayerBacked s _ = Unit {0}

  pub SeatBacked : Server R S × (Option Response) → Type 0
  SeatBacked (s, none) = ⊥
  SeatBacked (s, some r) = PlayerBacked s r.body

module _ {R S : Type 0} (w : World) (reg : RoomRegistry R) (stores : RoomStateStore S)
    (stored : Text → S → ℕ) (law : Remembers stores stored) where
  pub persist_at-IsBacked :
      (b : Bool) (code : Text) (room : Room) (s : Server R S)
      → room_at code s ≡ some room
      → (persist_at w reg stores b room s).1 ≡ none
      → IsBacked stored (persist_at w reg stores b room s).0 code room
  unfolding persist_at room_at persisted_state
  persist_at-IsBacked b code room s f e = record {
    there =
        ap (find code)
          (save_state-rooms reg stores stored law b (persisted_state room) s.instance_of)
        ∙ f;
    kept = save_state-stored reg stores stored law b (persisted_state room) s.instance_of e;
  }

  join_saved-SeatBacked :
      (code : Text) (room : Room) (p : Player) (o : Server R S × (Option StateError))
      → (o.1 ≡ none → IsBacked stored o.0 code room)
      → find_player p.id room.players ≡ some p
      → SeatBacked stored (join_saved w reg stores code room p o)
  unfolding SeatBacked join_saved write_player write_error
  join_saved-SeatBacked code room p (s, some x) h f = tt
  join_saved-SeatBacked code room p (s, none) h f = (code, room, h refl, f, refl)

  joined-SeatBacked :
      (b : Bool) (code : Text) (s : Server R S) (o : Room × ((Option RoomError) × Player))
      → room_at code s ≡ some (o.0)
      → (o.1.0 ≡ none → find_player (o.1.1).id (o.0).players ≡ some (o.1.1))
      → SeatBacked stored (joined w reg stores b code s o)
  unfolding SeatBacked joined write_error
  joined-SeatBacked b code s (room, (some e, p)) f g = tt
  joined-SeatBacked b code s (room, (none, p)) f g =
      join_saved-SeatBacked code room p (persist_at w reg stores b room s)
        (persist_at-IsBacked b code room s f) (g refl)

  join_room-SeatBacked :
      (b : Bool) (body : NameBody) (code : Text) (now : ℕ) (room : Room) (s : Server R S)
      → room_at code s ≡ some room
      → SeatBacked stored (join_room w reg stores b body code now room s)
  unfolding SeatBacked join_room write_error heard
  join_room-SeatBacked b (named name) code now room s f =
      let (r, o) = join_at w name now room in
      joined-SeatBacked b code (put_back code r s) (heard r, o) (room_at-put_back code room r s f)
        (join_at-seated w name now room)
  join_room-SeatBacked b no_body code now room s f = tt
  join_room-SeatBacked b bad_body code now room s f = tt

  with_room-SeatBacked :
      (q : HttpRequest) (is_get is_join : Bool) (now : ℕ) (s : Server R S) (o : Outcome)
      → IsHosted (s.instance_of, o)
      → SeatBacked stored (with_room w reg stores q is_get is_join now s o)
  unfolding SeatBacked with_room write_error write_room write_room_lookup_error room_at
      has_local_room
  with_room-SeatBacked q is_get is_join now s (no_room x) h = tt
  with_room-SeatBacked q is_get is_join now s (found code) h =
      elim (Option-cases (find code s.instance_of.manager.rooms)) [
        | inl e ↦ ground (arith, e, h)
        | inr (room, e) ↦
            ground (arith, e, join_room-SeatBacked q.ctx_err q.name_body code now room s e)
      ]

  look_up-SeatBacked :
      (q : HttpRequest) (is_get is_join : Bool) (code : Text) (now seed : ℕ) (s : Server R S)
      → SeatBacked stored (look_up w reg stores q is_get is_join code now seed s)
  unfolding look_up
  look_up-SeatBacked q is_get is_join code now seed s =
      let (i, o) = get_room w reg stores q.ctx_err code now seed s.instance_of in
      with_room-SeatBacked q is_get is_join now (record s { instance_of = i }) o
        (get_room-IsHosted w reg stores q.ctx_err code now seed s.instance_of)

  -- A request that is refused is given no player.
  allowed-SeatBacked :
      (next : Server R S → Server R S × (Option Response)) (scope : Text) (s : Server R S)
      (o : RateLimiter × Bool)
      → ((t : Server R S) → SeatBacked stored (next t))
      → SeatBacked stored (unless_refused some next (checked scope s o))
  unfolding SeatBacked unless_refused checked too_many
  allowed-SeatBacked next scope s (l, true) h = h _
  allowed-SeatBacked next scope s (l, false) h = tt

  error-SeatBacked :
      (status : ℕ) (text : Text) (s : Server R S)
      → SeatBacked stored (s, some (write_error status text))
  unfolding SeatBacked write_error
  error-SeatBacked status text s = tt

  by_parts-SeatBacked :
      (limits : RequestLimits) (q : HttpRequest) (now seed : ℕ) (s : Server R S) (parts : List Text)
      → SeatBacked stored (by_parts w reg stores limits q now seed s parts)
  unfolding by_parts allow_request
  by_parts-SeatBacked limits q now seed s [] = error-SeatBacked 404 _ s
  by_parts-SeatBacked limits q now seed s (first ∷ rest) =
      if_both (SeatBacked stored) _ _ _ (error-SeatBacked 404 _ s) (
        if_both (SeatBacked stored) _ _ _
          (allowed-SeatBacked (λ t. look_up w reg stores q _ _ _ now seed t) _ s _
            (λ t. look_up-SeatBacked q _ _ _ now seed t))
          (look_up-SeatBacked q _ _ _ now seed s))

  -- Every request for a room is answered. Over a store that keeps its promise, when it is answered
  -- with a player and a token, the player has a seat in a room of this instance, the token is the player's, and the
  -- store has that room at its version or a later one.
  pub room_by_code-SeatBacked :
      (limits : RequestLimits) (q : HttpRequest) (now seed : ℕ) (s : Server R S)
      → SeatBacked stored (room_by_code w reg stores limits q now seed s)
  unfolding room_by_code
  room_by_code-SeatBacked limits q now seed s = by_parts-SeatBacked limits q now seed s _
