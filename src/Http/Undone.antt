-- ===== src/Http/Undone.antt =====
-- What a join that fails leaves behind.
use punchline.Base.{
  ℕ, ◌≡◌, refl, sym, ap, subst, ◌∙◌, Bool, Option, none, some, Text, arith, false, [], ◌∷◌, ◌++◌,
  List,
}
use punchline.Room.World.{World, new_id}
use punchline.Room.Types.{lobby, Player, Room, RoomError}
use punchline.Room.Roster.{find_player, put_player, delete_player, remove_id}
use punchline.Room.Ids.{ids, Fresh}
use punchline.Room.Seats.{IsSeated, player_id}
use punchline.Room.Persist.{touch}
use punchline.Room.Join.{try_join, add_player, seat, new_player, undo_join, unseat, is_lobby}
use punchline.Store.{StateError}
use punchline.Manager.{RoomRegistry, RoomStateStore}
use punchline.Manager.Queue.{save_state, count_operation}
use punchline.Http.Requests.{
  NameBody, named, no_body, bad_body, Body, of_player, Response, Server, room_at, put_back, heard,
  write_player, write_error,
}
use punchline.Http.Stored.{room_at-put_back, find_player-put_player}
use punchline.Http.Rooms.{join_at, persist_at, join_saved, joined, join_room, refuse_join}

delete_player-put_player :
    (p : Player) (ps : List Player)
    → Fresh p.id (ids ps)
    → delete_player p.id (put_player p ps) ≡ ps
unfolding delete_player put_player
delete_player-put_player p [] f = ground arith
delete_player-put_player p (q ∷ ps) f = ground (arith, f.0, delete_player-put_player p ps f.1)

remove_id-append : (id : Text) (js : List Text) → Fresh id js → remove_id id (js ++ id ∷ []) ≡ js
unfolding remove_id
remove_id-append id [] f = ground arith
remove_id-append id (j ∷ js) f = ground (arith, f.0, remove_id-append id js f.1)

-- The same players, in the same order.
pub record SameSeats (r s : Room) : Type 0 where
  pub players : s.players ≡ r.players
  pub order : s.order ≡ r.order

-- The room as it was but for its clock, or with the player seated.
pub record IsSeating (p : Player) (r s : Room) : Type 0 where
  pub players : s.players ≡ put_player p r.players
  pub order : s.order ≡ r.order ++ p.id ∷ []
  pub phase : s.phase ≡ r.phase

undo_join-SameSeats :
    (p : Player) (r s : Room)
    → r.phase ≡ lobby
    → p.connected ≡ false
    → Fresh p.id (ids r.players)
    → Fresh p.id r.order
    → IsSeating p r s
    → SameSeats r (undo_join p.id s)
unfolding undo_join unseat is_lobby touch
undo_join-SameSeats p r s l c f g h =
    let there : find_player p.id s.players ≡ some p =
      ap (find_player p.id) h.players ∙ find_player-put_player p r.players in
    let alone : delete_player p.id s.players ≡ r.players =
      ap (delete_player p.id) h.players ∙ delete_player-put_player p r.players f in
    let left : remove_id p.id s.order ≡ r.order =
      ap (remove_id p.id) h.order ∙ remove_id-append p.id r.order g in
    ground (arith, there, alone, left, l, c, h.phase)

heard-SameSeats : {r s : Room} → SameSeats r s → SameSeats r (heard s)
unfolding heard
heard-SameSeats h = record { players = h.players; order = h.order }

module _ {R S : Type 0} where
  -- The room at a code has the seats of `r`.
  pub record HasSeats (code : Text) (r : Room) (s : Server R S) : Type 0 where
    pub room : Room
    pub there : room_at code s ≡ some room
    pub same : SameSeats r room

  -- What follows an answer without a player.
  abbrev pub AfterBody : Text → Room → Server R S → Body → Type 0
  AfterBody code r s (of_player p token snapshot) = Unit {0}
  AfterBody code r s _ = HasSeats code r s

  -- An answer with a player, or the seats of `r`.
  pub IsUndone : Text → Room → Server R S × (Option Response) → Type 0
  IsUndone code r (s, none) = HasSeats code r s
  IsUndone code r (s, some q) = AfterBody code r s q.body

  error-IsUndone :
      (code : Text) (r room : Room) (status : ℕ) (text : Text) (s : Server R S)
      → room_at code s ≡ some room
      → SameSeats r room
      → IsUndone code r (s, some (write_error status text))
  unfolding IsUndone write_error
  error-IsUndone code r room status text s f h = record { room = room; there = f; same = h }

module _ {R S : Type 0} (w : World) (reg : RoomRegistry R) (stores : RoomStateStore S) where
  persist_at-room_at :
      (b : Bool) (code : Text) (room : Room) (s : Server R S)
      → room_at code (persist_at w reg stores b room s).0 ≡ room_at code s
  unfolding persist_at room_at save_state count_operation
  persist_at-room_at b code room s = refl

  join_saved-IsUndone :
      (code : Text) (r room : Room) (p : Player) (o : Server R S × (Option StateError))
      → room_at code o.0 ≡ some room
      → SameSeats r (undo_join p.id room)
      → IsUndone code r (join_saved w reg stores code room p o)
  unfolding IsUndone join_saved write_player
  join_saved-IsUndone code r room p (s, none) f h = tt
  join_saved-IsUndone code r room p (s, some x) f h =
      error-IsUndone code r (heard (undo_join p.id room)) 503 _
        (put_back code (undo_join p.id room) s)
        (room_at-put_back code room (undo_join p.id room) s f) (heard-SameSeats h)

  -- What a join does to the seats: nothing, or one more.
  Seats : Room → Room × ((Option RoomError) × Player) → Type 0
  Seats r (room, (some e, p)) = SameSeats r room
  Seats r (room, (none, p)) = IsSeating p r room

  heard-Seats :
      (r room : Room) (o : (Option RoomError) × Player)
      → Seats r (room, o)
      → Seats r (heard room, o)
  unfolding Seats heard
  heard-Seats r room (some e, p) h = record { players = h.players; order = h.order }
  heard-Seats r room (none, p) h = record { players = h.players; order = h.order; phase = h.phase }

  join_at-Seats : (name : Text) (now : ℕ) (r : Room) → Seats r (join_at w name now r)
  unfolding Seats join_at try_join add_player seat touch
  join_at-Seats name now r = ground arith

  joined-IsUndone :
      (b : Bool) (code : Text) (r : Room) (s : Server R S)
      (o : Room × ((Option RoomError) × Player))
      → room_at code s ≡ some (o.0)
      → Seats r o
      → (IsSeating (o.1.1) r (o.0) → SameSeats r (undo_join (o.1.1).id (o.0)))
      → IsUndone code r (joined w reg stores b code s o)
  unfolding joined Seats
  joined-IsUndone b code r s (room, (some e, p)) f h g =
      let (status, text) = refuse_join e in error-IsUndone code r room status text s f h
  joined-IsUndone b code r s (room, (none, p)) f h g =
      join_saved-IsUndone code r room p (persist_at w reg stores b room s)
        (persist_at-room_at b code room s ∙ f) (g h)

  new_player-id :
      (name : Text) (r : Room) → (new_player w name false r.piles).0.id ≡ player_id w r.seed
  unfolding new_player
  new_player-id name r = refl

  new_player-away : (name : Text) (r : Room) → (new_player w name false r.piles).0.connected ≡ false
  unfolding new_player
  new_player-away name r = refl

  join_name-IsUndone :
      (b : Bool) (name code : Text) (now : ℕ) (room : Room) (s : Server R S)
      → room_at code s ≡ some room
      → room.phase ≡ lobby
      → IsSeated w room
      → IsUndone code room (join_room w reg stores b (named name) code now room s)
  unfolding join_room join_at heard new_player new_id
  join_name-IsUndone b name code now room s f l v =
      let (r, o) = join_at w name now room in
      let p = o.1 in
      let fresh = v.unused room.seed (omega arith) in
      joined-IsUndone b code room (put_back code r s) (heard r, o)
        (room_at-put_back code room r s f) (heard-Seats room r o (join_at-Seats name now room))
        (undo_join-SameSeats p room (heard r) l (new_player-away name room)
          (subst (λ js. Fresh p.id js) (sym v.known) fresh) fresh)

  -- In the lobby of a well-formed room, a request to join that is not answered with a player leaves
  -- the room with the seats that it had: also where the player had a seat already and the room could
  -- not be saved.
  pub join_room-IsUndone :
      (b : Bool) (body : NameBody) (code : Text) (now : ℕ) (room : Room) (s : Server R S)
      → room_at code s ≡ some room
      → room.phase ≡ lobby
      → IsSeated w room
      → IsUndone code room (join_room w reg stores b body code now room s)
  unfolding join_room
  join_room-IsUndone b (named name) code now room s f l v =
      join_name-IsUndone b name code now room s f l v
  join_room-IsUndone b no_body code now room s f l v =
      error-IsUndone code room room 400 _ s f (record { players = refl; order = refl })
  join_room-IsUndone b bad_body code now room s f l v =
      error-IsUndone code room room 400 _ s f (record { players = refl; order = refl })
