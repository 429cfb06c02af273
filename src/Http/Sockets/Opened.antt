-- ===== src/Http/Sockets/Opened.antt =====
-- Whose connection a room takes.
use punchline.Base.{
  ℕ, ◌≡◌, ◌≢◌, refl, subst, Bool, true, false, [], Option, none, some, Text, arith, Option-cases,
  Bool-cases, inl, inr, if_both,
}
use punchline.Room.World.{World}
use punchline.Room.Types.{Player, Room, RoomError}
use punchline.Room.Roster.{find_player, put_player}
use punchline.Room.Ids.{find_player-id}
use punchline.Room.Persist.{touch}
use punchline.Room.Join.{attach, valid_guest_token}
use punchline.Manager.{RoomRegistry, RoomStateStore}
use punchline.Manager.Calls.{Outcome, found, no_room}
use punchline.Http.Requests.{
  HttpRequest, Response, Server, RequestLimits, unless_refused, room_at, heard,
}
use punchline.Manager.Rooms.{has_local_room}
use punchline.Base.Maps.{find}
use punchline.Http.Answered.{IsHosted, get_room-IsHosted}
use punchline.Http.Stored.{room_at-put_back, find_player-put_player}
use punchline.Http.Sockets.{
  Opening, replied, rejected, opened, lost, attached, attach_to, open_socket, ws_open,
}

-- The seat of the player with the token, who is connected.
pub record HasToken (player_id token : Text) (room : Room) : Type 0 where
  pub player : Player
  pub seated : find_player player_id room.players ≡ some player
  pub token_is : player.guest_token ≡ token
  pub not_empty : token ≢ []
  pub is_connected : player.connected ≡ true

attach-HasToken :
    (id token : Text) (conn : ℕ) (r : Room)
    → (attach id token conn r).1 ≡ none
    → HasToken id token (attach id token conn r).0
unfolding attach valid_guest_token touch
attach-HasToken id token conn r e = elim (Option-cases (find_player id r.players)) [
  | inl f ↦ ground (arith, f, e)
  | inr (p, f) ↦
      let q : Player = record p { connected = true } in
      let i = find_player-id id p r.players f in
      elim (Bool-cases (valid_guest_token p.guest_token token)) [
        | inr u ↦ ground (arith, f, u, e)
        | inl t ↦
            rw (f, t, attach)
              (record {
                player = q;
                seated =
                    subst (λ k. find_player k (put_player q r.players) ≡ some q) i
                      (find_player-put_player q r.players);
                token_is = ground (arith, t);
                not_empty = ground (arith, t);
                is_connected = refl;
              })
      ]
]

-- No seat of the player has the token, or there is no token.
abbrev pub LacksToken : Text → Text → Room → Type 0
LacksToken player_id token room =
    (p : Player) → find_player player_id room.players ≡ some p → token ≢ [] → p.guest_token ≢ token

attach-LacksToken :
    (id token : Text) (conn : ℕ) (r : Room) (x : RoomError)
    → (attach id token conn r).1 ≡ some x
    → LacksToken id token (attach id token conn r).0
unfolding attach valid_guest_token
attach-LacksToken id token conn r x e = elim (Option-cases (find_player id r.players)) [
  | inl f ↦ rw (f, attach) (λ p g. ground (arith, f, g))
  | inr (q, f) ↦ elim (Bool-cases (valid_guest_token q.guest_token token)) [
    | inl t ↦ ground (arith, f, t, e)
    | inr u ↦ rw (f, u, attach) (λ p g n i. ground (arith, f, g, n, i, u))
  ]
]

module _ {R S : Type 0} where
  -- A connection is to a room of the map, with the token of a seat; a room of the map that rejects one
  -- has no such seat.
  pub IsTokened : HttpRequest → Server R S × Opening → Type 0
  IsTokened q (s, replied r) = Unit {0}
  IsTokened q (s, rejected e) =
      (code : Text) × (room : Room) × (room_at code s ≡ some room)
      × LacksToken q.player_id q.token room
  IsTokened q (s, lost) = ⊥
  IsTokened q (s, opened code) =
      (room : Room) × (room_at code s ≡ some room) × HasToken q.player_id q.token room

  answer-IsTokened : (q : HttpRequest) (s : Server R S) (r : Response) → IsTokened q (s, replied r)
  unfolding IsTokened
  answer-IsTokened q s r = tt

module _ {R S : Type 0} (w : World) (reg : RoomRegistry R) (stores : RoomStateStore S) where
  attached-IsTokened :
      (q : HttpRequest) (code : Text) (old : Room) (s : Server R S) (o : Room × (Option RoomError))
      → room_at code s ≡ some old
      → (o.1 ≡ none → HasToken q.player_id q.token (o.0))
      → ((x : RoomError) → o.1 ≡ some x → LacksToken q.player_id q.token (o.0))
      → IsTokened q (attached w reg stores code s o)
  unfolding IsTokened attached heard room_at
  attached-IsTokened q code old s (room, some e) f h k =
      (code, heard room, room_at-put_back code old room s f, k e refl)
  attached-IsTokened q code old s (room, none) f h k =
      let t = h refl in
      (
        heard room,
        room_at-put_back code old room s f,
        record {
          player = t.player;
          seated = t.seated;
          token_is = t.token_is;
          not_empty = t.not_empty;
          is_connected = t.is_connected;
        },
      )

  attach_to-IsTokened :
      (q : HttpRequest) (conn now : ℕ) (s : Server R S) (o : Outcome)
      → IsHosted (s.instance_of, o)
      → IsTokened q (attach_to w reg stores q conn now s o)
  unfolding IsTokened attach_to room_at has_local_room
  attach_to-IsTokened q conn now s (no_room x) h = tt
  attach_to-IsTokened q conn now s (found code) h =
      elim (Option-cases (find code s.instance_of.manager.rooms)) [
        | inl e ↦ ground (arith, e, h)
        | inr (room, e) ↦
            let o = attach q.player_id q.token conn (record room { now = now }) in
            rw (e, attach_to)
              (attached-IsTokened q code room s o e
                (attach-HasToken q.player_id q.token conn (record room { now = now }))
                (attach-LacksToken q.player_id q.token conn (record room { now = now })))
      ]

  open_socket-IsTokened :
      (q : HttpRequest) (conn now seed : ℕ) (s : Server R S)
      → IsTokened q (open_socket w reg stores q conn now seed s)
  unfolding open_socket
  open_socket-IsTokened q conn now seed s = if_both (IsTokened q) _ _ _ (answer-IsTokened q s _) (
      attach_to-IsTokened q conn now _ _
        (get_room-IsHosted w reg stores q.ctx_err _ now seed s.instance_of))

  allowed-IsTokened :
      (q : HttpRequest) (next : Server R S → Server R S × Opening)
      (o : Server R S × (Option Response))
      → ((t : Server R S) → IsTokened q (next t))
      → IsTokened q (unless_refused replied next o)
  unfolding unless_refused IsTokened
  allowed-IsTokened q next (s, none) h = h s
  allowed-IsTokened q next (s, some r) h = tt

  -- A room takes the connection of nobody but a player who has a seat in it and who gave the token of
  -- that seat, which is not empty; it is a room of this instance, and the player is then connected.
  -- A request that is rejected on the socket, after the upgrade, gave no token of a seat that the
  -- player has in that room. A request whose origin is not allowed leaves the server as it was.
  pub ws_open-IsTokened :
      (limits : RequestLimits) (is_allowed : Bool) (q : HttpRequest) (conn now seed : ℕ)
      (s : Server R S)
      → IsTokened q (ws_open w reg stores limits is_allowed q conn now seed s)
        × ((ws_open w reg stores limits false q conn now seed s).0 ≡ s)
  unfolding ws_open
  ws_open-IsTokened limits is_allowed q conn now seed s = (
    if_both (IsTokened q) _ _ _ (answer-IsTokened q s _) (
        allowed-IsTokened q (open_socket w reg stores q conn now seed) _
          (open_socket-IsTokened q conn now seed)),
    refl,
  )
