-- ===== src/Manager/Rooms.antt =====
-- backend/internal/realtime/manager.go: what the manager does to its map of rooms under its lock.
use punchline.Base.{
  ℕ, zero, suc, ◌+◌, not, Bool, true, false, List, [], ◌∷◌, ◌++◌, Option, none, some, if◌then◌else◌,
  leb, length, get_elem?, Text, codes, ◌==◌,
}
use punchline.Base.Maps.{find, put, delete}
use punchline.Cards.Deck.{Deck, PromptCard, AnswerCard, playable}
use punchline.Room.World.{World}
use punchline.Room.Types.{Room}
use punchline.Room.Join.{new_room}
use punchline.Room.Timers.{shutdown, evictable}
use punchline.Manager.{Manager, ManagerError, room_capacity, draining}

unfoldable pub has_local_room : Text → Manager → Bool
has_local_room code m = elim (find code m.rooms) [ none ↦ false | some _ ↦ true ]

-- `canAcceptNewRoom`.
unfoldable pub can_accept_new_room : Manager → Option ManagerError
can_accept_new_room m =
    if m.is_draining
    then some draining
    else if leb m.max_local_rooms (length m.rooms)
    then some room_capacity
    else none

-- The room with its observer and its recorder, as it goes into the map.
unfoldable pub attended : Manager → Room → Room
attended m room = record room { telemetry = m.card_telemetry; state_observer = some [] }

-- What the locked part of `CreateRoom` ends with.
pub data Placed : Type 0 where
  placed : Room → Placed
  taken : Placed
  refused : ManagerError → Placed

-- The locked part of `CreateRoom`. `seed` numbers the draws of the room.
unfoldable pub place_new : World → Text → ℕ → ℕ → Manager → Manager × Placed
unfolding can_accept_new_room has_local_room attended
place_new w code now seed m = elim (can_accept_new_room m) [
  | some e ↦ (m, refused e)
  | none ↦
      if has_local_room code m
      then (m, taken)
      else (let room : Room = attended m (new_room w code m.deck now seed) in
          (record m { rooms = put code room m.rooms }, placed room))
]

-- The locked part of `installRestoredRoom`: the room of the map, if there is one, or the new one.
unfoldable pub place_restored : Text → Room → Manager → Manager × Placed
unfolding attended
place_restored code room m = elim (find code m.rooms) [
  | some existing ↦ (m, taken)
  | none ↦
      if m.is_draining
      then (m, refused draining)
      else if leb m.max_local_rooms (length m.rooms)
      then (m, refused room_capacity)
      else (record m { rooms = put code (attended m room) m.rooms }, placed (attended m room))
]

-- The write of a room that is there, through its pointer.
unfoldable pub update_room : Text → Room → Manager → Manager
update_room code room m = elim (find code m.rooms) [
  | none ↦ m
  | some _ ↦ record m { rooms = put code room m.rooms }
]

-- `clearPendingRoomState`.
unfoldable pub clear_pending : Text → Manager → Manager
clear_pending code m = record m { pending_room_states = delete code m.pending_room_states }

-- `removeRoom`, where the room of the map is the expected one.
unfoldable pub remove_room : Text → Manager → Manager
unfolding clear_pending
remove_room code m = clear_pending code (record m { rooms = delete code m.rooms })

-- `revokeRoom`.
unfoldable pub revoke_room : Text → Manager → Manager
unfolding clear_pending shutdown
revoke_room code m = elim (find code m.rooms) [
  | none ↦ clear_pending code m
  | some room ↦
      clear_pending code
        (record m { rooms = delete code m.rooms; closed = shutdown room ∷ m.closed })
]

-- The loop of `EvictIdleRooms` over the rooms: those that stay and those that go.
unfoldable pub split_idle : ℕ → List (Text × Room) → List (Text × Room) × List (Text × Room)
unfolding evictable
split_idle cutoff [] = ([], [])
split_idle cutoff ((code, room) ∷ rest) =
    let (stay, go) = split_idle cutoff rest in
    if evictable cutoff room then (stay, (code, room) ∷ go) else ((code, room) ∷ stay, go)

-- `LocalRoomCodes`.
unfoldable pub local_room_codes : List (Text × Room) → List Text
local_room_codes [] = []
local_room_codes ((code, room) ∷ rest) = code ∷ local_room_codes rest

-- `StartDraining`.
unfoldable pub start_draining : Manager → Manager
start_draining m = record m { is_draining = true }

-- What `Fingerprint` (backend/internal/cards/deck.go) writes to the hash, rune by rune.
unfoldable pub prompts_written : List PromptCard → Text
prompts_written [] = []
prompts_written (p ∷ ps) =
    (codes "p" ++ 0 ∷ p.id ++ 0 ∷ p.text ++ 0 ∷ p.tier ++ 0 ∷ []) ++ prompts_written ps

unfoldable pub answers_written : List AnswerCard → Text
answers_written [] = []
answers_written (a ∷ rest) =
    (codes "a" ++ 0 ∷ a.id ++ 0 ∷ a.text ++ 0 ∷ a.tier ++ 0 ∷ []) ++ answers_written rest

-- `SetDeck`, over the hash `fnv64a` of the standard library.
module _ (fnv64a : Text → ℕ) where
  unfoldable pub fingerprint : Deck → ℕ
  unfolding prompts_written answers_written
  fingerprint d = fnv64a (prompts_written d.prompts ++ answers_written d.answers)

  unfoldable pub set_deck : Deck → Manager → Manager × Bool
  unfolding fingerprint playable
  set_deck d m =
      if not (playable d)
      then (m, false)
      else if fingerprint m.deck == fingerprint d
      then (m, false)
      else (record m { deck = d }, true)

-- The alphabet of `randomCode`, without I, O, 0 and 1.
abbrev pub code_alphabet : Text
code_alphabet = codes "ABCDEFGHJKLMNPQRSTUVWXYZ23456789"

-- `out[i] = alphabet[x.Int64()]`; the draw is below 32.
unfoldable pub letter : Option ℕ → ℕ
letter none = 0
letter (some r) = r

-- `randomCode(n)`.
unfoldable pub random_code : World → ℕ → ℕ → Text
unfolding letter
random_code w seed zero = []
random_code w seed (suc n) =
    letter (get_elem? code_alphabet (w.random_below seed 32)) ∷ random_code w (seed + 1) n
