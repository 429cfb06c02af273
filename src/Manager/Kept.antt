-- ===== src/Manager/Kept.antt =====
-- The changes of a room between the room, the queue and the store: when they are kept, and what the
-- queue does to them (backend/internal/realtime/manager.go).
mod Codes
pub mod Rooms
mod Acts
pub mod Saves
mod Upkeep
pub mod Calls
mod Finds
pub mod History
use punchline.Base.{
  ℕ, ◌≤◌, ◌≡◌, ◌≢◌, refl, Bool, List, [], ◌∷◌, Option, none, some, Text, arith, Option-cases, inl,
  inr, text_discrete,
}
use Prim.Native.Nat.{max}
use punchline.Base.Maps.{find, find-put}
use punchline.Room.Types.{Room, PersistedRoomState}
use punchline.Room.Restore.{normalize_room_code, at_least_one}
use punchline.Manager.{Manager, RoomStateStore}
use punchline.Manager.Queue.{supersedes, enqueue_room_state, enqueue_all}

abbrev pub revision_or_zero : Option PersistedRoomState → ℕ
revision_or_zero none = 0
revision_or_zero (some s) = s.revision

-- The version of the state that waits for a code.
unfoldable pub waiting : Text → Manager → ℕ
waiting code m = revision_or_zero (find code m.pending_room_states)

-- What a store promises, where `stored` is the version at which a room of a code would come back, 0
-- where there is none: a save that gives no error is stored, no save takes a newer state away, a
-- state that is loaded is there, and a reset or a deletion leaves the other codes alone.
pub record Remembers {S : Type 0} (stores : RoomStateStore S) (stored : Text → S → ℕ) : Type 0 where
  pub saves :
      (b : Bool) (state : PersistedRoomState) (s : S)
      → (stores.save_room_state b state s).1 ≡ none
      → state.revision
        ≤ stored (normalize_room_code state.code) (stores.save_room_state b state s).0
  pub grows :
      (b : Bool) (code : Text) (state : PersistedRoomState) (s : S)
      → stored code s ≤ stored code (stores.save_room_state b state s).0
  pub loads :
      (b : Bool) (code : Text) (state : PersistedRoomState) (s : S)
      → (stores.load_room_state b code s).0 ≡ some state
      → at_least_one state.revision ≤ stored (normalize_room_code code) s
  pub resets :
      (b : Bool) (code other instance_id : Text) (s : S)
      → normalize_room_code other ≢ code
      → stored code s ≤ stored code (stores.reset_room_state b other instance_id s).0
  pub deletes :
      (b : Bool) (code other instance_id : Text) (s : S)
      → normalize_room_code other ≢ code
      → stored code s ≤ stored code (stores.delete_room_state b other instance_id s).0

-- A room whose observer has been heard, of a code in its normal form, at no later a version than one
-- that is backed.
pub record IsKept (code : Text) (room : Room) (backed : ℕ) : Type 0 where
  pub normal : normalize_room_code code ≡ code
  pub heard : room.state_observer ≡ some []
  pub kept : room.state_version ≤ backed

-- The later of the states that wait and that are stored.
abbrev pub backing : {S : Type 0} → (Text → S → ℕ) → Text → Manager → S → ℕ
backing stored code m s = max (waiting code m) (stored code s)

-- The rooms of an instance among those of `E` are kept.
pub AreKept : {S : Type 0} → (Text → S → ℕ) → (Text → Type 0) → Manager → S → Type 0
AreKept stored E m s =
    (code : Text) (room : Room)
    → find code m.rooms ≡ some room
    → E code
    → IsKept code room (backing stored code m s)

pub waiting-enqueue :
    (s : PersistedRoomState) (m : Manager) → s.revision ≤ waiting s.code (enqueue_room_state s m)
unfolding enqueue_room_state supersedes waiting
waiting-enqueue s m = elim (Option-cases (find s.code m.pending_room_states)) [
  | inl e ↦ ground (arith, e, find-put s.code s.code s m.pending_room_states)
  | inr (t, e) ↦ ground (arith, e, find-put s.code s.code s m.pending_room_states)
]

pub waiting-enqueue_grows :
    (code : Text) (s : PersistedRoomState) (m : Manager)
    → waiting code m ≤ waiting code (enqueue_room_state s m)
unfolding enqueue_room_state supersedes waiting
waiting-enqueue_grows code s m = elim (text_discrete s.code code) [
  | yes h ↦ elim (Option-cases (find s.code m.pending_room_states)) [
    | inl e ↦ ground (arith, e, h, find-put code s.code s m.pending_room_states)
    | inr (t, e) ↦ ground (arith, e, h, find-put code s.code s m.pending_room_states)
  ]
  | no n ↦ ground (arith, n, find-put code s.code s m.pending_room_states)
]

pub waiting-enqueue_all :
    (code : Text) (ss : List PersistedRoomState) (m : Manager)
    → waiting code m ≤ waiting code (enqueue_all ss m)
unfolding enqueue_all
waiting-enqueue_all code [] m = omega arith
waiting-enqueue_all code (s ∷ ss) m =
    omega (arith, waiting-enqueue_all code ss m, waiting-enqueue_grows code s (enqueue_all ss m))

enqueue-rooms : (s : PersistedRoomState) (m : Manager) → (enqueue_room_state s m).rooms ≡ m.rooms
unfolding enqueue_room_state
enqueue-rooms s m = ground arith

pub enqueue_all-rooms :
    (ss : List PersistedRoomState) (m : Manager) → (enqueue_all ss m).rooms ≡ m.rooms
unfolding enqueue_all
enqueue_all-rooms [] m = refl
enqueue_all-rooms (s ∷ ss) m =
    ground (arith, enqueue_all-rooms ss m, enqueue-rooms s (enqueue_all ss m))
