-- ===== src/Manager.antt =====
-- The rooms of one server instance (backend/internal/realtime/manager.go). The registry and the
-- state store are behind the interfaces that the code gives them; every call of them is counted.
-- A call of the manager reads the clock once, and its context is either done throughout or not.
pub mod Rooms
pub mod Queue
pub mod Calls
pub mod Upkeep
pub mod Step
pub mod Hosting
pub mod History
pub mod Renewal
pub mod Kept
pub mod Newest
pub mod Memory
use punchline.Base.{ℕ, Bool, List, Option, none, some, Text}
use punchline.Cards.Deck.{Deck}
use punchline.Room.Types.{Room, PersistedRoomState, CardEvent}
use punchline.Room.Restore.{RestoreError}
use punchline.Registry.{
  RoomRecord, RegistryError, canceled, room_not_found, room_code_reserved, owned_elsewhere, failed,
}
use punchline.Store.{StateError}

-- `RoomRegistry`, over its own state. The first argument of a method is `ctx.Err() != nil`, the
-- last but one the time.
pub record RoomRegistry (R : Type 0) : Type 0 where
  pub reserve_room : Bool → Text → Text → ℕ → ℕ → R → R × (Option RegistryError)
  pub claim_room : Bool → Text → Text → ℕ → ℕ → R → R × (Option RegistryError)
  pub lookup_room : Bool → Text → ℕ → R → (R × (Option RegistryError)) × (Option RoomRecord)
  pub heartbeat_room : Bool → Text → Text → ℕ → ℕ → R → R × (Option RegistryError)
  pub release_room : Bool → Text → Text → ℕ → R → R × (Option RegistryError)

-- `RoomStateStore`, over its own state.
pub record RoomStateStore (S : Type 0) : Type 0 where
  pub save_room_state : Bool → PersistedRoomState → S → S × (Option StateError)
  pub load_room_state : Bool → Text → S → (Option PersistedRoomState) × (Option StateError)
  pub reset_room_state : Bool → Text → Text → S → S × (Option StateError)
  pub delete_room_state : Bool → Text → Text → S → S × (Option StateError)

abbrev pub room_code_attempts : ℕ
room_code_attempts = 64

pub data ManagerError : Type 0 where
  room_capacity draining no_unique_code code_mismatch state_unavailable : ManagerError
  of_registry : RegistryError → ManagerError
  of_store : StateError → ManagerError
  of_restore : RestoreError → ManagerError

-- The operation and the result under which a call of the registry or of the store is counted.
pub data Operation : Type 0 where
  reserves claims looks_up heartbeats releases saves loads resets deletes : Operation

pub data Result : Type 0 where
  was_ok was_canceled was_not_found was_reserved was_owned_elsewhere was_error : Result

-- `registryResult`, for the errors of the registry and for those of the store. No method gives
-- `ErrRoomStateUnavailable` itself.
unfoldable pub registry_result : Option RegistryError → Result
registry_result none = was_ok
registry_result (some canceled) = was_canceled
registry_result (some room_not_found) = was_not_found
registry_result (some room_code_reserved) = was_reserved
registry_result (some (owned_elsewhere code i)) = was_owned_elsewhere
registry_result (some failed) = was_error

unfoldable pub state_result : Option StateError → Result
state_result none = was_ok
state_result (some StateError.canceled) = was_canceled
state_result (some _) = was_error

-- The `RoomManager` struct. The counted operations are listed, newest first; `closed` lists the
-- rooms whose `Shutdown` was called.
pub record Manager : Type 0 where
  pub deck : Deck
  pub card_telemetry : Option (List CardEvent)
  pub rooms : List (Text × Room)
  pub instance_id : Text
  pub room_lease_ttl : ℕ
  pub room_idle_ttl : ℕ
  pub max_local_rooms : ℕ
  pub is_draining : Bool
  pub operations : List (Operation × Result)
  pub pending_room_states : List (Text × PersistedRoomState)
  pub closed : List Room

-- An instance with its backing services.
pub record Instance (R S : Type 0) : Type 0 where
  pub manager : Manager
  pub registry : R
  pub store : S
