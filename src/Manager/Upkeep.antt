-- ===== src/Manager/Upkeep.antt =====
-- backend/internal/realtime/manager.go: the heartbeat, the janitor, the shutdown and the statistics.
use punchline.Base.{
  ℕ, ◌+◌, ◌-◌, Bool, true, false, List, [], ◌∷◌, ◌++◌, Option, some, if◌then◌else◌, Text, length,
}
use punchline.Room.Types.{Room}
use punchline.Room.Timers.{shutdown, connected_human_players}
use punchline.Registry.{RegistryError, room_not_found, owned_elsewhere}
use punchline.Manager.{
  Instance, RoomRegistry, RoomStateStore, heartbeats, deletes, releases, registry_result,
  state_result,
}
use punchline.Manager.Rooms.{split_idle, local_room_codes, revoke_room, clear_pending}
use punchline.Manager.Queue.{count_operation, flush_pending}

-- `errors.Is(err, ErrRoomNotLocal) || errors.Is(err, ErrRoomNotFound)`.
unfoldable pub lost_lease : Option RegistryError → Bool
lost_lease (some (owned_elsewhere code i)) = true
lost_lease (some room_not_found) = true
lost_lease _ = false

unfoldable pub shut_all : List (Text × Room) → List Room
unfolding shutdown
shut_all [] = []
shut_all ((code, room) ∷ rest) = shutdown room ∷ shut_all rest

module _ {R S : Type 0} (reg : RoomRegistry R) (stores : RoomStateStore S) where
  -- One round of the loop of `HeartbeatLocalRooms`.
  unfoldable pub heartbeat_one : Bool → ℕ → Text → Instance R S → Instance R S
  heartbeat_one ctx_err now code i =
      let (r, e) =
        reg.heartbeat_room ctx_err code i.manager.instance_id i.manager.room_lease_ttl now
          i.registry in
      let m = count_operation heartbeats (registry_result e) i.manager in
      record i { registry = r; manager = if lost_lease e then revoke_room code m else m }

  unfoldable pub heartbeat_all : Bool → ℕ → List Text → Instance R S → Instance R S
  heartbeat_all ctx_err now [] i = i
  heartbeat_all ctx_err now (code ∷ rest) i =
      heartbeat_all ctx_err now rest (heartbeat_one ctx_err now code i)

  -- `HeartbeatLocalRooms`.
  unfoldable pub heartbeat_local_rooms : Bool → ℕ → Instance R S → Instance R S
  heartbeat_local_rooms ctx_err now i =
      heartbeat_all ctx_err now (local_room_codes i.manager.rooms) i

  -- The second loop of `EvictIdleRooms`: `deleteRoomState` for each room that went.
  unfoldable pub delete_states : List Text → Instance R S → Instance R S
  delete_states [] i = i
  delete_states (code ∷ rest) i =
      let (s, e) = stores.delete_room_state false code i.manager.instance_id i.store in
      delete_states rest (record i {
        store = s;
        manager = count_operation deletes (state_result e) (clear_pending code i.manager);
      })

  -- `EvictIdleRooms`: the number of rooms that went.
  unfoldable pub evict_idle_rooms : ℕ → Instance R S → Instance R S × ℕ
  evict_idle_rooms now i =
      let (stay, go) = split_idle (now - i.manager.room_idle_ttl) i.manager.rooms in
      (
        delete_states (local_room_codes go) (record i {
          manager = record (i.manager) { rooms = stay; closed = shut_all go ++ i.manager.closed };
        }),
        length go,
      )

  -- The last loop of `Shutdown`.
  unfoldable pub release_all : Bool → ℕ → List Text → Instance R S → Instance R S
  release_all ctx_err now [] i = i
  release_all ctx_err now (code ∷ rest) i =
      let (r, e) = reg.release_room ctx_err code i.manager.instance_id now i.registry in
      release_all ctx_err now rest (record i {
        registry = r;
        manager = count_operation releases (registry_result e) (clear_pending code i.manager);
      })

  -- `Shutdown`. `waiting` are the keys that the rounds of the flush find.
  unfoldable pub shutdown_all : Bool → ℕ → List Text → Instance R S → Instance R S
  shutdown_all ctx_err now waiting i =
      let rooms = i.manager.rooms in
      release_all ctx_err now (local_room_codes rooms) (
        flush_pending stores waiting (record i {
          manager = record (i.manager) { rooms = []; closed = shut_all rooms ++ i.manager.closed };
        }))

-- What `Stats` counts of the rooms.
unfoldable pub connected_players : List (Text × Room) → ℕ
unfolding connected_human_players
connected_players [] = 0
connected_players ((code, room) ∷ rest) =
    connected_human_players room.players + connected_players rest
