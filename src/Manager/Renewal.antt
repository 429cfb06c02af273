-- ===== src/Manager/Renewal.antt =====
-- HeartbeatLocalRooms (backend/internal/realtime/manager.go) over any registry with leases.
use punchline.Base.{
  ℕ, ◌≡◌, refl, subst, true, false, List, [], ◌∷◌, Option, none, some, Text, arith, ◌⊎◌,
  text_discrete,
}
use punchline.Base.Maps.{find}
use punchline.Base.Keys.{IsMap, find-delete, find-delete_ne, delete-IsMap}
use punchline.Room.Types.{Room}
use punchline.Registry.{RegistryError}
use punchline.Manager.{Manager, Instance, heartbeats, RoomRegistry, RoomStateStore, registry_result}
use punchline.Manager.Rooms.{local_room_codes, revoke_room, clear_pending}
use punchline.Manager.Queue.{count_operation}
use punchline.Manager.Upkeep.{lost_lease, heartbeat_one, heartbeat_all, heartbeat_local_rooms}

-- What a registry promises of the heartbeats of one instance at one time: one that succeeds renews
-- the lease of its code, the others leave it so, and one fails only where the lease is lost.
pub record Renews {R : Type 0} (reg : RoomRegistry R) (instance_id : Text) (ttl now : ℕ)
    (Holds : Text → R → Type 0) : Type 0 where
  pub renews :
      (code : Text) (r : R)
      → (reg.heartbeat_room false code instance_id ttl now r).1 ≡ none
      → Holds code (reg.heartbeat_room false code instance_id ttl now r).0
  pub keeps :
      (code other : Text) (r : R)
      → Holds code r
      → Holds code (reg.heartbeat_room false other instance_id ttl now r).0
  pub answers :
      (code : Text) (r : R)
      → ((reg.heartbeat_room false code instance_id ttl now r).1 ≡ none)
        ⊎ (lost_lease (reg.heartbeat_room false code instance_id ttl now r).1 ≡ true)

find-revoke_room_ne :
    (code other : Text) (m : Manager) (room : Room)
    → find code (revoke_room other m).rooms ≡ some room
    → IsMap m.rooms
    → find code m.rooms ≡ some room
unfolding revoke_room clear_pending
find-revoke_room_ne code other m room h v = elim (text_discrete other code) [
  | yes e ↦ ground (arith, find-delete code m.rooms v)
  | no n ↦ ground (arith, find-delete_ne code other m.rooms n)
]

revoke_room-IsMap : (code : Text) (m : Manager) → IsMap m.rooms → IsMap (revoke_room code m).rooms
unfolding revoke_room clear_pending
revoke_room-IsMap code m v = ground (arith, delete-IsMap code m.rooms v)

find-revoke_room :
    (code : Text) (m : Manager) → IsMap m.rooms → find code (revoke_room code m).rooms ≡ none
unfolding revoke_room clear_pending
find-revoke_room code m v = ground (arith, find-delete code m.rooms v)

revoke_room-instance :
    (code : Text) (m : Manager) → (revoke_room code m).instance_id ≡ m.instance_id
unfolding revoke_room clear_pending
revoke_room-instance code m = ground arith

revoke_room-ttl :
    (code : Text) (m : Manager) → (revoke_room code m).room_lease_ttl ≡ m.room_lease_ttl
unfolding revoke_room clear_pending
revoke_room-ttl code m = ground arith

module _ {R S : Type 0} (reg : RoomRegistry R) (stores : RoomStateStore S) (owner : Text)
    (lease now : ℕ) (Holds : Text → R → Type 0) (law : Renews reg owner lease now Holds) where
  -- An instance of that name and that time to live.
  record IsSame (i : Instance R S) : Type 0 where
    rooms_map : IsMap i.manager.rooms
    instance_id : i.manager.instance_id ≡ owner
    lease_ttl : i.manager.room_lease_ttl ≡ lease

  -- A room that is local under the code is held.
  IsRenewed : Text → Instance R S → Type 0
  IsRenewed code i = (room : Room) → find code i.manager.rooms ≡ some room → Holds code i.registry

  abbrev beat : Text → Instance R S → R × (Option RegistryError)
  beat code i =
      reg.heartbeat_room false code i.manager.instance_id i.manager.room_lease_ttl now i.registry

  heartbeat_one-IsSame :
      (code : Text) (i : Instance R S)
      → IsSame i
      → IsSame (heartbeat_one reg stores false now code i)
  unfolding heartbeat_one count_operation
  heartbeat_one-IsSame code i v =
      let m = count_operation heartbeats (registry_result (beat code i).1) i.manager in
      ground
        (arith, v, revoke_room-IsMap code m, revoke_room-instance code m, revoke_room-ttl code m)

  heartbeat_one-kept :
      (code other : Text) (i : Instance R S)
      → IsSame i
      → IsRenewed code i
      → IsRenewed code (heartbeat_one reg stores false now other i)
  unfolding heartbeat_one count_operation IsRenewed
  heartbeat_one-kept code other i v h room e =
      let m = count_operation heartbeats (registry_result (beat other i).1) i.manager in
      ground (
        arith,
        v,
        e,
        h room,
        find-revoke_room_ne code other m room,
        law.keeps code other i.registry,
      )

  heartbeat_one-IsRenewed :
      (code : Text) (i : Instance R S)
      → IsSame i
      → IsRenewed code (heartbeat_one reg stores false now code i)
  unfolding heartbeat_one count_operation IsRenewed
  heartbeat_one-IsRenewed code i v room e =
      let m = count_operation heartbeats (registry_result (beat code i).1) i.manager in
      ground (
        arith,
        v,
        e,
        find-revoke_room code m,
        law.renews code i.registry,
        law.answers code i.registry,
      )

  heartbeat_one-find :
      (code : Text) (room : Room) (other : Text) (i : Instance R S)
      → IsSame i
      → find code (heartbeat_one reg stores false now other i).manager.rooms ≡ some room
      → find code i.manager.rooms ≡ some room
  unfolding heartbeat_one count_operation
  heartbeat_one-find code room other i v e =
      let m = count_operation heartbeats (registry_result (beat other i).1) i.manager in
      ground (arith, v, e, find-revoke_room_ne code other m room)

  heartbeat_all-IsRenewed :
      (code : Text) (cs : List Text) (i : Instance R S)
      → IsSame i
      → IsRenewed code i
      → IsRenewed code (heartbeat_all reg stores false now cs i)
  unfolding heartbeat_all
  heartbeat_all-IsRenewed code [] i v h = h
  heartbeat_all-IsRenewed code (c ∷ cs) i v h =
      heartbeat_all-IsRenewed code cs _ (heartbeat_one-IsSame c i v)
        (heartbeat_one-kept code c i v h)

  -- Every code of the list is renewed, or was not there.
  heartbeat_codes-IsRenewed :
      (code : Text) (room : Room) (es : List (Text × Room)) (i : Instance R S)
      → IsSame i
      → find code es ≡ some room
      → IsRenewed code (heartbeat_all reg stores false now (local_room_codes es) i)
  unfolding heartbeat_all local_room_codes find
  heartbeat_codes-IsRenewed code room [] i v f = cc
  heartbeat_codes-IsRenewed code room ((k, r) ∷ es) i v f =
      let j = heartbeat_one reg stores false now k i in
      elim (text_discrete k code) [
        | yes e ↦
            heartbeat_all-IsRenewed code (local_room_codes es) j (heartbeat_one-IsSame k i v)
              (subst (λ c. IsRenewed c j) e (heartbeat_one-IsRenewed k i v))
        | no n ↦
            heartbeat_codes-IsRenewed code room es j (heartbeat_one-IsSame k i v)
              (ground (arith, f, n))
      ]

  heartbeat_all-find :
      (code : Text) (room : Room) (cs : List Text) (i : Instance R S)
      → IsSame i
      → find code (heartbeat_all reg stores false now cs i).manager.rooms ≡ some room
      → find code i.manager.rooms ≡ some room
  unfolding heartbeat_all
  heartbeat_all-find code room [] i v e = e
  heartbeat_all-find code room (c ∷ cs) i v e = heartbeat_one-find code room c i v (
      heartbeat_all-find code room cs (heartbeat_one reg stores false now c i)
        (heartbeat_one-IsSame c i v) e)

-- Over a registry that keeps its promise, after a heartbeat every room that an instance still has is
-- one that it had and whose lease it holds as renewed now: the rooms whose leases were lost are gone.
pub heartbeat_local_rooms-renewed :
    {R S : Type 0} (reg : RoomRegistry R) (stores : RoomStateStore S) (now : ℕ)
    (Holds : Text → R → Type 0) (i : Instance R S)
    → Renews reg i.manager.instance_id i.manager.room_lease_ttl now Holds
    → IsMap i.manager.rooms
    → (code : Text) (room : Room)
    → find code (heartbeat_local_rooms reg stores false now i).manager.rooms ≡ some room
    → (find code i.manager.rooms ≡ some room)
      × Holds code (heartbeat_local_rooms reg stores false now i).registry
unfolding heartbeat_local_rooms IsRenewed
heartbeat_local_rooms-renewed reg stores now Holds i law v code room e =
    let id = i.manager.instance_id in
    let lease = i.manager.room_lease_ttl in
    let start : IsSame reg stores id lease now Holds law i = record {
      rooms_map = v;
      instance_id = refl;
      lease_ttl = refl;
    } in
    let had =
      heartbeat_all-find reg stores id lease now Holds law code room
        (local_room_codes i.manager.rooms) i start e in
    (
      had,
      heartbeat_codes-IsRenewed reg stores id lease now Holds law code room i.manager.rooms i start
          had room e,
    )
