-- ===== src/Manager/Calls.antt =====
-- backend/internal/realtime/manager.go: CreateRoom, GetRoom and what they call. The calls of the
-- registry and of the store are outside the manager's lock; each locked part is a function of
-- Manager.Rooms.
use punchline.Base.{
  ℕ, zero, suc, ◌+◌, Bool, true, false, List, [], Option, none, some, if◌then◌else◌, Text, same,
  not,
}
use punchline.Base.Maps.{find}
use punchline.Room.World.{World}
use punchline.Room.Types.{Room, PersistedRoomState}
use punchline.Room.Persist.{persisted_state}
use punchline.Room.Restore.{ok, err, restore_room, normalize_room_code}
use punchline.Room.Step.{Call, step}
use punchline.Registry.{RegistryError, room_not_found, room_code_reserved, owned_elsewhere}
use punchline.Store.{StateError, room_state_not_found}
use punchline.Manager.{
  Manager, Instance, RoomRegistry, RoomStateStore, ManagerError, draining, no_unique_code,
  code_mismatch, state_unavailable, of_registry, of_store, of_restore, Operation, Result, reserves,
  claims, looks_up, releases, loads, resets, registry_result, state_result, room_code_attempts,
}
use punchline.Manager.Rooms.{
  has_local_room, can_accept_new_room, place_new, place_restored, Placed, placed, taken, refused,
  update_room, remove_room, random_code,
}
use punchline.Manager.Queue.{count_operation, save_state, enqueue_all}

-- What a call gives: the code of a room, or an error.
pub data Outcome : Type 0 where
  found : Text → Outcome
  no_room : ManagerError → Outcome

-- The states that a room has given to its observer since they were last taken.
unfoldable pub observed_states : Option (List PersistedRoomState) → List PersistedRoomState
observed_states none = []
observed_states (some log) = log

-- A call of a room of this instance: the room's observer puts its states in the queue.
unfoldable pub act : World → Text → ℕ × Call → Manager → Manager
act w code c m = elim (find code m.rooms) [
  | none ↦ m
  | some room ↦
      let room' = step w c room in
      enqueue_all (observed_states room'.state_observer)
        (update_room code (record room' { state_observer = some [] }) m)
]

module _ (w : World) {R S : Type 0} (reg : RoomRegistry R) (stores : RoomStateStore S) where
  unfoldable pub count : Operation → Result → Instance R S → Instance R S
  count op result i = record i { manager = count_operation op result i.manager }

  -- `releaseRoom`, whose error is only counted.
  unfoldable pub release : Bool → Text → ℕ → Instance R S → Instance R S
  release ctx_err code now i =
      let (r, e) = reg.release_room ctx_err code i.manager.instance_id now i.registry in
      count releases (registry_result e) (record i { registry = r })

  unfoldable pub reserve : Bool → Text → ℕ → Instance R S → Instance R S × (Option RegistryError)
  reserve ctx_err code now i =
      let (r, e) =
        reg.reserve_room ctx_err code i.manager.instance_id i.manager.room_lease_ttl now
          i.registry in
      (count reserves (registry_result e) (record i { registry = r }), e)

  unfoldable pub claim : Bool → Text → ℕ → Instance R S → Instance R S × (Option RegistryError)
  claim ctx_err code now i =
      let (r, e) =
        reg.claim_room ctx_err code i.manager.instance_id i.manager.room_lease_ttl now i.registry in
      (count claims (registry_result e) (record i { registry = r }), e)

  -- `resetRoomState`.
  unfoldable pub reset : Bool → Text → Instance R S → Instance R S × (Option StateError)
  reset ctx_err code i =
      let (s, e) = stores.reset_room_state ctx_err code i.manager.instance_id i.store in
      (count resets (state_result e) (record i { store = s }), e)

  -- `loadRoomState`.
  unfoldable pub load :
      Bool
      → Text
      → Instance R S
      → Instance R S × ((Option PersistedRoomState) × (Option StateError))
  load ctx_err code i =
      let (state, e) = stores.load_room_state ctx_err code i.store in
      (count loads (state_result e) i, (state, e))

  -- `PersistRoom`, and what `CreateRoom` does when it fails.
  unfoldable pub persist_new : Bool → Text → ℕ → Room → Instance R S → Instance R S × Outcome
  persist_new ctx_err code now room i =
      let (j, e) = save_state stores ctx_err (persisted_state room) i in
      elim e [
        | none ↦ (j, found code)
        | some x ↦ (
          release false code now (record j { manager = remove_room code j.manager }),
          no_room (of_store x),
        )
      ]

  -- What follows the locked part of `CreateRoom`; `again` is the next round.
  unfoldable pub after_new :
      Text
      → ℕ
      → Bool
      → (Instance R S → Instance R S × Outcome)
      → Instance R S
      → Manager × Placed
      → Instance R S × Outcome
  after_new code now ctx_err again k (m, refused x) =
      (release false code now (record k { manager = m }), no_room x)
  after_new code now ctx_err again k (m, taken) =
      again (release false code now (record k { manager = m }))
  after_new code now ctx_err again k (m, placed room) =
      persist_new ctx_err code now room (record k { manager = m })

  -- The rounds of `CreateRoom`. Each draws its code from four draws of its own, and the room's draws
  -- come after them.
  unfoldable pub create_attempts : ℕ → Bool → ℕ → ℕ → Instance R S → Instance R S × Outcome
  create_attempts zero ctx_err now seed i = (i, no_room no_unique_code)
  create_attempts (suc n) ctx_err now seed i = elim (can_accept_new_room i.manager) [
    | some e ↦ (i, no_room e)
    | none ↦
        let code = random_code w seed 4 in
        elim (has_local_room code i.manager) [
          | true ↦ create_attempts n ctx_err now (seed + 4) i
          | false ↦
              let (j, e) = reserve ctx_err code now i in
              elim e [
                | some room_code_reserved ↦ create_attempts n ctx_err now (seed + 4) j
                | some x ↦ (j, no_room (of_registry x))
                | none ↦
                    let (k, e') = reset ctx_err code j in
                    elim e' [
                      | some x ↦ (release false code now k, no_room (of_store x))
                      | none ↦
                          after_new code now ctx_err
                            (λ l. create_attempts n ctx_err now (seed + 4) l) k
                            (place_new w code now (seed + 4) k.manager)
                    ]
              ]
        ]
  ]

  unfoldable pub create_room : Bool → ℕ → ℕ → Instance R S → Instance R S × Outcome
  create_room ctx_err now seed i = create_attempts room_code_attempts ctx_err now seed i

  -- What follows the locked part of `installRestoredRoom`: `Resume` on a room that was placed.
  unfoldable pub after_restored :
      Text → ℕ → Instance R S → Manager × Placed → Instance R S × Outcome
  after_restored code now i (m, refused e) = (i, no_room e)
  after_restored code now i (m, taken) = (i, found code)
  after_restored code now i (m, placed room) =
      (record i { manager = act w code (now, Call.resumes) m }, found code)

  unfoldable pub install_room : Text → Room → ℕ → Instance R S → Instance R S × Outcome
  install_room code room now i =
      if not (same room.code code)
      then (i, no_room code_mismatch)
      else after_restored code now i (place_restored code room i.manager)

  -- `installRestoredRoom`.
  unfoldable pub install_restored :
      Text → PersistedRoomState → ℕ → ℕ → Instance R S → Instance R S × Outcome
  install_restored code state now seed i = elim (restore_room w state i.manager.deck now seed) [
    | err e ↦ (i, no_room (of_restore e))
    | ok room ↦ install_room code room now i
  ]

  -- `restoreRoom`.
  unfoldable pub restore_owned : Bool → Text → ℕ → ℕ → Instance R S → Instance R S × Outcome
  restore_owned ctx_err code now seed i =
      let (j, l) = load ctx_err code i in
      let (state, e) = l in
      elim e [
        | some room_state_not_found ↦ (j, no_room state_unavailable)
        | some x ↦ (j, no_room (of_store x))
        | none ↦ elim state [
          | none ↦ (j, no_room state_unavailable)
          | some s ↦ install_restored code s now seed j
        ]
      ]

  -- A room that could not be installed gives its lease back.
  unfoldable pub or_release : Text → ℕ → Instance R S × Outcome → Instance R S × Outcome
  or_release code now (n, no_room x) = (release false code now n, no_room x)
  or_release code now (n, found c) = (n, found c)

  -- The end of `GetRoom`, where the lease of the previous owner is over: the state is loaded, the
  -- code claimed, and the room restored.
  unfoldable pub adopt : Bool → Text → ℕ → ℕ → Instance R S → Instance R S × Outcome
  adopt ctx_err code now seed i =
      let (j, l) = load ctx_err code i in
      elim (l.1) [
        | some room_state_not_found ↦ (j, no_room (of_registry room_not_found))
        | some x ↦ (j, no_room (of_store x))
        | none ↦ elim (l.0) [
          | none ↦ (j, no_room (of_registry room_not_found))
          | some state ↦
              let (k, e) = claim ctx_err code now j in
              elim e [
                | some x ↦ (k, no_room (of_registry x))
                | none ↦
                    let (m, e') = save_state stores ctx_err state k in
                    elim e' [
                      | some x ↦ (release false code now m, no_room (of_store x))
                      | none ↦ or_release code now (install_restored code state now seed m)
                    ]
              ]
        ]
      ]

  -- `GetRoom`.
  unfoldable pub get_room : Bool → Text → ℕ → ℕ → Instance R S → Instance R S × Outcome
  get_room ctx_err text now seed i =
      let code = normalize_room_code text in
      if i.manager.is_draining
      then (i, no_room draining)
      else if has_local_room code i.manager
      then (i, found code)
      else (let looked = reg.lookup_room ctx_err code now i.registry in
          let j =
            count looks_up (registry_result (looked.0.1)) (record i { registry = looked.0.0 }) in
          elim (looked.0.1) [
            | some room_not_found ↦ adopt ctx_err code now seed j
            | some x ↦ (j, no_room (of_registry x))
            | none ↦ elim (looked.1) [
              | none ↦ (j, no_room (of_registry room_not_found))
              | some e ↦
                  if same e.instance_id i.manager.instance_id
                  then restore_owned ctx_err code now seed j
                  else (j, no_room (of_registry (owned_elsewhere code e.instance_id)))
            ]
          ])
