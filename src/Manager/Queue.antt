-- ===== src/Manager/Queue.antt =====
-- backend/internal/realtime/manager.go: the queue of states that wait to be saved.
use punchline.Base.{List, [], ◌∷◌, Option, none, some, if◌then◌else◌, ltb, Bool, false, true, Text}
use punchline.Base.Maps.{find, put, delete}
use punchline.Room.Types.{PersistedRoomState}
use punchline.Store.{StateError}
use punchline.Manager.{Manager, Instance, RoomStateStore, Operation, Result, saves, state_result}
use punchline.Manager.Rooms.{has_local_room}

-- Whether a state takes the place of the one that waits.
unfoldable pub supersedes : PersistedRoomState → Option PersistedRoomState → Bool
supersedes state none = true
supersedes state (some current) = ltb current.revision state.revision

-- `enqueueRoomState`, without the wake-up of the worker.
unfoldable pub enqueue_room_state : PersistedRoomState → Manager → Manager
unfolding supersedes
enqueue_room_state state m =
    if supersedes state (find state.code m.pending_room_states)
    then record m { pending_room_states = put state.code state m.pending_room_states }
    else m

-- The calls of the observer that a room has made, oldest first.
unfoldable pub enqueue_all : List PersistedRoomState → Manager → Manager
unfolding enqueue_room_state
enqueue_all [] m = m
enqueue_all (s ∷ older) m = enqueue_room_state s (enqueue_all older m)

-- `nextPendingRoomState`: the range over the map may begin with any entry; `code` is its key.
unfoldable pub next_pending : Text → Manager → Manager × (Option PersistedRoomState)
next_pending code m = elim (find code m.pending_room_states) [
  | none ↦ (m, none)
  | some state ↦ (record m { pending_room_states = delete code m.pending_room_states }, some state)
]

-- `recordRegistryOperation`, without the duration.
unfoldable pub count_operation : Operation → Result → Manager → Manager
count_operation op result m = record m { operations = (op, result) ∷ m.operations }

module _ {R S : Type 0} (stores : RoomStateStore S) where
  -- `saveRoomState`.
  unfoldable pub save_state :
      Bool → PersistedRoomState → Instance R S → Instance R S × (Option StateError)
  unfolding count_operation
  save_state ctx_err state i =
      let (store', e) =
        stores.save_room_state ctx_err (record state { instance_id = i.manager.instance_id })
          i.store in
      (record i { store = store'; manager = count_operation saves (state_result e) i.manager }, e)

  -- What follows the save of `runStatePersistence`: a failure puts the state back if the room is
  -- still there.
  unfoldable pub after_save : PersistedRoomState → Instance R S × (Option StateError) → Instance R S
  after_save state (j, none) = j
  after_save state (j, some x) =
      if has_local_room state.code j.manager
      then record j { manager = enqueue_room_state state j.manager }
      else j

  -- One round of `runStatePersistence`, from what it has taken out of the queue.
  unfoldable pub persist_taken : Instance R S → Manager × (Option PersistedRoomState) → Instance R S
  persist_taken i (m, none) = i
  persist_taken i (m, some state) =
      after_save state (save_state false state (record i { manager = m }))

  -- The round that finds the state of `code`.
  unfoldable pub persist_next : Text → Instance R S → Instance R S
  persist_next code i = persist_taken i (next_pending code i.manager)

  -- `flushPendingRoomStates`: `codes` are the keys that the rounds find, as many as the deadline
  -- leaves time for.
  unfoldable pub flush_pending : List Text → Instance R S → Instance R S
  flush_pending [] i = i
  flush_pending (code ∷ rest) i =
      let (m, found) = next_pending code i.manager in
      elim found [
        | none ↦ i
        | some state ↦
            let (j, e) = save_state false state (record i { manager = m }) in
            elim e [
              | none ↦ flush_pending rest j
              | some _ ↦ record j { manager = enqueue_room_state state j.manager }
            ]
      ]
