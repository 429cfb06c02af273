-- ===== src/Store.antt =====
-- The store of room states that is kept in memory (backend/internal/realtime/state.go,
-- MemoryRoomStateStore). The copies that `clonePersistedRoomState` makes are the states themselves:
-- a value is not shared here.
pub mod Order
use punchline.Base.{Bool, false, List, [], ◌∷◌, Option, none, some, if◌then◌else◌, ltb, Text, same}
use punchline.Base.Maps.{find, put, delete}
use punchline.Room.Types.{PersistedRoomState}
use punchline.Room.Restore.{normalize_room_code}

pub data StateError : Type 0 where
  canceled no_code room_state_not_found failed : StateError

-- `s.states`.
abbrev pub States : Type 0
States = List (Text × PersistedRoomState)

-- Whether the state that is there is newer than the given one.
unfoldable pub is_newer : Option PersistedRoomState → PersistedRoomState → Bool
is_newer none state = false
is_newer (some existing) state = ltb state.revision existing.revision

-- `SaveRoomState`: the new map and the error. The first argument is `ctx.Err() != nil`.
unfoldable pub save_room_state : Bool → PersistedRoomState → States → States × (Option StateError)
unfolding is_newer
save_room_state ctx_err state states =
    let code = normalize_room_code state.code in
    if ctx_err
    then (states, some canceled)
    else if same code []
    then (states, some no_code)
    else if is_newer (find code states) state
    then (states, none)
    else (put code (record state { code = code }) states, none)

-- `LoadRoomState`.
unfoldable pub load_room_state :
    Bool → Text → States → (Option PersistedRoomState) × (Option StateError)
load_room_state ctx_err code states =
    if ctx_err then (none, some canceled) else elim (find (normalize_room_code code) states) [
      | none ↦ (none, some room_state_not_found)
      | some state ↦ (some state, none)
    ]

-- `DeleteRoomState`, which `ResetRoomState` calls.
unfoldable pub delete_room_state : Bool → Text → States → States × (Option StateError)
delete_room_state ctx_err code states =
    if ctx_err then (states, some canceled) else (delete (normalize_room_code code) states, none)

-- Calls of `SaveRoomState` one after the other, as writers of one store make them.
unfoldable pub save_all : List PersistedRoomState → States → States
save_all [] states = states
save_all (s ∷ ss) states = save_all ss (save_room_state false s states).0
