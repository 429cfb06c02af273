-- ===== src/Manager/Memory.antt =====
-- The registry and the store that are kept in memory, behind the interfaces of the manager:
-- NewMemoryRoomRegistry (backend/internal/realtime/registry.go) and NewMemoryRoomStateStore
-- (backend/internal/realtime/state.go).
use punchline.Base.{
  ℕ, ◌+◌, ◌≡◌, true, false, List, Option, none, some, Text, arith, Option-cases, ◌⊎◌, inl, inr,
}
use punchline.Room.Restore.{normalize_room_code}
use punchline.Registry.{
  RoomRecord, find_record, live_record, is_live, reserve_room, lookup_room, heartbeat_room,
  release_room,
}
use punchline.Registry.Lease.{find_record-code, find_record-put_record}
use punchline.Base.{◌≤◌, ◌≢◌, Bool, text_discrete}
use punchline.Base.Maps.{find, find-put}
use punchline.Base.Keys.{find-delete_ne}
use punchline.Room.Types.{PersistedRoomState}
use punchline.Room.Restore.{at_least_one}
use punchline.Manager.Kept.{Remembers}
use punchline.Store.{States, is_newer, save_room_state, load_room_state, delete_room_state}
use punchline.Manager.{RoomRegistry, RoomStateStore}
use punchline.Manager.Upkeep.{lost_lease}
use punchline.Manager.Renewal.{Renews}

abbrev pub memory_registry : RoomRegistry (List RoomRecord)
memory_registry = record {
  reserve_room = reserve_room;
  claim_room = reserve_room;
  lookup_room = lookup_room;
  heartbeat_room = heartbeat_room;
  release_room = release_room;
}

abbrev pub memory_store : RoomStateStore States
memory_store = record {
  save_room_state = save_room_state;
  load_room_state = load_room_state;
  reset_room_state = λ ctx_err code instance_id states. delete_room_state ctx_err code states;
  delete_room_state = λ ctx_err code instance_id states. delete_room_state ctx_err code states;
}

-- The record is the instance's, until the end.
abbrev pub IsOwned : Text → ℕ → Option RoomRecord → Type 0
IsOwned instance_id end none = ⊥
IsOwned instance_id end (some e) = (e.instance_id ≡ instance_id) × (e.expires_at ≡ end)

abbrev pub OwnedUntil : Text → ℕ → Text → List RoomRecord → Type 0
OwnedUntil instance_id end code es =
    IsOwned instance_id end (find_record (normalize_room_code code) es)

heartbeat-renews :
    (instance_id : Text) (ttl now : ℕ) (code : Text) (es : List RoomRecord)
    → (heartbeat_room false code instance_id ttl now es).1 ≡ none
    → OwnedUntil instance_id (now + ttl) code (heartbeat_room false code instance_id ttl now es).0
unfolding heartbeat_room live_record is_live
heartbeat-renews instance_id ttl now code es h =
    let key = normalize_room_code code in
    elim (Option-cases (find_record key es)) [
      | inl e ↦ ground (arith, e, h)
      | inr (f, e) ↦ ground (
        arith,
        e,
        h,
        find_record-code key f es e,
        find_record-put_record key
            (record f { heartbeat_at = now; expires_at = now + ttl; updated_at = now }) es,
      )
    ]

heartbeat-keeps :
    (instance_id : Text) (ttl now : ℕ) (code other : Text) (es : List RoomRecord)
    → OwnedUntil instance_id (now + ttl) code es
    → OwnedUntil instance_id (now + ttl) code (heartbeat_room false other instance_id ttl now es).0
unfolding heartbeat_room live_record is_live
heartbeat-keeps instance_id ttl now code other es h =
    let key = normalize_room_code other in
    elim (Option-cases (find_record key es)) [
      | inl e ↦ rw (e, heartbeat_room, live_record) h
      | inr (f, e) ↦ ground (
        arith,
        e,
        h,
        find_record-code key f es e,
        find_record-put_record (normalize_room_code code)
            (record f { heartbeat_at = now; expires_at = now + ttl; updated_at = now }) es,
      )
    ]

heartbeat-answers :
    (instance_id : Text) (ttl now : ℕ) (code : Text) (es : List RoomRecord)
    → ((heartbeat_room false code instance_id ttl now es).1 ≡ none)
      ⊎ (lost_lease (heartbeat_room false code instance_id ttl now es).1 ≡ true)
unfolding heartbeat_room live_record lost_lease
heartbeat-answers instance_id ttl now code es =
    elim (Option-cases (find_record (normalize_room_code code) es)) [
      | inl e ↦ ground (arith, e)
      | inr (f, e) ↦ ground (arith, e)
    ]

pub memory-renews :
    (instance_id : Text) (ttl now : ℕ)
    → Renews memory_registry instance_id ttl now (OwnedUntil instance_id (now + ttl))
memory-renews instance_id ttl now = record {
  renews = heartbeat-renews instance_id ttl now;
  keeps = heartbeat-keeps instance_id ttl now;
  answers = heartbeat-answers instance_id ttl now;
}

-- The version at which a room would come back.
abbrev comes_back : Option PersistedRoomState → ℕ
comes_back none = 0
comes_back (some state) = at_least_one state.revision

abbrev pub stored_version : Text → States → ℕ
stored_version code states = comes_back (find code states)

save-stored :
    (b : Bool) (state : PersistedRoomState) (states : States)
    → (save_room_state b state states).1 ≡ none
    → state.revision
      ≤ stored_version (normalize_room_code state.code) (save_room_state b state states).0
unfolding save_room_state is_newer at_least_one
save-stored b state states e =
    let code = normalize_room_code state.code in
    elim (Option-cases (find code states)) [
      | inl f ↦ ground (arith, e, f, find-put code code (record state { code = code }) states)
      | inr (t, f) ↦ ground (arith, e, f, find-put code code (record state { code = code }) states)
    ]

save-grows :
    (b : Bool) (c : Text) (state : PersistedRoomState) (states : States)
    → stored_version c states ≤ stored_version c (save_room_state b state states).0
unfolding save_room_state is_newer at_least_one
save-grows b c state states =
    let code = normalize_room_code state.code in
    let written = find-put c code (record state { code = code }) states in
    elim (text_discrete code c) [
      | no d ↦ ground (arith, written, d)
      | yes x ↦ elim (Option-cases (find code states)) [
        | inl f ↦ ground (arith, f, x, written)
        | inr (t, f) ↦ ground (arith, f, x, written)
      ]
    ]

load-stored :
    (b : Bool) (code : Text) (state : PersistedRoomState) (states : States)
    → (load_room_state b code states).0 ≡ some state
    → at_least_one state.revision ≤ stored_version (normalize_room_code code) states
unfolding load_room_state
load-stored b code state states e = elim (Option-cases (find (normalize_room_code code) states)) [
  | inl f ↦ ground (arith, e, f)
  | inr (t, f) ↦ ground (arith, e, f)
]

delete-stored :
    (b : Bool) (c other : Text) (states : States)
    → normalize_room_code other ≢ c
    → stored_version c states ≤ stored_version c (delete_room_state b other states).0
unfolding delete_room_state
delete-stored b c other states d =
    ground (arith, find-delete_ne c (normalize_room_code other) states d)

pub memory-remembers : Remembers memory_store stored_version
memory-remembers = record {
  saves = save-stored;
  grows = save-grows;
  loads = load-stored;
  resets = λ b c other instance_id states d. delete-stored b c other states d;
  deletes = λ b c other instance_id states d. delete-stored b c other states d;
}
