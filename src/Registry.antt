-- ===== src/Registry.antt =====
-- The room registry that is kept in memory (backend/internal/realtime/registry.go): which instance
-- owns a room code, and until when.
pub mod Lease
pub mod Index
pub mod Table
use punchline.Base.{ℕ, ◌+◌, Bool, List, [], ◌∷◌, Option, none, some, if◌then◌else◌, ltb, Text, same}
use punchline.Room.Restore.{normalize_room_code}

pub record RoomRecord : Type 0 where
  pub code : Text
  pub instance_id : Text
  pub claimed_at : ℕ
  pub heartbeat_at : ℕ
  pub expires_at : ℕ
  pub updated_at : ℕ

pub data RegistryError : Type 0 where
  canceled room_not_found room_code_reserved failed : RegistryError
  owned_elsewhere : (code instance_id : Text) → RegistryError

-- `r.rooms[code]`.
unfoldable pub find_record : Text → List RoomRecord → Option RoomRecord
find_record code [] = none
find_record code (e ∷ es) = if same e.code code then some e else find_record code es

-- `r.rooms[record.Code] = record`.
unfoldable pub put_record : RoomRecord → List RoomRecord → List RoomRecord
put_record e [] = e ∷ []
put_record e (f ∷ es) = if same f.code e.code then e ∷ es else f ∷ put_record e es

unfoldable pub delete_record : Text → List RoomRecord → List RoomRecord
delete_record code [] = []
delete_record code (e ∷ es) = if same e.code code then es else e ∷ delete_record code es

-- `existing.ExpiresAt.After(now)`.
unfoldable pub is_live : ℕ → RoomRecord → Bool
is_live now e = ltb now e.expires_at

unfoldable pub live_record : ℕ → Text → List RoomRecord → Option RoomRecord
unfolding is_live
live_record now code es = elim (find_record code es) [
  | none ↦ none
  | some e ↦ if is_live now e then some e else none
]

-- A method returns the new map and its error. The first argument is `ctx.Err() != nil`.
abbrev pub Reply : Type 0
Reply = List RoomRecord × (Option RegistryError)

-- `ReserveRoom`; `ClaimRoom` is the same call.
unfoldable pub reserve_room : Bool → Text → Text → ℕ → ℕ → List RoomRecord → Reply
reserve_room ctx_err code instance_id ttl now es =
    let key = normalize_room_code code in
    if ctx_err then (es, some canceled) else elim (live_record now key es) [
      | some e ↦ (es, some room_code_reserved)
      | none ↦ (
        put_record
            (record {
              code = key;
              instance_id = instance_id;
              claimed_at = now;
              heartbeat_at = now;
              expires_at = now + ttl;
              updated_at = now;
            })
            es,
        none,
      )
    ]

-- `LookupRoom`: an expired record is deleted.
unfoldable pub lookup_room : Bool → Text → ℕ → List RoomRecord → Reply × (Option RoomRecord)
unfolding is_live
lookup_room ctx_err code now es =
    let key = normalize_room_code code in
    if ctx_err then ((es, some canceled), none) else elim (find_record key es) [
      | none ↦ ((es, some room_not_found), none)
      | some e ↦
          if is_live now e
          then ((es, none), some e)
          else ((delete_record key es, some room_not_found), none)
    ]

unfoldable pub heartbeat_room : Bool → Text → Text → ℕ → ℕ → List RoomRecord → Reply
heartbeat_room ctx_err code instance_id ttl now es =
    let key = normalize_room_code code in
    if ctx_err then (es, some canceled) else elim (live_record now key es) [
      | none ↦ (es, some room_not_found)
      | some e ↦
          if same e.instance_id instance_id
          then (
            put_record (record e { heartbeat_at = now; expires_at = now + ttl; updated_at = now })
                es,
            none,
          )
          else (es, some (owned_elsewhere key e.instance_id))
    ]

-- `ReleaseRoom` does not ask whether the lease is over.
unfoldable pub release_room : Bool → Text → Text → ℕ → List RoomRecord → Reply
release_room ctx_err code instance_id now es =
    let key = normalize_room_code code in
    if ctx_err then (es, some canceled) else elim (find_record key es) [
      | none ↦ (es, some room_not_found)
      | some e ↦
          if same e.instance_id instance_id
          then (
            put_record (record e { heartbeat_at = now; expires_at = now; updated_at = now }) es,
            none,
          )
          else (es, some (owned_elsewhere key e.instance_id))
    ]

-- A call of an instance.
pub data Call : Type 0 where
  reserve heartbeat : (code instance_id : Text) (ttl : ℕ) → Call
  release lookup : (code instance_id : Text) → Call

abbrev pub caller : Call → Text
caller (reserve code instance_id ttl) = instance_id
caller (heartbeat code instance_id ttl) = instance_id
caller (release code instance_id) = instance_id
caller (lookup code instance_id) = instance_id

unfoldable pub handle : Bool → ℕ → Call → List RoomRecord → List RoomRecord
handle ctx_err now (reserve code instance_id ttl) es =
    (reserve_room ctx_err code instance_id ttl now es).0
handle ctx_err now (heartbeat code instance_id ttl) es =
    (heartbeat_room ctx_err code instance_id ttl now es).0
handle ctx_err now (release code instance_id) es = (release_room ctx_err code instance_id now es).0
handle ctx_err now (lookup code instance_id) es = (lookup_room ctx_err code now es).0.0
