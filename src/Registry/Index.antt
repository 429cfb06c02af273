-- ===== src/Registry/Index.antt =====
-- The codes of the records of the registry.
use punchline.Base.{
  ℕ, ◌+◌, ◌≡◌, refl, false, List, [], ◌∷◌, none, Text, arith, Option-cases, inl, inr, text_discrete,
}
use punchline.Room.Restore.{normalize_room_code}
use punchline.Registry.{
  RoomRecord, find_record, put_record, delete_record, live_record, reserve_room, lookup_room,
  heartbeat_room, release_room, Call, reserve, heartbeat, release, lookup, handle,
}
use punchline.Registry.Lease.{find_record-put_record}

-- No two records have the same code.
unfoldable pub IsIndex : List RoomRecord → Type 0
IsIndex [] = Unit {0}
IsIndex (e ∷ es) = (find_record e.code es ≡ none) × IsIndex es

pub find_record-delete_record :
    (code : Text) (es : List RoomRecord)
    → IsIndex es
    → find_record code (delete_record code es) ≡ none
unfolding find_record delete_record IsIndex
find_record-delete_record code [] v = refl
find_record-delete_record code (e ∷ es) v =
    ground (arith, find_record-delete_record code es v.1, v.0)

put_record-IsIndex :
    (e : RoomRecord) (es : List RoomRecord) → IsIndex es → IsIndex (put_record e es)
unfolding put_record IsIndex find_record
put_record-IsIndex e [] v = (refl, tt)
put_record-IsIndex e (f ∷ es) v = elim (text_discrete f.code e.code) [
  | yes x ↦ ground (arith, x, v.0, v.1)
  | no n ↦ ground (arith, n, v.0, put_record-IsIndex e es v.1, find_record-put_record f.code e es)
]

find_record-delete_none :
    (code other : Text) (es : List RoomRecord)
    → find_record code es ≡ none
    → find_record code (delete_record other es) ≡ none
unfolding find_record delete_record
find_record-delete_none code other [] h = refl
find_record-delete_none code other (e ∷ es) h =
    ground (arith, h, find_record-delete_none code other es)

delete_record-IsIndex :
    (code : Text) (es : List RoomRecord) → IsIndex es → IsIndex (delete_record code es)
unfolding delete_record IsIndex
delete_record-IsIndex code [] v = tt
delete_record-IsIndex code (e ∷ es) v =
    ground (
      arith,
      v.0,
      v.1,
      delete_record-IsIndex code es v.1,
      find_record-delete_none e.code code es v.0,
    )

pub handle-IsIndex :
    (now : ℕ) (c : Call) (es : List RoomRecord) → IsIndex es → IsIndex (handle false now c es)
unfolding handle reserve_room heartbeat_room release_room lookup_room
handle-IsIndex now (reserve code i ttl) es v = ground (
  arith,
  v,
  put_record-IsIndex
      (record {
        code = normalize_room_code code;
        instance_id = i;
        claimed_at = now;
        heartbeat_at = now;
        expires_at = now + ttl;
        updated_at = now;
      })
      es v,
)
handle-IsIndex now (heartbeat code i ttl) es v =
    elim (Option-cases (live_record now (normalize_room_code code) es)) [
      | inl f ↦ ground (arith, f, v)
      | inr (g, f) ↦ ground (
        arith,
        f,
        v,
        put_record-IsIndex
            (record g { heartbeat_at = now; expires_at = now + ttl; updated_at = now }) es v,
      )
    ]
handle-IsIndex now (release code i) es v =
    elim (Option-cases (find_record (normalize_room_code code) es)) [
      | inl f ↦ ground (arith, f, v)
      | inr (g, f) ↦ ground (
        arith,
        f,
        v,
        put_record-IsIndex (record g { heartbeat_at = now; expires_at = now; updated_at = now }) es
            v,
      )
    ]
handle-IsIndex now (lookup code i) es v =
    ground (arith, v, delete_record-IsIndex (normalize_room_code code) es v)
