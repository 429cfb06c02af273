-- ===== src/Registry/Lease.antt =====
-- Leases and the calls of other instances.
use punchline.Base.{
  ℕ, ◌+◌, ◌<◌, ◌≡◌, ◌≢◌, refl, Bool, false, List, [], ◌∷◌, none, some, Text, same, if◌then◌else◌,
  arith, Option-cases, inl, inr, text_discrete, subst, sym, ltb,
}
use punchline.Room.Restore.{normalize_room_code}
use punchline.Registry.{
  RoomRecord, find_record, put_record, delete_record, is_live, live_record, reserve_room,
  lookup_room, heartbeat_room, release_room, Call, reserve, heartbeat, release, lookup, caller,
  handle, room_code_reserved,
}

pub find_record-code :
    (code : Text) (e : RoomRecord) (es : List RoomRecord)
    → find_record code es ≡ some e
    → e.code ≡ code
unfolding find_record
find_record-code code e [] h = cc
find_record-code code e (f ∷ es) h = ground (arith, find_record-code code e es)

pub find_record-put_record :
    (code : Text) (e : RoomRecord) (es : List RoomRecord)
    → find_record code (put_record e es)
      ≡ (if same e.code code then some e else find_record code es)
unfolding find_record put_record
find_record-put_record code e [] = refl
find_record-put_record code e (f ∷ es) = ground (arith, find_record-put_record code e es)

pub find_record-delete_record_ne :
    (code other : Text) (es : List RoomRecord)
    → other ≢ code
    → find_record code (delete_record other es) ≡ find_record code es
unfolding find_record delete_record
find_record-delete_record_ne code other [] h = refl
find_record-delete_record_ne code other (f ∷ es) h =
    ground (arith, find_record-delete_record_ne code other es h)

-- A write under another code changes nothing of this one.
find_record-put_record_ne :
    (code : Text) (e f : RoomRecord) (es : List RoomRecord)
    → f.code ≢ code
    → find_record code es ≡ some e
    → find_record code (put_record f es) ≡ some e
find_record-put_record_ne code e f es h k = ground (arith, find_record-put_record code f es)

module _ (ctx_err : Bool) (now : ℕ) (code : Text) (e : RoomRecord) (es : List RoomRecord)
    (held : find_record code es ≡ some e) (live : now < e.expires_at) where
  held_under : (key : Text) → key ≡ code → find_record key es ≡ some e
  held_under key h = subst (λ k. find_record k es ≡ some e) (sym h) held

  reserve_exclusive :
      (key i : Text) (ttl : ℕ) → find_record code (reserve_room ctx_err key i ttl now es).0 ≡ some e
  unfolding reserve_room live_record is_live
  reserve_exclusive key i ttl = elim (text_discrete (normalize_room_code key) code) [
    | yes h ↦ ground (arith, held_under (normalize_room_code key) h)
    | no h ↦ ground (
      arith,
      find_record-put_record_ne code e
          (record {
            code = normalize_room_code key;
            instance_id = i;
            claimed_at = now;
            heartbeat_at = now;
            expires_at = now + ttl;
            updated_at = now;
          })
          es h held,
    )
  ]

  heartbeat_exclusive :
      (key i : Text) (ttl : ℕ)
      → i ≢ e.instance_id
      → find_record code (heartbeat_room ctx_err key i ttl now es).0 ≡ some e
  unfolding heartbeat_room live_record is_live
  heartbeat_exclusive key i ttl other =
      let k = normalize_room_code key in
      elim (text_discrete k code) [
        | yes h ↦ ground (arith, held_under k h)
        | no h ↦ elim (Option-cases (find_record k es)) [
          | inl f ↦ ground arith
          | inr (g, f) ↦ ground (
            arith,
            find_record-code k g es f,
            find_record-put_record_ne code e
                (record g { heartbeat_at = now; expires_at = now + ttl; updated_at = now }) es,
          )
        ]
      ]

  release_exclusive :
      (key i : Text)
      → i ≢ e.instance_id
      → find_record code (release_room ctx_err key i now es).0 ≡ some e
  unfolding release_room
  release_exclusive key i other =
      let k = normalize_room_code key in
      elim (text_discrete k code) [
        | yes h ↦ ground (arith, held_under k h)
        | no h ↦ elim (Option-cases (find_record k es)) [
          | inl f ↦ ground arith
          | inr (g, f) ↦ ground (
            arith,
            find_record-code k g es f,
            find_record-put_record_ne code e
                (record g { heartbeat_at = now; expires_at = now; updated_at = now }) es,
          )
        ]
      ]

  lookup_exclusive : (key : Text) → find_record code (lookup_room ctx_err key now es).0.0 ≡ some e
  unfolding lookup_room
  lookup_exclusive key =
      let k = normalize_room_code key in
      elim (text_discrete k code) [
        | yes h ↦ ground (arith, held_under k h)
        | no h ↦ ground (arith, find_record-delete_record_ne code k es h)
      ]

-- While a lease is live, no call of another instance, on this code or on any other, changes it.
pub lease_exclusive :
    (ctx_err : Bool) (now : ℕ) (c : Call) (code : Text) (e : RoomRecord) (es : List RoomRecord)
    → find_record code es ≡ some e
    → now < e.expires_at
    → caller c ≢ e.instance_id
    → find_record code (handle ctx_err now c es) ≡ some e
unfolding handle
lease_exclusive ctx_err now (reserve key i ttl) code e es h live other =
    reserve_exclusive ctx_err now code e es h live key i ttl
lease_exclusive ctx_err now (heartbeat key i ttl) code e es h live other =
    heartbeat_exclusive ctx_err now code e es h live key i ttl other
lease_exclusive ctx_err now (release key i) code e es h live other =
    release_exclusive ctx_err now code e es h live key i other
lease_exclusive ctx_err now (lookup key i) code e es h live other =
    lookup_exclusive ctx_err now code e es h live key

-- A code that was reserved is its owner's until the time to live has passed, and then anybody's: a
-- second reservation fails before that time and succeeds from then on.
pub reserve-reserve :
    (code i j : Text) (ttl ttl' now later : ℕ) (es : List RoomRecord)
    → (reserve_room false code i ttl now es).1 ≡ none
    → (reserve_room false code j ttl' later (reserve_room false code i ttl now es).0).1
      ≡ (if ltb later (now + ttl) then some room_code_reserved else none)
unfolding reserve_room live_record is_live
reserve-reserve code i j ttl ttl' now later es h = ground (
  arith,
  find_record-put_record (normalize_room_code code)
      (record {
        code = normalize_room_code code;
        instance_id = i;
        claimed_at = now;
        heartbeat_at = now;
        expires_at = now + ttl;
        updated_at = now;
      })
      es,
)
