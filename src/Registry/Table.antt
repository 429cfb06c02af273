-- ===== src/Registry/Table.antt =====
-- The registry as a table of live leases: what it promises, without the records whose leases are over.
use punchline.Base.{
  ℕ, ◌+◌, ◌≤◌, ◌≡◌, refl, ◌∙◌, ap, false, List, [], ◌∷◌, Option, none, some, Text, same,
  if◌then◌else◌, arith, Option-cases, inl, inr, text_discrete, ltb,
}
use punchline.Room.Restore.{normalize_room_code}
use punchline.Registry.{
  RoomRecord, find_record, is_live, live_record, reserve_room, lookup_room, heartbeat_room,
  release_room, Call, reserve, heartbeat, release, lookup, handle,
}
use punchline.Registry.Index.{IsIndex, find_record-delete_record, handle-IsIndex}
use punchline.Registry.Lease.{
  find_record-code, find_record-put_record, find_record-delete_record_ne,
}

-- Who holds a code, and until when.
abbrev pub Leases : Type 0
Leases = Text → Option (Text × ℕ)

-- A lease that is still live at a time.
abbrev pub at_time : ℕ → Text × ℕ → Option (Text × ℕ)
at_time now (owner, until) = if ltb now until then some (owner, until) else none

abbrev pub still : ℕ → Option (Text × ℕ) → Option (Text × ℕ)
still now none = none
still now (some l) = at_time now l

-- The leases that are live at a time.
abbrev pub live_at : ℕ → Leases → Leases
live_at now t code = still now (t code)

abbrev pub write : Text → Option (Text × ℕ) → Leases → Leases
write code l t other = if same code other then l else t other

-- A call on the table of the leases that are live when it is made: only the owner changes a lease.
abbrev granted : ℕ → Text → Text → ℕ → Option (Text × ℕ) → Leases → Leases
granted now code owner ttl none t = write code (at_time now (owner, now + ttl)) t
granted now code owner ttl (some l) t = t

abbrev renewed : ℕ → Text → Text → ℕ → Option (Text × ℕ) → Leases → Leases
renewed now code owner ttl none t = t
renewed now code owner ttl (some (holder, until)) t =
    if same holder owner then write code (at_time now (owner, now + ttl)) t else t

abbrev ended : Text → Text → Option (Text × ℕ) → Leases → Leases
ended code owner none t = t
ended code owner (some (holder, until)) t = if same holder owner then write code none t else t

unfoldable pub lease_call : ℕ → Call → Leases → Leases
lease_call now (reserve code owner ttl) t =
    granted now (normalize_room_code code) owner ttl (t (normalize_room_code code)) t
lease_call now (heartbeat code owner ttl) t =
    renewed now (normalize_room_code code) owner ttl (t (normalize_room_code code)) t
lease_call now (release code owner) t =
    ended (normalize_room_code code) owner (t (normalize_room_code code)) t
lease_call now (lookup code owner) t = t

-- What a record says.
abbrev lease_of : Option RoomRecord → Option (Text × ℕ)
lease_of none = none
lease_of (some e) = some (e.instance_id, e.expires_at)

-- The table of the records at a time.
abbrev pub leases : ℕ → List RoomRecord → Leases
leases now es code = still now (lease_of (find_record code es))

module _ (now : ℕ) (es : List RoomRecord) where
  reserve-leases :
      (code i : Text) (ttl : ℕ) (k : Text)
      → leases now (reserve_room false code i ttl now es).0 k
        ≡ lease_call now (reserve code i ttl) (leases now es) k
  unfolding lease_call reserve_room live_record is_live
  reserve-leases code i ttl k =
      let key = normalize_room_code code in
      let e : RoomRecord = record {
        code = key;
        instance_id = i;
        claimed_at = now;
        heartbeat_at = now;
        expires_at = now + ttl;
        updated_at = now;
      } in
      elim (Option-cases (find_record key es)) [
        | inl f ↦ ground (arith, f, find_record-put_record k e es)
        | inr (g, f) ↦ ground (arith, f, find_record-put_record k e es)
      ]

  heartbeat-leases :
      (code i : Text) (ttl : ℕ) (k : Text)
      → leases now (heartbeat_room false code i ttl now es).0 k
        ≡ lease_call now (heartbeat code i ttl) (leases now es) k
  unfolding lease_call heartbeat_room live_record is_live
  heartbeat-leases code i ttl k =
      let key = normalize_room_code code in
      elim (Option-cases (find_record key es)) [
        | inl f ↦ ground (arith, f)
        | inr (g, f) ↦ ground (
          arith,
          f,
          find_record-code key g es f,
          find_record-put_record k
              (record g { heartbeat_at = now; expires_at = now + ttl; updated_at = now }) es,
        )
      ]

  release-leases :
      (code i : Text) (k : Text)
      → leases now (release_room false code i now es).0 k
        ≡ lease_call now (release code i) (leases now es) k
  unfolding lease_call release_room
  release-leases code i k =
      let key = normalize_room_code code in
      elim (Option-cases (find_record key es)) [
        | inl f ↦ ground (arith, f)
        | inr (g, f) ↦ ground (
          arith,
          f,
          find_record-code key g es f,
          find_record-put_record k
              (record g { heartbeat_at = now; expires_at = now; updated_at = now }) es,
        )
      ]

lookup-leases :
    (now : ℕ) (es : List RoomRecord) (code : Text) (k : Text)
    → IsIndex es
    → leases now (lookup_room false code now es).0.0 k ≡ leases now es k
unfolding lookup_room is_live
lookup-leases now es code k v =
    let key = normalize_room_code code in
    elim (Option-cases (find_record key es)) [
      | inl f ↦ ground (arith, f)
      | inr (g, f) ↦ elim (text_discrete key k) [
        | yes x ↦ ground (arith, f, x, find_record-delete_record key es v)
        | no n ↦ ground (arith, f, n, find_record-delete_record_ne k key es)
      ]
    ]

handle-leases :
    (now : ℕ) (c : Call) (es : List RoomRecord)
    → IsIndex es
    → leases now (handle false now c es) ≡ lease_call now c (leases now es)
unfolding handle lease_call
handle-leases now (reserve code i ttl) es v = λ j k. reserve-leases now es code i ttl k j
handle-leases now (heartbeat code i ttl) es v = λ j k. heartbeat-leases now es code i ttl k j
handle-leases now (release code i) es v = λ j k. release-leases now es code i k j
handle-leases now (lookup code i) es v = λ j k. lookup-leases now es code k v j

later-leases :
    (now later : ℕ) (es : List RoomRecord)
    → now ≤ later
    → leases later es ≡ live_at later (leases now es)
later-leases now later es h = λ j k. at_later k j
  where
    at_later : (k : Text) → leases later es k ≡ live_at later (leases now es) k
    at_later k = elim (Option-cases (find_record k es)) [
      | inl f ↦ ground (arith, f)
      | inr (g, f) ↦ ground (arith, f, h)
    ]

-- Calls at their times, one after the other.
unfoldable pub handle_all : List (ℕ × Call) → List RoomRecord → List RoomRecord
unfolding handle
handle_all [] es = es
handle_all ((now, c) ∷ cs) es = handle_all cs (handle false now c es)

unfoldable pub lease_calls : List (ℕ × Call) → Leases → Leases
unfolding lease_call
lease_calls [] t = t
lease_calls ((now, c) ∷ cs) t = lease_calls cs (lease_call now c (live_at now t))

abbrev pub IsTimely : ℕ → List (ℕ × Call) → Type 0
IsTimely now [] = Unit {0}
IsTimely now ((later, c) ∷ cs) = (now ≤ later) × IsTimely later cs

abbrev pub last_time : ℕ → List (ℕ × Call) → ℕ
last_time now [] = now
last_time now ((later, c) ∷ cs) = last_time later cs

-- The registry is a table of leases that run out: take records with no two under one code, and calls
-- of any instances, each no earlier than the one before. After them the leases that are live are
-- those of the table on which each call is made after the leases that are over have been taken away,
-- whatever stale records the registry still has.
pub handle_all-lease_calls :
    (now : ℕ) (cs : List (ℕ × Call)) (es : List RoomRecord)
    → IsIndex es
    → IsTimely now cs
    → leases (last_time now cs) (handle_all cs es) ≡ lease_calls cs (leases now es)
unfolding handle_all lease_calls
handle_all-lease_calls now [] es v t = refl
handle_all-lease_calls now ((later, c) ∷ cs) es v t =
    handle_all-lease_calls later cs (handle false later c es) (handle-IsIndex later c es v) t.1
    ∙ ap (lease_calls cs)
        (handle-leases later c es v ∙ ap (lease_call later c) (later-leases now later es t.0))
