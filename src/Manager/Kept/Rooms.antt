-- ===== src/Manager/Kept/Rooms.antt =====
-- The locked parts of the manager and the changes that are kept.
use punchline.Base.{
  ℕ, ◌≤◌, ◌≡◌, ◌≢◌, refl, sym, ◌∙◌, List, [], ◌∷◌, none, some, Text, arith, Option-cases,
  Bool-cases, inl, inr, text_discrete, subst,
}
use punchline.Base.Maps.{find, put, delete, find-put}
use punchline.Base.Keys.{IsMap, find-delete, find-delete_ne, find-put_same, some_inj}
use punchline.Room.World.{World}
use punchline.Room.Types.{Room, PersistedRoomState}
use punchline.Room.Join.{new_room}
use punchline.Room.Restore.{normalize_room_code}
use punchline.Room.Timers.{shutdown}
use punchline.Manager.{Manager, Operation, Result}
use punchline.Manager.Rooms.{
  Placed, placed, taken, refused, place_new, place_restored, remove_room, revoke_room,
  clear_pending, attended, can_accept_new_room, has_local_room,
}
use punchline.Manager.Queue.{count_operation, enqueue_all}
use punchline.Manager.Kept.{
  waiting, IsKept, AreKept, backing, waiting-enqueue_all, enqueue_all-rooms,
}

-- Every code.
abbrev pub Any : Text → Type 0
Any code = Unit {0}

-- Every code but one.
abbrev pub But : Text → Text → Type 0
But other code = other ≢ code

module _ {S : Type 0} (stored : Text → S → ℕ) where
  -- Where no room comes and no backing falls, the rooms stay kept.
  pub AreKept-mono :
      (E : Text → Type 0) (m n : Manager) (s t : S)
      → AreKept stored E m s
      → ((code : Text) (room : Room)
          → find code n.rooms ≡ some room
          → (find code m.rooms ≡ some room) × (backing stored code m s ≤ backing stored code n t))
      → AreKept stored E n t
  unfolding AreKept
  AreKept-mono E m n s t v h code room f e =
      let (g, le) = h code room f in
      let k = v code room g e in
      record { normal = k.normal; heard = k.heard; kept = omega (arith, k.kept, le) }

  gone-AreKept :
      (code : Text) (closed : List Room) (m : Manager) (s : S)
      → AreKept stored (But code) m s
      → IsMap m.rooms
      → AreKept stored Any
          (clear_pending code (record m { rooms = delete code m.rooms; closed = closed }))
          s
  unfolding AreKept clear_pending waiting
  gone-AreKept code closed m s v h c room f e = elim (text_discrete code c) [
    | yes x ↦ absurd (ground (arith, f, x, find-delete code m.rooms h))
    | no n ↦
        let k = v c room (ground (arith, f, find-delete_ne c code m.rooms n)) n in
        record {
          normal = k.normal;
          heard = k.heard;
          kept = rw (find-delete_ne c code m.pending_room_states n) k.kept;
        }
  ]

  pub remove_room-AreKept :
      (code : Text) (m : Manager) (s : S)
      → AreKept stored (But code) m s
      → IsMap m.rooms
      → AreKept stored Any (remove_room code m) s
  unfolding remove_room
  remove_room-AreKept code m s v h = gone-AreKept code m.closed m s v h

  but : (code : Text) (m : Manager) (s : S) → AreKept stored Any m s → AreKept stored (But code) m s
  unfolding AreKept
  but code m s v c room f e = v c room f tt

  pub unlisted-AreKept :
      (code : Text) (m : Manager) (s : S)
      → AreKept stored Any m s
      → find code m.rooms ≡ none
      → AreKept stored Any (clear_pending code m) s
  unfolding clear_pending waiting
  unlisted-AreKept code m s v h = AreKept-mono Any m (clear_pending code m) s s v (λ c room f.
      elim (text_discrete code c) [
        | yes x ↦ absurd (ground (arith, f, x, h))
        | no n ↦ (f, ground (arith, find-delete_ne c code m.pending_room_states n))
      ])

  pub revoke_room-AreKept :
      (code : Text) (m : Manager) (s : S)
      → AreKept stored Any m s
      → IsMap m.rooms
      → AreKept stored Any (revoke_room code m) s
  unfolding revoke_room
  revoke_room-AreKept code m s v h = elim (Option-cases (find code m.rooms)) [
    | inl e ↦ rw (e, revoke_room) (unlisted-AreKept code m s v e)
    | inr (r, e) ↦
        rw (e, revoke_room) (gone-AreKept code (shutdown r ∷ m.closed) m s (but code m s v) h)
  ]

  pub enqueue_all-AreKept :
      (E : Text → Type 0) (ss : List PersistedRoomState) (m : Manager) (s : S)
      → AreKept stored E m s
      → AreKept stored E (enqueue_all ss m) s
  enqueue_all-AreKept E ss m s v = AreKept-mono E m (enqueue_all ss m) s s v (λ code room f.
      (rw⁻¹ (enqueue_all-rooms ss m) f, omega (arith, waiting-enqueue_all code ss m)))

  -- A write of one room leaves the others kept.
  pub put-AreKept :
      (code : Text) (room : Room) (m : Manager) (s : S)
      → AreKept stored Any m s
      → AreKept stored (But code) (record m { rooms = put code room m.rooms }) s
  unfolding AreKept waiting
  put-AreKept code room m s v c r f n =
      v c r (ground (arith, f, n, find-put c code room m.rooms)) tt

  -- The others are kept, and so is the one.
  pub others-AreKept :
      (code : Text) (room : Room) (m : Manager) (s : S)
      → AreKept stored (But code) m s
      → find code m.rooms ≡ some room
      → IsKept code room (backing stored code m s)
      → AreKept stored Any m s
  unfolding AreKept
  others-AreKept code room m s v g k c r f e = elim (text_discrete code c) [
    | yes x ↦
        subst (λ j. find j m.rooms ≡ some r → IsKept j r (backing stored j m s)) x
          (λ h. subst (λ q. IsKept code q (backing stored code m s)) (some_inj (sym g ∙ h)) k) f
    | no n ↦ v c r f n
  ]

  -- What the locked part of `CreateRoom` leaves: all is kept, or all but the new room.
  abbrev pub IsPlaced : Text → S → Manager × Placed → Type 0
  IsPlaced code s (m, refused x) = AreKept stored Any m s
  IsPlaced code s (m, taken) = AreKept stored Any m s
  IsPlaced code s (m, placed room) =
      AreKept stored (But code) m s
      × (find code m.rooms ≡ some room)
      × (room.state_observer ≡ some [])
      × (room.code ≡ code)

  pub place_new-IsPlaced :
      (w : World) (code : Text) (now seed : ℕ) (m : Manager) (s : S)
      → AreKept stored Any m s
      → IsPlaced code s (place_new w code now seed m)
  unfolding place_new attended new_room
  place_new-IsPlaced w code now seed m s v =
      let q : Room = attended m (new_room w code m.deck now seed) in
      elim (Option-cases (can_accept_new_room m)) [
        | inr (x, e) ↦ rw (e, place_new) v
        | inl e ↦ elim (Bool-cases (has_local_room code m)) [
          | inl t ↦ rw (e, t, place_new) v
          | inr f ↦
              rw (e, f, place_new)
                (put-AreKept code q m s v, find-put_same code q m.rooms, refl, refl)
        ]
      ]

  pub place_restored-AreKept :
      (code : Text) (room : Room) (m : Manager) (s : S)
      → AreKept stored Any m s
      → normalize_room_code code ≡ code
      → room.state_version ≤ stored code s
      → AreKept stored Any (place_restored code room m).0 s
  unfolding place_restored attended waiting
  place_restored-AreKept code room m s v n k = elim (Option-cases (find code m.rooms)) [
    | inr (x, e) ↦ rw (e, place_restored) v
    | inl e ↦
        let q = attended m room in
        ground (
          arith,
          e,
          v,
          others-AreKept code q (record m { rooms = put code q m.rooms }) s
              (put-AreKept code q m s v) (find-put_same code q m.rooms)
              (record { normal = n; heard = refl; kept = omega (arith, k) }),
        )
  ]

  pub counted-AreKept :
      (E : Text → Type 0) (op : Operation) (x : Result) (m : Manager) (s : S)
      → AreKept stored E m s
      → AreKept stored E (count_operation op x m) s
  unfolding count_operation AreKept waiting
  counted-AreKept E op x m s v = v

  -- An instance with one room.
  pub single-AreKept :
      (code : Text) (room : Room) (m : Manager) (s : S)
      → m.rooms ≡ (code, room) ∷ []
      → IsKept code room (backing stored code m s)
      → AreKept stored Any m s
  unfolding AreKept find
  single-AreKept code room m s e k =
      others-AreKept code room m s (λ c r f n. absurd (ground (arith, e, f, n))) (ground (arith, e))
        k
