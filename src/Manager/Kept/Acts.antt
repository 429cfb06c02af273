-- ===== src/Manager/Kept/Acts.antt =====
-- A call of a room and the changes that are kept.
use punchline.Base.{
  ℕ, ◌≤◌, ◌≡◌, refl, sym, ◌∙◌, List, [], ◌∷◌, Option, none, some, Text, arith, Option-cases, inl,
  inr, subst,
}
use punchline.Base.Maps.{find, put}
use punchline.Base.Keys.{find-Each, find-put_same}
use punchline.Room.World.{World}
use punchline.Room.Types.{Room, PersistedRoomState}
use punchline.Room.Restore.{normalize_room_code}
use punchline.Room.Step.{Call, step}
use punchline.Room.Moves.{IsTold}
use punchline.Room.Moves.Handles.{step-Moves}
use punchline.Manager.{Manager}
use punchline.Manager.Rooms.{update_room}
use punchline.Manager.Queue.{enqueue_room_state, enqueue_all}
use punchline.Manager.Calls.{act, observed_states}
use punchline.Manager.Hosting.{IsHosting, Coded}
use punchline.Manager.Kept.{waiting, AreKept, backing, waiting-enqueue, enqueue_all-rooms}
use punchline.Manager.Kept.Rooms.{Any, But, put-AreKept, others-AreKept, enqueue_all-AreKept}

module _ {S : Type 0} (stored : Text → S → ℕ) where
  -- A room that was called, and whose states are in the queue.
  called-AreKept :
      (code : Text) (version : ℕ) (room : Room) (o : Option (List PersistedRoomState)) (m : Manager)
      (s : S)
      → AreKept stored Any m s
      → normalize_room_code code ≡ code
      → version ≤ backing stored code m s
      → IsTold version code room.state_version o
      → AreKept stored Any
          (enqueue_all
            (observed_states o)
            (record m { rooms = put code (record room { state_observer = some [] }) m.rooms }))
          s
  unfolding observed_states waiting enqueue_all
  called-AreKept code version room none m s v n k t = absurd t
  called-AreKept code version room (some []) m s v n k t =
      let q = record room { state_observer = some [] } in
      others-AreKept stored code q _ s (put-AreKept stored code q m s v)
        (find-put_same code q m.rooms)
        (record { normal = n; heard = refl; kept = omega (arith, k, t) })
  called-AreKept code version room (some (p ∷ log)) m s v n k t =
      let q = record room { state_observer = some [] } in
      let n1 : Manager = record m { rooms = put code q m.rooms } in
      others-AreKept stored code q (enqueue_all (p ∷ log) n1) s
        (enqueue_all-AreKept stored (But code) (p ∷ log) n1 s (put-AreKept stored code q m s v))
        (rw (enqueue_all-rooms (p ∷ log) n1) (find-put_same code q m.rooms))
        (record {
          normal = n;
          heard = refl;
          kept = omega (arith, own code room.state_version p (enqueue_all log n1) t.0 t.1);
        })
    where
      own :
          (code : Text) (version : ℕ) (p : PersistedRoomState) (m : Manager)
          → p.revision ≡ version
          → p.code ≡ code
          → version ≤ waiting code (enqueue_room_state p m)
      own code version p m e f = ground (arith, e, f, waiting-enqueue p m)

  update_found :
      (code : Text) (room old : Room) (m : Manager)
      → find code m.rooms ≡ some old
      → update_room code room m ≡ record m { rooms = put code room m.rooms }
  unfolding update_room
  update_found code room old m e = rw (e, update_room) refl

  pub act-AreKept :
      (w : World) (code : Text) (c : ℕ × Call) (m : Manager) (s : S)
      → IsHosting m
      → AreKept stored Any m s
      → AreKept stored Any (act w code c m) s
  unfolding act AreKept
  act-AreKept w code c m s h v = elim (Option-cases (find code m.rooms)) [
    | inl e ↦ rw (e, act) v
    | inr (r, e) ↦
        let r' = step w c r in
        let g = step-Moves r.state_version w c r in
        let k = v code r e tt in
        let same_code = g.code ∙ find-Each Coded code r m.rooms h.coded e in
        rw (e, act)
          (rw (update_found code (record r' { state_observer = some [] }) r m e) (
            called-AreKept code r.state_version r' r'.state_observer m s v k.normal k.kept (
              subst (λ j. IsTold r.state_version j r'.state_version r'.state_observer) same_code
                (g.logged
                  (subst (IsTold r.state_version r.code r.state_version) (sym k.heard) refl)))))
  ]
