-- ===== src/Manager/Hosting.antt =====
-- The invariant of an instance's rooms and of its queue, through each locked part.
use punchline.Base.{
  ℕ, ◌≤◌, ◌≡◌, refl, ◌∙◌, false, List, [], ◌∷◌, none, some, Text, arith, length, Option-cases, inl,
  inr, leb,
}
use punchline.Base.Maps.{find, put, delete}
use punchline.Base.Keys.{
  IsMap, Each, put-IsMap, delete-IsMap, length-put_new, length-put_old, length-delete, put-Each,
  delete-Each, find-Each,
}
use punchline.Room.World.{World}
use punchline.Room.Types.{Room, PersistedRoomState}
use punchline.Room.Join.{new_room}
use punchline.Room.Timers.{shutdown}
use punchline.Room.Step.{Call, step}
use punchline.Room.Moves.Handles.{step-Moves}
use punchline.Manager.{Manager, Operation, Result}
use punchline.Manager.Rooms.{
  has_local_room, can_accept_new_room, attended, place_new, place_restored, update_room,
  clear_pending, remove_room, revoke_room, start_draining,
}
use punchline.Manager.Queue.{enqueue_room_state, enqueue_all, next_pending, count_operation}
use punchline.Manager.Calls.{act, observed_states}

abbrev pub Coded : Text → Room → Type 0
Coded code room = room.code ≡ code

abbrev pub Waits : Text → PersistedRoomState → Type 0
Waits code state = state.code ≡ code

pub record IsHosting (m : Manager) : Type 0 where
  pub rooms_map : IsMap m.rooms
  pub coded : Each Coded m.rooms
  pub within : length m.rooms ≤ m.max_local_rooms
  pub queue_map : IsMap m.pending_room_states
  pub queue_coded : Each Waits m.pending_room_states

pub count-IsHosting :
    (op : Operation) (x : Result) (m : Manager) → IsHosting m → IsHosting (count_operation op x m)
unfolding count_operation
count-IsHosting op x m v = record {
  rooms_map = v.rooms_map;
  coded = v.coded;
  within = v.within;
  queue_map = v.queue_map;
  queue_coded = v.queue_coded;
}

pub draining-IsHosting : (m : Manager) → IsHosting m → IsHosting (start_draining m)
unfolding start_draining
draining-IsHosting m v = record {
  rooms_map = v.rooms_map;
  coded = v.coded;
  within = v.within;
  queue_map = v.queue_map;
  queue_coded = v.queue_coded;
}

-- One more room, where there is place for it.
pub added-IsHosting :
    (code : Text) (room : Room) (m : Manager)
    → IsHosting m
    → room.code ≡ code
    → find code m.rooms ≡ none
    → leb m.max_local_rooms (length m.rooms) ≡ false
    → IsHosting (record m { rooms = put code room m.rooms })
added-IsHosting code room m v c f l = record {
  rooms_map = put-IsMap code room m.rooms v.rooms_map;
  coded = put-Each Coded code room m.rooms c v.coded;
  within = ground (arith, length-put_new code room m.rooms f, l);
  queue_map = v.queue_map;
  queue_coded = v.queue_coded;
}

pub place_new-IsHosting :
    (w : World) (code : Text) (now seed : ℕ) (m : Manager)
    → IsHosting m
    → IsHosting (place_new w code now seed m).0
unfolding place_new can_accept_new_room has_local_room attended new_room
place_new-IsHosting w code now seed m v = elim (Option-cases (find code m.rooms)) [
  | inl e ↦
      ground (
        arith,
        e,
        v,
        added-IsHosting code (attended m (new_room w code m.deck now seed)) m v refl e,
      )
  | inr (r, e) ↦ ground (arith, e, v)
]

pub place_restored-IsHosting :
    (code : Text) (room : Room) (m : Manager)
    → IsHosting m
    → room.code ≡ code
    → IsHosting (place_restored code room m).0
unfolding place_restored attended
place_restored-IsHosting code room m v c = elim (Option-cases (find code m.rooms)) [
  | inl e ↦ ground (arith, e, v, added-IsHosting code (attended m room) m v c e)
  | inr (r, e) ↦ ground (arith, e, v)
]

pub update_room-IsHosting :
    (code : Text) (room : Room) (m : Manager)
    → IsHosting m
    → room.code ≡ code
    → IsHosting (update_room code room m)
unfolding update_room
update_room-IsHosting code room m v c = elim (Option-cases (find code m.rooms)) [
  | inl e ↦ ground (arith, e, v)
  | inr (r, e) ↦
      rw (e, update_room)
        (record {
          rooms_map = put-IsMap code room m.rooms v.rooms_map;
          coded = put-Each Coded code room m.rooms c v.coded;
          within = omega (arith, length-put_old code room r m.rooms e, v.within);
          queue_map = v.queue_map;
          queue_coded = v.queue_coded;
        })
]

pub clear_pending-IsHosting :
    (code : Text) (m : Manager) → IsHosting m → IsHosting (clear_pending code m)
unfolding clear_pending
clear_pending-IsHosting code m v = record {
  rooms_map = v.rooms_map;
  coded = v.coded;
  within = v.within;
  queue_map = delete-IsMap code m.pending_room_states v.queue_map;
  queue_coded = delete-Each Waits code m.pending_room_states v.queue_coded;
}

-- The room of a code is gone; what was closed does not count.
pub gone-IsHosting :
    (code : Text) (closed : List Room) (m : Manager)
    → IsHosting m
    → IsHosting (clear_pending code (record m { rooms = delete code m.rooms; closed = closed }))
gone-IsHosting code closed m v =
    clear_pending-IsHosting code (record m { rooms = delete code m.rooms; closed = closed })
      (record {
        rooms_map = delete-IsMap code m.rooms v.rooms_map;
        coded = delete-Each Coded code m.rooms v.coded;
        within = omega (arith, length-delete code m.rooms, v.within);
        queue_map = v.queue_map;
        queue_coded = v.queue_coded;
      })

pub remove_room-IsHosting :
    (code : Text) (m : Manager) → IsHosting m → IsHosting (remove_room code m)
unfolding remove_room
remove_room-IsHosting code m v = gone-IsHosting code m.closed m v

pub revoke_room-IsHosting :
    (code : Text) (m : Manager) → IsHosting m → IsHosting (revoke_room code m)
unfolding revoke_room
revoke_room-IsHosting code m v = elim (Option-cases (find code m.rooms)) [
  | inl e ↦ rw (e, revoke_room) (clear_pending-IsHosting code m v)
  | inr (r, e) ↦ rw (e, revoke_room) (gone-IsHosting code (shutdown r ∷ m.closed) m v)
]

pub enqueue-IsHosting :
    (s : PersistedRoomState) (m : Manager) → IsHosting m → IsHosting (enqueue_room_state s m)
unfolding enqueue_room_state
enqueue-IsHosting s m v = ground (arith, v, put_in)
  where
    put_in : IsHosting (record m { pending_room_states = put s.code s m.pending_room_states })
    put_in = record {
      rooms_map = v.rooms_map;
      coded = v.coded;
      within = v.within;
      queue_map = put-IsMap s.code s m.pending_room_states v.queue_map;
      queue_coded = put-Each Waits s.code s m.pending_room_states refl v.queue_coded;
    }

pub enqueue_all-IsHosting :
    (ss : List PersistedRoomState) (m : Manager) → IsHosting m → IsHosting (enqueue_all ss m)
unfolding enqueue_all
enqueue_all-IsHosting [] m v = v
enqueue_all-IsHosting (s ∷ ss) m v =
    enqueue-IsHosting s (enqueue_all ss m) (enqueue_all-IsHosting ss m v)

pub next_pending-IsHosting :
    (code : Text) (m : Manager) → IsHosting m → IsHosting (next_pending code m).0
unfolding next_pending
next_pending-IsHosting code m v = elim (Option-cases (find code m.pending_room_states)) [
  | inl e ↦ ground (arith, e, v)
  | inr (s, e) ↦
      rw (e, next_pending)
        (record {
          rooms_map = v.rooms_map;
          coded = v.coded;
          within = v.within;
          queue_map = delete-IsMap code m.pending_room_states v.queue_map;
          queue_coded = delete-Each Waits code m.pending_room_states v.queue_coded;
        })
]

pub act-IsHosting :
    (w : World) (code : Text) (c : ℕ × Call) (m : Manager)
    → IsHosting m
    → IsHosting (act w code c m)
unfolding act
act-IsHosting w code c m v = elim (Option-cases (find code m.rooms)) [
  | inl e ↦ ground (arith, e, v)
  | inr (r, e) ↦
      let r' = step w c r in
      rw (e, act)
        (enqueue_all-IsHosting (observed_states r'.state_observer) _ (
          update_room-IsHosting code (record r' { state_observer = some [] }) m v
            ((step-Moves 0 w c r).code ∙ find-Each Coded code r m.rooms v.coded e)))
]
