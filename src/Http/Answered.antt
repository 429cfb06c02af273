-- ===== src/Http/Answered.antt =====
-- The rooms that the manager gives to the handlers.
pub mod Created
use punchline.Base.{
  ℕ, ◌≡◌, refl, Bool, true, List, [], ◌∷◌, some, Text, arith, Option-cases, Bool-cases, inl, inr,
  text_discrete,
}
use punchline.Base.Maps.{find, put}
use punchline.Base.Keys.{find-put_same}
use punchline.Room.World.{World}
use punchline.Room.Types.{Room, PersistedRoomState}
use punchline.Room.Step.{Call, step}
use punchline.Room.Departed.{Restored-cases}
use punchline.Room.Restore.{restore_room, normalize_room_code}
use punchline.Manager.{Manager, Instance, RoomRegistry, RoomStateStore, Operation, registry_result}
use punchline.Manager.Rooms.{place_restored, has_local_room, update_room, attended}
use punchline.Manager.Queue.{count_operation, save_state, enqueue_room_state, enqueue_all}
use punchline.Manager.Calls.{
  Outcome, found, no_room, act, observed_states, after_restored, install_room, install_restored,
  restore_owned, or_release, adopt, get_room, load, claim, count,
}

pub local-put :
    (code : Text) (room : Room) (m : Manager)
    → has_local_room code (record m { rooms = put code room m.rooms }) ≡ true
unfolding has_local_room
local-put code room m = ground (arith, find-put_same code room m.rooms)

pub enqueue-local :
    (code : Text) (ss : List PersistedRoomState) (m : Manager)
    → has_local_room code (enqueue_all ss m) ≡ has_local_room code m
unfolding enqueue_all enqueue_room_state has_local_room
enqueue-local code [] m = refl
enqueue-local code (s ∷ ss) m = ground (arith, enqueue-local code ss m)

pub update-local :
    (code : Text) (room : Room) (m : Manager)
    → has_local_room code (update_room code room m) ≡ has_local_room code m
unfolding update_room has_local_room
update-local code room m = elim (Option-cases (find code m.rooms)) [
  | inl e ↦ ground (arith, e)
  | inr (r, e) ↦ ground (arith, e, find-put_same code room m.rooms)
]

act-local :
    (w : World) (code : Text) (c : ℕ × Call) (m : Manager)
    → has_local_room code (act w code c m) ≡ has_local_room code m
unfolding act has_local_room
act-local w code c m = elim (Option-cases (find code m.rooms)) [
  | inl e ↦ ground (arith, e)
  | inr (r, e) ↦
      let r' = step w c r in
      let u = update_room code (record r' { state_observer = some [] }) m in
      ground (
        arith,
        e,
        enqueue-local code (observed_states r'.state_observer) u,
        update-local code (record r' { state_observer = some [] }) m,
      )
]

module _ {R S : Type 0} where
  -- A code that is given is in the map.
  abbrev pub IsHosted : Instance R S × Outcome → Type 0
  IsHosted (i, no_room e) = Unit {0}
  IsHosted (i, found code) = has_local_room code i.manager ≡ true

module _ {R S : Type 0} (w : World) (reg : RoomRegistry R) (stores : RoomStateStore S) where
  place_restored-IsHosted :
      (code : Text) (room : Room) (now : ℕ) (i : Instance R S)
      → IsHosted (after_restored w reg stores code now i (place_restored code room i.manager))
  unfolding place_restored after_restored has_local_room
  place_restored-IsHosted code room now i =
      let q = attended i.manager room in
      let m : Manager = record (i.manager) { rooms = put code q i.manager.rooms } in
      elim (Option-cases (find code i.manager.rooms)) [
        | inr (x, f) ↦ ground (arith, f)
        | inl f ↦
            ground (arith, f, act-local w code (now, Call.resumes) m, local-put code q i.manager)
      ]

  install_room-IsHosted :
      (code : Text) (room : Room) (now : ℕ) (i : Instance R S)
      → IsHosted (install_room w reg stores code room now i)
  unfolding install_room
  install_room-IsHosted code room now i = elim (text_discrete room.code code) [
    | yes e ↦ ground (arith, e, place_restored-IsHosted code room now i)
    | no d ↦ ground (arith, d)
  ]

  install-IsHosted :
      (code : Text) (state : PersistedRoomState) (now seed : ℕ) (i : Instance R S)
      → IsHosted (install_restored w reg stores code state now seed i)
  unfolding install_restored
  install-IsHosted code state now seed i =
      elim (Restored-cases (restore_room w state i.manager.deck now seed)) [
        | inl (r, e) ↦ rw (e, install_restored) (install_room-IsHosted code r now i)
        | inr (x, e) ↦ rw (e, install_restored) tt
      ]

  restore_owned-IsHosted :
      (b : Bool) (code : Text) (now seed : ℕ) (i : Instance R S)
      → IsHosted (restore_owned w reg stores b code now seed i)
  unfolding restore_owned
  restore_owned-IsHosted b code now seed i =
      let l = load w reg stores b code i in
      elim (Option-cases (l.1.0)) [
        | inl e ↦ ground (arith, e)
        | inr (s, e) ↦ ground (arith, e, install-IsHosted code s now seed (l.0))
      ]

  or_release-IsHosted :
      (code : Text) (now : ℕ) (o : Instance R S × Outcome)
      → IsHosted o
      → IsHosted (or_release w reg stores code now o)
  unfolding or_release
  or_release-IsHosted code now (i, no_room x) v = tt
  or_release-IsHosted code now (i, found c) v = v

  adopt-IsHosted :
      (b : Bool) (code : Text) (now seed : ℕ) (i : Instance R S)
      → IsHosted (adopt w reg stores b code now seed i)
  unfolding adopt
  adopt-IsHosted b code now seed i =
      let l = load w reg stores b code i in
      let k = (claim w reg stores b code now (l.0)).0 in
      elim (Option-cases (l.1.0)) [
        | inl e ↦ ground (arith, e)
        | inr (s, e) ↦
            let m = (save_state stores b s k).0 in
            ground (
              arith,
              e,
              or_release-IsHosted code now (install_restored w reg stores code s now seed m)
                  (install-IsHosted code s now seed m),
            )
      ]

  -- The code that `GetRoom` finds is that of a room in the map.
  pub get_room-IsHosted :
      (b : Bool) (text : Text) (now seed : ℕ) (i : Instance R S)
      → IsHosted (get_room w reg stores b text now seed i)
  unfolding get_room count
  get_room-IsHosted b text now seed i =
      let code = normalize_room_code text in
      let looked = reg.lookup_room b code now i.registry in
      let x = registry_result (looked.0.1) in
      let j : Instance R S = record i {
        registry = looked.0.0;
        manager = count_operation Operation.looks_up x i.manager;
      } in
      elim (Bool-cases (has_local_room code i.manager)) [
        | inl t ↦ ground (arith, t)
        | inr f ↦
            ground
              (arith, f, adopt-IsHosted b code now seed j, restore_owned-IsHosted b code now seed j)
      ]
