-- ===== src/Http/Answered/Created.antt =====
-- The rooms that the manager creates.
use punchline.Base.{
  ℕ, zero, suc, ◌+◌, ◌≡◌, ◌≤◌, ◌∙◌, refl, ap, Bool, some, Text, arith, Option-cases, Bool-cases,
  inl, inr,
}
use punchline.Base.Maps.{find}
use punchline.Base.Keys.{find-put_same}
use punchline.Room.World.{World}
use punchline.Room.Types.{Room}
use punchline.Room.Persist.{persisted_state}
use punchline.Room.Restore.{normalize_room_code}
use punchline.Manager.Kept.{Remembers}
use punchline.Manager.{Manager, Instance, RoomRegistry, RoomStateStore, room_code_attempts}
use punchline.Manager.Rooms.{
  Placed, placed, taken, refused, place_new, has_local_room, attended, can_accept_new_room,
  random_code,
}
use punchline.Room.Join.{new_room}
use punchline.Manager.Queue.{save_state}
use punchline.Manager.Kept.Saves.{save_state-rooms, save_state-stored}
use punchline.Manager.Calls.{
  Outcome, found, no_room, persist_new, after_new, create_attempts, create_room, reserve, reset,
}

place_new-local :
    (w : World) (code : Text) (now seed : ℕ) (m : Manager) (room : Room)
    → (place_new w code now seed m).1 ≡ placed room
    → find code (place_new w code now seed m).0.rooms ≡ some room
unfolding place_new
place_new-local w code now seed m room e =
    let q : Room = attended m (new_room w code m.deck now seed) in
    elim (Option-cases (can_accept_new_room m)) [
      | inr (x, f) ↦ ground (arith, f, e)
      | inl f ↦ elim (Bool-cases (has_local_room code m)) [
        | inl t ↦ ground (arith, f, t, e)
        | inr t ↦ ground (arith, f, t, e, find-put_same code q m.rooms)
      ]
    ]

module _ {R S : Type 0} (w : World) (reg : RoomRegistry R) (stores : RoomStateStore S)
    (stored : Text → S → ℕ) where
  -- A room that is made is in the map, and in the store at its version or a later one.
  abbrev pub IsMade : Instance R S × Outcome → Type 0
  IsMade (i, no_room e) = Unit {0}
  IsMade (i, found code) =
      (room : Room) × (find code i.manager.rooms ≡ some room)
      × (room.state_version ≤ stored (normalize_room_code room.code) i.store)

  module _ (law : Remembers stores stored) where
    persist_new-IsMade :
        (b : Bool) (code : Text) (now : ℕ) (room : Room) (i : Instance R S)
        → find code i.manager.rooms ≡ some room
        → IsMade (persist_new w reg stores b code now room i)
    unfolding persist_new persisted_state
    persist_new-IsMade b code now room i f =
        elim (Option-cases ((save_state stores b (persisted_state room) i).1)) [
          | inl e ↦
              rw (e, persist_new)
                (
                  room,
                  ap (find code) (save_state-rooms reg stores stored law b (persisted_state room) i)
                      ∙ f,
                  save_state-stored reg stores stored law b (persisted_state room) i e,
                )
          | inr (x, e) ↦ rw (e, persist_new) tt
        ]

    after_new-IsMade :
        (code : Text) (now : ℕ) (b : Bool) (again : Instance R S → Instance R S × Outcome)
        (k : Instance R S) (o : Manager × Placed)
        → ((room : Room) → o.1 ≡ placed room → find code (o.0).rooms ≡ some room)
        → ((i : Instance R S) → IsMade (again i))
        → IsMade (after_new w reg stores code now b again k o)
    unfolding after_new
    after_new-IsMade code now b again k (m, refused x) h g = tt
    after_new-IsMade code now b again k (m, taken) h g = g _
    after_new-IsMade code now b again k (m, placed room) h g =
        persist_new-IsMade b code now room (record k { manager = m }) (h room refl)

    create_attempts-IsMade :
        (n : ℕ) (b : Bool) (now seed : ℕ) (i : Instance R S)
        → IsMade (create_attempts w reg stores n b now seed i)
    unfolding create_attempts
    create_attempts-IsMade zero b now seed i = tt
    create_attempts-IsMade (suc n) b now seed i =
        let code = random_code w seed 4 in
        let j = (reserve w reg stores b code now i).0 in
        let k = (reset w reg stores b code j).0 in
        let p = place_new w code now (seed + 4) k.manager in
        elim (Bool-cases (has_local_room code i.manager)) [
          | inl t ↦ ground (arith, t, create_attempts-IsMade n b now (seed + 4) i)
          | inr f ↦ ground (
            arith,
            f,
            create_attempts-IsMade n b now (seed + 4) j,
            after_new-IsMade code now b (λ l. create_attempts w reg stores n b now (seed + 4) l) k p
                (place_new-local w code now (seed + 4) k.manager)
                (create_attempts-IsMade n b now (seed + 4)),
          )
        ]

    pub create_room-IsMade :
        (b : Bool) (now seed : ℕ) (i : Instance R S)
        → IsMade (create_room w reg stores b now seed i)
    unfolding create_room
    create_room-IsMade b now seed i = create_attempts-IsMade room_code_attempts b now seed i
