-- ===== src/Manager/Kept/Saves.antt =====
-- The worker that saves states and the changes that are kept.
use punchline.Base.{
  ℕ, ◌≤◌, ◌≡◌, refl, sym, ap, ◌∙◌, Bool, false, Option, none, some, Text, arith, Option-cases, inl,
  inr, text_discrete, subst,
}
use punchline.Base.Maps.{find, delete}
use punchline.Base.Keys.{find-delete_ne, find-Each}
use punchline.Room.Types.{Room, PersistedRoomState}
use punchline.Room.Restore.{normalize_room_code}
use punchline.Store.{StateError}
use punchline.Manager.{Manager, Instance, RoomRegistry, RoomStateStore}
use punchline.Manager.Rooms.{has_local_room}
use punchline.Manager.Queue.{
  count_operation, save_state, next_pending, after_save, persist_taken, persist_next,
}
use punchline.Manager.Hosting.{IsHosting, Waits}
use punchline.Manager.Kept.{
  waiting, AreKept, backing, Remembers, waiting-enqueue, waiting-enqueue_grows, enqueue-rooms,
}
use punchline.Manager.Kept.Rooms.{Any, AreKept-mono}

module _ {R S : Type 0} (reg : RoomRegistry R) (stores : RoomStateStore S) (stored : Text → S → ℕ)
    (law : Remembers stores stored) where
  pub save_state-AreKept :
      (E : Text → Type 0) (b : Bool) (state : PersistedRoomState) (i : Instance R S)
      → AreKept stored E i.manager i.store
      → AreKept stored E
          (save_state stores b state i).0.manager
          (save_state stores b state i).0.store
  unfolding save_state count_operation waiting
  save_state-AreKept E b state i v = AreKept-mono stored E _ _ _ _ v (λ code room f. (
    f,
    omega (arith, law.grows b code (record state { instance_id = i.manager.instance_id }) i.store),
  ))

  pub save_state-stored :
      (b : Bool) (state : PersistedRoomState) (i : Instance R S)
      → (save_state stores b state i).1 ≡ none
      → state.revision
        ≤ stored (normalize_room_code state.code) (save_state stores b state i).0.store
  unfolding save_state
  save_state-stored b state i e =
      law.saves b (record state { instance_id = i.manager.instance_id }) i.store e

  pub save_state-rooms :
      (b : Bool) (state : PersistedRoomState) (i : Instance R S)
      → (save_state stores b state i).0.manager.rooms ≡ i.manager.rooms
  unfolding save_state count_operation
  save_state-rooms b state i = refl

  save_state-waiting :
      (b : Bool) (code : Text) (state : PersistedRoomState) (i : Instance R S)
      → waiting code (save_state stores b state i).0.manager ≡ waiting code i.manager
  unfolding save_state count_operation waiting
  save_state-waiting b code state i = refl

  pub save_state-grows :
      (b : Bool) (code : Text) (state : PersistedRoomState) (i : Instance R S)
      → stored code i.store ≤ stored code (save_state stores b state i).0.store
  unfolding save_state
  save_state-grows b code state i =
      law.grows b code (record state { instance_id = i.manager.instance_id }) i.store

  -- The instance of which a state was taken from the queue.
  abbrev taken_from : Text → Instance R S → Instance R S
  taken_from code i = record i {
    manager = record (i.manager) {
      pending_room_states = delete code i.manager.pending_room_states;
    };
  }

  next_pending-found :
      (code : Text) (state : PersistedRoomState) (m : Manager)
      → find code m.pending_room_states ≡ some state
      → next_pending code m
        ≡ (record m { pending_room_states = delete code m.pending_room_states }, some state)
  unfolding next_pending
  next_pending-found code state m e = rw (e, next_pending) refl

  after_save-rooms :
      (state : PersistedRoomState) (o : Instance R S × (Option StateError))
      → (after_save stores state o).manager.rooms ≡ o.0.manager.rooms
  unfolding after_save
  after_save-rooms state (j, none) = refl
  after_save-rooms state (j, some x) = ground (arith, enqueue-rooms state j.manager)

  after_save-store :
      (state : PersistedRoomState) (o : Instance R S × (Option StateError))
      → (after_save stores state o).store ≡ o.0.store
  unfolding after_save
  after_save-store state (j, none) = refl
  after_save-store state (j, some x) = ground arith

  after_save-waiting :
      (c : Text) (state : PersistedRoomState) (o : Instance R S × (Option StateError))
      → waiting c o.0.manager ≤ waiting c (after_save stores state o).manager
  unfolding after_save
  after_save-waiting c state (j, none) = omega arith
  after_save-waiting c state (j, some x) = ground (arith, waiting-enqueue_grows c state j.manager)

  -- A state whose save fails waits again, if its room is there.
  after_save-back :
      (room : Room) (state : PersistedRoomState) (o : Instance R S × (Option StateError))
      → find state.code o.0.manager.rooms ≡ some room
      → (o.1 ≡ none → state.revision ≤ stored state.code o.0.store)
      → state.revision
        ≤ backing stored state.code
            (after_save stores state o).manager
            (after_save stores state o).store
  unfolding after_save has_local_room
  after_save-back room state (j, none) f h = omega (arith, h refl)
  after_save-back room state (j, some x) f h = ground (arith, f, waiting-enqueue state j.manager)

  found_backing :
      (code c : Text) (room : Room) (state : PersistedRoomState) (i : Instance R S)
      → state.code ≡ code
      → find code i.manager.pending_room_states ≡ some state
      → find c i.manager.rooms ≡ some room
      → normalize_room_code c ≡ c
      → let k = after_save stores state (save_state stores false state (taken_from code i)) in
        backing stored c i.manager i.store ≤ backing stored c k.manager k.store
  unfolding waiting save_state
  found_backing code c room state i p e f n =
      let j = taken_from code i in
      let o = save_state stores false state j in
      let grown : stored c i.store ≤ stored c (after_save stores state o).store =
        rw (after_save-store state o) (save_state-grows false c state j) in
      elim (text_discrete code c) [
        | yes x ↦
            let y : state.code ≡ c = p ∙ x in
            ground
              (arith, x, e, y, grown, back c room state o y f n (save_state-stored false state j))
        | no d ↦ ground (
          arith,
          grown,
          after_save-waiting c state o,
          save_state-waiting false c state j,
          find-delete_ne c code i.manager.pending_room_states d,
        )
      ]
    where
      back :
          (c : Text) (room : Room) (state : PersistedRoomState)
          (o : Instance R S × (Option StateError))
          → state.code ≡ c
          → find c o.0.manager.rooms ≡ some room
          → normalize_room_code c ≡ c
          → (o.1 ≡ none → state.revision ≤ stored (normalize_room_code state.code) o.0.store)
          → state.revision
            ≤ backing stored c (after_save stores state o).manager (after_save stores state o).store
      back c room state o y f n h =
          subst
            (λ j.
              state.revision
              ≤ backing stored j (after_save stores state o).manager
                  (after_save stores state o).store)
            y
            (after_save-back room state o (ap (λ j. find j o.0.manager.rooms) y ∙ f) (λ g.
              subst (λ j. state.revision ≤ stored j o.0.store)
                (ap normalize_room_code y ∙ n ∙ sym y) (h g)))

  persist_next-found :
      (code : Text) (state : PersistedRoomState) (i : Instance R S)
      → find code i.manager.pending_room_states ≡ some state
      → state.code ≡ code
      → AreKept stored Any i.manager i.store
      → let o = save_state stores false state (taken_from code i) in
        AreKept stored Any (after_save stores state o).manager (after_save stores state o).store
  unfolding AreKept
  persist_next-found code state i e p v =
      let o = save_state stores false state (taken_from code i) in
      AreKept-mono stored Any _ _ _ _ v (λ c room f.
        let g : find c i.manager.rooms ≡ some room =
          sym (
            ap (find c)
              (after_save-rooms state o ∙ save_state-rooms false state (taken_from code i)))
          ∙ f in
        (g, found_backing code c room state i p e g (v c room g tt).normal))

  pub persist_next-AreKept :
      (code : Text) (i : Instance R S)
      → IsHosting i.manager
      → AreKept stored Any i.manager i.store
      → AreKept stored Any (persist_next stores code i).manager (persist_next stores code i).store
  unfolding persist_next persist_taken next_pending
  persist_next-AreKept code i h v = elim (Option-cases (find code i.manager.pending_room_states)) [
    | inl e ↦ rw (e, persist_next, next_pending, persist_taken) v
    | inr (state, e) ↦
        subst
          (λ o.
            AreKept stored Any (persist_taken stores i o).manager (persist_taken stores i o).store)
          (sym (next_pending-found code state i.manager e))
          (persist_next-found code state i e
            (find-Each Waits code state i.manager.pending_room_states h.queue_coded e) v)
  ]
