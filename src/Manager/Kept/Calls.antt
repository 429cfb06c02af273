-- ===== src/Manager/Kept/Calls.antt =====
-- CreateRoom and the changes that are kept.
use punchline.Base.{
  ℕ, zero, suc, ◌+◌, ◌≤◌, ◌≡◌, refl, sym, ap, ◌∙◌, Bool, false, Text, arith, Option-cases,
  Bool-cases, inl, inr, text_discrete, subst,
}
use punchline.Base.Maps.{find}
use punchline.Room.World.{World}
use punchline.Room.Types.{Room, PersistedRoomState}
use punchline.Room.Persist.{persisted_state}
use punchline.Room.Restore.{normalize_room_code}
use punchline.Manager.{Manager, Instance, RoomRegistry, RoomStateStore}
use punchline.Manager.Rooms.{
  has_local_room, place_new, Placed, placed, taken, refused, remove_room, random_code,
}
use punchline.Manager.Queue.{count_operation, save_state}
use punchline.Manager.Calls.{
  Outcome, count, release, reserve, claim, reset, load, persist_new, after_new, create_attempts,
}
use punchline.Manager.Hosting.{
  IsHosting, count-IsHosting, place_new-IsHosting, remove_room-IsHosting,
}
use punchline.Manager.History.Rounds.{save-Hosts}
use punchline.Manager.Kept.{AreKept, Remembers, waiting}
use punchline.Manager.Kept.Codes.{normalize-random_code}
use punchline.Manager.Kept.Saves.{save_state-AreKept, save_state-stored, save_state-rooms}
use punchline.Manager.Kept.Rooms.{
  Any, But, IsPlaced, AreKept-mono, counted-AreKept, remove_room-AreKept, others-AreKept,
  place_new-IsPlaced,
}

module _ (w : World) {R S : Type 0} (reg : RoomRegistry R) (stores : RoomStateStore S)
    (stored : Text → S → ℕ) (law : Remembers stores stored) where
  pub record IsSound (i : Instance R S) : Type 0 where
    pub hosts : IsHosting i.manager
    pub keeps : AreKept stored Any i.manager i.store

  pub release-IsSound :
      (b : Bool) (code : Text) (now : ℕ) (i : Instance R S)
      → IsSound i
      → IsSound (release w reg stores b code now i)
  unfolding release count
  release-IsSound b code now i v = record {
    hosts = count-IsHosting _ _ _ v.hosts;
    keeps = counted-AreKept stored Any _ _ _ _ v.keeps;
  }

  reserve-IsSound :
      (b : Bool) (code : Text) (now : ℕ) (i : Instance R S)
      → IsSound i
      → IsSound (reserve w reg stores b code now i).0
  unfolding reserve count
  reserve-IsSound b code now i v = record {
    hosts = count-IsHosting _ _ _ v.hosts;
    keeps = counted-AreKept stored Any _ _ _ _ v.keeps;
  }

  pub claim-IsSound :
      (b : Bool) (code : Text) (now : ℕ) (i : Instance R S)
      → IsSound i
      → IsSound (claim w reg stores b code now i).0
  unfolding claim count
  claim-IsSound b code now i v = record {
    hosts = count-IsHosting _ _ _ v.hosts;
    keeps = counted-AreKept stored Any _ _ _ _ v.keeps;
  }

  pub load-IsSound :
      (b : Bool) (code : Text) (i : Instance R S)
      → IsSound i
      → IsSound (load w reg stores b code i).0
  unfolding load count
  load-IsSound b code i v = record {
    hosts = count-IsHosting _ _ _ v.hosts;
    keeps = counted-AreKept stored Any _ _ _ _ v.keeps;
  }

  pub save-IsSound :
      (b : Bool) (s : PersistedRoomState) (i : Instance R S)
      → IsSound i
      → IsSound (save_state stores b s i).0
  save-IsSound b s i v = record {
    hosts = save-Hosts reg stores b s i v.hosts;
    keeps = save_state-AreKept reg stores stored law Any b s i v.keeps;
  }

  -- A reset under the code of no room of the instance.
  reset-IsSound :
      (b : Bool) (code : Text) (i : Instance R S)
      → normalize_room_code code ≡ code
      → has_local_room code i.manager ≡ false
      → IsSound i
      → IsSound (reset w reg stores b code i).0
  unfolding reset count waiting count_operation has_local_room
  reset-IsSound b code i n f v = record {
    hosts = count-IsHosting _ _ _ v.hosts;
    keeps = AreKept-mono stored Any i.manager _ i.store _ v.keeps (λ c room g.
        elim (text_discrete code c) [
          | yes x ↦ absurd (ground (arith, f, g, x))
          | no d ↦ (
            g,
            omega (arith, law.resets b c code i.manager.instance_id i.store (λ e. d (sym n ∙ e))),
          )
        ]);
  }

  persist_new-IsSound :
      (b : Bool) (code : Text) (now : ℕ) (room : Room) (i : Instance R S)
      → normalize_room_code code ≡ code
      → IsHosting i.manager
      → IsPlaced stored code i.store (i.manager, placed room)
      → IsSound (persist_new w reg stores b code now room i).0
  unfolding persist_new persisted_state
  persist_new-IsSound b code now room i n h (v, f, q, c) =
      let o = save_state stores b (persisted_state room) i in
      let hosts = save-Hosts reg stores b (persisted_state room) i h in
      let others =
        save_state-AreKept reg stores stored law (But code) b (persisted_state room) i v in
      elim (Option-cases (o.1)) [
        | inl e ↦
            let st : room.state_version ≤ stored code o.0.store =
              subst (λ j. room.state_version ≤ stored j o.0.store) (ap normalize_room_code c ∙ n)
                (save_state-stored reg stores stored law b (persisted_state room) i e) in
            rw (e, persist_new)
              (record {
                hosts = hosts;
                keeps =
                    others-AreKept stored code room o.0.manager o.0.store others
                      (ap (find code)
                          (save_state-rooms reg stores stored law b (persisted_state room) i)
                        ∙ f)
                      (record { normal = n; heard = q; kept = omega (arith, st) });
              })
        | inr (x, e) ↦
            rw (e, persist_new)
              (release-IsSound false code now
                (record (o.0) { manager = remove_room code o.0.manager })
                (record {
                  hosts = remove_room-IsHosting code o.0.manager hosts;
                  keeps =
                      remove_room-AreKept stored code o.0.manager o.0.store others hosts.rooms_map;
                }))
      ]

  after_new-IsSound :
      (code : Text) (now : ℕ) (b : Bool) (again : Instance R S → Instance R S × Outcome)
      (k : Instance R S) (o : Manager × Placed)
      → normalize_room_code code ≡ code
      → IsHosting o.0
      → IsPlaced stored code k.store o
      → ((i : Instance R S) → IsSound i → IsSound (again i).0)
      → IsSound (after_new w reg stores code now b again k o).0
  unfolding after_new
  after_new-IsSound code now b again k (m, refused x) n h v g =
      release-IsSound false code now (record k { manager = m }) (record { hosts = h; keeps = v })
  after_new-IsSound code now b again k (m, taken) n h v g =
      g _ (
        release-IsSound false code now (record k { manager = m }) (record { hosts = h; keeps = v }))
  after_new-IsSound code now b again k (m, placed room) n h v g =
      persist_new-IsSound b code now room (record k { manager = m }) n h v

  reserve-local :
      (b : Bool) (code : Text) (now : ℕ) (i : Instance R S)
      → has_local_room code (reserve w reg stores b code now i).0.manager
        ≡ has_local_room code i.manager
  unfolding reserve count count_operation has_local_room
  reserve-local b code now i = refl

  pub create_attempts-IsSound :
      (n : ℕ) (b : Bool) (now seed : ℕ) (i : Instance R S)
      → IsSound i
      → IsSound (create_attempts w reg stores n b now seed i).0
  unfolding create_attempts
  create_attempts-IsSound zero b now seed i v = v
  create_attempts-IsSound (suc n) b now seed i v =
      let code = random_code w seed 4 in
      let normal = normalize-random_code w seed 4 in
      let j = (reserve w reg stores b code now i).0 in
      let vj = reserve-IsSound b code now i v in
      let k = (reset w reg stores b code j).0 in
      let p = place_new w code now (seed + 4) k.manager in
      elim (Bool-cases (has_local_room code i.manager)) [
        | inl t ↦ ground (arith, v, t, create_attempts-IsSound n b now (seed + 4) i v)
        | inr f ↦
            let vk = reset-IsSound b code j normal (reserve-local b code now i ∙ f) vj in
            ground (
              arith,
              v,
              f,
              vj,
              vk,
              release-IsSound false code now k vk,
              create_attempts-IsSound n b now (seed + 4) j vj,
              after_new-IsSound code now b (λ l. create_attempts w reg stores n b now (seed + 4) l)
                  k p normal (place_new-IsHosting w code now (seed + 4) k.manager vk.hosts)
                  (place_new-IsPlaced stored w code now (seed + 4) k.manager k.store vk.keeps)
                  (create_attempts-IsSound n b now (seed + 4)),
            )
      ]
