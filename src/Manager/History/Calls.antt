-- ===== src/Manager/History/Calls.antt =====
-- The invariant of an instance through CreateRoom and GetRoom.
use punchline.Base.{
  ℕ, zero, suc, ◌+◌, Bool, false, Text, arith, Option-cases, inl, inr, text_discrete,
}
use punchline.Room.World.{World}
use punchline.Room.Types.{Room, PersistedRoomState}
use punchline.Room.Restore.{restore_room, normalize_room_code}
use punchline.Room.Persist.{persisted_state}
use punchline.Room.Step.{Call}
use punchline.Manager.{Manager, Instance, RoomRegistry, RoomStateStore, Operation, registry_result}
use punchline.Manager.Rooms.{
  place_new, place_restored, Placed, placed, taken, refused, remove_room, random_code,
}
use punchline.Manager.Queue.{count_operation, save_state}
use punchline.Manager.Calls.{
  Outcome, found, no_room, count, release, reserve, claim, reset, load, persist_new, after_new,
  create_attempts, after_restored, install_room, or_release, install_restored, restore_owned, adopt,
  get_room,
}
use punchline.Room.Departed.{Restored-cases}
use punchline.Manager.Hosting.{
  IsHosting, count-IsHosting, place_new-IsHosting, place_restored-IsHosting, remove_room-IsHosting,
  act-IsHosting,
}
use punchline.Manager.History.Rounds.{Hosts, save-Hosts}

module _ (w : World) {R S : Type 0} (reg : RoomRegistry R) (stores : RoomStateStore S) where
  release-Hosts :
      (b : Bool) (code : Text) (now : ℕ) (i : Instance R S)
      → Hosts reg stores i
      → Hosts reg stores (release w reg stores b code now i)
  unfolding release count
  release-Hosts b code now i v = count-IsHosting _ _ i.manager v

  reserve-Hosts :
      (b : Bool) (code : Text) (now : ℕ) (i : Instance R S)
      → Hosts reg stores i
      → Hosts reg stores (reserve w reg stores b code now i).0
  unfolding reserve count
  reserve-Hosts b code now i v = count-IsHosting _ _ i.manager v

  claim-Hosts :
      (b : Bool) (code : Text) (now : ℕ) (i : Instance R S)
      → Hosts reg stores i
      → Hosts reg stores (claim w reg stores b code now i).0
  unfolding claim count
  claim-Hosts b code now i v = count-IsHosting _ _ i.manager v

  reset-Hosts :
      (b : Bool) (code : Text) (i : Instance R S)
      → Hosts reg stores i
      → Hosts reg stores (reset w reg stores b code i).0
  unfolding reset count
  reset-Hosts b code i v = count-IsHosting _ _ i.manager v

  load-Hosts :
      (b : Bool) (code : Text) (i : Instance R S)
      → Hosts reg stores i
      → Hosts reg stores (load w reg stores b code i).0
  unfolding load count
  load-Hosts b code i v = count-IsHosting _ _ i.manager v

  persist_new-Hosts :
      (b : Bool) (code : Text) (now : ℕ) (room : Room) (i : Instance R S)
      → Hosts reg stores i
      → Hosts reg stores (persist_new w reg stores b code now room i).0
  unfolding persist_new
  persist_new-Hosts b code now room i v =
      let j = (save_state stores b (persisted_state room) i).0 in
      let k = save-Hosts reg stores b (persisted_state room) i v in
      ground (
        arith,
        k,
        release-Hosts false code now (record j { manager = remove_room code j.manager })
            (remove_room-IsHosting code j.manager k),
      )

  after_new-Hosts :
      (code : Text) (now : ℕ) (b : Bool) (again : Instance R S → Instance R S × Outcome)
      (k : Instance R S) (o : Manager × Placed)
      → IsHosting o.0
      → ((i : Instance R S) → Hosts reg stores i → Hosts reg stores (again i).0)
      → Hosts reg stores (after_new w reg stores code now b again k o).0
  unfolding after_new
  after_new-Hosts code now b again k (m, refused x) v h =
      release-Hosts false code now (record k { manager = m }) v
  after_new-Hosts code now b again k (m, taken) v h =
      h _ (release-Hosts false code now (record k { manager = m }) v)
  after_new-Hosts code now b again k (m, placed room) v h =
      persist_new-Hosts b code now room (record k { manager = m }) v

  pub create_attempts-Hosts :
      (n : ℕ) (b : Bool) (now seed : ℕ) (i : Instance R S)
      → Hosts reg stores i
      → Hosts reg stores (create_attempts w reg stores n b now seed i).0
  unfolding create_attempts
  create_attempts-Hosts zero b now seed i v = v
  create_attempts-Hosts (suc n) b now seed i v =
      let code = random_code w seed 4 in
      let j = (reserve w reg stores b code now i).0 in
      let vj = reserve-Hosts b code now i v in
      let k = (reset w reg stores b code j).0 in
      let vk = reset-Hosts b code j vj in
      let p = place_new w code now (seed + 4) k.manager in
      ground (
        arith,
        v,
        vj,
        vk,
        release-Hosts false code now k vk,
        create_attempts-Hosts n b now (seed + 4) i v,
        create_attempts-Hosts n b now (seed + 4) j vj,
        after_new-Hosts code now b (λ l. create_attempts w reg stores n b now (seed + 4) l) k p
            (place_new-IsHosting w code now (seed + 4) k.manager vk)
            (create_attempts-Hosts n b now (seed + 4)),
      )

  after_restored-Hosts :
      (code : Text) (now : ℕ) (i : Instance R S) (o : Manager × Placed)
      → Hosts reg stores i
      → IsHosting o.0
      → Hosts reg stores (after_restored w reg stores code now i o).0
  unfolding after_restored
  after_restored-Hosts code now i (m, refused e) v h = v
  after_restored-Hosts code now i (m, taken) v h = v
  after_restored-Hosts code now i (m, placed r) v h = act-IsHosting w code (now, Call.resumes) m h

  install_room-Hosts :
      (code : Text) (room : Room) (now : ℕ) (i : Instance R S)
      → Hosts reg stores i
      → Hosts reg stores (install_room w reg stores code room now i).0
  unfolding install_room
  install_room-Hosts code room now i v = elim (text_discrete room.code code) [
    | yes e ↦ ground (
      arith,
      v,
      after_restored-Hosts code now i (place_restored code room i.manager) v
          (place_restored-IsHosting code room i.manager v e),
    )
    | no n ↦ ground (arith, n, v)
  ]

  install-Hosts :
      (code : Text) (state : PersistedRoomState) (now seed : ℕ) (i : Instance R S)
      → Hosts reg stores i
      → Hosts reg stores (install_restored w reg stores code state now seed i).0
  unfolding install_restored
  install-Hosts code state now seed i v =
      elim (Restored-cases (restore_room w state i.manager.deck now seed)) [
        | inl (r, e) ↦ rw (e, install_restored) (install_room-Hosts code r now i v)
        | inr (x, e) ↦ rw (e, install_restored) v
      ]

  restore_owned-Hosts :
      (b : Bool) (code : Text) (now seed : ℕ) (i : Instance R S)
      → Hosts reg stores i
      → Hosts reg stores (restore_owned w reg stores b code now seed i).0
  unfolding restore_owned
  restore_owned-Hosts b code now seed i v =
      let l = load w reg stores b code i in
      let vj = load-Hosts b code i v in
      elim (Option-cases (l.1.0)) [
        | inl e ↦ ground (arith, e, vj)
        | inr (s, e) ↦ ground (arith, e, vj, install-Hosts code s now seed (l.0) vj)
      ]

  or_release-Hosts :
      (code : Text) (now : ℕ) (o : Instance R S × Outcome)
      → Hosts reg stores o.0
      → Hosts reg stores (or_release w reg stores code now o).0
  unfolding or_release
  or_release-Hosts code now (n, no_room x) v = release-Hosts false code now n v
  or_release-Hosts code now (n, found c) v = v

  adopt-Hosts :
      (b : Bool) (code : Text) (now seed : ℕ) (i : Instance R S)
      → Hosts reg stores i
      → Hosts reg stores (adopt w reg stores b code now seed i).0
  unfolding adopt
  adopt-Hosts b code now seed i v =
      let l = load w reg stores b code i in
      let vj = load-Hosts b code i v in
      let k = (claim w reg stores b code now (l.0)).0 in
      let vk = claim-Hosts b code now (l.0) vj in
      elim (Option-cases (l.1.0)) [
        | inl e ↦ ground (arith, e, vj)
        | inr (s, e) ↦
            let m = (save_state stores b s k).0 in
            let vm = save-Hosts reg stores b s k vk in
            ground (
              arith,
              e,
              vj,
              vk,
              vm,
              release-Hosts false code now m vm,
              or_release-Hosts code now (install_restored w reg stores code s now seed m)
                  (install-Hosts code s now seed m vm),
            )
      ]

  pub get_room-Hosts :
      (b : Bool) (text : Text) (now seed : ℕ) (i : Instance R S)
      → Hosts reg stores i
      → Hosts reg stores (get_room w reg stores b text now seed i).0
  unfolding get_room count
  get_room-Hosts b text now seed i v =
      let code = normalize_room_code text in
      let looked = reg.lookup_room b code now i.registry in
      let j : Instance R S = record i {
        registry = looked.0.0;
        manager = count_operation Operation.looks_up (registry_result (looked.0.1)) i.manager;
      } in
      let vj = count-IsHosting Operation.looks_up (registry_result (looked.0.1)) i.manager v in
      ground
        (arith, v, vj, adopt-Hosts b code now seed j vj, restore_owned-Hosts b code now seed j vj)
