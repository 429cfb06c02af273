-- ===== src/Manager/Kept/Finds.antt =====
-- GetRoom and the changes that are kept.
use punchline.Base.{
  ℕ, ◌≤◌, ◌≡◌, refl, ap, Bool, false, some, Text, arith, Option-cases, inl, inr, text_discrete,
  subst,
}
use punchline.Room.World.{World}
use punchline.Cards.Deck.{Deck}
use punchline.Room.Types.{Room, PersistedRoomState}
use punchline.Room.Restore.{ok, restore_room, rebuild, normalize_room_code, at_least_one}
use punchline.Room.Departed.{Restored-cases}
use punchline.Room.Step.{Call}
use punchline.Manager.{Manager, Instance, RoomRegistry, RoomStateStore, Operation, registry_result}
use punchline.Manager.Rooms.{place_restored, Placed, placed, taken, refused}
use punchline.Manager.Queue.{count_operation, save_state}
use punchline.Manager.Calls.{
  Outcome, found, no_room, count, claim, load, after_restored, install_room, or_release,
  install_restored, restore_owned, adopt, get_room,
}
use punchline.Manager.Hosting.{count-IsHosting, place_restored-IsHosting, act-IsHosting}
use punchline.Manager.Kept.{Remembers}
use punchline.Manager.Kept.Codes.{normalize-normalize}
use punchline.Manager.Kept.Saves.{save_state-grows}
use punchline.Manager.Kept.Acts.{act-AreKept}
use punchline.Manager.Kept.Rooms.{Any, counted-AreKept, place_restored-AreKept}
use punchline.Manager.Kept.Calls.{
  IsSound, release-IsSound, claim-IsSound, load-IsSound, save-IsSound,
}

restore_room-version :
    (w : World) (state : PersistedRoomState) (deck : Deck) (now seed : ℕ) (r : Room)
    → restore_room w state deck now seed ≡ ok r
    → r.state_version ≡ at_least_one state.revision
unfolding restore_room rebuild
restore_room-version w state deck now seed r e = ground (arith, e)

module _ (w : World) {R S : Type 0} (reg : RoomRegistry R) (stores : RoomStateStore S)
    (stored : Text → S → ℕ) (law : Remembers stores stored) where
  abbrev Sound : Instance R S → Type 0
  Sound i = IsSound w reg stores stored law i

  after_restored-Sound :
      (code : Text) (now : ℕ) (i : Instance R S) (o : Manager × Placed)
      → Sound i
      → Sound (record i { manager = o.0 })
      → Sound (after_restored w reg stores code now i o).0
  unfolding after_restored
  after_restored-Sound code now i (m, refused e) v h = v
  after_restored-Sound code now i (m, taken) v h = v
  after_restored-Sound code now i (m, placed r) v h = record {
    hosts = act-IsHosting w code (now, Call.resumes) m h.hosts;
    keeps = act-AreKept stored w code (now, Call.resumes) m i.store h.hosts h.keeps;
  }

  install_room-Sound :
      (code : Text) (room : Room) (now : ℕ) (i : Instance R S)
      → Sound i
      → normalize_room_code code ≡ code
      → room.state_version ≤ stored code i.store
      → Sound (install_room w reg stores code room now i).0
  unfolding install_room
  install_room-Sound code room now i v n k = elim (text_discrete room.code code) [
    | yes e ↦
        let p = place_restored code room i.manager in
        ground (
          arith,
          v,
          e,
          after_restored-Sound code now i p v (record {
            hosts = place_restored-IsHosting code room i.manager v.hosts e;
            keeps = place_restored-AreKept stored code room i.manager i.store v.keeps n k;
          }),
        )
    | no d ↦ ground (arith, d, v)
  ]

  install-Sound :
      (code : Text) (state : PersistedRoomState) (now seed : ℕ) (i : Instance R S)
      → Sound i
      → normalize_room_code code ≡ code
      → at_least_one state.revision ≤ stored code i.store
      → Sound (install_restored w reg stores code state now seed i).0
  unfolding install_restored
  install-Sound code state now seed i v n k =
      elim (Restored-cases (restore_room w state i.manager.deck now seed)) [
        | inl (r, e) ↦
            rw (e, install_restored)
              (install_room-Sound code r now i v n
                (omega (arith, restore_room-version w state i.manager.deck now seed r e, k)))
        | inr (x, e) ↦ rw (e, install_restored) v
      ]

  -- A state that is loaded is in the store.
  load-stored :
      (b : Bool) (code : Text) (state : PersistedRoomState) (i : Instance R S)
      → normalize_room_code code ≡ code
      → (load w reg stores b code i).1.0 ≡ some state
      → at_least_one state.revision ≤ stored code (load w reg stores b code i).0.store
  unfolding load count
  load-stored b code state i n e =
      subst (λ j. at_least_one state.revision ≤ stored j i.store) n
        (law.loads b code state i.store e)

  restore_owned-Sound :
      (b : Bool) (code : Text) (now seed : ℕ) (i : Instance R S)
      → normalize_room_code code ≡ code
      → Sound i
      → Sound (restore_owned w reg stores b code now seed i).0
  unfolding restore_owned
  restore_owned-Sound b code now seed i n v =
      let l = load w reg stores b code i in
      let vj = load-IsSound w reg stores stored law b code i v in
      elim (Option-cases (l.1.0)) [
        | inl e ↦ ground (arith, e, vj)
        | inr (s, e) ↦
            ground
              (arith, e, vj, install-Sound code s now seed (l.0) vj n (load-stored b code s i n e))
      ]

  or_release-Sound :
      (code : Text) (now : ℕ) (o : Instance R S × Outcome)
      → Sound o.0
      → Sound (or_release w reg stores code now o).0
  unfolding or_release
  or_release-Sound code now (i, no_room x) v =
      release-IsSound w reg stores stored law false code now i v
  or_release-Sound code now (i, found c) v = v

  claim-stored :
      (b : Bool) (code : Text) (now : ℕ) (i : Instance R S)
      → (claim w reg stores b code now i).0.store ≡ i.store
  unfolding claim count
  claim-stored b code now i = refl

  adopt-Sound :
      (b : Bool) (code : Text) (now seed : ℕ) (i : Instance R S)
      → normalize_room_code code ≡ code
      → Sound i
      → Sound (adopt w reg stores b code now seed i).0
  unfolding adopt
  adopt-Sound b code now seed i n v =
      let l = load w reg stores b code i in
      let vj = load-IsSound w reg stores stored law b code i v in
      let k = (claim w reg stores b code now (l.0)).0 in
      let vk = claim-IsSound w reg stores stored law b code now (l.0) vj in
      elim (Option-cases (l.1.0)) [
        | inl e ↦ ground (arith, e, vj)
        | inr (s, e) ↦
            let m = (save_state stores b s k).0 in
            let vm = save-IsSound w reg stores stored law b s k vk in
            let there : at_least_one s.revision ≤ stored code m.store = omega (
              arith,
              load-stored b code s i n e,
              ap (stored code) (claim-stored b code now (l.0)),
              save_state-grows reg stores stored law b code s k,
            ) in
            ground (
              arith,
              e,
              vj,
              vk,
              vm,
              release-IsSound w reg stores stored law false code now m vm,
              or_release-Sound code now (install_restored w reg stores code s now seed m)
                  (install-Sound code s now seed m vm n there),
            )
      ]

  pub get_room-Sound :
      (b : Bool) (text : Text) (now seed : ℕ) (i : Instance R S)
      → Sound i
      → Sound (get_room w reg stores b text now seed i).0
  unfolding get_room count
  get_room-Sound b text now seed i v =
      let code = normalize_room_code text in
      let n = normalize-normalize text in
      let looked = reg.lookup_room b code now i.registry in
      let x = registry_result (looked.0.1) in
      let j : Instance R S = record i {
        registry = looked.0.0;
        manager = count_operation Operation.looks_up x i.manager;
      } in
      let vj : Sound j = record {
        hosts = count-IsHosting Operation.looks_up x i.manager v.hosts;
        keeps = counted-AreKept stored Any Operation.looks_up x i.manager i.store v.keeps;
      } in
      ground (
        arith,
        v,
        vj,
        adopt-Sound b code now seed j n vj,
        restore_owned-Sound b code now seed j n vj,
      )
