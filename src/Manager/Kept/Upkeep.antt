-- ===== src/Manager/Kept/Upkeep.antt =====
-- The heartbeat, the janitor and the shutdown, and the changes that are kept.
use punchline.Base.{
  ℕ, ◌-◌, ◌≤◌, ◌≡◌, ◌≢◌, refl, sym, ap, ◌∙◌, Bool, false, List, [], ◌∷◌, ◌++◌, some, Text, arith,
  Option-cases, inl, inr, All,
}
use punchline.Base.Maps.{find, delete}
use punchline.Base.Keys.{IsFree, IsMap, find_free, find-delete_ne, Each, Each-found}
use punchline.Room.Types.{Room}
use punchline.Room.Restore.{normalize_room_code}
use punchline.Manager.{Manager, Instance, RoomRegistry, RoomStateStore, heartbeats, registry_result}
use punchline.Manager.Rooms.{clear_pending, split_idle, local_room_codes}
use punchline.Manager.Queue.{count_operation, save_state, next_pending, flush_pending}
use punchline.Manager.Upkeep.{
  heartbeat_one, heartbeat_all, delete_states, evict_idle_rooms, release_all, shutdown_all,
  shut_all,
}
use punchline.Manager.Hosting.{IsHosting, count-IsHosting}
use punchline.Manager.Kept.{waiting, AreKept, backing, Remembers, enqueue-rooms}
use punchline.Manager.History.Rounds.{IsFree-split_idle, heartbeat_one-Hosts}
use punchline.Manager.Kept.Saves.{save_state-rooms}
use punchline.Manager.Kept.Rooms.{Any, AreKept-mono, counted-AreKept, revoke_room-AreKept}

module _ {R S : Type 0} (reg : RoomRegistry R) (stores : RoomStateStore S) (stored : Text → S → ℕ)
    (law : Remembers stores stored) where
  heartbeat_one-AreKept :
      (b : Bool) (now : ℕ) (code : Text) (i : Instance R S)
      → IsHosting i.manager
      → AreKept stored Any i.manager i.store
      → AreKept stored Any
          (heartbeat_one reg stores b now code i).manager
          (heartbeat_one reg stores b now code i).store
  unfolding heartbeat_one
  heartbeat_one-AreKept b now code i h v =
      let e =
        (reg.heartbeat_room b code i.manager.instance_id i.manager.room_lease_ttl now
          i.registry).1 in
      let m = count_operation heartbeats (registry_result e) i.manager in
      let k = counted-AreKept stored Any heartbeats (registry_result e) i.manager i.store v in
      ground (
        arith,
        k,
        revoke_room-AreKept stored code m i.store k
            (count-IsHosting heartbeats (registry_result e) i.manager h).rooms_map,
      )

  IsFree-split_go :
      (key : Text) (cutoff : ℕ) (es : List (Text × Room))
      → IsFree key es
      → All (λ c. c ≢ key) (local_room_codes (split_idle cutoff es).1)
  unfolding split_idle local_room_codes
  IsFree-split_go key cutoff [] f = tt
  IsFree-split_go key cutoff ((k, r) ∷ es) f =
      ground (arith, IsFree-split_go key cutoff es f.1, f.0)

  -- A room that stays is not under a code that goes.
  find-split_idle :
      (c : Text) (room : Room) (cutoff : ℕ) (es : List (Text × Room))
      → IsMap es
      → find c (split_idle cutoff es).0 ≡ some room
      → (find c es ≡ some room) × All (λ g. g ≢ c) (local_room_codes (split_idle cutoff es).1)
  unfolding split_idle local_room_codes find
  find-split_idle c room cutoff [] v f = cc
  find-split_idle c room cutoff ((k, r) ∷ es) v f = ground (
    arith,
    f,
    find-split_idle c room cutoff es v.1,
    IsFree-split_go c cutoff es,
    IsFree-split_idle c cutoff es,
    find_free c (split_idle cutoff es).0,
  )

  pub heartbeat_all-AreKept :
      (b : Bool) (now : ℕ) (cs : List Text) (i : Instance R S)
      → IsHosting i.manager
      → AreKept stored Any i.manager i.store
      → AreKept stored Any
          (heartbeat_all reg stores b now cs i).manager
          (heartbeat_all reg stores b now cs i).store
  unfolding heartbeat_all
  heartbeat_all-AreKept b now [] i h v = v
  heartbeat_all-AreKept b now (c ∷ cs) i h v =
      heartbeat_all-AreKept b now cs _ (heartbeat_one-Hosts reg stores b now c i h)
        (heartbeat_one-AreKept b now c i h v)

  -- The deletions of the states of codes that are not of a room.
  delete_states-backing :
      (c : Text) (codes : List Text) (i : Instance R S)
      → All (λ g. normalize_room_code g ≢ c) codes
      → All (λ g. g ≢ c) codes
      → backing stored c i.manager i.store
        ≤ backing stored c
            (delete_states reg stores codes i).manager
            (delete_states reg stores codes i).store
  unfolding delete_states count_operation clear_pending waiting
  delete_states-backing c [] i d e = omega arith
  delete_states-backing c (g ∷ gs) i d e = omega (
    arith,
    delete_states-backing c gs (delete_states reg stores (g ∷ []) i) d.1 e.1,
    once c g i d.0 e.0,
  )
    where
      once :
          (c g : Text) (i : Instance R S)
          → normalize_room_code g ≢ c
          → g ≢ c
          → backing stored c i.manager i.store
            ≤ backing stored c
                (delete_states reg stores (g ∷ []) i).manager
                (delete_states reg stores (g ∷ []) i).store
      once c g i d e = ground (
        arith,
        find-delete_ne c g i.manager.pending_room_states e,
        law.deletes false c g i.manager.instance_id i.store d,
      )

  delete_states-rooms :
      (codes : List Text) (i : Instance R S)
      → (delete_states reg stores codes i).manager.rooms ≡ i.manager.rooms
  unfolding delete_states count_operation clear_pending
  delete_states-rooms [] i = refl
  delete_states-rooms (g ∷ gs) i = delete_states-rooms gs _

  normal_codes :
      (c : Text) (cs : List Text)
      → All (λ g. normalize_room_code g ≡ g) cs
      → All (λ g. g ≢ c) cs
      → All (λ g. normalize_room_code g ≢ c) cs
  normal_codes c [] n d = tt
  normal_codes c (g ∷ gs) n d = ((λ e. d.0 (sym n.0 ∙ e)), normal_codes c gs n.1 d.1)

  split_go-normal :
      (cutoff : ℕ) (es : List (Text × Room))
      → Each (λ c r. normalize_room_code c ≡ c) es
      → All (λ g. normalize_room_code g ≡ g) (local_room_codes (split_idle cutoff es).1)
  unfolding split_idle local_room_codes
  split_go-normal cutoff [] n = tt
  split_go-normal cutoff ((k, r) ∷ es) n = ground (arith, n.0, split_go-normal cutoff es n.1)

  pub evict-AreKept :
      (now : ℕ) (i : Instance R S)
      → IsHosting i.manager
      → AreKept stored Any i.manager i.store
      → AreKept stored Any
          (evict_idle_rooms reg stores now i).0.manager
          (evict_idle_rooms reg stores now i).0.store
  unfolding evict_idle_rooms AreKept waiting
  evict-AreKept now i h v =
      let cutoff = now - i.manager.room_idle_ttl in
      let go = local_room_codes (split_idle cutoff i.manager.rooms).1 in
      let j : Instance R S = record i {
        manager = record (i.manager) {
          rooms = (split_idle cutoff i.manager.rooms).0;
          closed = shut_all (split_idle cutoff i.manager.rooms).1 ++ i.manager.closed;
        };
      } in
      let normal =
        Each-found (λ c r. normalize_room_code c ≡ c) i.manager.rooms h.rooms_map
          (λ c r f. (v c r f tt).normal) in
      AreKept-mono stored Any i.manager (delete_states reg stores go j).manager i.store
        (delete_states reg stores go j).store v
        (λ c room f.
          let g : find c j.manager.rooms ≡ some room =
            sym (ap (find c) (delete_states-rooms go j)) ∙ f in
          let (old, apart) = find-split_idle c room cutoff i.manager.rooms h.rooms_map g in
          (
            old,
            delete_states-backing c go j
                (normal_codes c go (split_go-normal cutoff i.manager.rooms normal) apart) apart,
          ))

  none-AreKept : (m : Manager) (s : S) → m.rooms ≡ [] → AreKept stored Any m s
  unfolding AreKept find
  none-AreKept m s e code room f t = absurd (ground (arith, e, f))

  flush-rooms :
      (codes : List Text) (i : Instance R S)
      → (flush_pending stores codes i).manager.rooms ≡ i.manager.rooms
  unfolding flush_pending next_pending
  flush-rooms [] i = refl
  flush-rooms (c ∷ cs) i = elim (Option-cases (find c i.manager.pending_room_states)) [
    | inl e ↦ ground (arith, e)
    | inr (state, e) ↦
        let j : Instance R S = record i {
          manager = record (i.manager) {
            pending_room_states = delete c i.manager.pending_room_states;
          };
        } in
        let k = (save_state stores false state j).0 in
        ground (
          arith,
          e,
          save_state-rooms reg stores stored law false state j,
          flush-rooms cs k,
          enqueue-rooms state k.manager,
        )
  ]

  release_all-rooms :
      (b : Bool) (now : ℕ) (codes : List Text) (i : Instance R S)
      → (release_all reg stores b now codes i).manager.rooms ≡ i.manager.rooms
  unfolding release_all count_operation clear_pending
  release_all-rooms b now [] i = refl
  release_all-rooms b now (c ∷ cs) i = release_all-rooms b now cs _

  pub shutdown-AreKept :
      (b : Bool) (now : ℕ) (waiting_codes : List Text) (i : Instance R S)
      → AreKept stored Any
          (shutdown_all reg stores b now waiting_codes i).manager
          (shutdown_all reg stores b now waiting_codes i).store
  unfolding shutdown_all
  shutdown-AreKept b now waiting_codes i =
      none-AreKept _ _ (release_all-rooms b now _ _ ∙ flush-rooms waiting_codes _)
