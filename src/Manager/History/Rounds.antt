-- ===== src/Manager/History/Rounds.antt =====
-- The invariant of an instance through its rounds: the worker, the heartbeat, the janitor, the shutdown.
use punchline.Base.{
  Option, none, some, ℕ, ◌-◌, ◌≤◌, Bool, false, List, [], ◌∷◌, Text, arith, length, Option-cases,
  inl, inr,
}
use punchline.Base.Keys.{IsFree, IsMap, Each}
use punchline.Cards.Deck.{Deck}
use punchline.Store.{StateError}
use punchline.Room.Types.{Room, PersistedRoomState}
use punchline.Manager.{Manager, Instance, RoomRegistry, RoomStateStore, Operation, registry_result}
use punchline.Manager.Rooms.{split_idle, set_deck, clear_pending}
use punchline.Manager.Queue.{
  count_operation, save_state, after_save, persist_taken, next_pending, persist_next, flush_pending,
}
use punchline.Manager.Upkeep.{
  heartbeat_one, heartbeat_all, delete_states, evict_idle_rooms, release_all, shutdown_all,
}
use punchline.Manager.Hosting.{
  IsHosting, Coded, count-IsHosting, clear_pending-IsHosting, revoke_room-IsHosting,
  enqueue-IsHosting, next_pending-IsHosting,
}

-- The idle rooms are taken out of the map.
pub IsFree-split_idle :
    (key : Text) (cutoff : ℕ) (es : List (Text × Room))
    → IsFree key es
    → IsFree key (split_idle cutoff es).0
unfolding split_idle
IsFree-split_idle key cutoff [] f = f
IsFree-split_idle key cutoff ((k, r) ∷ es) f = ground (arith, IsFree-split_idle key cutoff es f.1)

split_idle-kept :
    (cutoff : ℕ) (es : List (Text × Room))
    → IsMap es
    → Each Coded es
    → IsMap (split_idle cutoff es).0
      × Each Coded (split_idle cutoff es).0
      × (length (split_idle cutoff es).0 ≤ length es)
unfolding split_idle
split_idle-kept cutoff [] v c = (tt, tt, omega arith)
split_idle-kept cutoff ((k, r) ∷ es) v c =
    ground (arith, split_idle-kept cutoff es v.1 c.1, IsFree-split_idle k cutoff es v.0)

module _ {R S : Type 0} (reg : RoomRegistry R) (stores : RoomStateStore S) where
  -- The invariant of an instance is that of its manager.
  abbrev pub Hosts : Instance R S → Type 0
  Hosts i = IsHosting i.manager

  pub save-Hosts :
      (b : Bool) (s : PersistedRoomState) (i : Instance R S)
      → Hosts i
      → Hosts (save_state stores b s i).0
  unfolding save_state
  save-Hosts b s i v = count-IsHosting _ _ i.manager v

  after_save-Hosts :
      (s : PersistedRoomState) (o : Instance R S × (Option StateError))
      → Hosts o.0
      → Hosts (after_save stores s o)
  unfolding after_save
  after_save-Hosts s (j, none) v = v
  after_save-Hosts s (j, some x) v = ground (arith, v, enqueue-IsHosting s j.manager v)

  persist_taken-Hosts :
      (i : Instance R S) (o : Manager × (Option PersistedRoomState))
      → Hosts i
      → IsHosting o.0
      → Hosts (persist_taken stores i o)
  unfolding persist_taken
  persist_taken-Hosts i (m, none) v h = v
  persist_taken-Hosts i (m, some s) v h =
      let j = record i { manager = m } in
      after_save-Hosts s (save_state stores false s j) (save-Hosts false s j h)

  pub persist_next-Hosts :
      (code : Text) (i : Instance R S) → Hosts i → Hosts (persist_next stores code i)
  unfolding persist_next
  persist_next-Hosts code i v =
      persist_taken-Hosts i (next_pending code i.manager) v
        (next_pending-IsHosting code i.manager v)

  flush-Hosts :
      (codes : List Text) (i : Instance R S) → Hosts i → Hosts (flush_pending stores codes i)
  unfolding flush_pending
  flush-Hosts [] i v = v
  flush-Hosts (code ∷ rest) i v = elim (Option-cases (next_pending code i.manager).1) [
    | inl e ↦ rw (e, flush_pending) v
    | inr (s, e) ↦
        let j = record i { manager = (next_pending code i.manager).0 } in
        let k = save-Hosts false s j (next_pending-IsHosting code i.manager v) in
        rw (e, flush_pending)
          (ground (
            arith,
            k,
            flush-Hosts rest (save_state stores false s j).0 k,
            enqueue-IsHosting s (save_state stores false s j).0.manager k,
          ))
  ]

  pub heartbeat_one-Hosts :
      (b : Bool) (now : ℕ) (code : Text) (i : Instance R S)
      → Hosts i
      → Hosts (heartbeat_one reg stores b now code i)
  unfolding heartbeat_one
  heartbeat_one-Hosts b now code i v =
      let e =
        (reg.heartbeat_room b code i.manager.instance_id i.manager.room_lease_ttl now
          i.registry).1 in
      let m = count_operation Operation.heartbeats (registry_result e) i.manager in
      let vm = count-IsHosting Operation.heartbeats (registry_result e) i.manager v in
      ground (arith, vm, revoke_room-IsHosting code m vm)

  pub heartbeat_all-Hosts :
      (b : Bool) (now : ℕ) (codes : List Text) (i : Instance R S)
      → Hosts i
      → Hosts (heartbeat_all reg stores b now codes i)
  unfolding heartbeat_all
  heartbeat_all-Hosts b now [] i v = v
  heartbeat_all-Hosts b now (code ∷ rest) i v =
      heartbeat_all-Hosts b now rest (heartbeat_one reg stores b now code i)
        (heartbeat_one-Hosts b now code i v)

  pub delete_states-Hosts :
      (codes : List Text) (i : Instance R S) → Hosts i → Hosts (delete_states reg stores codes i)
  unfolding delete_states
  delete_states-Hosts [] i v = v
  delete_states-Hosts (code ∷ rest) i v = delete_states-Hosts rest _ (
      count-IsHosting _ _ (clear_pending code i.manager) (clear_pending-IsHosting code i.manager v))

  pub evict-Hosts :
      (now : ℕ) (i : Instance R S) → Hosts i → Hosts (evict_idle_rooms reg stores now i).0
  unfolding evict_idle_rooms
  evict-Hosts now i v =
      let (a, b, c) =
        split_idle-kept (now - i.manager.room_idle_ttl) i.manager.rooms v.rooms_map v.coded in
      delete_states-Hosts _ _ (record {
        rooms_map = a;
        coded = b;
        within = omega (arith, c, v.within);
        queue_map = v.queue_map;
        queue_coded = v.queue_coded;
      })

  release_all-Hosts :
      (b : Bool) (now : ℕ) (codes : List Text) (i : Instance R S)
      → Hosts i
      → Hosts (release_all reg stores b now codes i)
  unfolding release_all
  release_all-Hosts b now [] i v = v
  release_all-Hosts b now (code ∷ rest) i v = release_all-Hosts b now rest _ (
      count-IsHosting _ _ (clear_pending code i.manager) (clear_pending-IsHosting code i.manager v))

  pub shutdown-Hosts :
      (b : Bool) (now : ℕ) (waiting : List Text) (i : Instance R S)
      → Hosts i
      → Hosts (shutdown_all reg stores b now waiting i)
  unfolding shutdown_all
  shutdown-Hosts b now waiting i v = release_all-Hosts b now _ _ (
      flush-Hosts waiting _ (record {
        rooms_map = tt;
        coded = tt;
        within = omega arith;
        queue_map = v.queue_map;
        queue_coded = v.queue_coded;
      }))

  pub set_deck-IsHosting :
      (fnv64a : Text → ℕ) (d : Deck) (m : Manager) → IsHosting m → IsHosting (set_deck fnv64a d m).0
  unfolding set_deck
  set_deck-IsHosting fnv64a d m v = ground (arith, v, with_deck)
    where
      with_deck : IsHosting (record m { deck = d })
      with_deck = record {
        rooms_map = v.rooms_map;
        coded = v.coded;
        within = v.within;
        queue_map = v.queue_map;
        queue_coded = v.queue_coded;
      }
