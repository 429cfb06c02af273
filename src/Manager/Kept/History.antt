-- ===== src/Manager/Kept/History.antt =====
-- Histories of calls and the changes that are kept.
use punchline.Base.{ℕ, List, [], ◌∷◌, Text, arith}
use punchline.Cards.Deck.{Deck}
use punchline.Room.World.{World}
use punchline.Manager.{Manager, Instance, RoomRegistry, RoomStateStore, room_code_attempts}
use punchline.Manager.Rooms.{start_draining, set_deck}
use punchline.Manager.Calls.{create_room}
use punchline.Manager.Upkeep.{heartbeat_local_rooms}
use punchline.Manager.Step.{
  ServerCall, creates, gets, acts, saves_next, heartbeats, evicts, drains, takes_deck, shuts, serve,
  serve_all,
}
use punchline.Manager.History.{serve-Hosts}
use punchline.Manager.Kept.{AreKept, Remembers, waiting}
use punchline.Manager.Kept.Acts.{act-AreKept}
use punchline.Manager.Kept.Rooms.{Any}
use punchline.Manager.Kept.Saves.{persist_next-AreKept}
use punchline.Manager.Kept.Upkeep.{heartbeat_all-AreKept, evict-AreKept, shutdown-AreKept}
use punchline.Manager.Kept.Calls.{IsSound, create_attempts-IsSound}
use punchline.Manager.Kept.Finds.{get_room-Sound}

module _ (w : World) {R S : Type 0} (reg : RoomRegistry R) (stores : RoomStateStore S)
    (stored : Text → S → ℕ) (law : Remembers stores stored) (fnv64a : Text → ℕ) where
  drained : (m : Manager) (s : S) → AreKept stored Any m s → AreKept stored Any (start_draining m) s
  unfolding start_draining AreKept waiting
  drained m s v = v

  with_deck :
      (d : Deck) (m : Manager) (s : S)
      → AreKept stored Any m s
      → AreKept stored Any (record m { deck = d }) s
  unfolding AreKept waiting
  with_deck d m s v = v

  decked :
      (d : Deck) (m : Manager) (s : S)
      → AreKept stored Any m s
      → AreKept stored Any (set_deck fnv64a d m).0 s
  unfolding set_deck
  decked d m s v = ground (arith, v, with_deck d m s v)

  serve-AreKept :
      (c : ServerCall) (i : Instance R S)
      → IsSound w reg stores stored law i
      → AreKept stored Any
          (serve w fnv64a reg stores c i).manager
          (serve w fnv64a reg stores c i).store
  unfolding serve create_room heartbeat_local_rooms
  serve-AreKept (creates b now seed) i v =
      (create_attempts-IsSound w reg stores stored law room_code_attempts b now seed i v).keeps
  serve-AreKept (gets b text now seed) i v =
      (get_room-Sound w reg stores stored law b text now seed i v).keeps
  serve-AreKept (acts code now c) i v =
      act-AreKept stored w code (now, c) i.manager i.store v.hosts v.keeps
  serve-AreKept (saves_next code) i v =
      persist_next-AreKept reg stores stored law code i v.hosts v.keeps
  serve-AreKept (heartbeats b now) i v =
      heartbeat_all-AreKept reg stores stored law b now _ i v.hosts v.keeps
  serve-AreKept (evicts now) i v = evict-AreKept reg stores stored law now i v.hosts v.keeps
  serve-AreKept drains i v = drained i.manager i.store v.keeps
  serve-AreKept (takes_deck d) i v = decked d i.manager i.store v.keeps
  serve-AreKept (shuts b now waiting_codes) i v =
      shutdown-AreKept reg stores stored law b now waiting_codes i

  -- Over a store that keeps its promise, whatever the registry answers and whatever fails, after every
  -- history of calls of an instance the version of each of its rooms is no later than that of the state
  -- that waits for it in the queue or than that at which the store would give it back, if this held
  -- before.
  pub serve_all-IsSound :
      (cs : List ServerCall) (i : Instance R S)
      → IsSound w reg stores stored law i
      → IsSound w reg stores stored law (serve_all w fnv64a reg stores cs i)
  unfolding serve_all
  serve_all-IsSound [] i v = v
  serve_all-IsSound (c ∷ cs) i v =
      serve_all-IsSound cs (serve w fnv64a reg stores c i) (record {
        hosts = serve-Hosts w reg stores fnv64a c i v.hosts;
        keeps = serve-AreKept c i v;
      })
