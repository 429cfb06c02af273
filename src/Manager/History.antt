-- ===== src/Manager/History.antt =====
-- What holds of an instance after every history of calls, whatever its registry and its store do.
pub mod Rounds
mod Calls
use punchline.Base.{ℕ, List, [], ◌∷◌, Text}
use punchline.Room.World.{World}
use punchline.Manager.{Instance, RoomRegistry, RoomStateStore}
use punchline.Manager.Calls.{create_room}
use punchline.Manager.Upkeep.{heartbeat_local_rooms}
use punchline.Manager.{room_code_attempts}
use punchline.Manager.Step.{
  ServerCall, creates, gets, acts, saves_next, heartbeats, evicts, drains, takes_deck, shuts, serve,
  serve_all,
}
use punchline.Manager.Hosting.{draining-IsHosting, act-IsHosting}
use punchline.Manager.History.Rounds.{
  Hosts, persist_next-Hosts, heartbeat_all-Hosts, evict-Hosts, shutdown-Hosts, set_deck-IsHosting,
}
use punchline.Manager.History.Calls.{create_attempts-Hosts, get_room-Hosts}

module _ (w : World) {R S : Type 0} (reg : RoomRegistry R) (stores : RoomStateStore S) where
  pub serve-Hosts :
      (fnv64a : Text → ℕ) (c : ServerCall) (i : Instance R S)
      → Hosts reg stores i
      → Hosts reg stores (serve w fnv64a reg stores c i)
  unfolding serve create_room heartbeat_local_rooms
  serve-Hosts fnv64a (creates b now seed) i v =
      create_attempts-Hosts w reg stores room_code_attempts b now seed i v
  serve-Hosts fnv64a (gets b text now seed) i v = get_room-Hosts w reg stores b text now seed i v
  serve-Hosts fnv64a (acts code now c) i v = act-IsHosting w code (now, c) i.manager v
  serve-Hosts fnv64a (saves_next code) i v = persist_next-Hosts reg stores code i v
  serve-Hosts fnv64a (heartbeats b now) i v = heartbeat_all-Hosts reg stores b now _ i v
  serve-Hosts fnv64a (evicts now) i v = evict-Hosts reg stores now i v
  serve-Hosts fnv64a drains i v = draining-IsHosting i.manager v
  serve-Hosts fnv64a (takes_deck d) i v = set_deck-IsHosting reg stores fnv64a d i.manager v
  serve-Hosts fnv64a (shuts b now waiting) i v = shutdown-Hosts reg stores b now waiting i v

  -- Whatever the registry and the store answer, after every history of calls an instance hosts no more
  -- rooms than it may, each under its own code and no two under one, and its queue holds at most one
  -- state for a code, under that code, if this held before.
  pub serve_all-Hosts :
      (fnv64a : Text → ℕ) (cs : List ServerCall) (i : Instance R S)
      → Hosts reg stores i
      → Hosts reg stores (serve_all w fnv64a reg stores cs i)
  unfolding serve_all
  serve_all-Hosts fnv64a [] i v = v
  serve_all-Hosts fnv64a (c ∷ cs) i v =
      serve_all-Hosts fnv64a cs (serve w fnv64a reg stores c i) (serve-Hosts fnv64a c i v)
