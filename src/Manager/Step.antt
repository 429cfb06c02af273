-- ===== src/Manager/Step.antt =====
-- Every way in which an instance changes: the calls of the handlers and of the rooms, and the rounds
-- of the heartbeat, of the janitor and of the worker that saves states.
use punchline.Base.{ℕ, Bool, List, [], ◌∷◌, Text}
use punchline.Cards.Deck.{Deck}
use punchline.Room.World.{World}
use punchline.Room.Step
use punchline.Manager.{Instance, RoomRegistry, RoomStateStore}
use punchline.Manager.Rooms.{start_draining, set_deck}
use punchline.Manager.Queue.{persist_next}
use punchline.Manager.Calls.{act, create_room, get_room}
use punchline.Manager.Upkeep.{heartbeat_local_rooms, evict_idle_rooms, shutdown_all}

pub data ServerCall : Type 0 where
  creates : (ctx_err : Bool) (now seed : ℕ) → ServerCall
  gets : (ctx_err : Bool) (text : Text) (now seed : ℕ) → ServerCall
  acts : (code : Text) (now : ℕ) (c : Step.Call) → ServerCall
  saves_next : (code : Text) → ServerCall
  heartbeats : (ctx_err : Bool) (now : ℕ) → ServerCall
  evicts : (now : ℕ) → ServerCall
  drains : ServerCall
  takes_deck : Deck → ServerCall
  shuts : (ctx_err : Bool) (now : ℕ) (waiting : List Text) → ServerCall

module _ (w : World) (fnv64a : Text → ℕ) {R S : Type 0} (reg : RoomRegistry R)
    (stores : RoomStateStore S) where
  unfoldable pub serve : ServerCall → Instance R S → Instance R S
  serve (creates b now seed) i = (create_room w reg stores b now seed i).0
  serve (gets b text now seed) i = (get_room w reg stores b text now seed i).0
  serve (acts code now c) i = record i { manager = act w code (now, c) i.manager }
  serve (saves_next code) i = persist_next stores code i
  serve (heartbeats b now) i = heartbeat_local_rooms reg stores b now i
  serve (evicts now) i = (evict_idle_rooms reg stores now i).0
  serve drains i = record i { manager = start_draining i.manager }
  serve (takes_deck d) i = record i { manager = (set_deck fnv64a d i.manager).0 }
  serve (shuts b now waiting) i = shutdown_all reg stores b now waiting i

  unfoldable pub serve_all : List ServerCall → Instance R S → Instance R S
  serve_all [] i = i
  serve_all (c ∷ cs) i = serve_all cs (serve c i)
