-- ===== src/Tests/Managers.antt =====
-- Instances over the registry and the store that are kept in memory, and timers.
use punchline.Base.{
  ◌+◌, ◌<◌, inl, ◌≡◌, refl, false, List, [], ◌∷◌, none, some, codes, arith, length,
}
use punchline.Base.Maps.{find}
use punchline.Room.Types.{Room, scoring}
use punchline.Room.Join.{new_room}
use punchline.Room.Host.{end_game}
use punchline.Room.Phase.{set_phase}
use punchline.Room.Step.{joins, ends, deadline, handle, step, run}
use punchline.Room.Leave.{answering}
use punchline.Room.Ends.{fire, run-fire-fire}
use punchline.Room.Moves.Expired.{run-expired}
use punchline.Registry.{RoomRecord, heartbeat_room, live_record, find_record, is_live, put_record}
use punchline.Room.Restore.{normalize_room_code, at_least_one}
use punchline.Manager.Rooms.{local_room_codes, revoke_room}
use punchline.Manager.Queue.{count_operation}
use punchline.Base.{text_discrete}
use punchline.Store.{States}
use punchline.Manager.{Manager, Instance}
use punchline.Manager.Upkeep.{heartbeat_local_rooms, heartbeat_one, heartbeat_all, lost_lease}
use punchline.Manager.Hosting.{IsHosting}
use punchline.Room.Persist.{persisted_state}
use punchline.Manager.Kept.{waiting}
use punchline.Manager.Kept.Rooms.{single-AreKept}
use punchline.Manager.Kept.Calls.{IsSound}
use punchline.Manager.Kept.History.{serve_all-IsSound}
use punchline.Manager.Memory.{
  stored_version, memory-remembers, memory_registry, memory_store, memory-renews, OwnedUntil,
}
use punchline.Manager.Renewal.{heartbeat_local_rooms-renewed}
use punchline.Manager.Step.{ServerCall, creates, gets, heartbeats, evicts, serve_all}
use punchline.Manager.History.{serve_all-Hosts}
use punchline.Tests.Inputs.{counting, counting-Unrepeated, small_deck}

abbrev pub lonely : Room
lonely = record (new_room counting (codes "AAAA") small_deck 1000 0) {
  phase = scoring;
  phase_seq = 4;
  host_id = codes "x";
}

run-expired_example :
    (4 < (run counting ((5, ends (codes "x")) ∷ []) lonely).phase_seq)
    × (handle counting (deadline 4) (run counting ((5, ends (codes "x")) ∷ []) lonely)
        ≡ run counting ((5, ends (codes "x")) ∷ []) lonely)
unfolding run step handle end_game set_phase new_room
run-expired_example =
    run-expired counting ((5, ends (codes "x")) ∷ []) lonely (deadline 4) refl
      (inl (λ e. ground (arith, e)))

run-fire-fire_example :
    answering
      (fire counting (
        fire counting (
          run counting
            ((1, joins (codes "Ann")) ∷ [])
            (new_room counting (codes "AAAA") small_deck 1000 0)))).phase
    ≡ false
run-fire-fire_example =
    run-fire-fire counting counting-Unrepeated (codes "AAAA") small_deck 1000 0
      ((1, joins (codes "Ann")) ∷ [])

abbrev hosting : Manager
hosting = record {
  deck = small_deck;
  card_telemetry = none;
  rooms = (codes "AAAA", lonely) ∷ [];
  instance_id = codes "one";
  room_lease_ttl = 30;
  room_idle_ttl = 600;
  max_local_rooms = 2;
  is_draining = false;
  operations = [];
  pending_room_states = [];
  closed = [];
}

abbrev leased : RoomRecord
leased = record {
  code = codes "AAAA";
  instance_id = codes "one";
  claimed_at = 10;
  heartbeat_at = 10;
  expires_at = 40;
  updated_at = 10;
}

abbrev one : Instance (List RoomRecord) States
one = record { manager = hosting; registry = leased ∷ []; store = [] }

one-IsHosting : IsHosting hosting
unfolding new_room
one-IsHosting = record {
  rooms_map = (tt, tt);
  coded = (refl, tt);
  within = omega arith;
  queue_map = tt;
  queue_coded = tt;
}

abbrev busy : List ServerCall
busy = creates false 20 0 ∷ gets false (codes " aaaa") 21 9 ∷ heartbeats false 22 ∷ evicts 900 ∷ []

serve_all-Hosts_example :
    IsHosting (serve_all counting length memory_registry memory_store busy one).manager
serve_all-Hosts_example =
    serve_all-Hosts counting memory_registry memory_store length busy one one-IsHosting

still_there :
    find
      (codes "AAAA")
      (heartbeat_local_rooms memory_registry memory_store false 20 one).manager.rooms
    ≡ some lonely
unfolding heartbeat_local_rooms heartbeat_all heartbeat_one count_operation local_room_codes
    revoke_room lost_lease heartbeat_room live_record find_record is_live put_record
    normalize_room_code text_discrete find
still_there = refl

heartbeat_local_rooms-renewed_example :
    (find (codes "AAAA") hosting.rooms ≡ some lonely)
    × OwnedUntil
        (codes "one")
        (20 + 30)
        (codes "AAAA")
        (heartbeat_local_rooms memory_registry memory_store false 20 one).registry
heartbeat_local_rooms-renewed_example =
    heartbeat_local_rooms-renewed memory_registry memory_store 20
      (OwnedUntil (codes "one") (20 + 30)) one (memory-renews (codes "one") 30 20) (tt, tt)
      (codes "AAAA") lonely still_there

-- A room whose last change the store has.
abbrev pub heard_room : Room
heard_room = record lonely { state_observer = some [] }

abbrev pub durable : Instance (List RoomRecord) States
durable = record one {
  manager = record hosting { rooms = (codes "AAAA", heard_room) ∷ [] };
  store = (codes "AAAA", persisted_state heard_room) ∷ [];
}

durable-IsSound :
    IsSound counting memory_registry memory_store stored_version memory-remembers durable
unfolding new_room persisted_state find normalize_room_code waiting at_least_one text_discrete
durable-IsSound = record {
  hosts = record {
    rooms_map = (tt, tt);
    coded = (refl, tt);
    within = omega arith;
    queue_map = tt;
    queue_coded = tt;
  };
  keeps =
      single-AreKept stored_version (codes "AAAA") heard_room durable.manager durable.store refl
        (record { normal = refl; heard = refl; kept = omega arith });
}

serve_all-IsSound_example :
    IsSound counting memory_registry memory_store stored_version memory-remembers
      (serve_all counting length memory_registry memory_store busy durable)
serve_all-IsSound_example =
    serve_all-IsSound counting memory_registry memory_store stored_version memory-remembers length
      busy durable durable-IsSound
