-- ===== src/Tests/Requests.antt =====
-- HTTP requests to an instance.
use mathlib.Core.List.Perm
use punchline.Base.{
  ℕ, All, ◌≡◌, ◌%◌, ◌^◌, refl, false, true, List, [], ◌∷◌, codes, arith, text_discrete,
}
use punchline.Base.Int.{pos}
use punchline.Base.Maps.{find}
use punchline.Room.Types.{Room}
use punchline.Room.Step.{run, step, handle}
use punchline.Room.Persist.{touch}
use punchline.Room.Join.{new_room, try_join, valid_player_name, new_player, add_player, seat}
use punchline.Room.History.{new_room-run-IsSeated}
use punchline.Registry.{RoomRecord}
use punchline.Store.{States}
use punchline.Manager.Memory.{memory_registry, memory_store, memory-remembers, stored_version}
use punchline.Http.Metrics.{HttpMetricKey, new_metrics, same_http_key, count_at}
use punchline.Http.Metrics.Keys.{keys_of, request_lines}
use punchline.Http.Metrics.Instrument.{Served, instrument_all}
use punchline.Http.Orders.{SameMap, request_lines-SameMap}
use punchline.Http.Counted.{HasLabel, served_under, instrument_all-served}
use punchline.Http.Requests.{named, HttpRequest, Server, RequestLimits, room_at}
use punchline.Http.Rooms.{rooms_handler, computer_room, join_room, room_by_code}
use punchline.Http.Stored.{SeatBacked, room_by_code-SeatBacked}
use punchline.Http.Made.{RoomBacked, creations-RoomBacked}
use punchline.Http.Undone.{IsUndone, join_room-IsUndone}
use punchline.Tests.Inputs.{counting, counting-Unrepeated, small_deck}
use punchline.Tests.Managers.{durable}
use punchline.Tests.Rooms.{party, three_join}

abbrev health_key : HttpMetricKey
health_key = record { method = codes "GET"; route = codes "/healthz"; status = 200 }

abbrev join_key : HttpMetricKey
join_key = record { method = codes "POST"; route = codes "/api/rooms/{code}/join"; status = 201 }

abbrev served : List Served
served =
    record { method = codes "GET"; path = codes "/healthz"; status = 0; elapsed = 5 }
    ∷ record {
      method = codes "POST";
      path = codes "/api/rooms/ABCD/join/";
      status = 201;
      elapsed = 9;
    }
    ∷ record { method = codes "GET"; path = codes "/healthz"; status = 200; elapsed = 4 }
    ∷ []

instrument_all-served_example :
    (count_at same_http_key health_key (instrument_all served new_metrics).http_requests
      ≡ served_under health_key served % 2 ^ 64)
    × All HasLabel (instrument_all served new_metrics).http_requests
instrument_all-served_example = instrument_all-served health_key served

abbrev one_way : List (HttpMetricKey × ℕ)
one_way = (join_key, 3) ∷ (health_key, 7) ∷ []

abbrev other_way : List (HttpMetricKey × ℕ)
other_way = (health_key, 7) ∷ (join_key, 3) ∷ []

ways-SameMap : SameMap one_way other_way
unfolding keys_of count_at same_http_key text_discrete
ways-SameMap = record { keys = Perm.swap health_key join_key []; counts = λ key. ground arith }

request_lines-SameMap_example : request_lines one_way ≡ request_lines other_way
request_lines-SameMap_example = request_lines-SameMap one_way other_way ways-SameMap

abbrev pub server : Server (List RoomRecord) States
server = record {
  instance_of = durable;
  limiter = record { buckets = []; attempts = 0 };
  metrics = new_metrics;
}

abbrev pub limits : RequestLimits
limits = record { room_create = pos 10; room_join = pos 30; ws_connect = pos 30 }

abbrev pub join_request : HttpRequest
join_request = record {
  method = codes "POST";
  path = codes "/api/rooms/aaaa/join";
  ip = codes "::1";
  replay_failed = [];
  name_body = named (codes "Ann");
  player_id = [];
  token = [];
  ctx_err = false;
}

room_by_code-SeatBacked_example :
    SeatBacked stored_version
      (room_by_code counting memory_registry memory_store limits join_request 50 7 server)
room_by_code-SeatBacked_example =
    room_by_code-SeatBacked counting memory_registry memory_store stored_version memory-remembers
      limits join_request 50 7 server

creations-RoomBacked_example :
    RoomBacked stored_version
      (rooms_handler counting memory_registry memory_store limits join_request 50 7 server)
    × RoomBacked stored_version
        (computer_room counting memory_registry memory_store limits join_request 50 7 server)
creations-RoomBacked_example =
    creations-RoomBacked counting memory_registry memory_store stored_version memory-remembers
      limits join_request 50 7 server

abbrev pub waiting_room : Room
waiting_room = run counting three_join party

abbrev pub waiting_server : Server (List RoomRecord) States
waiting_server = record server {
  instance_of = record durable {
    manager = record (durable.manager) { rooms = (codes "ABCD", waiting_room) ∷ [] };
  };
}

-- The context of the request is done, and nothing is saved.
join_room-IsUndone_example : IsUndone (codes "ABCD") waiting_room (
    join_room counting memory_registry memory_store true
      (named (codes "Dee"))
      (codes "ABCD")
      50
      waiting_room
      waiting_server)
unfolding room_at find text_discrete run step handle try_join valid_player_name new_room new_player
    add_player seat touch
join_room-IsUndone_example =
    join_room-IsUndone counting memory_registry memory_store true (named (codes "Dee"))
      (codes "ABCD") 50 waiting_room waiting_server refl refl
      (new_room-run-IsSeated counting counting-Unrepeated (codes "ABCD") small_deck 1000 0
        three_join)
