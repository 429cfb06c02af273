-- ===== src/Tests/Guards.antt =====
-- Requests that are guarded: by their origin, by a token, by a seat.
use punchline.Base.{
  ◌≡◌, ◌↔◌, refl, false, true, List, [], ◌∷◌, none, Text, codes, arith, All, trim_space,
}
use punchline.Base.Int.{pos}
use punchline.Room.Ids.{In, here, there}
use punchline.Manager.Memory.{memory_registry, memory_store}
use punchline.Http.Requests.{HttpRequest}
use punchline.Http.Origin.{HostPackage, parse_allowed_origins, origin_allowed}
use punchline.Http.Origin.Listed.{join_commas, IsOrigin, origin_allowed-join}
use punchline.Http.Sockets.{ws_open}
use punchline.Http.Sockets.Opened.{IsTokened, ws_open-IsTokened}
use punchline.Http.Admin.{AdminDesk, require_admin}
use punchline.Http.Admin.Guarded.{IsAdmin, require_admin-passes}
use punchline.Tests.Inputs.{counting}
use punchline.Tests.Requests.{server, limits, join_request, waiting_server}

-- Hosts without ports, and no origin that can be parsed.
abbrev no_hosts : HostPackage
no_hosts = record { url_host = λ o. none; split_host_port = λ a. none; fold = λ r. r }

abbrev origins : List Text
origins = codes "https://a.io" ∷ codes "https://b.io" ∷ []

origins-IsOrigin : All IsOrigin origins
unfolding trim_space
origins-IsOrigin = (
  record { plain = ground arith; trimmed = refl; not_empty = λ e. cc },
  (record { plain = ground arith; trimmed = refl; not_empty = λ e. cc }, tt),
)

asked : In (trim_space (codes " https://b.io")) origins
unfolding trim_space
asked = there (here refl)

origin_allowed-join_example :
    (parse_allowed_origins (join_commas origins) ≡ origins)
    × (origin_allowed no_hosts
          (parse_allowed_origins (join_commas origins))
          (codes "play.io")
          (codes " https://b.io")
        ≡ true)
origin_allowed-join_example =
    origin_allowed-join no_hosts origins (codes "play.io") (codes " https://b.io") origins-IsOrigin
      asked

-- The seat of the first player.
abbrev socket_request : HttpRequest
socket_request = record join_request {
  path = codes "/ws/rooms/abcd";
  player_id = codes "pl_02";
  token = codes "gt_03";
}

ws_open-IsTokened_example :
    IsTokened socket_request (
      ws_open counting memory_registry memory_store limits true socket_request 1 60 9
        waiting_server)
    × ((ws_open counting memory_registry memory_store limits false socket_request 1 60 9
          waiting_server).0
        ≡ waiting_server)
ws_open-IsTokened_example =
    ws_open-IsTokened counting memory_registry memory_store limits true socket_request 1 60 9
      waiting_server

abbrev desk : AdminDesk
desk = record { admin_token = codes "secret"; failure_limit = pos 10; is_available = true }

require_admin-passes_example :
    ((require_admin desk (codes "::1") (codes "Bearer secret") 5 server).1 ≡ none
      ↔ IsAdmin desk (codes "Bearer secret"))
    × (require_admin desk (codes "::1") (codes "Bearer secret") 5 server ≡ (server, none)
        ↔ IsAdmin desk (codes "Bearer secret"))
require_admin-passes_example =
    require_admin-passes desk (codes "::1") (codes "Bearer secret") 5 server
