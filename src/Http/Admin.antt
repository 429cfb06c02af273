-- ===== src/Http/Admin.antt =====
-- backend/internal/httpapi/admin.go: requireAdmin and reporterSeed; constantTimeEqual of
-- handler.go. What the desk does is SQL.
pub mod Guarded
use punchline.Base.{
  ℕ, Bool, not, ◌||◌, [], ◌∷◌, ◌++◌, Option, none, some, if◌then◌else◌, Text, codes, same,
  trim_space, to_upper,
}
use punchline.Base.Int.{ℤ}
use punchline.Room.World.{World}
use punchline.Room.Join.{verify_player}
use punchline.Manager.{RoomRegistry, RoomStateStore}
use punchline.Manager.Calls.{Outcome, found, no_room, get_room}
use punchline.Http.Requests.{
  Response, Server, of_error, write_error, allow_request, unless_refused, room_at,
}

-- The configuration of the desk: the token, the limit of wrong guesses and whether there is a
-- database.
pub record AdminDesk : Type 0 where
  pub admin_token : Text
  pub failure_limit : ℤ
  pub is_available : Bool

-- What a player reports with.
pub record ReportInput : Type 0 where
  pub player_id : Text
  pub token : Text
  pub room_code : Text

-- `constantTimeEqual`: the texts are the same.
unfoldable pub constant_time_equal : Text → Text → Bool
constant_time_equal got want = same got want

unfoldable pub unauthorized : Response
unauthorized = record {
  status = 401;
  headers = (codes "WWW-Authenticate", codes "Bearer") ∷ [];
  body = of_error (codes "admin authorization required");
}

module _ {R S : Type 0} where
  -- `requireAdmin`, of the client's address and the header `Authorization`: nothing, or the answer.
  unfoldable pub require_admin :
      AdminDesk → Text → Text → ℕ → Server R S → Server R S × (Option Response)
  unfolding constant_time_equal unauthorized
  require_admin desk ip authorization now s =
      if same desk.admin_token []
      then (s, some (write_error 404 (codes "not found")))
      else if not
          (constant_time_equal (trim_space authorization) (codes "Bearer " ++ desk.admin_token))
      then unless_refused some (λ t. (t, some unauthorized))
          (allow_request (codes "admin_auth_failure") desk.failure_limit ip now s)
      else if not desk.is_available
      then (s, some (write_error 503 (codes "the admin desk requires PostgreSQL")))
      else (s, none)

module _ {R S : Type 0} (w : World) (reg : RoomRegistry R) (stores : RoomStateStore S) where
  -- The seed of a reporter whose room was looked up.
  unfoldable pub seed_in : Text → Text → Text → Server R S → Outcome → Text
  unfolding verify_player
  seed_in ip player_id token s (no_room x) = ip
  seed_in ip player_id token s (found code) = elim (room_at code s) [
    | none ↦ ip
    | some room ↦ if verify_player player_id token room then codes "player:" ++ player_id else ip
  ]

  -- `reporterSeed`.
  unfoldable pub reporter_seed : Bool → Text → ReportInput → ℕ → ℕ → Server R S → Server R S × Text
  unfolding seed_in
  reporter_seed ctx_err ip input now seed s =
      let player_id = trim_space input.player_id in
      let code = to_upper (trim_space input.room_code) in
      if same player_id [] || same input.token [] || same code []
      then (s, ip)
      else (let (i, o) = get_room w reg stores ctx_err code now seed s.instance_of in
          let t = record s { instance_of = i } in (t, seed_in ip player_id input.token t o))
