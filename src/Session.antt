-- ===== src/Session.antt =====
-- The messages of a connected client (backend/internal/httpapi/handler.go, the loop of wsRoom): from a
-- message to the call of the room, to its saved state and to the answer.
pub mod Acknowledged
pub mod Failed
use punchline.Base.{
  ℕ, Bool, true, false, List, [], ◌++◌, Option, none, some, if◌then◌else◌, Text, codes, same,
}
use punchline.Base.Int.{ℤ, pos}
use punchline.Room.World.{World}
use punchline.Room.Types.{Room, PersistedRoomState, RoomError}
use punchline.Room.Settings.{Settings}
use punchline.Room.Leave.{leave}
use punchline.Room.Submit.{submit_answer, pick_winner}
use punchline.Room.Host.{
  start_game, start_computer_game, next_round, end_game, skip_prompt, play_again,
}
use punchline.Room.Settings.{update_settings}
use punchline.Room.Persist.{persisted_state}
use punchline.Store.{StateError}
use punchline.Manager.{Instance, RoomStateStore}
use punchline.Manager.Queue.{enqueue_all, save_state}
use punchline.Manager.Calls.{observed_states}
use punchline.Limiter.{RateLimiter, allow, minute}

-- realtime/types.go.
pub record ClientMessage : Type 0 where
  pub type : Text
  pub answer_card_id : Text
  pub submission_id : Text
  pub settings : Option Settings

pub data ActionError : Type 0 where
  of_room : RoomError → ActionError
  unknown_message : ActionError

-- How a message ends: the connection closes after the first three.
pub data Verdict : Type 0 where
  server_draining rate_limited gone accepted unsaved : Verdict
  failed : ActionError → Verdict

-- The room of the connection, its instance and the limiter that all connections share.
pub record Session (R S : Type 0) : Type 0 where
  pub room : Room
  pub instance_of : Instance R S
  pub limiter : RateLimiter

unfoldable pub acted : Room × (Option RoomError) → Room × (Option ActionError)
acted (r, none) = (r, none)
acted (r, some e) = (r, some (of_room e))

-- The observer has handed on what it was given.
unfoldable pub handed_on : Option (List PersistedRoomState) → Option (List PersistedRoomState)
handed_on none = none
handed_on (some log) = some []

-- The key of a client's messages in the limiter.
abbrev pub message_key : Text → Text → Text
message_key ip player_id = codes "ws_message:" ++ ip ++ codes ":" ++ player_id

module _ (w : World) where
  -- The switch over the type of the message.
  unfoldable pub action : Text → ClientMessage → Room → Room × (Option ActionError)
  action player_id msg r =
      if same msg.type (codes "start_game")
      then acted (start_game w player_id r)
      else if same msg.type (codes "submit_answer")
      then acted (submit_answer w player_id msg.answer_card_id r)
      else if same msg.type (codes "pick_winner")
      then acted (pick_winner player_id msg.submission_id r)
      else if same msg.type (codes "next_round")
      then acted (next_round w player_id r)
      else if same msg.type (codes "end_game")
      then acted (end_game player_id r)
      else if same msg.type (codes "play_again")
      then acted (play_again w player_id r)
      else if same msg.type (codes "update_settings")
      then acted (update_settings w player_id msg.settings r)
      else if same msg.type (codes "skip_prompt")
      then acted (skip_prompt w player_id r)
      else if same msg.type (codes "start_computer_game")
      then acted (start_computer_game w player_id r)
      else if same msg.type (codes "leave")
      then acted (leave w player_id r)
      else (r, some unknown_message)

  module _ {R S : Type 0} (stores : RoomStateStore S) where
    -- The session after a call of its room: the observer has put the states of the room in the queue.
    unfoldable pub observe : Room → Session R S → Session R S
    observe r s = record s {
      room = record r { state_observer = handed_on r.state_observer };
      instance_of = record (s.instance_of) {
        manager = enqueue_all (observed_states r.state_observer) s.instance_of.manager;
      };
    }

    -- `PersistRoom`.
    unfoldable pub persist_room : Bool → Session R S → Session R S × (Option StateError)
    persist_room ctx_err s =
        let (i, e) = save_state stores ctx_err (persisted_state s.room) s.instance_of in
        (record s { instance_of = i }, e)

    -- What the save of an action that was done is answered with; a player who has left is not told.
    unfoldable pub answered : Bool → Session R S × (Option StateError) → Session R S × Verdict
    answered true (s, e) = (s, gone)
    answered false (s, none) = (s, accepted)
    answered false (s, some x) = (s, unsaved)

    unfoldable pub after_action :
        Bool → Bool → Session R S → Option ActionError → Session R S × Verdict
    after_action ctx_err leaving s (some x) = (s, failed x)
    after_action ctx_err leaving s none = answered leaving (persist_room ctx_err s)

    unfoldable pub do_action : Bool → Text → ClientMessage → ℕ → Session R S → Session R S × Verdict
    do_action ctx_err player_id msg now s =
        let (r, e) = action player_id msg (record (s.room) { now = now }) in
        after_action ctx_err (same msg.type (codes "leave")) (observe r s) e

    -- One round of the loop of `wsRoom`, for a message that was read.
    unfoldable pub on_message :
        Bool → Text → Text → ℤ → ClientMessage → ℕ → Session R S → Session R S × Verdict
    on_message ctx_err ip player_id limit msg now s =
        if s.instance_of.manager.is_draining
        then (s, server_draining)
        else (let (l, ok) = allow (message_key ip player_id) limit (pos minute) now s.limiter in
            let t = record s { limiter = l } in
            if ok then do_action ctx_err player_id msg now t else (t, rate_limited))
