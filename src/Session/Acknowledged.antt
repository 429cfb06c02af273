-- ===== src/Session/Acknowledged.antt =====
-- What a client whose message was accepted can rely on.
use punchline.Base.{
  ℕ, ◌≤◌, ◌≡◌, refl, Bool, true, false, Option, none, some, Text, codes, same, arith,
}
use punchline.Base.Int.{ℤ, pos}
use punchline.Room.World.{World}
use punchline.Room.Types.{Room}
use punchline.Room.Restore.{normalize_room_code}
use punchline.Room.Persist.{persisted_state}
use punchline.Store.{StateError}
use punchline.Manager.{RoomStateStore}
use punchline.Manager.Queue.{save_state}
use punchline.Manager.Kept.{Remembers}
use punchline.Limiter.{allow, minute}
use punchline.Session.{
  ClientMessage, ActionError, accepted, Session, action, handed_on, observe, persist_room, answered,
  message_key, after_action, do_action, on_message,
}

module _ {R S : Type 0} (w : World) (stores : RoomStateStore S) (stored : Text → S → ℕ)
    (law : Remembers stores stored) where
  -- The store has the room as it is.
  pub IsStored : Session R S → Type 0
  IsStored s = s.room.state_version ≤ stored (normalize_room_code s.room.code) s.instance_of.store

  persist_room-IsStored :
      (b : Bool) (s : Session R S)
      → (persist_room w stores b s).1 ≡ none
      → IsStored (persist_room w stores b s).0
  unfolding persist_room save_state persisted_state IsStored
  persist_room-IsStored b s e =
      law.saves b
        (record (persisted_state s.room) { instance_id = s.instance_of.manager.instance_id })
        s.instance_of.store e

  -- The session has the room with which an action ended that gave no error, its observer heard, and
  -- the store has this room.
  pub record IsDone (o : Room × (Option ActionError)) (s : Session R S) : Type 0 where
    pub succeeded : o.1 ≡ none
    pub room : s.room ≡ record (o.0) { state_observer = handed_on (o.0).state_observer }
    pub kept : IsStored s

  answered-IsStored :
      (leaving : Bool) (r : Room) (o : Session R S × (Option StateError))
      → o.0.room ≡ r
      → (o.1 ≡ none → IsStored o.0)
      → (answered w stores leaving o).1 ≡ accepted
      → ((answered w stores leaving o).0.room ≡ r) × IsStored (answered w stores leaving o).0
  unfolding answered
  answered-IsStored true r (s, e) f h k = cc
  answered-IsStored false r (s, none) f h k = (f, h refl)
  answered-IsStored false r (s, some x) f h k = cc

  room-persist_room : (b : Bool) (s : Session R S) → (persist_room w stores b s).0.room ≡ s.room
  unfolding persist_room
  room-persist_room b s = refl

  observed-IsDone :
      (b leaving : Bool) (s : Session R S) (o : Room × (Option ActionError))
      → (after_action w stores b leaving (observe w stores o.0 s) o.1).1 ≡ accepted
      → IsDone o (after_action w stores b leaving (observe w stores o.0 s) o.1).0
  unfolding after_action observe
  observed-IsDone b leaving s (r, some x) k = cc
  observed-IsDone b leaving s (r, none) k =
      let t = observe w stores r s in
      let h =
        answered-IsStored leaving t.room (persist_room w stores b t) (room-persist_room b t)
          (persist_room-IsStored b t) k in
      record { succeeded = refl; room = h.0; kept = h.1 }

  do_action-IsDone :
      (b : Bool) (player_id : Text) (msg : ClientMessage) (now : ℕ) (s : Session R S)
      → (do_action w stores b player_id msg now s).1 ≡ accepted
      → IsDone
          (action w player_id msg (record (s.room) { now = now }))
          (do_action w stores b player_id msg now s).0
  unfolding do_action
  do_action-IsDone b player_id msg now s k =
      observed-IsDone b (same msg.type (codes "leave")) s
        (action w player_id msg (record (s.room) { now = now })) k

  -- Over a store that keeps its promise, when a message of a client is accepted, the action that the
  -- message asks for gave no error, the room is as the action left it, and the store has the room at
  -- the version that it has after the message, or at a later one.
  pub on_message-IsStored :
      (b : Bool) (ip player_id : Text) (limit : ℤ) (msg : ClientMessage) (now : ℕ) (s : Session R S)
      → (on_message w stores b ip player_id limit msg now s).1 ≡ accepted
      → IsDone
          (action w player_id msg (record (s.room) { now = now }))
          (on_message w stores b ip player_id limit msg now s).0
  unfolding on_message
  on_message-IsStored b ip player_id limit msg now s k =
      let l = (allow (message_key ip player_id) limit (pos minute) now s.limiter).0 in
      ground (arith, k, do_action-IsDone b player_id msg now (record s { limiter = l }))
