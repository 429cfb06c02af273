-- ===== src/Room/Refusals.antt =====
-- Calls that a room refuses or ignores.
use punchline.Base.{ℕ, ◌≡◌, ◌≢◌, Text, arith}
use punchline.Base.{refl, ◌⊎◌, inl, Option, none, some}
use punchline.Room.Types.{RoomError}
use punchline.Room.Settings.{Settings}
use punchline.Room.Join.{try_join, attach}
use punchline.Room.Leave.{leave}
use punchline.Room.Submit.{
  submit_answer, submit_answer_locked, pick_winner, after_submit, play_card,
}
use punchline.Room.World.{World}
use punchline.Room.Types.{Room}
use punchline.Room.Step.{
  Call, starts, starts_computer, advances, ends, skips, plays_again, sets, deadline,
  submit_turn_due, judge_turn_due, handle,
}
use punchline.Room.Host.{
  start_game, start_computer_game, next_round, end_game, skip_prompt, play_again,
}
use punchline.Room.Settings.{update_settings}
use punchline.Room.Timers.{on_deadline, submit_computer_answer, pick_computer_winner}

-- The call is a command of the host that `p` gives.
abbrev pub IsCommand : Text → Call → Type 0
IsCommand p (starts q) = q ≡ p
IsCommand p (starts_computer q) = q ≡ p
IsCommand p (advances q) = q ≡ p
IsCommand p (ends q) = q ≡ p
IsCommand p (skips q) = q ≡ p
IsCommand p (plays_again q) = q ≡ p
IsCommand p (sets q s) = q ≡ p
IsCommand p _ = ⊥

-- The call is a timer's that was set in the phase of another sequence number than `seq`.
abbrev pub IsStale : ℕ → Call → Type 0
IsStale seq (deadline k) = k ≢ seq
IsStale seq (submit_turn_due p k) = k ≢ seq
IsStale seq (judge_turn_due p k) = k ≢ seq
IsStale seq _ = ⊥

-- A request gives no error, or leaves the room as it was.
abbrev pub IsAtomic : Room → Room × (Option RoomError) → Type 0
IsAtomic r reply = (reply.1 ≡ none) ⊎ (reply.0 ≡ r)

module _ (w : World) where
  -- A command of the host that anybody else gives changes nothing in the room.
  pub handle-command :
      (p : Text) (c : Call) (r : Room) → IsCommand p c → p ≢ r.host_id → handle w c r ≡ r
  unfolding handle start_game start_computer_game next_round end_game skip_prompt play_again
      update_settings
  handle-command p (starts q) r h n = ground arith
  handle-command p (starts_computer q) r h n = ground arith
  handle-command p (advances q) r h n = ground arith
  handle-command p (ends q) r h n = ground arith
  handle-command p (skips q) r h n = ground arith
  handle-command p (plays_again q) r h n = ground arith
  handle-command p (sets q s) r h n = ground arith
  handle-command p _ r h n = absurd h

  -- A timer that was set under another phase number than the present one changes nothing in the room
  -- when it fires.
  pub handle-stale : (c : Call) (r : Room) → IsStale r.phase_seq c → handle w c r ≡ r
  unfolding handle on_deadline submit_computer_answer pick_computer_winner
  handle-stale (deadline k) r h = ground arith
  handle-stale (submit_turn_due p k) r h = ground arith
  handle-stale (judge_turn_due p k) r h = ground arith
  handle-stale _ r h = absurd h

  submit_answer_locked-IsAtomic :
      (p card : Text) (r : Room) → IsAtomic r (submit_answer_locked w p card r)
  unfolding submit_answer_locked play_card
  submit_answer_locked-IsAtomic p card r = ground arith

  after_submit-IsAtomic :
      (r : Room) (o : Room × (Option RoomError)) → IsAtomic r o → IsAtomic r (after_submit w o)
  unfolding after_submit
  after_submit-IsAtomic r (s, none) h = inl refl
  after_submit-IsAtomic r (s, some e) h = h

  submit_answer-IsAtomic : (p card : Text) (r : Room) → IsAtomic r (submit_answer w p card r)
  unfolding submit_answer
  submit_answer-IsAtomic p card r =
      after_submit-IsAtomic r (submit_answer_locked w p card r)
        (submit_answer_locked-IsAtomic p card r)

  -- Joining, leaving, attaching, answering, picking a winner and each command of the host but the
  -- start of a game with computer players either gives no error or changes nothing in the room.
  pub requests-IsAtomic :
      (p name token card submission : Text) (conn : ℕ) (s : Option Settings) (r : Room)
      → IsAtomic r (try_join w name r)
        × IsAtomic r (leave w p r)
        × IsAtomic r (attach p token conn r)
        × IsAtomic r (submit_answer w p card r)
        × IsAtomic r (pick_winner p submission r)
        × IsAtomic r (start_game w p r)
        × IsAtomic r (next_round w p r)
        × IsAtomic r (end_game p r)
        × IsAtomic r (skip_prompt w p r)
        × IsAtomic r (play_again w p r)
        × IsAtomic r (update_settings w p s r)
  unfolding try_join leave attach submit_answer pick_winner start_game next_round end_game
      skip_prompt play_again update_settings
  requests-IsAtomic p name token card submission conn s r = (
    ground arith,
    ground arith,
    ground arith,
    submit_answer-IsAtomic p card r,
    ground arith,
    ground arith,
    ground arith,
    ground arith,
    ground arith,
    ground arith,
    ground arith,
  )
