-- ===== src/Room/Step.antt =====
-- Every way in which a room changes while a server runs: the calls of room.go that the HTTP
-- handlers, the sockets and the timers make, each under the room's lock, in any order. The
-- environment may make a timer's call with any sequence number. `Shutdown`, with which an instance gives
-- a room up, is not one of them: it is in Room.Timers, and Manager.Rooms calls it.
use punchline.Base.{ℕ, List, [], ◌∷◌, Option, Text}
use punchline.Room.World.{World}
use punchline.Room.Types.{Room}
use punchline.Room.Join.{try_join, undo_join, attach, detach}
use punchline.Room.Leave.{leave}
use punchline.Room.Submit.{submit_answer, pick_winner}
use punchline.Room.Host.{
  start_game, start_computer_game, next_round, end_game, skip_prompt, play_again,
}
use punchline.Room.Settings.{Settings, update_settings}
use punchline.Room.Timers.{on_deadline, submit_computer_answer, pick_computer_winner, resume}

pub data Call : Type 0 where
  joins : (name : Text) → Call
  undoes_join leaves starts starts_computer advances ends skips plays_again : (player : Text) → Call
  attaches : (player token : Text) (conn : ℕ) → Call
  detaches : (player : Text) (conn : ℕ) → Call
  submits picks : (player card : Text) → Call
  sets : (player : Text) → Option Settings → Call
  deadline : (seq : ℕ) → Call
  submit_turn_due judge_turn_due : (player : Text) (seq : ℕ) → Call
  resumes : Call

module _ (w : World) where
  unfoldable pub handle : Call → Room → Room
  handle (joins name) r = (try_join w name r).0
  handle (undoes_join p) r = undo_join p r
  handle (leaves p) r = (leave w p r).0
  handle (starts p) r = (start_game w p r).0
  handle (starts_computer p) r = (start_computer_game w p r).0
  handle (advances p) r = (next_round w p r).0
  handle (ends p) r = (end_game p r).0
  handle (skips p) r = (skip_prompt w p r).0
  handle (plays_again p) r = (play_again w p r).0
  handle (attaches p token conn) r = (attach p token conn r).0
  handle (detaches p conn) r = detach p conn r
  handle (submits p card) r = (submit_answer w p card r).0
  handle (picks p s) r = (pick_winner p s r).0
  handle (sets p s) r = (update_settings w p s r).0
  handle (deadline seq) r = on_deadline w seq r
  handle (submit_turn_due p seq) r = submit_computer_answer w p seq r
  handle (judge_turn_due p seq) r = pick_computer_winner w p seq r
  handle resumes r = (resume w r).0

  -- A call at a time.
  unfoldable pub step : ℕ × Call → Room → Room
  step (t, c) r = handle c (record r { now = t })

  unfoldable pub run : List (ℕ × Call) → Room → Room
  run [] r = r
  run (c ∷ cs) r = run cs (step c r)
