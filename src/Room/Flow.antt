-- ===== src/Room/Flow.antt =====
-- The flow of a game: a round has enough players, the answer phase ends with the last answer, and a
-- timed phase has its timer armed.
pub mod Steps
pub mod Turns
use punchline.Base.{◌+◌, ◌≤◌, ◌<◌, ◌≡◌, true, false, some, none, length, arith, Text}
use punchline.Room.Types.{Phase, lobby, submitting, judging, scoring, finished, Room}
use punchline.Room.Persist.{touch}
use punchline.Room.Phase.{set_phase, begin_judging, award}
use punchline.Room.Leave.{in_play, answering}

pub record IsFlowing (r : Room) : Type 0 where
  pub populated : in_play r.phase ≡ true → 3 ≤ length r.order
  -- Somebody who is not the judge has not answered.
  pub waiting : r.phase ≡ submitting → length r.submissions + 1 < length r.order
  pub answered : r.phase ≡ judging → 0 < length r.submissions
  pub armed : answering r.phase ≡ true → r.timer ≡ some r.phase_seq
  pub unarmed : answering r.phase ≡ false → (r.timer ≡ none) × (r.phase_deadline ≡ 0)

-- A phase that no timer ends needs nothing but the players.
pub untimed-IsFlowing :
    (p : Phase) (r : Room)
    → answering p ≡ false
    → (in_play p ≡ true → 3 ≤ length r.order)
    → IsFlowing (set_phase p 0 r)
unfolding set_phase answering in_play
untimed-IsFlowing lobby r h k = ground arith
untimed-IsFlowing submitting r h k = ground arith
untimed-IsFlowing judging r h k = ground arith
untimed-IsFlowing scoring r h k = ground arith
untimed-IsFlowing finished r h k = ground arith

pub touch-IsFlowing : (r : Room) → IsFlowing r → IsFlowing (touch r)
unfolding touch
touch-IsFlowing r v = record {
  populated = v.populated;
  waiting = v.waiting;
  answered = v.answered;
  armed = v.armed;
  unarmed = v.unarmed;
}

pub begin_judging-IsFlowing : (r : Room) → 3 ≤ length r.order → IsFlowing (begin_judging r)
unfolding begin_judging answering in_play
begin_judging-IsFlowing r h = ground arith

pub award-IsFlowing : (id : Text) (r : Room) → 3 ≤ length r.order → IsFlowing (award id r)
unfolding award answering in_play
award-IsFlowing id r h = ground arith
