-- ===== src/Room/Turns.antt =====
-- backend/internal/realtime/room.go: scheduleComputerTurnsLocked.
use punchline.Base.{
  ℕ, ◌+◌, ◌*◌, ◌||◌, not, Bool, true, List, [], ◌∷◌, ◌++◌, Option, none, some, if◌then◌else◌, leb,
  length, Text, same,
}
use punchline.Room.World.{World, rand_int}
use punchline.Room.Types.{
  Phase, submitting, judging, Player, Submission, Task, submit_turn, judge_turn, Room,
}
use punchline.Room.Roster.{find_player, has_submission}

abbrev pub millisecond : ℕ
millisecond = 1000000

abbrev pub computer_submit_delay : ℕ
computer_submit_delay = 900 * millisecond

abbrev pub computer_judge_delay : ℕ
computer_judge_delay = 1300 * millisecond

abbrev pub computer_delay_jitter : ℕ
computer_delay_jitter = 900

-- The `continue` condition for a player that is there.
unfoldable pub cannot_submit : Text → Text → List Submission → Player → Bool
unfolding has_submission
cannot_submit id judge ss p =
    not p.is_computer || same id judge || has_submission id ss || leb (length p.hand) 0

unfoldable pub idle : Text → Text → List Submission → Option Player → Bool
unfolding cannot_submit
idle id judge ss none = true
idle id judge ss (some p) = cannot_submit id judge ss p

module _ (w : World) where
  delay_from : ℕ → ℕ → ℕ
  unfolding rand_int
  delay_from seed base = base + rand_int w seed computer_delay_jitter * millisecond

  -- The loop of the answer phase: the turns that are added, and the number of the next draw.
  unfoldable pub submit_turns : Room → ℕ → List Text → List Task × ℕ
  unfolding find_player idle delay_from
  submit_turns r seed [] = ([], seed)
  submit_turns r seed (id ∷ ids) =
      let skipped = submit_turns r seed ids in
      let rest = submit_turns r (seed + 1) ids in
      if idle id r.judge_id r.submissions (find_player id r.players)
      then skipped
      else (submit_turn (delay_from seed computer_submit_delay) id r.phase_seq ∷ rest.0, rest.1)

  -- The judging phase.
  unfoldable pub judge_turns : Room → ℕ → Option Player → List Task × ℕ
  unfolding delay_from
  judge_turns r seed none = ([], seed)
  judge_turns r seed (some judge) =
      if not judge.is_computer || leb (length r.submissions) 0
      then ([], seed)
      else (judge_turn (delay_from seed computer_judge_delay) r.judge_id r.phase_seq ∷ [], seed + 1)

  turns : Phase → Room → List Task × ℕ
  unfolding submit_turns judge_turns
  turns submitting r = submit_turns r r.seed r.order
  turns judging r = judge_turns r r.seed (find_player r.judge_id r.players)
  turns _ r = ([], r.seed)

  unfoldable pub schedule_computer_turns : Room → Room
  unfolding turns
  schedule_computer_turns r =
      let (tasks, seed') = turns r.phase r in
      record r { scheduled = r.scheduled ++ tasks; piles = record (r.piles) { seed = seed' } }
