-- ===== src/Room/Phase.antt =====
-- backend/internal/realtime/room.go: setPhaseLocked, beginJudgingLocked, awardLocked,
-- allAnswerersSubmitted and the telemetry calls.
use punchline.Base.{
  ℕ, ◌+◌, ◌-◌, ◌*◌, ◌&&◌, Bool, true, false, List, [], ◌∷◌, Option, none, some, if◌then◌else◌, ltb,
  leb, length, Text,
}
use punchline.Cards.Deck.{PromptCard, AnswerCard}
use punchline.Room.Draw.{no_answer}
use punchline.Room.Types.{
  Phase, judging, scoring, finished, Player, Submission, CardEvent, answer_won, Room,
}
use punchline.Room.Roster.{find_player, put_player, find_submission, put_submission}
use punchline.Room.Persist.{touch}

abbrev pub second : ℕ
second = 1000000000

abbrev pub judge_duration : ℕ
judge_duration = 45 * second

-- `recordPromptLocked` and `recordAnswerLocked`, for each metric that they are called with.
unfoldable pub record_event : CardEvent → Room → Room
record_event e r = record r {
  telemetry = elim r.telemetry [ none ↦ none | some log ↦ some (e ∷ log) ];
}

unfoldable pub record_prompt : (Text → CardEvent) → Option PromptCard → Room → Room
unfolding record_event
record_prompt metric none r = r
record_prompt metric (some card) r = record_event (metric card.uuid) r

unfoldable pub record_answer : (Text → CardEvent) → AnswerCard → Room → Room
unfolding record_event
record_answer metric card r = record_event (metric card.uuid) r

unfoldable pub set_phase : Phase → ℕ → Room → Room
set_phase p d r = record r {
  phase = p;
  phase_seq = r.phase_seq + 1;
  timer = if ltb 0 d then some (r.phase_seq + 1) else none;
  phase_deadline = if ltb 0 d then r.now + d else 0;
}

unfoldable pub all_answerers_submitted : Room → Bool
all_answerers_submitted r =
    ltb 1 (length r.order) && leb (length r.order - 1) (length r.submissions)

unfoldable pub begin_judging : Room → Room
unfolding set_phase touch
begin_judging r =
    if leb (length r.submissions) 0
    then touch (set_phase scoring 0 r)
    else touch (set_phase judging judge_duration r)

-- A missing submission reads as the zero value.
unfoldable pub submission_or_zero : Text → List Submission → Submission
unfolding find_submission
submission_or_zero id ss = elim (find_submission id ss) [
  | none ↦ record {
    id = [];
    player_id = [];
    player_name = [];
    answer = no_answer;
    submitted_at = 0;
    is_winner = false;
  }
  | some s ↦ s
]

-- The players and whether the limit is reached, after a point for `id`.
unfoldable pub grant_point : Text → ℕ → List Player → List Player × Bool
unfolding find_player put_player
grant_point id limit ps = elim (find_player id ps) [
  | none ↦ (ps, false)
  | some p ↦ (put_player (record p { score = p.score + 1 }) ps, leb limit (p.score + 1))
]

-- `sub.IsWinner = true; r.submissions[submissionID] = sub`, where a missing id adds an entry. It is
-- only called with an id of a submission, or with "" when there is none.
unfoldable pub mark_winner : Text → List Submission → List Submission
unfolding submission_or_zero put_submission
mark_winner id ss = put_submission (record (submission_or_zero id ss) { is_winner = true }) ss

unfoldable pub award : Text → Room → Room
unfolding mark_winner grant_point record_answer set_phase touch
award submission_id r =
    let sub = submission_or_zero submission_id r.submissions in
    let (players', reached_limit) = grant_point sub.player_id r.score_limit r.players in
    touch (
      set_phase (if reached_limit then finished else scoring) 0 (
        record_answer answer_won sub.answer
          (record r { submissions = mark_winner submission_id r.submissions; players = players' })))
