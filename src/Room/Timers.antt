-- ===== src/Room/Timers.antt =====
-- backend/internal/realtime/room.go: what the timers call (onDeadline, submitComputerAnswer,
-- pickComputerWinner), randomSubmissionID, Resume, Shutdown and Evictable. The lock makes each call
-- one step. `Broadcast` only reads the room.
use punchline.Base.{
  ℕ, ◌+◌, ◌==◌, ◌&&◌, ◌||◌, Bool, true, false, not, List, [], ◌∷◌, Option, none, some,
  if◌then◌else◌, ltb, leb, length, get_elem?, Text, same,
}
use punchline.Cards.Deck.{AnswerCard}
use punchline.Room.World.{World, rand_int}
use punchline.Room.Draw.{no_answer}
use punchline.Room.Types.{Phase, submitting, judging, Player, Submission, Room, RoomError}
use punchline.Room.Roster.{find_player}
use punchline.Room.Persist.{touch}
use punchline.Room.Phase.{begin_judging, award}
use punchline.Room.Turns.{schedule_computer_turns, cannot_submit}
use punchline.Room.Submit.{is_submitting, is_judging, submit_answer_locked}

id_or_empty : Option Submission → Text
id_or_empty none = []
id_or_empty (some s) = s.id

card_or_zero : Option AnswerCard → AnswerCard
card_or_zero none = no_answer
card_or_zero (some c) = c

unfoldable pub is_some_computer : Option Player → Bool
is_some_computer none = false
is_some_computer (some p) = p.is_computer

module _ (w : World) where
  -- `randomSubmissionID`: "" if there is no submission.
  unfoldable pub random_submission_id : ℕ → List Submission → Text
  unfolding rand_int id_or_empty
  random_submission_id seed ss = id_or_empty (get_elem? ss (rand_int w seed (length ss)))

  -- `r.awardLocked(r.randomSubmissionID())`.
  unfoldable pub award_random : Room → Room
  award_random r =
      award (random_submission_id r.seed r.submissions)
        (record r { piles = record (r.piles) { seed = r.seed + 1 } })

  unfoldable pub expire : Phase → Room → Room
  expire submitting r = schedule_computer_turns w (begin_judging r)
  expire judging r = schedule_computer_turns w (award_random r)
  expire _ r = r

  unfoldable pub on_deadline : ℕ → Room → Room
  unfolding expire
  on_deadline seq r = if r.phase_seq == seq then expire r.phase r else r

  -- The card that a computer player chooses; the hand is not empty.
  unfoldable pub random_card : ℕ → List AnswerCard → Text
  unfolding rand_int card_or_zero
  random_card seed hand = (card_or_zero (get_elem? hand (rand_int w seed (length hand)))).id

  after_turn : Room → Room × (Option RoomError) → Room
  unfolding schedule_computer_turns touch
  after_turn r (_, some e) = r
  after_turn r (r', none) = touch (schedule_computer_turns w r')

  unfoldable pub submit_computer_answer : Text → ℕ → Room → Room
  unfolding is_submitting after_turn
  submit_computer_answer player_id phase_seq r =
      if not (r.phase_seq == phase_seq) || not (is_submitting r.phase)
      then r
      else elim (find_player player_id r.players) [
        | none ↦ r
        | some p ↦
            if cannot_submit player_id r.judge_id r.submissions p
            then r
            else (let drawn : Room = record r { piles = record (r.piles) { seed = r.seed + 1 } } in
                after_turn drawn
                  (submit_answer_locked w player_id (random_card r.seed p.hand) drawn))
      ]

  unfoldable pub pick_computer_winner : Text → ℕ → Room → Room
  unfolding is_judging
  pick_computer_winner player_id phase_seq r =
      if not (r.phase_seq == phase_seq)
        || not (is_judging r.phase)
        || not (same r.judge_id player_id)
        || not (is_some_computer (find_player player_id r.players))
        || leb (length r.submissions) 0
      then r
      else touch (award_random r)

  -- `Resume`: the second part is true if the phase is over and `onDeadline` runs at once.
  unfoldable pub resume : Room → Room × Bool
  unfolding schedule_computer_turns
  resume r =
      let s = schedule_computer_turns w r in
      elim s.timer [
        | some _ ↦ (s, false)
        | none ↦
            if s.phase_deadline == 0
            then (s, false)
            else if ltb s.now s.phase_deadline
            then (record s { timer = some s.phase_seq }, false)
            else (s, true)
      ]

-- `Shutdown`, which also closes every connection.
unfoldable pub shutdown : Room → Room
shutdown r = record r { state_observer = none; timer = none }

unfoldable pub evictable : ℕ → Room → Bool
evictable cutoff r = leb (length r.clients) 0 && ltb r.updated_at cutoff

unfoldable pub connected_human_players : List Player → ℕ
connected_human_players [] = 0
connected_human_players (p ∷ ps) =
    let rest = connected_human_players ps in
    if p.connected && not p.is_computer then rest + 1 else rest
