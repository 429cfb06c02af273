-- ===== src/Room/Submit.antt =====
-- backend/internal/realtime/room.go: SubmitAnswer, submitAnswerLocked and PickWinner.
use punchline.Base.{
  ◌+◌, Bool, true, false, List, [], ◌∷◌, Option, none, some, if◌then◌else◌, not, Text, codes, same,
}
use punchline.Cards.Deck.{AnswerCard}
use punchline.Room.World.{World, new_id}
use punchline.Room.Types.{
  Phase, lobby, submitting, judging, scoring, finished, Player, Submission, answer_played, Room,
  RoomError, not_found, not_accepting, judge_submits, already_submitted, not_in_hand, not_judging,
  only_judge, submission_not_found,
}
use punchline.Room.Roster.{find_player, put_player, find_submission, put_submission, has_submission}
use punchline.Room.Persist.{touch}
use punchline.Room.Phase.{record_answer, all_answerers_submitted, begin_judging, award}
use punchline.Room.Turns.{schedule_computer_turns}

-- The first card of a hand with the id, and the hand without it.
unfoldable pub take_card : Text → List AnswerCard → Option (AnswerCard × List AnswerCard)
take_card id [] = none
take_card id (c ∷ cs) =
    if same c.id id
    then some (c, cs)
    else elim (take_card id cs) [ none ↦ none | some (a, rest) ↦ some (a, c ∷ rest) ]

unfoldable pub is_submitting : Phase → Bool
is_submitting submitting = true
is_submitting lobby = false
is_submitting judging = false
is_submitting scoring = false
is_submitting finished = false

unfoldable pub is_judging : Phase → Bool
is_judging judging = true
is_judging lobby = false
is_judging submitting = false
is_judging scoring = false
is_judging finished = false

module _ (w : World) where
  -- The room with the card on the table.
  unfoldable pub put_on_table : Player → AnswerCard → List AnswerCard → Room → Room
  unfolding record_answer
  put_on_table p answer hand' r =
      let sub : Submission = record {
        id = new_id w r.seed (codes "sub");
        player_id = p.id;
        player_name = p.name;
        answer = answer;
        submitted_at = r.now;
        is_winner = false;
      } in
      record_answer answer_played answer (record r {
        piles = record (r.piles) { seed = r.seed + 1 };
        players = put_player (record p { hand = hand' }) r.players;
        submissions = put_submission sub r.submissions;
      })

  -- `if r.allAnswerersSubmitted() { r.beginJudgingLocked() }`.
  unfoldable pub close_if_complete : Room → Room
  unfolding all_answerers_submitted
  close_if_complete r = if all_answerers_submitted r then begin_judging r else r

  unfoldable pub play_card : Player → Text → Room → Room × (Option RoomError)
  play_card p answer_id r = elim (take_card answer_id p.hand) [
    | none ↦ (r, some not_in_hand)
    | some (answer, hand') ↦ (close_if_complete (put_on_table p answer hand' r), none)
  ]

  unfoldable pub submit_answer_locked : Text → Text → Room → Room × (Option RoomError)
  unfolding is_submitting
  submit_answer_locked player_id answer_id r =
      if not (is_submitting r.phase)
      then (r, some not_accepting)
      else if same player_id r.judge_id
      then (r, some judge_submits)
      else elim (find_player player_id r.players) [
        | none ↦ (r, some not_found)
        | some p ↦
            if has_submission player_id r.submissions
            then (r, some already_submitted)
            else play_card p answer_id r
      ]

  -- What follows a submission that was accepted.
  unfoldable pub after_submit : Room × (Option RoomError) → Room × (Option RoomError)
  unfolding schedule_computer_turns touch
  after_submit (r, some e) = (r, some e)
  after_submit (r, none) = (touch (schedule_computer_turns w r), none)

  unfoldable pub submit_answer : Text → Text → Room → Room × (Option RoomError)
  unfolding after_submit
  submit_answer player_id answer_id r = after_submit (submit_answer_locked player_id answer_id r)

unfoldable pub pick_winner : Text → Text → Room → Room × (Option RoomError)
unfolding is_judging
pick_winner judge_id submission_id r =
    if not (is_judging r.phase)
    then (r, some not_judging)
    else if not (same judge_id r.judge_id)
    then (r, some only_judge)
    else elim (find_submission submission_id r.submissions) [
      | none ↦ (r, some submission_not_found)
      | some s ↦ (award submission_id r, none)
    ]
