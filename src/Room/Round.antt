-- ===== src/Room/Round.antt =====
-- backend/internal/realtime/room.go: beginRoundLocked.
use punchline.Base.{◌+◌, ◌*◌, ◌%◌, true, List, [], ◌∷◌, none, some, length, get_elem?, Text, same}
use punchline.Room.World.{World}
use punchline.Room.Draw.{draw_prompt, refill_hand}
use punchline.Room.Types.{Player, Piles, Room, submitting, prompt_played}
use punchline.Room.Roster.{find_player, put_player}
use punchline.Room.Persist.{touch}
use punchline.Room.Phase.{second, record_prompt, set_phase}

module _ (w : World) where
  -- One round of the loop over the order: an id without a player is a nil dereference.
  unfoldable pub deal_to : Text → Text → List Player → Piles → List Player × Piles
  unfolding find_player put_player refill_hand
  deal_to judge id ps p = elim (find_player id ps) [
    | none ↦ (ps, record p { panicked = true })
    | some q ↦
        let (hand', p') = refill_hand w q.hand p in
        (put_player (record q { is_judge = same id judge; hand = hand' }) ps, p')
  ]

  unfoldable pub deal_round : Text → List Text → List Player → Piles → List Player × Piles
  unfolding deal_to
  deal_round judge [] ps p = (ps, p)
  deal_round judge (id ∷ ids) ps p =
      let (ps', p') = deal_to judge id ps p in deal_round judge ids ps' p'

  -- The round after the judge is known.
  unfoldable pub open_round : Text → Room → Room
  unfolding record_prompt set_phase touch
  open_round judge r =
      let (card, drawn) = draw_prompt w r.piles in
      let (players', dealt) = deal_round judge r.order r.players drawn in
      touch (
        set_phase submitting (r.submit_secs * second)
          (record (record_prompt prompt_played (some card) r) {
            round_number = r.round_number + 1;
            submissions = [];
            prompt = some card;
            judge_id = judge;
            players = players';
            piles = dealt;
          }))

  -- `r.order[r.judgeIndex%len(r.order)]` panics on an empty order.
  unfoldable pub begin_round : Room → Room
  begin_round r = elim (get_elem? r.order (r.judge_index % length r.order)) [
    | none ↦ record r { piles = record (r.piles) { panicked = true } }
    | some judge ↦ open_round judge r
  ]
