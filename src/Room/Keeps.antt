-- ===== src/Room/Keeps.antt =====
-- What most operations leave alone: the roster, the limits and the deck that the room came with.
pub mod Timers
pub mod Clients
use punchline.Base.{
  ℕ, ◌+◌, ◌*◌, ◌%◌, ◌≤◌, ◌≡◌, refl, List, Text, arith, Option-cases, some, inl, inr, length,
  get_elem?,
}
use punchline.Cards.Deck.{AnswerCard}
use punchline.Room.World.{World}
use punchline.Room.Types.{Phase, submitting, Player, Room}
use punchline.Room.Draw.{draw_prompt}
use punchline.Room.Roster.{find_player}
use punchline.Room.Persist.{touch}
use punchline.Room.Phase.{second, set_phase, begin_judging, award, grant_point, submission_or_zero}
use punchline.Room.Round.{open_round, begin_round}
use punchline.Room.Turns.{submit_turns, schedule_computer_turns}
use punchline.Room.Submit.{
  put_on_table, close_if_complete, play_card, take_card, submit_answer_locked, submit_answer,
  pick_winner,
}
use punchline.Room.Host.{
  run_round, swap_prompt, skip_prompt, reset_game, play_again, end_game, start_game, next_round,
}
use punchline.Room.Ids.{ids, ids-put_player, ids-return_cards}
use punchline.Room.Piled.{
  ids-deal_round, deal_round-seed, draw_prompt-seed, ids-reset_players, reset_players-seed,
}

pub record Keeps (r s : Room) : Type 0 where
  pub order : s.order ≡ r.order
  pub roster : ids s.players ≡ ids r.players
  pub score_limit : s.score_limit ≡ r.score_limit
  pub submit_secs : s.submit_secs ≡ r.submit_secs
  pub max_players : s.max_players ≡ r.max_players
  pub full_deck : s.full_deck ≡ r.full_deck
  pub seed : r.seed ≤ s.seed

pub Keeps-refl : (r : Room) → Keeps r r
Keeps-refl r = ground arith

pub Keeps-trans : (r s t : Room) → Keeps r s → Keeps s t → Keeps r t
Keeps-trans r s t h k = ground arith

pub touch-Keeps : (r : Room) → Keeps r (touch r)
unfolding touch
touch-Keeps r = ground arith

pub set_phase-Keeps : (p : Phase) (d : ℕ) (r : Room) → Keeps r (set_phase p d r)
unfolding set_phase
set_phase-Keeps p d r = ground arith

pub begin_judging-Keeps : (r : Room) → Keeps r (begin_judging r)
unfolding begin_judging
begin_judging-Keeps r = ground arith

ids-grant_point :
    (id : Text) (limit : ℕ) (ps : List Player) → ids (grant_point id limit ps).0 ≡ ids ps
unfolding grant_point
ids-grant_point id limit ps = elim (Option-cases (find_player id ps)) [
  | inl e ↦ rw (e, grant_point) refl
  | inr (q, e) ↦ rw (e, grant_point) (ids-put_player id q _ ps e refl)
]

pub award-Keeps : (id : Text) (r : Room) → Keeps r (award id r)
unfolding award
award-Keeps id r =
    ground (
      arith,
      ids-grant_point (submission_or_zero id r.submissions).player_id r.score_limit r.players,
    )

pub pick_winner-Keeps : (judge sub : Text) (r : Room) → Keeps r (pick_winner judge sub r).0
unfolding pick_winner
pick_winner-Keeps judge sub r = ground (arith, award-Keeps sub r)

pub end_game-Keeps : (p : Text) (r : Room) → Keeps r (end_game p r).0
unfolding end_game
end_game-Keeps p r = ground arith

module _ (w : World) where
  submit_turns-seed : (r : Room) (n : ℕ) (js : List Text) → n ≤ (submit_turns w r n js).1
  unfolding submit_turns
  submit_turns-seed r n List.[] = omega arith
  submit_turns-seed r n (List.◌∷◌ j js) =
      ground (arith, submit_turns-seed r n js, submit_turns-seed r (n + 1) js)

  pub schedule-Keeps : (r : Room) → Keeps r (schedule_computer_turns w r)
  unfolding schedule_computer_turns
  schedule-Keeps r = ground (arith, submit_turns-seed r r.seed r.order)

  put_on_table-Keeps :
      (id : Text) (q : Player) (a : AnswerCard) (h : List AnswerCard) (r : Room)
      → find_player id r.players ≡ some q
      → Keeps r (put_on_table w q a h r)
  unfolding put_on_table
  put_on_table-Keeps id q a h r e =
      ground (arith, ids-put_player id q (record q { hand = h }) r.players e refl)

  play_card-Keeps :
      (id card : Text) (q : Player) (r : Room)
      → find_player id r.players ≡ some q
      → Keeps r (play_card w q card r).0
  unfolding play_card close_if_complete
  play_card-Keeps id card q r e = elim (Option-cases (take_card card q.hand)) [
    | inl f ↦ rw (f, play_card) (Keeps-refl r)
    | inr (c, f) ↦
        rw (f, play_card)
          (ground (
            arith,
            put_on_table-Keeps id q c.0 c.1 r e,
            begin_judging-Keeps (put_on_table w q c.0 c.1 r),
          ))
  ]

  pub submit_locked-Keeps :
      (id card : Text) (r : Room) → Keeps r (submit_answer_locked w id card r).0
  unfolding submit_answer_locked
  submit_locked-Keeps id card r = elim (Option-cases (find_player id r.players)) [
    | inl e ↦ ground arith
    | inr (q, e) ↦ ground (arith, play_card-Keeps id card q r e, Keeps-refl r)
  ]

  pub submit_answer-Keeps : (id card : Text) (r : Room) → Keeps r (submit_answer w id card r).0
  unfolding submit_answer
  submit_answer-Keeps id card r =
      ground
        (arith, submit_locked-Keeps id card r, schedule-Keeps (submit_answer_locked w id card r).0)

  pub open_round-Keeps : (judge : Text) (r : Room) → Keeps r (open_round w judge r)
  unfolding open_round
  open_round-Keeps judge r = ground (
    arith,
    ids-deal_round w judge r.order r.players (draw_prompt w r.piles).1,
    deal_round-seed w judge r.order r.players (draw_prompt w r.piles).1,
    draw_prompt-seed w r.piles,
  )

  begin_round-Keeps : (r : Room) → Keeps r (begin_round w r)
  unfolding begin_round
  begin_round-Keeps r = elim (Option-cases (get_elem? r.order (r.judge_index % length r.order))) [
    | inl e ↦ rw (e, begin_round) (ground arith)
    | inr (j, e) ↦ rw (e, begin_round) (open_round-Keeps j r)
  ]

  pub run_round-Keeps : (i : ℕ) (r : Room) → Keeps r (run_round w i r)
  unfolding run_round
  run_round-Keeps i r =
      let s : Room = record r { judge_index = i } in
      ground (arith, begin_round-Keeps s, schedule-Keeps (begin_round w s))

  pub start_game-Keeps : (p : Text) (r : Room) → Keeps r (start_game w p r).0
  unfolding start_game
  start_game-Keeps p r = ground (arith, run_round-Keeps 0 r, Keeps-refl r)

  pub next_round-Keeps : (p : Text) (r : Room) → Keeps r (next_round w p r).0
  unfolding next_round
  next_round-Keeps p r =
      ground (arith, run_round-Keeps ((r.judge_index + 1) % length r.order) r, Keeps-refl r)

  swap_prompt-Keeps : (r : Room) → Keeps r (swap_prompt w r)
  unfolding swap_prompt
  swap_prompt-Keeps r =
      ground (arith, draw_prompt-seed w r.piles, ids-return_cards r.submissions r.players)

  pub skip_prompt-Keeps : (p : Text) (r : Room) → Keeps r (skip_prompt w p r).0
  unfolding skip_prompt
  skip_prompt-Keeps p r =
      let s = set_phase submitting (r.submit_secs * second) (swap_prompt w r) in
      ground (
        arith,
        Keeps-refl r,
        swap_prompt-Keeps r,
        set_phase-Keeps submitting (r.submit_secs * second) (swap_prompt w r),
        schedule-Keeps s,
        touch-Keeps (schedule_computer_turns w s),
      )

  pub play_again-Keeps : (p : Text) (r : Room) → Keeps r (play_again w p r).0
  unfolding play_again reset_game
  play_again-Keeps p r =
      ground (arith, ids-reset_players w r.players r.piles, reset_players-seed w r.players r.piles)
