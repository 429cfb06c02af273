-- ===== src/Room/Keeps/Timers.antt =====
-- The timers' calls leave the roster and the limits alone.
use punchline.Base.{ℕ, ◌+◌, Text, arith, Option-cases, inl, inr}
use punchline.Room.World.{World}
use punchline.Room.Types.{Room}
use punchline.Room.Roster.{find_player}
use punchline.Room.Phase.{begin_judging}
use punchline.Room.Submit.{submit_answer_locked}
use punchline.Room.Timers.{
  random_submission_id, random_card, award_random, on_deadline, submit_computer_answer,
  pick_computer_winner, resume,
}
use punchline.Room.Keeps.{
  Keeps, Keeps-refl, touch-Keeps, begin_judging-Keeps, award-Keeps, schedule-Keeps,
  submit_locked-Keeps,
}

-- The room after one draw from the random source.
abbrev pub drawn : Room → Room
drawn r = record r { piles = record (r.piles) { seed = r.seed + 1 } }

module _ (w : World) where
  award_random-Keeps : (r : Room) → Keeps r (award_random w r)
  unfolding award_random
  award_random-Keeps r =
      ground (arith, award-Keeps (random_submission_id w r.seed r.submissions) (drawn r))

  pub on_deadline-Keeps : (seq : ℕ) (r : Room) → Keeps r (on_deadline w seq r)
  unfolding on_deadline
  on_deadline-Keeps seq r = ground (
    arith,
    Keeps-refl r,
    begin_judging-Keeps r,
    schedule-Keeps w (begin_judging r),
    award_random-Keeps r,
    schedule-Keeps w (award_random w r),
  )

  pub submit_computer_answer-Keeps :
      (id : Text) (seq : ℕ) (r : Room) → Keeps r (submit_computer_answer w id seq r)
  unfolding submit_computer_answer
  submit_computer_answer-Keeps id seq r = elim (Option-cases (find_player id r.players)) [
    | inl e ↦ ground (arith, Keeps-refl r)
    | inr (p, e) ↦ ground (
      arith,
      Keeps-refl r,
      submit_locked-Keeps w id (random_card w r.seed p.hand) (drawn r),
      schedule-Keeps w (submit_answer_locked w id (random_card w r.seed p.hand) (drawn r)).0,
    )
  ]

  pub pick_computer_winner-Keeps :
      (id : Text) (seq : ℕ) (r : Room) → Keeps r (pick_computer_winner w id seq r)
  unfolding pick_computer_winner
  pick_computer_winner-Keeps id seq r =
      ground (arith, Keeps-refl r, award_random-Keeps r, touch-Keeps (award_random w r))

  pub resume-Keeps : (r : Room) → Keeps r (resume w r).0
  unfolding resume
  resume-Keeps r = ground (arith, schedule-Keeps w r)
