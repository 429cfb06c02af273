-- ===== src/Room/NoPanic/Others.antt =====
-- The calls that deal no cards do not panic on a coherent roster.
use punchline.Base.{
  ℕ, ◌&&◌, ◌≡◌, refl, ◌∙◌, ap, Bool, false, List, [], ◌∷◌, Text, arith, Option-cases, inl, inr,
}
use punchline.Cards.Deck.{AnswerCard}
use punchline.Room.World.{World}
use punchline.Room.Types.{Phase, submitting, judging, scoring, finished, Player, Room}
use punchline.Room.Roster.{find_player, put_player, return_cards, remove_id}
use punchline.Room.Persist.{touch}
use punchline.Room.Phase.{begin_judging}
use punchline.Room.Join.{undo_join, unseat, attach, detach, drop_client}
use punchline.Room.Leave.{
  answering, remove_player, clear_judge, void_round, settle, apply_roster_loss, leave,
}
use punchline.Room.Submit.{
  put_on_table, close_if_complete, play_card, take_card, submit_answer_locked, submit_answer,
  pick_winner,
}
use punchline.Room.Host.{end_game}
use punchline.Room.Timers.{
  random_submission_id, random_card, award_random, on_deadline, submit_computer_answer,
  pick_computer_winner, resume,
}
use punchline.Room.Ids.{
  ids, AllKnown, ids-AllKnown, same-AllKnown, here, there, ids-put_player, ids-return_cards,
  ids-delete_player,
}
use punchline.Room.Keeps.Timers.{drawn}
use punchline.Room.NoPanic.{
  SamePiles, SamePiles-refl, SamePiles-trans, touch-SamePiles, set_phase-SamePiles,
  begin_judging-SamePiles, award-SamePiles, schedule-SamePiles,
}

pub end_game-SamePiles : (p : Text) (r : Room) → SamePiles r (end_game p r).0
unfolding end_game
end_game-SamePiles p r = ground arith

pub pick_winner-SamePiles : (j s : Text) (r : Room) → SamePiles r (pick_winner j s r).0
unfolding pick_winner
pick_winner-SamePiles j s r = ground (arith, award-SamePiles s r, SamePiles-refl r)

pub attach-SamePiles :
    (id token : Text) (conn : ℕ) (r : Room) → SamePiles r (attach id token conn r).0
unfolding attach
attach-SamePiles id token conn r = ground arith

drop_client-SamePiles : (id : Text) (r : Room) → SamePiles r (drop_client id r)
unfolding drop_client
drop_client-SamePiles id r = ground arith

pub detach-SamePiles : (id : Text) (conn : ℕ) (r : Room) → SamePiles r (detach id conn r)
unfolding detach
detach-SamePiles id conn r = ground (arith, drop_client-SamePiles id r)

unseat-SamePiles : (p : Player) (r : Room) → SamePiles r (unseat p r)
unfolding unseat touch
unseat-SamePiles p r = ground arith

pub undo_join-SamePiles : (id : Text) (r : Room) → SamePiles r (undo_join id r)
unfolding undo_join
undo_join-SamePiles id r = elim (Option-cases (find_player id r.players)) [
  | inl e ↦ rw (e, undo_join) (SamePiles-refl r)
  | inr (p, e) ↦ rw (e, undo_join) (ground (arith, SamePiles-refl r, unseat-SamePiles p r))
]

clear_judge_calm :
    (js : List Text) (ps : List Player) (b : Bool) → AllKnown ps js → (clear_judge js ps b).1 ≡ b
unfolding clear_judge
clear_judge_calm [] ps b k = refl
clear_judge_calm (id ∷ js) ps b k =
    let (p, e) = k id (here refl) in
    rw (e, clear_judge)
      (clear_judge_calm js (put_player (record p { is_judge = false }) ps) b
        (same-AllKnown _ ps js (ids-put_player id p _ ps e refl) (λ j h. k j (there h))))

void_round-SamePiles : (r : Room) → ids r.players ≡ r.order → SamePiles r (void_round r)
unfolding void_round
void_round-SamePiles r k = ground (
  arith,
  clear_judge_calm r.order (return_cards r.submissions r.players) r.panicked
      (ids-AllKnown _ r.order (ids-return_cards r.submissions r.players ∙ k)),
)

module _ (w : World) where
  put_on_table-SamePiles :
      (q : Player) (a : AnswerCard) (h : List AnswerCard) (r : Room)
      → SamePiles r (put_on_table w q a h r)
  unfolding put_on_table
  put_on_table-SamePiles q a h r = ground arith

  play_card-SamePiles : (card : Text) (q : Player) (r : Room) → SamePiles r (play_card w q card r).0
  unfolding play_card close_if_complete
  play_card-SamePiles card q r = elim (Option-cases (take_card card q.hand)) [
    | inl f ↦ rw (f, play_card) (SamePiles-refl r)
    | inr (c, f) ↦
        rw (f, play_card)
          (ground (
            arith,
            put_on_table-SamePiles q c.0 c.1 r,
            begin_judging-SamePiles (put_on_table w q c.0 c.1 r),
          ))
  ]

  submit_locked-SamePiles :
      (id card : Text) (r : Room) → SamePiles r (submit_answer_locked w id card r).0
  unfolding submit_answer_locked
  submit_locked-SamePiles id card r = elim (Option-cases (find_player id r.players)) [
    | inl e ↦ ground arith
    | inr (q, e) ↦ ground (arith, play_card-SamePiles card q r, SamePiles-refl r)
  ]

  pub submit_answer-SamePiles :
      (id card : Text) (r : Room) → SamePiles r (submit_answer w id card r).0
  unfolding submit_answer
  submit_answer-SamePiles id card r = ground (
    arith,
    submit_locked-SamePiles id card r,
    schedule-SamePiles w (submit_answer_locked w id card r).0,
  )

  award_random-SamePiles : (r : Room) → SamePiles r (award_random w r)
  unfolding award_random
  award_random-SamePiles r =
      ground (arith, award-SamePiles (random_submission_id w r.seed r.submissions) (drawn r))

  pub on_deadline-SamePiles : (seq : ℕ) (r : Room) → SamePiles r (on_deadline w seq r)
  unfolding on_deadline
  on_deadline-SamePiles seq r = ground (
    arith,
    SamePiles-refl r,
    begin_judging-SamePiles r,
    schedule-SamePiles w (begin_judging r),
    award_random-SamePiles r,
    schedule-SamePiles w (award_random w r),
  )

  pub submit_computer_answer-SamePiles :
      (id : Text) (seq : ℕ) (r : Room) → SamePiles r (submit_computer_answer w id seq r)
  unfolding submit_computer_answer
  submit_computer_answer-SamePiles id seq r = elim (Option-cases (find_player id r.players)) [
    | inl e ↦ ground (arith, SamePiles-refl r)
    | inr (p, e) ↦ ground (
      arith,
      SamePiles-refl r,
      submit_locked-SamePiles id (random_card w r.seed p.hand) (drawn r),
      schedule-SamePiles w (submit_answer_locked w id (random_card w r.seed p.hand) (drawn r)).0,
    )
  ]

  pub pick_computer_winner-SamePiles :
      (id : Text) (seq : ℕ) (r : Room) → SamePiles r (pick_computer_winner w id seq r)
  unfolding pick_computer_winner
  pick_computer_winner-SamePiles id seq r =
      ground (arith, SamePiles-refl r, award_random-SamePiles r, touch-SamePiles (award_random w r))

  pub resume-SamePiles : (r : Room) → SamePiles r (resume w r).0
  unfolding resume
  resume-SamePiles r = ground (arith, schedule-SamePiles w r)

  settle-SamePiles : (p : Phase) (r : Room) → SamePiles r (settle w p r)
  unfolding settle
  settle-SamePiles submitting r =
      ground
        (arith, SamePiles-refl r, begin_judging-SamePiles r, schedule-SamePiles w (begin_judging r))
  settle-SamePiles judging r = ground (arith, SamePiles-refl r, set_phase-SamePiles scoring 0 r)
  settle-SamePiles _ r = SamePiles-refl r

  apply_roster_loss-SamePiles :
      (b : Bool) (r : Room) → ids r.players ≡ r.order → SamePiles r (apply_roster_loss w b r)
  unfolding apply_roster_loss
  apply_roster_loss-SamePiles b r k = ground (
    arith,
    SamePiles-refl r,
    void_round-SamePiles r k,
    settle-SamePiles r.phase r,
    set_phase-SamePiles finished 0 r,
  )

  remove_player-SamePiles : (p : Player) (r : Room) → SamePiles r (remove_player p r)
  unfolding remove_player
  remove_player-SamePiles p r = ground arith

  remove_player-known :
      (p : Player) (r : Room)
      → ids r.players ≡ r.order
      → ids (remove_player p r).players ≡ (remove_player p r).order
  unfolding remove_player
  remove_player-known p r k = ids-delete_player p.id r.players ∙ ap (remove_id p.id) k

  pub leave-SamePiles :
      (id : Text) (r : Room) → ids r.players ≡ r.order → SamePiles r (leave w id r).0
  unfolding leave
  leave-SamePiles id r k = elim (Option-cases (find_player id r.players)) [
    | inl e ↦ rw (e, leave) (SamePiles-refl r)
    | inr (p, e) ↦
        let s = remove_player p r in
        let t = apply_roster_loss w (p.is_judge && answering r.phase) s in
        rw (e, leave)
          (SamePiles-trans r s (touch t) (remove_player-SamePiles p r) (
            SamePiles-trans s t (touch t)
              (apply_roster_loss-SamePiles (p.is_judge && answering r.phase) s
                (remove_player-known p r k))
              (touch-SamePiles t)))
  ]
