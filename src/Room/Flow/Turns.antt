-- ===== src/Room/Flow/Turns.antt =====
-- The players' turns, the timers and departures keep the flow of a game.
use punchline.Base.{
  ℕ, ◌&&◌, List, ◌≤◌, ◌≡◌, refl, true, false, Option, some, none, length, arith, Bool, Text,
  Option-cases, inl, inr,
}
use punchline.Cards.Deck.{AnswerCard}
use punchline.Room.World.{World}
use punchline.Room.Types.{Phase, lobby, submitting, judging, scoring, finished, Player, Room}
use punchline.Room.Roster.{find_player}
use punchline.Room.Persist.{touch}
use punchline.Room.Phase.{begin_judging, all_answerers_submitted}
use punchline.Room.Turns.{schedule_computer_turns}
use punchline.Room.Join.{undo_join, unseat, attach, detach, drop_client}
use punchline.Room.Leave.{
  in_play, answering, remove_player, void_round, settle, apply_roster_loss, leave,
}
use punchline.Room.Submit.{
  put_on_table, close_if_complete, play_card, take_card, submit_answer_locked, submit_answer,
  pick_winner,
}
use punchline.Room.Settings.{
  Settings, apply_limits, change_tier, apply_tier, normalize_tier, update_settings,
}
use punchline.Room.Timers.{
  random_submission_id, random_card, award_random, on_deadline, submit_computer_answer,
  pick_computer_winner, resume,
}
use punchline.Room.Keeps.Timers.{drawn}
use punchline.Room.Flow.{
  IsFlowing, untimed-IsFlowing, touch-IsFlowing, begin_judging-IsFlowing, award-IsFlowing,
}
use punchline.Room.Flow.Steps.{SameFlow, SameFlow-IsFlowing, schedule-IsFlowing}

pub pick_winner-IsFlowing :
    (judge sub : Text) (r : Room) → IsFlowing r → IsFlowing (pick_winner judge sub r).0
unfolding pick_winner in_play
pick_winner-IsFlowing judge sub r v = ground (arith, v, v.populated, award-IsFlowing sub r)

pub attach-IsFlowing :
    (id token : Text) (conn : ℕ) (r : Room) → IsFlowing r → IsFlowing (attach id token conn r).0
unfolding attach
attach-IsFlowing id token conn r v = SameFlow-IsFlowing r _ (ground arith) v

drop_client-SameFlow : (id : Text) (r : Room) → SameFlow r (drop_client id r)
unfolding drop_client
drop_client-SameFlow id r = ground arith

detach-SameFlow : (id : Text) (conn : ℕ) (r : Room) → SameFlow r (detach id conn r)
unfolding detach
detach-SameFlow id conn r = ground (arith, drop_client-SameFlow id r)

pub detach-IsFlowing :
    (id : Text) (conn : ℕ) (r : Room) → IsFlowing r → IsFlowing (detach id conn r)
detach-IsFlowing id conn r v = SameFlow-IsFlowing r _ (detach-SameFlow id conn r) v

-- In the lobby the flow asks only that no timer is armed.
unseat-IsFlowing : (p : Player) (r : Room) → r.phase ≡ lobby → IsFlowing r → IsFlowing (unseat p r)
unfolding unseat in_play answering touch
unseat-IsFlowing p r e v = ground (arith, v.unarmed)

pub undo_join-IsFlowing : (id : Text) (r : Room) → IsFlowing r → IsFlowing (undo_join id r)
unfolding undo_join
undo_join-IsFlowing id r v = elim (Option-cases (find_player id r.players)) [
  | inl e ↦ rw (e, undo_join) v
  | inr (p, e) ↦ rw (e, undo_join) (ground (arith, v, unseat-IsFlowing p r))
]

module _ (w : World) where
  put_on_table-phase :
      (q : Player) (a : AnswerCard) (h : List AnswerCard) (r : Room)
      → ((put_on_table w q a h r).order ≡ r.order)
        × ((put_on_table w q a h r).phase ≡ r.phase)
        × ((put_on_table w q a h r).phase_seq ≡ r.phase_seq)
        × ((put_on_table w q a h r).timer ≡ r.timer)
  unfolding put_on_table
  put_on_table-phase q a h r = (refl, refl, refl, refl)

  close_if_complete-IsFlowing :
      (r : Room)
      → 3 ≤ length r.order
      → r.phase ≡ submitting
      → r.timer ≡ some r.phase_seq
      → IsFlowing (close_if_complete w r)
  unfolding close_if_complete all_answerers_submitted in_play answering
  close_if_complete-IsFlowing r h e t = ground (arith, begin_judging-IsFlowing r)

  play_card-IsFlowing :
      (card : Text) (q : Player) (r : Room)
      → r.phase ≡ submitting
      → IsFlowing r
      → IsFlowing (play_card w q card r).0
  unfolding play_card in_play answering
  play_card-IsFlowing card q r e v = elim (Option-cases (take_card card q.hand)) [
    | inl f ↦ rw (f, play_card) v
    | inr (c, f) ↦
        rw (f, play_card)
          (ground (
            arith,
            v.populated,
            v.armed,
            put_on_table-phase q c.0 c.1 r,
            close_if_complete-IsFlowing (put_on_table w q c.0 c.1 r),
          ))
  ]

  submit_locked-IsFlowing :
      (id card : Text) (r : Room) → IsFlowing r → IsFlowing (submit_answer_locked w id card r).0
  unfolding submit_answer_locked
  submit_locked-IsFlowing id card r v = elim (Option-cases (find_player id r.players)) [
    | inl e ↦ ground (arith, v)
    | inr (q, e) ↦ ground (arith, v, play_card-IsFlowing card q r)
  ]

  pub submit_answer-IsFlowing :
      (id card : Text) (r : Room) → IsFlowing r → IsFlowing (submit_answer w id card r).0
  unfolding submit_answer
  submit_answer-IsFlowing id card r v =
      let s = (submit_answer_locked w id card r).0 in
      ground (
        arith,
        submit_locked-IsFlowing id card r v,
        schedule-IsFlowing w s,
        touch-IsFlowing (schedule_computer_turns w s),
      )

  award_random-IsFlowing : (r : Room) → 3 ≤ length r.order → IsFlowing (award_random w r)
  unfolding award_random
  award_random-IsFlowing r h =
      award-IsFlowing (random_submission_id w r.seed r.submissions) (drawn r) h

  pub on_deadline-IsFlowing : (seq : ℕ) (r : Room) → IsFlowing r → IsFlowing (on_deadline w seq r)
  unfolding on_deadline in_play
  on_deadline-IsFlowing seq r v = ground (
    arith,
    v,
    v.populated,
    begin_judging-IsFlowing r,
    award_random-IsFlowing r,
    schedule-IsFlowing w (begin_judging r),
    schedule-IsFlowing w (award_random w r),
  )

  pub pick_computer_winner-IsFlowing :
      (id : Text) (seq : ℕ) (r : Room) → IsFlowing r → IsFlowing (pick_computer_winner w id seq r)
  unfolding pick_computer_winner in_play
  pick_computer_winner-IsFlowing id seq r v =
      ground (arith, v, v.populated, award_random-IsFlowing r, touch-IsFlowing (award_random w r))

  drawn-IsFlowing : (r : Room) → IsFlowing r → IsFlowing (drawn r)
  drawn-IsFlowing r v = SameFlow-IsFlowing r (drawn r) (ground arith) v

  pub submit_computer_answer-IsFlowing :
      (id : Text) (seq : ℕ) (r : Room) → IsFlowing r → IsFlowing (submit_computer_answer w id seq r)
  unfolding submit_computer_answer
  submit_computer_answer-IsFlowing id seq r v = elim (Option-cases (find_player id r.players)) [
    | inl e ↦ ground (arith, v)
    | inr (p, e) ↦
        let s = (submit_answer_locked w id (random_card w r.seed p.hand) (drawn r)).0 in
        ground (
          arith,
          v,
          drawn-IsFlowing r v,
          submit_locked-IsFlowing id (random_card w r.seed p.hand) (drawn r) (drawn-IsFlowing r v),
          schedule-IsFlowing w s,
          touch-IsFlowing (schedule_computer_turns w s),
        )
  ]

  pub resume-IsFlowing : (r : Room) → IsFlowing r → IsFlowing (resume w r).0
  unfolding resume answering
  resume-IsFlowing r v = ground (arith, v.armed, v.unarmed, v)

  settle-IsFlowing :
      (p : Phase) (r : Room)
      → r.phase ≡ p
      → 3 ≤ length r.order
      → (answering p ≡ true → r.timer ≡ some r.phase_seq)
      → (answering p ≡ false → (r.timer ≡ none) × (r.phase_deadline ≡ 0))
      → IsFlowing (settle w p r)
  unfolding settle all_answerers_submitted in_play answering
  settle-IsFlowing submitting r e h t u =
      ground (arith, begin_judging-IsFlowing r, schedule-IsFlowing w (begin_judging r))
  settle-IsFlowing judging r e h t u = ground (arith, untimed-IsFlowing scoring r)
  settle-IsFlowing lobby r e h t u = ground (arith, u)
  settle-IsFlowing scoring r e h t u = ground (arith, u)
  settle-IsFlowing finished r e h t u = ground (arith, u)

  apply_tier-SameFlow : (tier : Text) (r : Room) → SameFlow r (apply_tier w tier r)
  unfolding apply_tier change_tier
  apply_tier-SameFlow tier r = ground arith

  pub update_settings-IsFlowing :
      (p : Text) (s : Option Settings) (r : Room)
      → IsFlowing r
      → IsFlowing (update_settings w p s r).0
  unfolding update_settings apply_limits
  update_settings-IsFlowing p none r v = ground (arith, v)
  update_settings-IsFlowing p (some s) r v =
      let t = apply_limits s r in
      let u = apply_tier w (normalize_tier s.content_tier) t in
      ground (
        arith,
        v,
        touch-IsFlowing u,
        SameFlow-IsFlowing r u
            (ground (arith, apply_tier-SameFlow (normalize_tier s.content_tier) t)) v,
      )

  void_round-IsFlowing : (r : Room) → 3 ≤ length r.order → IsFlowing (void_round r)
  unfolding void_round in_play answering
  void_round-IsFlowing r h = ground arith

  apply_roster_loss-IsFlowing :
      (b : Bool) (r : Room)
      → (answering r.phase ≡ true → r.timer ≡ some r.phase_seq)
      → (answering r.phase ≡ false → (r.timer ≡ none) × (r.phase_deadline ≡ 0))
      → IsFlowing (apply_roster_loss w b r)
  unfolding apply_roster_loss answering
  apply_roster_loss-IsFlowing b r t u = ground (
    arith,
    t,
    u,
    void_round-IsFlowing r,
    settle-IsFlowing r.phase r refl,
    untimed-IsFlowing finished r,
  )

  pub leave-IsFlowing : (id : Text) (r : Room) → IsFlowing r → IsFlowing (leave w id r).0
  unfolding leave remove_player
  leave-IsFlowing id r v = elim (Option-cases (find_player id r.players)) [
    | inl e ↦ rw (e, leave) v
    | inr (p, e) ↦
        rw (e, leave)
          (touch-IsFlowing _ (
            apply_roster_loss-IsFlowing (p.is_judge && answering r.phase) (remove_player p r)
              v.armed v.unarmed))
  ]
