-- ===== src/Room/Moves/Handles.antt =====
-- How each call moves a room.
use punchline.Base.{
  ℕ, ◌+◌, ◌*◌, ◌%◌, List, [], ◌∷◌, false, Option, none, some, Text, arith, length, Option-cases,
  inl, inr, ◌&&◌,
}
use punchline.Room.World.{World}
use punchline.Room.Types.{finished, Player, Room, RoomError}
use punchline.Room.Roster.{find_player}
use punchline.Room.Persist.{touch, observed, stamped, persisted_state}
use punchline.Room.Phase.{second}
use punchline.Room.Join.{try_join, undo_join, unseat, attach, detach, drop_client}
use punchline.Room.Host.{
  start_game, start_computer_game, next_round, end_game, skip_prompt, play_again,
}
use punchline.Room.Leave.{leave, answering}
use punchline.Room.Submit.{submit_answer, submit_answer_locked, after_submit, pick_winner}
use punchline.Room.Settings.{Settings, update_settings, normalize_tier}
use punchline.Room.Timers.{
  on_deadline, submit_computer_answer, pick_computer_winner, resume, random_card,
}
use punchline.Room.Step.{
  Call, joins, undoes_join, leaves, starts, starts_computer, advances, ends, skips, plays_again,
  attaches, detaches, submits, picks, sets, deadline, submit_turn_due, judge_turn_due, resumes,
  handle, step, run,
}
use punchline.Room.Moves.{Moves, Moves-refl, Moves-trans, SameCore-Moves}
use punchline.Room.Moves.Steps.{
  award-Moves, scheduled-Moves, run_round-Moves, add_player-Moves, filled-Moves, lost-Moves,
  submit_locked-Moves, submitted-Moves, skipped-Moves, reset-Moves, set-Moves, judged-Moves,
  expire-Moves, set_touch-Moves,
}

module _ (v : ℕ) (w : World) where
  leave-Moves : (p : Text) (r : Room) → Moves v r (leave w p r).0
  unfolding leave
  leave-Moves p r = elim (Option-cases (find_player p r.players)) [
    | inl e ↦ rw (e, leave) (Moves-refl v r)
    | inr (q, e) ↦ rw (e, leave) (lost-Moves v w (q.is_judge && answering r.phase) q r)
  ]

  unseat-Moves : (q : Player) (r : Room) → Moves v r (unseat q r)
  unfolding unseat touch observed stamped persisted_state
  unseat-Moves q r = ground arith

  undo_join-Moves : (p : Text) (r : Room) → Moves v r (undo_join p r)
  unfolding undo_join
  undo_join-Moves p r = elim (Option-cases (find_player p r.players)) [
    | inl e ↦ rw (e, undo_join) (Moves-refl v r)
    | inr (q, e) ↦ ground (arith, e, Moves-refl v r, unseat-Moves q r)
  ]

  attach-Moves : (p token : Text) (conn : ℕ) (r : Room) → Moves v r (attach p token conn r).0
  unfolding attach touch observed stamped persisted_state
  attach-Moves p token conn r = ground (arith, Moves-refl v r)

  detach-Moves : (p : Text) (conn : ℕ) (r : Room) → Moves v r (detach p conn r)
  unfolding detach drop_client touch observed stamped persisted_state
  detach-Moves p conn r = ground arith

  submit_answer-Moves : (p card : Text) (r : Room) → Moves v r (submit_answer w p card r).0
  unfolding submit_answer
  submit_answer-Moves p card r =
      after (submit_answer_locked w p card r) (submit_locked-Moves v w p card r)
    where
      after : (o : Room × (Option RoomError)) → Moves v r o.0 → Moves v r (after_submit w o).0
      after (s, none) h = submitted-Moves v w r s h
      after (s, some e) h = h

  drawn : Room → Room
  drawn r = record r { piles = record (r.piles) { seed = r.seed + 1 } }

  turn-Moves : (p : Text) (seq : ℕ) (r : Room) → Moves v r (submit_computer_answer w p seq r)
  unfolding submit_computer_answer drawn
  turn-Moves p seq r = elim (Option-cases (find_player p r.players)) [
    | inl e ↦ ground (arith, e, Moves-refl v r)
    | inr (q, e) ↦
        let card = random_card w r.seed q.hand in
        let s = (submit_answer_locked w p card (drawn r)).0 in
        ground (
          arith,
          e,
          Moves-refl v r,
          submitted-Moves v w r s (
              Moves-trans v r (drawn r) s (SameCore-Moves v r (drawn r) (ground arith))
                (submit_locked-Moves v w p card (drawn r))),
        )
  ]

  resume-Moves : (r : Room) → Moves v r (resume w r).0
  unfolding resume
  resume-Moves r = ground (arith, scheduled-Moves v w r r (Moves-refl v r))

  settings-Moves :
      (p : Text) (s : Option Settings) (r : Room) → Moves v r (update_settings w p s r).0
  unfolding update_settings
  settings-Moves p none r = ground (arith, Moves-refl v r)
  settings-Moves p (some s) r =
      ground (arith, Moves-refl v r, set-Moves v w (normalize_tier s.content_tier) s r)

  -- Every call moves a room so.
  pub handle-Moves : (c : Call) (r : Room) → Moves v r (handle w c r)
  unfolding handle try_join start_game start_computer_game next_round end_game skip_prompt
      play_again pick_winner on_deadline pick_computer_winner
  handle-Moves (joins name) r = ground (arith, Moves-refl v r, add_player-Moves v w name false r)
  handle-Moves (undoes_join p) r = undo_join-Moves p r
  handle-Moves (leaves p) r = leave-Moves p r
  handle-Moves (starts p) r = ground (arith, Moves-refl v r, run_round-Moves v w 0 r)
  handle-Moves (starts_computer p) r = ground (arith, Moves-refl v r, filled-Moves v w r)
  handle-Moves (advances p) r =
      ground (arith, Moves-refl v r, run_round-Moves v w ((r.judge_index + 1) % length r.order) r)
  handle-Moves (ends p) r =
      ground (arith, Moves-refl v r, set_touch-Moves v finished 0 r r (ground arith))
  handle-Moves (skips p) r =
      ground (arith, Moves-refl v r, skipped-Moves v w (r.submit_secs * second) r)
  handle-Moves (plays_again p) r = ground (arith, Moves-refl v r, reset-Moves v w r)
  handle-Moves (attaches p token conn) r = attach-Moves p token conn r
  handle-Moves (detaches p conn) r = detach-Moves p conn r
  handle-Moves (submits p card) r = submit_answer-Moves p card r
  handle-Moves (picks p s) r = ground (arith, Moves-refl v r, award-Moves v s r)
  handle-Moves (sets p s) r = settings-Moves p s r
  handle-Moves (deadline seq) r = ground (arith, Moves-refl v r, expire-Moves v w r.phase r)
  handle-Moves (submit_turn_due p seq) r = turn-Moves p seq r
  handle-Moves (judge_turn_due p seq) r = ground (arith, Moves-refl v r, judged-Moves v w r)
  handle-Moves resumes r = resume-Moves r

  pub step-Moves : (c : ℕ × Call) (r : Room) → Moves v r (step w c r)
  unfolding step
  step-Moves (t, c) r =
      Moves-trans v r (record r { now = t }) _ (SameCore-Moves v r _ (ground arith))
        (handle-Moves c (record r { now = t }))

  pub run-Moves : (cs : List (ℕ × Call)) (r : Room) → Moves v r (run w cs r)
  unfolding run
  run-Moves [] r = Moves-refl v r
  run-Moves (c ∷ cs) r = Moves-trans v r (step w c r) _ (step-Moves c r) (run-Moves cs (step w c r))
