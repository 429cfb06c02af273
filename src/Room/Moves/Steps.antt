-- ===== src/Room/Moves/Steps.antt =====
-- The parts that the operations of a room are made of, and how each moves it.
use punchline.Base.{
  ℕ, zero, suc, ◌+◌, ◌*◌, ◌%◌, Bool, true, List, [], Option, none, some, Text, arith, length,
  get_elem?, Option-cases, inl, inr, if◌then◌else◌,
}
use punchline.Cards.Deck.{AnswerCard, PromptCard}
use punchline.Room.World.{World}
use punchline.Room.Types.{
  Phase, lobby, submitting, judging, scoring, finished, Player, Piles, Room, RoomError,
  prompt_played, prompt_skipped, answer_won, CardEvent,
}
use punchline.Room.Draw.{draw_prompt}
use punchline.Room.Roster.{find_player}
use punchline.Room.Persist.{touch}
use punchline.Room.Phase.{
  second, judge_duration, set_phase, begin_judging, award, record_prompt, record_answer,
  record_event, grant_point, submission_or_zero, mark_winner,
}
use punchline.Room.Round.{deal_round, open_round, begin_round}
use punchline.Room.Turns.{schedule_computer_turns}
use punchline.Room.Join.{seat, add_player, new_player}
use punchline.Room.Host.{
  run_round, swap_prompt, reset_game, fill_seats, started, next_computer_name, first_computer_index,
}
use punchline.Room.Leave.{
  void_round, settle, apply_roster_loss, remove_player, min_players_to_start,
}
use punchline.Room.Submit.{
  put_on_table, close_if_complete, play_card, submit_answer_locked, take_card,
}
use punchline.Room.Settings.{Settings, apply_limits, apply_tier, change_tier}
use punchline.Room.Timers.{award_random, random_submission_id, expire}
use punchline.Room.Moves.{
  Moves, Moves-refl, Moves-trans, SameCore, SameCore-Moves, touch-Moves, set_phase-Moves,
  record_event-SameCore,
}

record_prompt-SameCore :
    (k : Text → CardEvent) (c : Option PromptCard) (r : Room) → SameCore r (record_prompt k c r)
unfolding record_prompt
record_prompt-SameCore k none r = ground arith
record_prompt-SameCore k (some c) r = record_event-SameCore (k c.uuid) r

module _ (v : ℕ) where
  -- A change of fields that do not count, then a phase, then `touch`.
  pub set_touch-Moves :
      (p : Phase) (d : ℕ) (r s : Room) → SameCore r s → Moves v r (touch (set_phase p d s))
  set_touch-Moves p d r s h = Moves-trans v r s (touch (set_phase p d s)) (SameCore-Moves v r s h) (
      Moves-trans v s (set_phase p d s) (touch (set_phase p d s)) (set_phase-Moves v p d s)
        (touch-Moves v (set_phase p d s)))

  pub touched-Moves : (r s : Room) → SameCore r s → Moves v r (touch s)
  touched-Moves r s h = Moves-trans v r s (touch s) (SameCore-Moves v r s h) (touch-Moves v s)

  pub begin_judging-Moves : (r : Room) → Moves v r (begin_judging r)
  unfolding begin_judging
  begin_judging-Moves r = ground (
    arith,
    set_touch-Moves scoring 0 r r (ground arith),
    set_touch-Moves judging judge_duration r r (ground arith),
  )

  award_core :
      (id : Text) (r : Room) (ps : List Player)
      → SameCore r (
          record_answer answer_won
            (submission_or_zero id r.submissions).answer
            (record r { submissions = mark_winner id r.submissions; players = ps }))
  unfolding record_answer record_event
  award_core id r ps = ground arith

  pub award-Moves : (id : Text) (r : Room) → Moves v r (award id r)
  unfolding award
  award-Moves id r =
      let sub = submission_or_zero id r.submissions in
      let g = grant_point sub.player_id r.score_limit r.players in
      set_touch-Moves (if g.1 then finished else scoring) 0 r _ (award_core id r (g.0))

  module _ (w : World) where
    schedule-SameCore : (r : Room) → SameCore r (schedule_computer_turns w r)
    unfolding schedule_computer_turns
    schedule-SameCore r = ground arith

    -- Whatever moved a room, the computer turns that follow do not count.
    pub scheduled-Moves : (r s : Room) → Moves v r s → Moves v r (schedule_computer_turns w s)
    scheduled-Moves r s h =
        Moves-trans v r s (schedule_computer_turns w s) h
          (SameCore-Moves v s _ (schedule-SameCore s))

    open_core :
        (r : Room) (judge : Text) (c : PromptCard) (p : Piles) (ps : List Player)
        → SameCore r (record (record_prompt prompt_played (some c) r) {
          round_number = r.round_number + 1;
          submissions = [];
          prompt = some c;
          judge_id = judge;
          players = ps;
          piles = p;
        })
    unfolding record_prompt record_event
    open_core r judge c p ps = ground arith

    open_round-Moves : (judge : Text) (r : Room) → Moves v r (open_round w judge r)
    unfolding open_round
    open_round-Moves judge r =
        let d = draw_prompt w r.piles in
        let e = deal_round w judge r.order r.players (d.1) in
        set_touch-Moves submitting (r.submit_secs * second) r _
          (open_core r judge (d.0) (e.1) (e.0))

    begin_round-Moves : (r : Room) → Moves v r (begin_round w r)
    unfolding begin_round
    begin_round-Moves r = elim (Option-cases (get_elem? r.order (r.judge_index % length r.order))) [
      | inl e ↦ rw (e, begin_round) (SameCore-Moves v r _ (ground arith))
      | inr (j, e) ↦ rw (e, begin_round) (open_round-Moves j r)
    ]

    pub run_round-Moves : (i : ℕ) (r : Room) → Moves v r (run_round w i r)
    unfolding run_round
    run_round-Moves i r =
        let s : Room = record r { judge_index = i } in
        scheduled-Moves r (begin_round w s) (
          Moves-trans v r s (begin_round w s) (SameCore-Moves v r s (ground arith))
            (begin_round-Moves s))

    seat-Moves : (p : Player) (q : Piles) (r : Room) → Moves v r (seat w p q r)
    unfolding seat
    seat-Moves p q r = touched-Moves r _ (ground arith)

    pub add_player-Moves : (name : Text) (b : Bool) (r : Room) → Moves v r (add_player w name b r).0
    unfolding add_player
    add_player-Moves name b r =
        seat-Moves (new_player w name b r.piles).0 (new_player w name b r.piles).1 r

    pub fill_seats-Moves : (fuel : ℕ) (r : Room) → Moves v r (fill_seats w fuel r).0
    unfolding fill_seats
    fill_seats-Moves zero r = Moves-refl v r
    fill_seats-Moves (suc fuel) r =
        let s = (add_player w (next_computer_name r) true r).0 in
        ground (
          arith,
          Moves-refl v r,
          Moves-trans v r s (fill_seats w fuel s).0 (add_player-Moves (next_computer_name r) true r)
              (fill_seats-Moves fuel s),
        )

    started-Moves :
        (r : Room) (o : Room × (Option RoomError)) → Moves v r o.0 → Moves v r (started w o).0
    unfolding started
    started-Moves r (s, none) h =
        Moves-trans v r s (run_round w (first_computer_index s) s) h
          (run_round-Moves (first_computer_index s) s)
    started-Moves r (s, some e) h = h

    pub filled-Moves : (r : Room) → Moves v r (started w (fill_seats w min_players_to_start r)).0
    filled-Moves r =
        started-Moves r (fill_seats w min_players_to_start r)
          (fill_seats-Moves min_players_to_start r)

    void_round-Moves : (r : Room) → Moves v r (void_round r)
    unfolding void_round set_phase
    void_round-Moves r = ground arith

    settle-Moves : (p : Phase) (r : Room) → Moves v r (settle w p r)
    unfolding settle
    settle-Moves submitting r =
        ground (arith, Moves-refl v r, scheduled-Moves r (begin_judging r) (begin_judging-Moves r))
    settle-Moves judging r = ground (arith, Moves-refl v r, set_phase-Moves v scoring 0 r)
    settle-Moves lobby r = Moves-refl v r
    settle-Moves scoring r = Moves-refl v r
    settle-Moves finished r = Moves-refl v r

    apply_roster_loss-Moves : (b : Bool) (r : Room) → Moves v r (apply_roster_loss w b r)
    unfolding apply_roster_loss
    apply_roster_loss-Moves b r = ground (
      arith,
      Moves-refl v r,
      set_phase-Moves v finished 0 r,
      void_round-Moves r,
      settle-Moves r.phase r,
    )

    -- The loss of a player, and the `touch` after it.
    pub lost-Moves :
        (b : Bool) (p : Player) (r : Room)
        → Moves v r (touch (apply_roster_loss w b (remove_player p r)))
    unfolding remove_player
    lost-Moves b p r = Moves-trans v r (remove_player p r) _ (SameCore-Moves v r _ (ground arith)) (
        Moves-trans v (remove_player p r) (apply_roster_loss w b (remove_player p r)) _
          (apply_roster_loss-Moves b (remove_player p r)) (touch-Moves v _))

    put_on_table-SameCore :
        (p : Player) (a : AnswerCard) (h : List AnswerCard) (r : Room)
        → SameCore r (put_on_table w p a h r)
    unfolding put_on_table record_answer record_event
    put_on_table-SameCore p a h r = ground arith

    closed-Moves : (r s : Room) → SameCore r s → Moves v r (close_if_complete w s)
    unfolding close_if_complete
    closed-Moves r s h = ground (
      arith,
      SameCore-Moves v r s h,
      Moves-trans v r s (begin_judging s) (SameCore-Moves v r s h) (begin_judging-Moves s),
    )

    play_card-Moves : (p : Player) (card : Text) (r : Room) → Moves v r (play_card w p card r).0
    unfolding play_card
    play_card-Moves p card r = elim (Option-cases (take_card card p.hand)) [
      | inl e ↦ rw (e, play_card) (Moves-refl v r)
      | inr (c, e) ↦ rw (e, play_card) (closed-Moves r _ (put_on_table-SameCore p (c.0) (c.1) r))
    ]

    pub submit_locked-Moves :
        (id card : Text) (r : Room) → Moves v r (submit_answer_locked w id card r).0
    unfolding submit_answer_locked
    submit_locked-Moves id card r = elim (Option-cases (find_player id r.players)) [
      | inl e ↦ ground (arith, Moves-refl v r)
      | inr (q, e) ↦ ground (arith, play_card-Moves q card r, Moves-refl v r)
    ]

    -- A submission that was accepted, with what follows it.
    pub submitted-Moves :
        (r s : Room) → Moves v r s → Moves v r (touch (schedule_computer_turns w s))
    submitted-Moves r s h =
        Moves-trans v r (schedule_computer_turns w s) _ (scheduled-Moves r s h) (touch-Moves v _)

    swap_prompt-SameCore : (r : Room) → SameCore r (swap_prompt w r)
    unfolding swap_prompt
    swap_prompt-SameCore r = ground (
      arith,
      record_prompt-SameCore prompt_skipped r.prompt r,
      record_prompt-SameCore prompt_played (some (draw_prompt w r.piles).0)
          (record_prompt prompt_skipped r.prompt r),
    )

    pub skipped-Moves :
        (d : ℕ) (r : Room)
        → Moves v r (touch (schedule_computer_turns w (set_phase submitting d (swap_prompt w r))))
    skipped-Moves d r = submitted-Moves r (set_phase submitting d (swap_prompt w r)) (
        Moves-trans v r (swap_prompt w r) _ (SameCore-Moves v r _ (swap_prompt-SameCore r))
          (set_phase-Moves v submitting d (swap_prompt w r)))

    reset_game-Moves : (r : Room) → Moves v r (reset_game w r)
    unfolding reset_game set_phase
    reset_game-Moves r = ground arith

    pub reset-Moves : (r : Room) → Moves v r (touch (reset_game w r))
    reset-Moves r = Moves-trans v r (reset_game w r) _ (reset_game-Moves r) (touch-Moves v _)

    apply_tier-SameCore : (tier : Text) (r : Room) → SameCore r (apply_tier w tier r)
    unfolding apply_tier change_tier
    apply_tier-SameCore tier r = ground arith

    pub set-Moves :
        (tier : Text) (s : Settings) (r : Room)
        → Moves v r (touch (apply_tier w tier (apply_limits s r)))
    unfolding apply_limits
    set-Moves tier s r =
        touched-Moves r _ (ground (arith, apply_tier-SameCore tier (apply_limits s r)))

    award_random-Moves : (r : Room) → Moves v r (award_random w r)
    unfolding award_random
    award_random-Moves r =
        Moves-trans v r _ _
          (SameCore-Moves v r (record r { piles = record (r.piles) { seed = r.seed + 1 } })
            (ground arith))
          (award-Moves (random_submission_id w r.seed r.submissions) _)

    pub judged-Moves : (r : Room) → Moves v r (touch (award_random w r))
    judged-Moves r = Moves-trans v r (award_random w r) _ (award_random-Moves r) (touch-Moves v _)

    pub expire-Moves : (p : Phase) (r : Room) → Moves v r (expire w p r)
    unfolding expire
    expire-Moves submitting r = scheduled-Moves r (begin_judging r) (begin_judging-Moves r)
    expire-Moves judging r = scheduled-Moves r (award_random w r) (award_random-Moves r)
    expire-Moves lobby r = Moves-refl v r
    expire-Moves scoring r = Moves-refl v r
    expire-Moves finished r = Moves-refl v r
