-- ===== src/Room/Host.antt =====
-- backend/internal/realtime/room.go: the host's commands (StartGame, StartComputerGame, NextRound,
-- EndGame, SkipPrompt, PlayAgain).
use punchline.Base.{
  ℕ, zero, suc, ◌+◌, ◌*◌, ◌%◌, Bool, true, false, List, [], ◌∷◌, Option, none, some, if◌then◌else◌,
  not, ltb, leb, length, Text, codes, same,
}
use punchline.Room.World.{World}
use punchline.Room.Draw.{draw_prompt, refill_hand}
use punchline.Room.Types.{
  Phase, lobby, submitting, judging, scoring, finished, Player, Piles, Room, RoomError, room_full,
  not_host, in_progress, need_players, before_scoring, no_game, only_skip_answering, not_finished,
  prompt_played, prompt_skipped,
}
use punchline.Room.Roster.{find_player, return_cards}
use punchline.Room.Persist.{touch}
use punchline.Room.Phase.{second, record_prompt, set_phase}
use punchline.Room.Round.{begin_round}
use punchline.Room.Turns.{schedule_computer_turns}
use punchline.Room.Join.{is_lobby, add_player}
use punchline.Room.Leave.{min_players_to_start}
use punchline.Room.Submit.{is_submitting}

unfoldable pub is_scoring : Phase → Bool
is_scoring scoring = true
is_scoring lobby = false
is_scoring submitting = false
is_scoring judging = false
is_scoring finished = false

unfoldable pub is_finished : Phase → Bool
is_finished finished = true
is_finished lobby = false
is_finished submitting = false
is_finished judging = false
is_finished scoring = false

abbrev computer_names : List Text
computer_names =
    codes "Mira CPU"
    ∷ codes "Dex CPU"
    ∷ codes "Nova CPU"
    ∷ codes "Jules CPU"
    ∷ codes "Remy CPU"
    ∷ codes "Kit CPU"
    ∷ []

is_named : Text → Option Player → Bool
is_named name none = false
is_named name (some p) = same p.name name

unfoldable pub name_used : Text → List Player → List Text → Bool
unfolding find_player is_named
name_used name ps [] = false
name_used name ps (id ∷ ids) =
    let rest = name_used name ps ids in if is_named name (find_player id ps) then true else rest

unfoldable pub first_unused : List Player → List Text → List Text → Text
unfolding name_used
first_unused ps order [] = codes "CPU Guest"
first_unused ps order (name ∷ names) =
    if name_used name ps order then first_unused ps order names else name

unfoldable pub next_computer_name : Room → Text
unfolding first_unused
next_computer_name r = first_unused r.players r.order computer_names

is_computer_player : Option Player → Bool
is_computer_player none = false
is_computer_player (some p) = p.is_computer

-- The position of the first computer player of the order.
unfoldable pub first_computer : List Player → List Text → Option ℕ
unfolding find_player is_computer_player
first_computer ps [] = none
first_computer ps (id ∷ ids) =
    let rest = first_computer ps ids in
    if is_computer_player (find_player id ps)
    then some 0
    else elim rest [ none ↦ none | some i ↦ some (i + 1) ]

unfoldable pub first_computer_index : Room → ℕ
unfolding first_computer
first_computer_index r = elim (first_computer r.players r.order) [ none ↦ 0 | some i ↦ i ]

module _ (w : World) where
  -- `beginRoundLocked` and `scheduleComputerTurnsLocked`, as every command that starts a round
  -- calls them.
  unfoldable pub run_round : ℕ → Room → Room
  run_round index r = schedule_computer_turns w (begin_round w (record r { judge_index = index }))

  unfoldable pub start_game : Text → Room → Room × (Option RoomError)
  unfolding is_lobby
  start_game player_id r =
      if not (same player_id r.host_id)
      then (r, some not_host)
      else if not (is_lobby r.phase)
      then (r, some in_progress)
      else if ltb (length r.order) min_players_to_start
      then (r, some need_players)
      else (run_round 0 r, none)

  -- The loop that fills the seats: at most `min_players_to_start` rounds, since each seats one.
  unfoldable pub fill_seats : ℕ → Room → Room × (Option RoomError)
  fill_seats zero r = (r, none)
  fill_seats (suc fuel) r =
      let rest = fill_seats fuel (add_player w (next_computer_name r) true r).0 in
      if leb min_players_to_start (length r.order)
      then (r, none)
      else if leb r.max_players (length r.order)
      then (r, some room_full)
      else rest

  unfoldable pub started : Room × (Option RoomError) → Room × (Option RoomError)
  started (r, some e) = (r, some e)
  started (r, none) = (run_round (first_computer_index r) r, none)

  unfoldable pub start_computer_game : Text → Room → Room × (Option RoomError)
  unfolding is_lobby
  start_computer_game player_id r =
      if not (same player_id r.host_id)
      then (r, some not_host)
      else if not (is_lobby r.phase)
      then (r, some in_progress)
      else started (fill_seats min_players_to_start r)

  -- An empty order is a division by 0, which `begin_round` reports.
  unfoldable pub next_round : Text → Room → Room × (Option RoomError)
  unfolding is_scoring
  next_round player_id r =
      if not (same player_id r.host_id)
      then (r, some not_host)
      else if not (is_scoring r.phase)
      then (r, some before_scoring)
      else (run_round ((r.judge_index + 1) % length r.order) r, none)

  -- The room with a new prompt and every played card back in its owner's hand.
  unfoldable pub swap_prompt : Room → Room
  unfolding record_prompt
  swap_prompt r =
      let (card, drawn) = draw_prompt w r.piles in
      record (record_prompt prompt_played (some card) (record_prompt prompt_skipped r.prompt r)) {
        players = return_cards r.submissions r.players;
        submissions = [];
        piles = drawn;
        prompt = some card;
      }

  unfoldable pub skip_prompt : Text → Room → Room × (Option RoomError)
  unfolding is_submitting
  skip_prompt player_id r =
      if not (same player_id r.host_id)
      then (r, some not_host)
      else if not (is_submitting r.phase)
      then (r, some only_skip_answering)
      else (
        touch (
            schedule_computer_turns w
              (set_phase submitting (r.submit_secs * second) (swap_prompt r))),
        none,
      )

  -- The loop of `PlayAgain` over the players.
  unfoldable pub reset_players : List Player → Piles → List Player × Piles
  unfolding refill_hand
  reset_players [] p = ([], p)
  reset_players (q ∷ qs) p =
      let (hand', p') = refill_hand w q.hand p in
      let (qs', p'') = reset_players qs p' in
      (record q { score = 0; is_judge = false; hand = hand' } ∷ qs', p'')

  unfoldable pub reset_game : Room → Room
  unfolding set_phase
  reset_game r =
      let (players', piles') = reset_players r.players r.piles in
      set_phase lobby 0 (record r {
        round_number = 0;
        judge_index = 0;
        judge_id = [];
        prompt = none;
        submissions = [];
        players = players';
        piles = piles';
      })

  unfoldable pub play_again : Text → Room → Room × (Option RoomError)
  unfolding is_finished reset_game touch
  play_again player_id r =
      if not (same player_id r.host_id)
      then (r, some not_host)
      else if not (is_finished r.phase)
      then (r, some not_finished)
      else (touch (reset_game r), none)

unfoldable pub end_game : Text → Room → Room × (Option RoomError)
unfolding is_lobby set_phase touch
end_game player_id r =
    if not (same player_id r.host_id)
    then (r, some not_host)
    else if is_lobby r.phase
    then (r, some no_game)
    else (touch (set_phase finished 0 r), none)
