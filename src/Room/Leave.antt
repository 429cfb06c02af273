-- ===== src/Room/Leave.antt =====
-- backend/internal/realtime/room.go: Leave, removePlayerLocked and applyRosterLossLocked.
use punchline.Base.{
  ℕ, ◌+◌, ◌-◌, ◌%◌, ◌&&◌, not, Bool, true, false, List, [], ◌∷◌, ◌++◌, Option, none, some,
  if◌then◌else◌, ltb, leb, length, Text, same,
}
use punchline.Room.World.{World}
use punchline.Room.Types.{
  Phase, lobby, submitting, judging, scoring, finished, Player, Room, RoomError, not_found,
}
use punchline.Room.Roster.{
  find_player, put_player, delete_player, index_of, remove_id, other_submissions, played_by,
  return_cards, delete_client,
}
use punchline.Room.Join.{next_host}
use punchline.Room.Persist.{touch}
use punchline.Room.Phase.{set_phase, all_answerers_submitted, begin_judging}
use punchline.Room.Turns.{schedule_computer_turns}

abbrev pub min_players_to_start : ℕ
min_players_to_start = 3

abbrev is_human : Option Player → Bool
is_human none = false
is_human (some p) = not p.is_computer

-- The first human of the order, connected or not.
unfoldable pub first_human : List Player → List Text → Text
unfolding find_player
first_human ps [] = []
first_human ps (id ∷ ids) = if is_human (find_player id ps) then id else first_human ps ids

-- The host after `gone` has left the roster.
unfoldable pub host_after : Text → Text → List Player → List Text → Text
unfolding next_host first_human
host_after gone host ps order =
    if same host gone
    then (let next = next_host ps order in if same next [] then first_human ps order else next)
    else host

-- The judge's position after the removal of the player at `index`, with `n` players left. The code
-- steps back by one, to -1 at the first position, and takes that modulo `n`.
unfoldable pub judge_index_after : Option ℕ → ℕ → ℕ → ℕ
judge_index_after index judge_index n = if leb n 0 then 0 else elim index [
  | none ↦ judge_index % n
  | some i ↦ if leb i judge_index then (judge_index + n - 1) % n else judge_index % n
]

unfoldable pub remove_player : Player → Room → Room
unfolding delete_player index_of remove_id other_submissions played_by delete_client
    judge_index_after host_after
remove_player p r =
    let players' = delete_player p.id r.players in
    let order' = remove_id p.id r.order in
    record r {
      piles = record (r.piles) {
        answer_pile = (r.answer_pile ++ p.hand) ++ played_by p.id r.submissions;
      };
      submissions = other_submissions p.id r.submissions;
      order = order';
      judge_index = judge_index_after (index_of p.id r.order) r.judge_index (length order');
      players = players';
      clients = delete_client p.id r.clients;
      host_id = host_after p.id r.host_id players' order';
    }

-- The loop that takes the judge's mark off everybody; an id without a player is a nil dereference.
unfoldable pub clear_judge : List Text → List Player → Bool → List Player × Bool
unfolding find_player put_player
clear_judge [] ps panicked = (ps, panicked)
clear_judge (id ∷ ids) ps panicked = elim (find_player id ps) [
  | none ↦ clear_judge ids ps true
  | some p ↦ clear_judge ids (put_player (record p { is_judge = false }) ps) panicked
]

-- The round is void: every played card goes back to its owner.
unfoldable pub void_round : Room → Room
unfolding return_cards clear_judge set_phase
void_round r =
    let (players', panicked') =
      clear_judge r.order (return_cards r.submissions r.players) r.panicked in
    set_phase scoring 0 (record r {
      piles = record (r.piles) { panicked = panicked' };
      players = players';
      submissions = [];
      judge_id = [];
    })

unfoldable pub in_play : Phase → Bool
in_play submitting = true
in_play judging = true
in_play scoring = true
in_play lobby = false
in_play finished = false

unfoldable pub answering : Phase → Bool
answering submitting = true
answering judging = true
answering scoring = false
answering lobby = false
answering finished = false

module _ (w : World) where
  -- The last `switch` of `applyRosterLossLocked`.
  unfoldable pub settle : Phase → Room → Room
  unfolding all_answerers_submitted
  settle submitting r =
      if all_answerers_submitted r then schedule_computer_turns w (begin_judging r) else r
  settle judging r = if leb (length r.submissions) 0 then set_phase scoring 0 r else r
  settle _ r = r

  unfoldable pub apply_roster_loss : Bool → Room → Room
  unfolding in_play
  apply_roster_loss was_judge r =
      if not (in_play r.phase)
      then r
      else if ltb (length r.order) min_players_to_start
      then set_phase finished 0 r
      else if was_judge
      then void_round r
      else settle r.phase r

  unfoldable pub leave : Text → Room → Room × (Option RoomError)
  unfolding find_player
  leave player_id r = elim (find_player player_id r.players) [
    | none ↦ (r, some not_found)
    | some p ↦
        (touch (apply_roster_loss (p.is_judge && answering r.phase) (remove_player p r)), none)
  ]
