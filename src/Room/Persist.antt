-- ===== src/Room/Persist.antt =====
-- backend/internal/realtime/room.go: persistedStateLocked and touch; state.go: sortedSubmissions.
use punchline.Base.{
  ℕ, ◌+◌, ◌%◌, ◌^◌, ◌&&◌, ◌||◌, ◌==◌, Bool, true, false, List, [], ◌∷◌, Option, none, some,
  if◌then◌else◌, ltb, Text,
}
use punchline.Base.Sorts.{sort_by}
use punchline.Room.Types.{Player, Submission, PersistedPlayer, PersistedRoomState, Room}
use punchline.Room.Roster.{find_player}

abbrev pub current_room_state_version : ℕ
current_room_state_version = 1

abbrev pub u64_mod : ℕ
u64_mod = 2 ^ 64

unfoldable pub persisted_player : Player → PersistedPlayer
persisted_player p = record {
  id = p.id;
  name = p.name;
  guest_token = p.guest_token;
  score = p.score;
  is_computer = p.is_computer;
  is_judge = p.is_judge;
  hand = p.hand;
}

-- The loop over the order; an id without a player is passed over.
unfoldable pub persisted_players : List Player → List Text → List PersistedPlayer
unfolding find_player persisted_player
persisted_players ps [] = []
persisted_players ps (id ∷ ids) =
    let rest = persisted_players ps ids in
    elim (find_player id ps) [ none ↦ rest | some p ↦ persisted_player p ∷ rest ]

-- `<` on strings, rune by rune.
unfoldable pub text_lt : Text → Text → Bool
text_lt s [] = false
text_lt [] (r ∷ t) = true
text_lt (q ∷ s) (r ∷ t) = ltb q r || (q == r && text_lt s t)

-- The order of `sortedSubmissions`: by time, then by id.
unfoldable pub earlier : Submission → Submission → Bool
unfolding text_lt
earlier s t =
    if s.submitted_at == t.submitted_at
    then text_lt s.id t.id
    else ltb s.submitted_at t.submitted_at

unfoldable pub sorted_submissions : List Submission → List Submission
unfolding earlier sort_by
sorted_submissions ss = sort_by earlier ss

unfoldable pub persisted_state : Room → PersistedRoomState
unfolding persisted_players sorted_submissions
persisted_state r = record {
  schema_version = current_room_state_version;
  revision = r.state_version;
  instance_id = [];
  code = r.code;
  phase = r.phase;
  phase_seq = r.phase_seq;
  phase_deadline = r.phase_deadline;
  round_number = r.round_number;
  prompt = r.prompt;
  host_id = r.host_id;
  judge_id = r.judge_id;
  judge_index = r.judge_index;
  score_limit = r.score_limit;
  submit_secs = r.submit_secs;
  max_players = r.max_players;
  content_tier = r.content_tier;
  players = persisted_players r.players r.order;
  order = r.order;
  submissions = sorted_submissions r.submissions;
  answer_pile = r.answer_pile;
  prompt_pile = r.prompt_pile;
  created_at = r.created_at;
  updated_at = r.updated_at;
}

-- The observer's log after it is given the state of a room.
unfoldable pub observed : Room → Option (List PersistedRoomState)
observed r = elim r.state_observer [ none ↦ none | some log ↦ some (persisted_state r ∷ log) ]

-- The state as `touch` leaves it when it calls the observer.
unfoldable pub stamped : Room → Room
stamped r = record r { updated_at = r.now; state_version = (r.state_version + 1) % u64_mod }

unfoldable pub touch : Room → Room
unfolding observed stamped
touch r = record (stamped r) { state_observer = observed (stamped r) }
