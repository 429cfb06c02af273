-- ===== src/Room/Snapshot.antt =====
-- backend/internal/realtime/room.go: snapshotLocked, which is what a client is sent.
use punchline.Base.{
  ℕ, ◌==◌, Bool, List, [], ◌∷◌, Option, none, some, if◌then◌else◌, ltb, Text, codes, same,
}
use punchline.Cards.Deck.{PromptCard}
use punchline.Room.Types.{
  Phase, lobby, submitting, judging, scoring, finished, Player, Submission, Room,
}
use punchline.Room.Roster.{find_player, has_submission}
use punchline.Base.Sorts.{sort_by}

pub record RoomSnapshot : Type 0 where
  pub code : Text
  pub phase : Phase
  pub round_number : ℕ
  pub prompt : Option PromptCard
  pub host_id : Text
  pub judge_id : Text
  pub score_limit : ℕ
  pub round_seconds : ℕ
  pub max_players : ℕ
  pub content_tier : Text
  pub phase_deadline : Option ℕ
  pub players : List Player
  pub submissions : List Submission
  pub created_at : ℕ
  pub updated_at : ℕ

-- A player as `viewer` sees it.
unfoldable pub view_player : Text → List Submission → Player → Player
unfolding has_submission
view_player viewer ss p = record p {
  submitted = has_submission p.id ss;
  hand = if same p.id viewer then p.hand else [];
}

-- The loop over the order; `none` is the panic at an id without a player.
unfoldable pub view_players :
    Text → List Submission → List Player → List Text → Option (List Player)
unfolding find_player view_player
view_players viewer ss ps [] = some []
view_players viewer ss ps (id ∷ ids) = elim (find_player id ps) [
  | none ↦ none
  | some p ↦ elim (view_players viewer ss ps ids) [
    | none ↦ none
    | some rest ↦ some (view_player viewer ss p ∷ rest)
  ]
]

-- The answer phase hides content and authorship, the judging phase authorship.
unfoldable pub redact : Phase → Submission → Submission
redact submitting s = record s {
  answer = record { id = s.id; text = codes "submitted"; tier = []; uuid = [] };
  player_id = [];
  player_name = [];
}
redact judging s = record s { player_id = []; player_name = [] }
redact lobby s = s
redact scoring s = s
redact finished s = s

unfoldable pub redact_all : Phase → List Submission → List Submission
unfolding redact
redact_all phase [] = []
redact_all phase (s ∷ ss) = redact phase s ∷ redact_all phase ss

-- `sort.Slice` by `SubmittedAt.Before`. It may leave submissions of one instant in any order; here
-- they keep theirs.
unfoldable pub submitted_before : Submission → Submission → Bool
submitted_before s t = ltb s.submitted_at t.submitted_at

unfoldable pub snapshot_of : Room → List Player → RoomSnapshot
unfolding redact_all sort_by submitted_before
snapshot_of r seen = record {
  code = r.code;
  phase = r.phase;
  round_number = r.round_number;
  prompt = r.prompt;
  host_id = r.host_id;
  judge_id = r.judge_id;
  score_limit = r.score_limit;
  round_seconds = r.submit_secs;
  max_players = r.max_players;
  content_tier = r.content_tier;
  phase_deadline = if r.phase_deadline == 0 then none else some r.phase_deadline;
  players = seen;
  submissions = sort_by submitted_before (redact_all r.phase r.submissions);
  created_at = r.created_at;
  updated_at = r.updated_at;
}

unfoldable pub snapshot_for : Text → Room → Option RoomSnapshot
unfolding view_players snapshot_of
snapshot_for viewer r = elim (view_players viewer r.submissions r.players r.order) [
  | none ↦ none
  | some seen ↦ some (snapshot_of r seen)
]
