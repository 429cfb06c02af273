-- ===== src/Room/Restore.antt =====
-- backend/internal/realtime/room.go: RestoreRoom. A phase that is none of the five is no `Phase`
-- here, so `validPhase` holds of every state of the model.
use punchline.Base.{
  ℕ, ◌==◌, ◌||◌, not, Bool, true, false, List, [], ◌∷◌, none, some, if◌then◌else◌, ltb, length,
  Text, same, trim_space, to_upper,
}
use punchline.Base.Int.{pos}
use punchline.Cards.Deck.{Deck, deck_for}
use punchline.Room.World.{World}
use punchline.Room.Draw.{refilled, refilled_prompts}
use punchline.Room.Types.{Player, Submission, PersistedPlayer, PersistedRoomState, Room}
use punchline.Room.Roster.{find_player, put_player, find_submission, put_submission}
use punchline.Room.Persist.{current_room_state_version}
use punchline.Room.Join.{default_score_limit, default_submit_secs, default_max_players}
use punchline.Room.Leave.{min_players_to_start}
use punchline.Room.Settings.{
  clamp_int, normalize_tier, min_score_limit, max_score_limit, min_submit_secs, max_submit_secs,
  max_players_ceiling,
}

-- registry.go: `normalizeRoomCode`.
unfoldable pub normalize_room_code : Text → Text
unfolding to_upper trim_space
normalize_room_code code = to_upper (trim_space code)

pub data RestoreError : Type 0 where
  bad_version no_code bad_tier invalid_player duplicate_players invalid_order : RestoreError
  unknown_player unknown_host unknown_judge invalid_submission duplicate_submissions : RestoreError

pub data Restored {ℓ} (A : Type ℓ) : Type ℓ where
  ok : A → Restored A
  err : RestoreError → Restored A

infixl 5 ◌>>=◌ ◌>>◌
abbrev pub ◌>>=◌ {ℓ κ} : {A : Type ℓ} {B : Type κ} → Restored A → (A → Restored B) → Restored B
ok a >>= f = f a
err e >>= f = err e

abbrev pub ◌>>◌ {ℓ} : {B : Type ℓ} → Restored (Unit {0}) → Restored B → Restored B
m >> k = m >>= λ _. k

-- An early return of the error when the test holds.
abbrev pub refuse_if : Bool → RestoreError → Restored (Unit {0})
refuse_if true e = err e
refuse_if false e = ok tt

unfoldable pub is_known : Text → List Player → Bool
unfolding find_player
is_known id ps = elim (find_player id ps) [ none ↦ false | some _ ↦ true ]

unfoldable pub restored_player : PersistedPlayer → Player
restored_player q = record {
  id = q.id;
  name = q.name;
  guest_token = q.guest_token;
  score = q.score;
  connected = q.is_computer;
  is_computer = q.is_computer;
  is_judge = q.is_judge;
  submitted = false;
  hand = q.hand;
}

-- The loop over the persisted players.
unfoldable pub restore_players : List Player → List PersistedPlayer → Restored (List Player)
unfolding is_known put_player restored_player
restore_players ps [] = ok ps
restore_players ps (q ∷ qs) = do
  refuse_if (same q.id [] || same q.guest_token []) invalid_player
  refuse_if (is_known q.id ps) duplicate_players
  restore_players (put_player (restored_player q) ps) qs

-- The loop over the order.
unfoldable pub check_order : List Player → List Text → Restored (Unit {0})
unfolding is_known
check_order ps [] = ok tt
check_order ps (id ∷ ids) = do refuse_if (not (is_known id ps)) unknown_player; check_order ps ids

unfoldable pub submission_known : Text → List Submission → Bool
unfolding find_submission
submission_known id known = elim (find_submission id known) [ none ↦ false | some _ ↦ true ]

-- The test of the host and of the judge.
unfoldable pub unknown : Text → List Player → Bool
unfolding is_known
unknown id ps = if same id [] then false else not (is_known id ps)

-- The loop over the submissions.
unfoldable pub restore_submissions :
    List Player → List Submission → List Submission → Restored (List Submission)
unfolding is_known submission_known put_submission
restore_submissions ps ss [] = ok ss
restore_submissions ps ss (s ∷ rest) = do
  refuse_if (same s.id [] || not (is_known s.player_id ps)) invalid_submission
  refuse_if (submission_known s.id ss) duplicate_submissions
  restore_submissions ps (put_submission s ss) rest

unfoldable pub at_least_one : ℕ → ℕ
at_least_one n = if ltb n 1 then 1 else n

unfoldable pub or_now : ℕ → ℕ → ℕ
or_now now t = if t == 0 then now else t

module _ (w : World) where
  -- The room as it is built once every check has passed. `seed` numbers the draws of the process.
  unfoldable pub rebuild :
      PersistedRoomState → Deck → ℕ → ℕ → Text → Text → List Player → List Submission → Room
  unfolding deck_for refilled refilled_prompts clamp_int at_least_one or_now
  rebuild state deck now seed code tier ps ss = record {
    code = code;
    full_deck = deck;
    piles = refilled_prompts w (
        refilled w (record {
          deck = deck_for deck tier;
          answer_pile = state.answer_pile;
          prompt_pile = state.prompt_pile;
          seed = seed;
          panicked = false;
        }));
    phase = state.phase;
    phase_seq = at_least_one state.phase_seq;
    phase_deadline = state.phase_deadline;
    timer = none;
    round_number = state.round_number;
    prompt = state.prompt;
    host_id = state.host_id;
    judge_id = state.judge_id;
    judge_index = state.judge_index;
    score_limit =
        clamp_int (pos state.score_limit) min_score_limit max_score_limit default_score_limit;
    submit_secs =
        clamp_int (pos state.submit_secs) min_submit_secs max_submit_secs default_submit_secs;
    max_players =
        clamp_int (pos state.max_players) min_players_to_start max_players_ceiling
          default_max_players;
    content_tier = tier;
    players = ps;
    order = state.order;
    submissions = ss;
    clients = [];
    created_at = or_now now state.created_at;
    updated_at = or_now now state.updated_at;
    state_version = at_least_one state.revision;
    state_observer = none;
    telemetry = none;
    now = now;
    scheduled = [];
  }

  unfoldable pub restore_room : PersistedRoomState → Deck → ℕ → ℕ → Restored Room
  unfolding normalize_room_code normalize_tier restore_players clamp_int check_order unknown
      restore_submissions rebuild
  restore_room state deck now seed = do
    refuse_if (not (state.schema_version == current_room_state_version)) bad_version
    let code = normalize_room_code state.code
    refuse_if (same code []) no_code
    let tier = normalize_tier state.content_tier
    refuse_if (same tier []) bad_tier
    ps ← restore_players [] state.players
    refuse_if
        (not (length state.order == length ps)
          || ltb
              (clamp_int (pos state.max_players) min_players_to_start max_players_ceiling
                default_max_players)
              (length state.order))
        invalid_order
    check_order ps state.order
    refuse_if (unknown state.host_id ps) unknown_host
    refuse_if (unknown state.judge_id ps) unknown_judge
    ss ← restore_submissions ps [] state.submissions
    ok (rebuild state deck now seed code tier ps ss)
