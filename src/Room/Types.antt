-- ===== src/Room/Types.antt =====
-- backend/internal/realtime/types.go, state.go and the `Room` struct of room.go. Times are
-- nanoseconds since Go's zero time, so the zero time is 0; counters are natural numbers.
use punchline.Base.{ℕ, Bool, List, Option, Text}
use punchline.Cards.Deck.{PromptCard, AnswerCard, Deck}

pub data Phase : Type 0 where
  lobby submitting judging scoring finished : Phase

pub record Player : Type 0 where
  pub id : Text
  pub name : Text
  pub guest_token : Text
  pub score : ℕ
  pub connected : Bool
  pub is_computer : Bool
  pub is_judge : Bool
  pub submitted : Bool
  pub hand : List AnswerCard

pub record Submission : Type 0 where
  pub id : Text
  pub player_id : Text
  pub player_name : Text
  pub answer : AnswerCard
  pub submitted_at : ℕ
  pub is_winner : Bool

pub record PersistedPlayer : Type 0 where
  pub id : Text
  pub name : Text
  pub guest_token : Text
  pub score : ℕ
  pub is_computer : Bool
  pub is_judge : Bool
  pub hand : List AnswerCard

pub record PersistedRoomState : Type 0 where
  pub schema_version : ℕ
  pub revision : ℕ
  pub instance_id : Text
  pub code : Text
  pub phase : Phase
  pub phase_seq : ℕ
  pub phase_deadline : ℕ
  pub round_number : ℕ
  pub prompt : Option PromptCard
  pub host_id : Text
  pub judge_id : Text
  pub judge_index : ℕ
  pub score_limit : ℕ
  pub submit_secs : ℕ
  pub max_players : ℕ
  pub content_tier : Text
  pub players : List PersistedPlayer
  pub order : List Text
  pub submissions : List Submission
  pub answer_pile : List AnswerCard
  pub prompt_pile : List PromptCard
  pub created_at : ℕ
  pub updated_at : ℕ

-- The calls of `telemetry.Recorder` that a room makes.
pub data CardEvent : Type 0 where
  prompt_played prompt_skipped answer_played answer_won : Text → CardEvent

-- A call that `time.AfterFunc` will make for a computer player.
pub data Task : Type 0 where
  submit_turn judge_turn : (delay : ℕ) (player_id : Text) (phase_seq : ℕ) → Task

-- The active deck and the draw piles, whose last card is the next one; `seed` numbers the draws
-- from the random source. `panicked` is set where the code would panic: by an index out of range,
-- a nil dereference or a division by 0. What the state holds after that says nothing.
pub record Piles : Type 0 where
  pub deck : Deck
  pub answer_pile : List AnswerCard
  pub prompt_pile : List PromptCard
  pub seed : ℕ
  pub panicked : Bool

-- The `Room` struct. Maps are lists in the order of insertion. `now` is the clock's reading during
-- the current call, `scheduled` the computer turns that were handed to `time.AfterFunc`; a timer
-- is the phase sequence that it was armed with, and an observer the states that it was given,
-- newest first.
pub record Room : Type 0 where
  pub code : Text
  pub full_deck : Deck
  pub piles : Piles
  pub open piles use *
  pub phase : Phase
  pub phase_seq : ℕ
  pub phase_deadline : ℕ
  pub timer : Option ℕ
  pub round_number : ℕ
  pub prompt : Option PromptCard
  pub host_id : Text
  pub judge_id : Text
  pub judge_index : ℕ
  pub score_limit : ℕ
  pub submit_secs : ℕ
  pub max_players : ℕ
  pub content_tier : Text
  pub players : List Player
  pub order : List Text
  pub submissions : List Submission
  pub clients : List (Text × List ℕ)
  pub created_at : ℕ
  pub updated_at : ℕ
  pub state_version : ℕ
  pub state_observer : Option (List PersistedRoomState)
  pub telemetry : Option (List CardEvent)
  pub now : ℕ
  pub scheduled : List Task

pub data RoomError : Type 0 where
  room_full invalid_name not_host not_found invalid_token : RoomError
  in_progress need_players not_accepting judge_submits already_submitted not_in_hand : RoomError
  not_judging only_judge submission_not_found before_scoring no_game only_skip_answering : RoomError
  not_finished only_in_lobby no_settings : RoomError
