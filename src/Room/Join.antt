-- ===== src/Room/Join.antt =====
-- backend/internal/realtime/room.go: NewRoom, the ways into a room (Join, TryJoin, UndoJoin,
-- addPlayerLocked), Attach, Detach and the host role.
use punchline.Base.{
  ℕ, ◌+◌, ◌&&◌, ◌||◌, not, Bool, true, false, List, [], ◌∷◌, ◌++◌, Option, none, some,
  if◌then◌else◌, leb, length, take, Text, codes, same, is_control, trim_space,
}
use punchline.Cards.Deck.{Deck, deck_for, tier_party}
use punchline.Room.World.{World, new_id, new_secret}
use punchline.Room.Draw.{hand_size, draw_answers, reshuffle_answers, reshuffle_prompts}
use punchline.Room.Types.{
  Phase, lobby, submitting, judging, scoring, finished, Player, Piles, Room, RoomError, room_full,
  invalid_name, not_found, invalid_token,
}
use punchline.Room.Roster.{
  find_player, put_player, delete_player, remove_id, find_client, put_client, delete_client,
  add_conn, delete_conn,
}
use punchline.Room.Persist.{touch}

abbrev pub max_name_len : ℕ
max_name_len = 40

abbrev pub default_score_limit : ℕ
default_score_limit = 5

abbrev pub default_submit_secs : ℕ
default_submit_secs = 90

abbrev pub default_max_players : ℕ
default_max_players = 12

unfoldable pub has_control_chars : Text → Bool
unfolding is_control
has_control_chars [] = false
has_control_chars (r ∷ s) = is_control r || has_control_chars s

unfoldable pub strip_control_chars : Text → Text
unfolding is_control
strip_control_chars [] = []
strip_control_chars (r ∷ s) =
    if is_control r then strip_control_chars s else r ∷ strip_control_chars s

unfoldable pub valid_player_name : Text → Bool
unfolding has_control_chars
valid_player_name name = not (has_control_chars name)

-- The name that a player is given.
unfoldable pub clean_name : Text → Text
unfolding strip_control_chars trim_space
clean_name name =
    let clean = take max_name_len (trim_space (strip_control_chars name)) in
    if same clean [] then codes "Guest" else clean

unfoldable pub is_lobby : Phase → Bool
is_lobby lobby = true
is_lobby submitting = false
is_lobby judging = false
is_lobby scoring = false
is_lobby finished = false

unfoldable pub is_human_online : Option Player → Bool
is_human_online none = false
is_human_online (some p) = p.connected && not p.is_computer

-- `reassignHostLocked`: the first connected human of the order, or nobody.
unfoldable pub next_host : List Player → List Text → Text
unfolding find_player is_human_online
next_host ps [] = []
next_host ps (id ∷ ids) = if is_human_online (find_player id ps) then id else next_host ps ids

unfoldable pub is_connected : Option Player → Bool
is_connected none = false
is_connected (some p) = p.connected

unfoldable pub valid_guest_token : Text → Text → Bool
valid_guest_token expected got =
    if same expected [] || same got [] then false else same expected got

module _ (w : World) where
  unfoldable pub new_room : Text → Deck → ℕ → ℕ → Room
  unfolding deck_for reshuffle_answers reshuffle_prompts
  new_room code deck now seed = record {
    code = code;
    full_deck = deck;
    piles = reshuffle_prompts w (
        reshuffle_answers w (record {
          deck = deck_for deck tier_party;
          answer_pile = [];
          prompt_pile = [];
          seed = seed;
          panicked = false;
        }));
    phase = lobby;
    phase_seq = 0;
    phase_deadline = 0;
    timer = none;
    round_number = 0;
    prompt = none;
    host_id = [];
    judge_id = [];
    judge_index = 0;
    score_limit = default_score_limit;
    submit_secs = default_submit_secs;
    max_players = default_max_players;
    content_tier = tier_party;
    players = [];
    order = [];
    submissions = [];
    clients = [];
    created_at = now;
    updated_at = now;
    state_version = 1;
    state_observer = none;
    telemetry = none;
    now = now;
    scheduled = [];
  }

  -- The player that `addPlayerLocked` makes, with the piles that are left.
  unfoldable pub new_player : Text → Bool → Piles → Player × Piles
  new_player name is_computer p =
      let (hand, q) = draw_answers w hand_size (record p { seed = p.seed + 2 }) in
      (
        record {
          id = new_id w p.seed (codes "pl");
          name = clean_name name;
          guest_token = new_secret w (p.seed + 1) (codes "gt");
          score = 0;
          connected = is_computer;
          is_computer = is_computer;
          is_judge = false;
          submitted = false;
          hand = hand;
        },
        q,
      )

  -- The roster with a player that was made.
  unfoldable pub seat : Player → Piles → Room → Room
  seat p q r = touch (record r {
    piles = q;
    players = put_player p r.players;
    order = r.order ++ p.id ∷ [];
    host_id = if same r.host_id [] then p.id else r.host_id;
  })

  unfoldable pub add_player : Text → Bool → Room → Room × Player
  add_player name is_computer r =
      let (p, q) = new_player name is_computer r.piles in (seat p q r, p)

  unfoldable pub try_join : Text → Room → Room × (Option RoomError)
  try_join name r =
      if not (valid_player_name name)
      then (r, some invalid_name)
      else if leb r.max_players (length r.order)
      then (r, some room_full)
      else ((add_player name false r).0, none)

-- `UndoJoin` once the player is known to be removable.
unfoldable pub unseat : Player → Room → Room
unfolding delete_player remove_id next_host touch
unseat p r =
    let players' = delete_player p.id r.players in
    let order' = remove_id p.id r.order in
    touch (record r {
      piles = record (r.piles) { answer_pile = r.answer_pile ++ p.hand };
      players = players';
      order = order';
      host_id = if same r.host_id p.id then next_host players' order' else r.host_id;
    })

unfoldable pub undo_join : Text → Room → Room
unfolding find_player is_lobby unseat
undo_join player_id r = elim (find_player player_id r.players) [
  | none ↦ r
  | some p ↦ if p.connected || not (is_lobby r.phase) then r else unseat p r
]

conns_of : Option (List ℕ) → List ℕ
conns_of none = []
conns_of (some conns) = conns

unfoldable pub attach : Text → Text → ℕ → Room → Room × (Option RoomError)
unfolding find_player valid_guest_token put_player is_connected next_host conns_of find_client
    put_client add_conn touch
attach player_id guest_token conn r = elim (find_player player_id r.players) [
  | none ↦ (r, some not_found)
  | some p ↦
      if not (valid_guest_token p.guest_token guest_token)
      then (r, some invalid_token)
      else (let players' = put_player (record p { connected = true }) r.players in
          (
            touch (record r {
              players = players';
              host_id =
                  if same r.host_id [] || not (is_connected (find_player r.host_id players'))
                  then next_host players' r.order
                  else r.host_id;
              clients =
                  put_client player_id (add_conn conn (conns_of (find_client player_id r.clients)))
                    r.clients;
            }),
            none,
          ))
]

-- The players once one of them has no connection left.
unfoldable pub disconnect : Text → List Player → List Player
unfolding find_player put_player
disconnect id ps = elim (find_player id ps) [
  | none ↦ ps
  | some p ↦ put_player (record p { connected = false }) ps
]

unfoldable pub drop_client : Text → Room → Room
unfolding delete_client disconnect next_host
drop_client player_id r =
    let players' = disconnect player_id r.players in
    record r {
      clients = delete_client player_id r.clients;
      players = players';
      host_id = if same player_id r.host_id then next_host players' r.order else r.host_id;
    }

unfoldable pub detach : Text → ℕ → Room → Room
unfolding find_client delete_conn put_client drop_client touch
detach player_id conn r = touch (elim (find_client player_id r.clients) [
  | none ↦ r
  | some conns ↦
      let left = delete_conn conn conns in
      if leb (length left) 0
      then drop_client player_id r
      else record r { clients = put_client player_id left r.clients }
])

-- `VerifyPlayer`.
unfoldable pub verify_player : Text → Text → Room → Bool
unfolding find_player valid_guest_token
verify_player player_id guest_token r = elim (find_player player_id r.players) [
  | none ↦ false
  | some p ↦ not p.is_computer && valid_guest_token p.guest_token guest_token
]
