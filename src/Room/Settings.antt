-- ===== src/Room/Settings.antt =====
-- backend/internal/realtime/room.go: UpdateSettings, normalizeTier, clampInt.
use punchline.Base.{
  ℕ, ◌==◌, ◌||◌, true, List, [], ◌∷◌, Option, none, some, if◌then◌else◌, not, ltb, length, Text,
  same, trim_space, to_lower,
}
use punchline.Base.Int.{ℤ, pos, negsuc}
use punchline.Cards.Deck.{deck_for, tier_family, tier_party}
use punchline.Room.World.{World}
use punchline.Room.Draw.{hand_size, draw_answers, reshuffle_answers, reshuffle_prompts}
use punchline.Room.Types.{Player, Piles, Room, RoomError, not_host, only_in_lobby, no_settings}
use punchline.Room.Roster.{find_player, put_player}
use punchline.Room.Persist.{touch}
use punchline.Room.Join.{is_lobby}
use punchline.Room.Leave.{min_players_to_start}

abbrev pub min_score_limit : ℕ
min_score_limit = 1

abbrev pub max_score_limit : ℕ
max_score_limit = 20

abbrev pub min_submit_secs : ℕ
min_submit_secs = 15

abbrev pub max_submit_secs : ℕ
max_submit_secs = 300

abbrev pub max_players_ceiling : ℕ
max_players_ceiling = 20

-- types.go: `Settings`.
pub record Settings : Type 0 where
  pub score_limit : ℤ
  pub round_seconds : ℤ
  pub max_players : ℤ
  pub content_tier : Text

-- The bounds and the fallback are never negative where it is called.
unfoldable pub clamp_int : ℤ → ℕ → ℕ → ℕ → ℕ
clamp_int (negsuc v) lo hi fallback = lo
clamp_int (pos v) lo hi fallback =
    if v == 0 then fallback else if ltb v lo then lo else if ltb hi v then hi else v

unfoldable pub normalize_tier : Text → Text
unfolding to_lower trim_space
normalize_tier tier =
    let t = to_lower (trim_space tier) in
    if same t tier_family then tier_family else if same t tier_party then tier_party else []

unfoldable pub roster_floor : ℕ → ℕ
roster_floor n = if ltb n min_players_to_start then min_players_to_start else n

unfoldable pub apply_limits : Settings → Room → Room
unfolding clamp_int roster_floor
apply_limits s r = record r {
  score_limit = clamp_int s.score_limit min_score_limit max_score_limit r.score_limit;
  submit_secs = clamp_int s.round_seconds min_submit_secs max_submit_secs r.submit_secs;
  max_players =
      clamp_int s.max_players (roster_floor (length r.order)) max_players_ceiling r.max_players;
}

module _ (w : World) where
  -- The loop that deals every hand anew; an id without a player is a nil dereference.
  unfoldable pub redeal : List Text → List Player → Piles → List Player × Piles
  unfolding find_player put_player draw_answers
  redeal [] ps p = (ps, p)
  redeal (id ∷ ids) ps p = elim (find_player id ps) [
    | none ↦ redeal ids ps (record p { panicked = true })
    | some q ↦
        let (hand', p') = draw_answers w hand_size p in
        redeal ids (put_player (record q { hand = hand' }) ps) p'
  ]

  unfoldable pub change_tier : Text → Room → Room
  unfolding reshuffle_answers reshuffle_prompts
  change_tier tier r =
      let fresh =
        reshuffle_prompts w
          (reshuffle_answers w (record (r.piles) { deck = deck_for r.full_deck tier })) in
      let (players', dealt) = redeal r.order r.players fresh in
      record r { content_tier = tier; piles = dealt; players = players' }

  unfoldable pub apply_tier : Text → Room → Room
  unfolding change_tier
  apply_tier tier r = if same tier [] || same tier r.content_tier then r else change_tier tier r

  unfoldable pub update_settings : Text → Option Settings → Room → Room × (Option RoomError)
  unfolding is_lobby
  update_settings player_id settings r =
      if not (same player_id r.host_id)
      then (r, some not_host)
      else if not (is_lobby r.phase)
      then (r, some only_in_lobby)
      else elim settings [
        | none ↦ (r, some no_settings)
        | some s ↦ (touch (apply_tier (normalize_tier s.content_tier) (apply_limits s r)), none)
      ]
