-- ===== src/Room/Seats.antt =====
-- The roster's invariant: the order lists the players, each once, within the room's capacity, and
-- the limits that the host sets stay in their ranges.
pub mod Joins
pub mod Leaves
pub mod Limits
use punchline.Base.{ℕ, ◌≤◌, ◌<◌, ◌≡◌, ◌≢◌, Text, codes, arith, length, subst, sym, ◌∙◌, ap}
use punchline.Room.World.{World, new_id}
use punchline.Room.Types.{Room}
use punchline.Room.Ids.{ids, Fresh, Distinct}
use punchline.Room.Keeps.{Keeps}

-- The player id of a draw.
abbrev pub player_id : World → ℕ → Text
player_id w k = new_id w k (codes "pl")

-- No two draws of a player id give the same id.
abbrev pub Unrepeated : World → Type 0
Unrepeated w = (i j : ℕ) → i < j → player_id w i ≢ player_id w j

pub record IsLimited (r : Room) : Type 0 where
  pub score_low : 1 ≤ r.score_limit
  pub score_high : r.score_limit ≤ 20
  pub submit_low : 15 ≤ r.submit_secs
  pub submit_high : r.submit_secs ≤ 300
  pub players_low : 3 ≤ r.max_players
  pub players_high : r.max_players ≤ 20
  pub within : length r.order ≤ r.max_players

pub record IsSeated (w : World) (r : Room) : Type 0 where
  pub known : ids r.players ≡ r.order
  pub distinct : Distinct r.order
  pub limited : IsLimited r
  -- Ids that are still to be drawn are not taken.
  pub unused : (k : ℕ) → r.seed ≤ k → Fresh (player_id w k) r.order

Keeps-IsLimited : (r s : Room) → Keeps r s → IsLimited r → IsLimited s
Keeps-IsLimited r s k v = record {
  score_low = omega arith;
  score_high = omega arith;
  submit_low = omega arith;
  submit_high = omega arith;
  players_low = omega arith;
  players_high = omega arith;
  within = omega (arith, ap length k.order);
}

pub Keeps-IsSeated : (w : World) (r s : Room) → Keeps r s → IsSeated w r → IsSeated w s
Keeps-IsSeated w r s k v = record {
  known = k.roster ∙ v.known ∙ sym k.order;
  distinct = subst Distinct (sym k.order) v.distinct;
  limited = Keeps-IsLimited r s k v.limited;
  unused = λ n h. subst (Fresh (player_id w n)) (sym k.order) (v.unused n (omega (arith, k.seed)));
}
