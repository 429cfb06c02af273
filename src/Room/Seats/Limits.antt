-- ===== src/Room/Seats/Limits.antt =====
-- New settings keep the limits in their ranges, and the seats enough for the roster.
use punchline.Base.{ℕ, ◌≤◌, Text, arith, length, Option, none, some}
use punchline.Base.Int.{ℤ, pos, negsuc}
use punchline.Cards.Deck.{deck_for}
use punchline.Room.World.{World}
use punchline.Room.Types.{Piles, Room}
use punchline.Room.Draw.{reshuffle_answers, reshuffle_prompts}
use punchline.Room.Persist.{touch}
use punchline.Room.Settings.{
  Settings, clamp_int, roster_floor, apply_limits, change_tier, apply_tier, update_settings,
  normalize_tier,
}
use punchline.Room.Piled.{ids-redeal, redeal-seed}
use punchline.Room.Keeps.{Keeps, Keeps-refl, Keeps-trans, touch-Keeps}
use punchline.Room.Seats.{IsLimited, IsSeated, Keeps-IsSeated}

-- Whatever integer is asked for, the result is in range if the present value is.
pub clamp_int_bounds :
    (v : ℤ) (lo hi fallback : ℕ)
    → lo ≤ fallback
    → fallback ≤ hi
    → (lo ≤ clamp_int v lo hi fallback) × (clamp_int v lo hi fallback ≤ hi)
unfolding clamp_int
clamp_int_bounds (pos v) lo hi fallback low high = ground arith
clamp_int_bounds (negsuc v) lo hi fallback low high = ground arith

roster_floor_lem :
    (n : ℕ) → n ≤ 20 → (3 ≤ roster_floor n) × (n ≤ roster_floor n) × (roster_floor n ≤ 20)
unfolding roster_floor
roster_floor_lem n h = ground arith

roster_floor-le : (n m : ℕ) → n ≤ m → 3 ≤ m → roster_floor n ≤ m
unfolding roster_floor
roster_floor-le n m h k = ground arith

apply_limits-IsLimited : (s : Settings) (r : Room) → IsLimited r → IsLimited (apply_limits s r)
unfolding apply_limits
apply_limits-IsLimited s r v = ground (
  arith,
  clamp_int_bounds s.score_limit 1 20 r.score_limit,
  clamp_int_bounds s.round_seconds 15 300 r.submit_secs,
  clamp_int_bounds s.max_players (roster_floor (length r.order)) 20 r.max_players,
  roster_floor_lem (length r.order),
  roster_floor-le (length r.order) r.max_players,
)

module _ (w : World) where
  change_tier-Keeps : (tier : Text) (r : Room) → Keeps r (change_tier w tier r)
  unfolding change_tier
  change_tier-Keeps tier r =
      let fresh : Piles =
        reshuffle_prompts w
          (reshuffle_answers w (record (r.piles) { deck = deck_for r.full_deck tier })) in
      ground (arith, ids-redeal w r.order r.players fresh, redeal-seed w r.order r.players fresh)

  apply_tier-Keeps : (tier : Text) (r : Room) → Keeps r (apply_tier w tier r)
  unfolding apply_tier
  apply_tier-Keeps tier r = ground (arith, Keeps-refl r, change_tier-Keeps tier r)

  apply_limits-IsSeated : (s : Settings) (r : Room) → IsSeated w r → IsSeated w (apply_limits s r)
  unfolding apply_limits
  apply_limits-IsSeated s r v = record {
    known = v.known;
    distinct = v.distinct;
    limited = apply_limits-IsLimited s r v.limited;
    unused = v.unused;
  }

  pub update_settings-IsSeated :
      (p : Text) (s : Option Settings) (r : Room)
      → IsSeated w r
      → IsSeated w (update_settings w p s r).0
  unfolding update_settings
  update_settings-IsSeated p none r v = ground (arith, v)
  update_settings-IsSeated p (some s) r v =
      let t = apply_limits s r in
      let u = apply_tier w (normalize_tier s.content_tier) t in
      ground (
        arith,
        v,
        Keeps-IsSeated w t (touch u)
            (Keeps-trans t u (touch u) (apply_tier-Keeps (normalize_tier s.content_tier) t)
              (touch-Keeps u))
            (apply_limits-IsSeated s r v),
      )
