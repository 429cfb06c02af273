-- ===== src/Room/Seats/Joins.antt =====
-- Joining keeps the roster's invariant, for people and for computer players.
use punchline.Base.{
  ℕ, zero, suc, ◌+◌, ◌≤◌, ◌<◌, ◌≡◌, ◌≢◌, refl, sym, subst, ◌∙◌, ap, [], ◌∷◌, ◌++◌, Text, arith,
  Bool, true, false, Bool-cases, leb, length, length-append, Option, none, some, inl, inr,
}
use punchline.Room.World.{World}
use punchline.Room.Types.{Player, Piles, Room, RoomError}
use punchline.Room.Draw.{hand_size}
use punchline.Room.Join.{new_player, seat, add_player, try_join, valid_player_name}
use punchline.Room.Persist.{touch}
use punchline.Room.Leave.{min_players_to_start}
use native.Mathlib.Nat.{le_refl}
use punchline.Room.Host.{
  fill_seats, start_computer_game, next_computer_name, first_computer_index, started,
}
use punchline.Room.Ids.{Fresh, Fresh-append, Distinct-append, ids-put_player_new}
use punchline.Room.Piled.{draw_answers-seed}
use punchline.Room.Keeps.{run_round-Keeps}
use punchline.Room.Seats.{player_id, Unrepeated, IsSeated, Keeps-IsSeated}

module _ (w : World) (unrepeated : Unrepeated w) where
  seat-IsSeated :
      (p : Player) (q : Piles) (r : Room)
      → IsSeated w r
      → length r.order < r.max_players
      → Fresh p.id r.order
      → r.seed ≤ q.seed
      → ((k : ℕ) → q.seed ≤ k → p.id ≢ player_id w k)
      → IsSeated w (seat w p q r)
  unfolding seat touch
  seat-IsSeated p q r v h fresh later apart = record {
    known =
        ids-put_player_new p r.players (subst (Fresh p.id) (sym v.known) fresh)
        ∙ ap (λ js. js ++ p.id ∷ []) v.known;
    distinct = Distinct-append r.order p.id v.distinct fresh;
    limited = record {
      score_low = v.limited.score_low;
      score_high = v.limited.score_high;
      submit_low = v.limited.submit_low;
      submit_high = v.limited.submit_high;
      players_low = v.limited.players_low;
      players_high = v.limited.players_high;
      within = omega (arith, length-append r.order (p.id ∷ []));
    };
    unused =
        λ k g. Fresh-append r.order p.id (player_id w k) (v.unused k (omega arith)) (apart k g);
  }

  new_player-seed :
      (name : Text) (computer : Bool) (p : Piles) → p.seed < (new_player w name computer p).1.seed
  unfolding new_player
  new_player-seed name computer p =
      omega (arith, draw_answers-seed w hand_size (record p { seed = p.seed + 2 }))

  new_player-id :
      (name : Text) (computer : Bool) (p : Piles)
      → (new_player w name computer p).0.id ≡ player_id w p.seed
  unfolding new_player
  new_player-id name computer p = refl

  pub add_player-IsSeated :
      (name : Text) (computer : Bool) (r : Room)
      → IsSeated w r
      → length r.order < r.max_players
      → IsSeated w (add_player w name computer r).0
  unfolding add_player
  add_player-IsSeated name computer r v h =
      let id = new_player-id name computer r.piles in
      let later = new_player-seed name computer r.piles in
      seat-IsSeated (new_player w name computer r.piles).0 (new_player w name computer r.piles).1 r
        v h (rw id (v.unused r.seed (le_refl r.seed))) (omega arith)
        (λ k g. rw id (unrepeated r.seed k (omega arith)))

  pub try_join-IsSeated : (name : Text) (r : Room) → IsSeated w r → IsSeated w (try_join w name r).0
  unfolding try_join
  try_join-IsSeated name r v = elim (Bool-cases (valid_player_name name)) [
    | inr e ↦ rw (e, try_join) v
    | inl e ↦ elim (Bool-cases (leb r.max_players (length r.order))) [
      | inl full ↦ rw (e, full, try_join) v
      | inr free ↦ rw (e, free, try_join) (add_player-IsSeated name false r v (ground arith))
    ]
  ]

  pub fill_seats-IsSeated :
      (fuel : ℕ) (r : Room) → IsSeated w r → IsSeated w (fill_seats w fuel r).0
  unfolding fill_seats
  fill_seats-IsSeated zero r v = v
  fill_seats-IsSeated (suc fuel) r v =
      elim (Bool-cases (leb min_players_to_start (length r.order))) [
        | inl enough ↦ rw (enough, fill_seats) v
        | inr few ↦ elim (Bool-cases (leb r.max_players (length r.order))) [
          | inl full ↦ rw (few, full, fill_seats) v
          | inr free ↦
              rw (few, free, fill_seats)
                (fill_seats-IsSeated fuel _
                  (add_player-IsSeated (next_computer_name r) true r v (ground arith)))
        ]
      ]

  started-IsSeated : (o : Room × (Option RoomError)) → IsSeated w o.0 → IsSeated w (started w o).0
  unfolding started
  started-IsSeated (r, none) v =
      Keeps-IsSeated w r _ (run_round-Keeps w (first_computer_index r) r) v
  started-IsSeated (r, some e) v = v

  pub start_computer_game-IsSeated :
      (p : Text) (r : Room) → IsSeated w r → IsSeated w (start_computer_game w p r).0
  unfolding start_computer_game
  start_computer_game-IsSeated p r v = ground (
    arith,
    v,
    started-IsSeated (fill_seats w min_players_to_start r)
        (fill_seats-IsSeated min_players_to_start r v),
  )
