-- ===== src/Room/Keeps/Clients.antt =====
-- Sockets come and go without a change of the roster.
use punchline.Base.{ℕ, ◌≡◌, refl, List, Text, arith, Option-cases, inl, inr, true}
use punchline.Room.Types.{Player, Room}
use punchline.Room.Roster.{find_player}
use punchline.Room.Join.{attach, detach, disconnect, drop_client}
use punchline.Room.Ids.{ids, ids-put_player}
use punchline.Room.Keeps.{Keeps, Keeps-refl}

pub attach-Keeps : (id token : Text) (conn : ℕ) (r : Room) → Keeps r (attach id token conn r).0
unfolding attach
attach-Keeps id token conn r = elim (Option-cases (find_player id r.players)) [
  | inl e ↦ ground (arith, Keeps-refl r)
  | inr (p, e) ↦
      ground
        (arith, Keeps-refl r, ids-put_player id p (record p { connected = true }) r.players e refl)
]

ids-disconnect : (id : Text) (ps : List Player) → ids (disconnect id ps) ≡ ids ps
unfolding disconnect
ids-disconnect id ps = elim (Option-cases (find_player id ps)) [
  | inl e ↦ rw (e, disconnect) refl
  | inr (p, e) ↦ rw (e, disconnect) (ids-put_player id p _ ps e refl)
]

drop_client-Keeps : (id : Text) (r : Room) → Keeps r (drop_client id r)
unfolding drop_client
drop_client-Keeps id r = ground (arith, ids-disconnect id r.players)

pub detach-Keeps : (id : Text) (conn : ℕ) (r : Room) → Keeps r (detach id conn r)
unfolding detach
detach-Keeps id conn r = ground (arith, Keeps-refl r, drop_client-Keeps id r)
