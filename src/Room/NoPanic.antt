-- ===== src/Room/NoPanic.antt =====
-- No call makes the code panic: no index is out of range, no player that the order names is missing,
-- and no order is empty where the code divides by its length.
pub mod Rounds
pub mod Others
use punchline.Base.{ℕ, ◌≡◌, refl, Text, arith}
use punchline.Cards.Deck.{deck_for}
use punchline.Room.World.{World}
use punchline.Room.Types.{Phase, Room}
use punchline.Room.Phase.{set_phase, begin_judging, award}
use punchline.Room.Turns.{schedule_computer_turns}
use punchline.Room.Persist.{touch}
use punchline.Room.Calm.{IsPlayable, IsCalm}

-- The piles are calm, and the deck that the room came with can be dealt at every tier.
pub record IsReady (r : Room) : Type 0 where
  pub calm : IsCalm r.piles
  pub full : (tier : Text) → IsPlayable (deck_for r.full_deck tier)

-- The piles are the same, but for the cards in them and the number of the next draw.
pub record SamePiles (r s : Room) : Type 0 where
  pub deck : s.deck ≡ r.deck
  pub panicked : s.panicked ≡ r.panicked
  pub full_deck : s.full_deck ≡ r.full_deck

pub SamePiles-refl : (r : Room) → SamePiles r r
SamePiles-refl r = record { deck = refl; panicked = refl; full_deck = refl }

pub SamePiles-trans : (r s t : Room) → SamePiles r s → SamePiles s t → SamePiles r t
SamePiles-trans r s t h k = ground arith

pub SamePiles-IsReady : (r s : Room) → SamePiles r s → IsReady r → IsReady s
SamePiles-IsReady r s k v = record {
  calm = record { dealable = rw k.deck v.calm.dealable; calm = rw k.panicked v.calm.calm };
  full = λ tier. rw k.full_deck (v.full tier);
}

pub touch-SamePiles : (r : Room) → SamePiles r (touch r)
unfolding touch
touch-SamePiles r = ground arith

pub set_phase-SamePiles : (p : Phase) (d : ℕ) (r : Room) → SamePiles r (set_phase p d r)
unfolding set_phase
set_phase-SamePiles p d r = ground arith

pub begin_judging-SamePiles : (r : Room) → SamePiles r (begin_judging r)
unfolding begin_judging
begin_judging-SamePiles r = ground arith

pub award-SamePiles : (id : Text) (r : Room) → SamePiles r (award id r)
unfolding award
award-SamePiles id r = ground arith

pub schedule-SamePiles : (w : World) (r : Room) → SamePiles r (schedule_computer_turns w r)
unfolding schedule_computer_turns
schedule-SamePiles w r = ground arith
