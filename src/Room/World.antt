-- ===== src/Room/World.antt =====
-- What a room reads from outside: the secure random source and `math/rand`
-- (backend/internal/realtime/room.go: newID, newSecret, randInt). A draw is named by its number.
use punchline.Base.{ℕ, ◌+◌, ◌/◌, ◌%◌, List, [], ◌∷◌, ◌++◌, if◌then◌else◌, ltb, leb, Text, codes}

pub record World : Type 0 where
  -- The bytes that `rand.Read` fills in.
  pub random_bytes : ℕ → ℕ → List ℕ
  -- `rand.Int(rand.Reader, n)`.
  pub random_below : ℕ → ℕ → ℕ
  -- The pairs of positions that `rand.Shuffle(n, swap)` swaps.
  pub swaps : ℕ → ℕ → List (ℕ × ℕ)

-- `hex.EncodeToString`.
hex_digit : ℕ → ℕ
hex_digit d = if ltb d 10 then 0x30 + d else 0x57 + d

unfoldable pub hex : List ℕ → Text
unfolding hex_digit
hex [] = []
hex (b ∷ bytes) = hex_digit (b / 16) ∷ hex_digit (b % 16) ∷ hex bytes

module _ (w : World) where
  unfoldable pub new_id : ℕ → Text → Text
  unfolding hex
  new_id seed prefix = prefix ++ codes "_" ++ hex (w.random_bytes seed 8)

  unfoldable pub new_secret : ℕ → Text → Text
  unfolding hex
  new_secret seed prefix = prefix ++ codes "_" ++ hex (w.random_bytes seed 16)

  unfoldable pub rand_int : ℕ → ℕ → ℕ
  rand_int seed n = if leb n 0 then 0 else w.random_below seed n
