-- ===== src/Daily/Streaks.antt =====
-- The streak of a group.
use punchline.Base.{ℕ, ◌+◌, ◌-◌, ◌≤◌, ◌<◌, ◌≡◌, List, [], ◌∷◌, All}

-- The day is in the list.
pub data Has (day : ℕ) : List ℕ → Type 0 where
  now : {d : ℕ} {ds : List ℕ} → d ≡ day → Has day (d ∷ ds)
  later : {d : ℕ} {ds : List ℕ} → Has day ds → Has day (d ∷ ds)

-- Each day is later than those after it.
abbrev pub Newest : List ℕ → Type 0
Newest [] = Unit {0}
Newest (d ∷ ds) = All (λ e. e < d) ds × Newest ds

-- What a streak of `k` days says of the days, newest first.
pub record IsStreak (today k day : ℕ) (days : List ℕ) : Type 0 where
  pub missed : day + 1 < today → k ≡ 0
  pub kept : today ≤ day + 1 → 1 ≤ k
  pub each : (j : ℕ) → j < k → Has (day - j) (day ∷ days)
  pub ends : (other : ℕ) → 1 ≤ k → other + k ≡ day → ¬ Has other (day ∷ days)
