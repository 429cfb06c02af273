-- ===== src/Cards/Shuffle.antt =====
-- backend/internal/cards/deck.go: `ShuffledPrompts` and `ShuffledAnswers`. `rand.Shuffle` calls the
-- swap that it is given at pairs of positions of its own choice, which are an argument here.
use punchline.Base.{
  ℕ, zero, suc, List, [], ◌∷◌, none, some, ◌≡◌, refl, ap, length, get_elem?, All, ◌∙◌, subst, inl,
  inr, Option-cases,
}
use mathlib.Core.Option.{some-injective}
use punchline.Cards.Deck.{PromptCard, AnswerCard, Deck}

module _ {ℓ} {A : Type ℓ} where
  -- A write out of bounds changes nothing.
  set : List A → ℕ → A → List A
  set [] i v = []
  set (x ∷ xs) zero v = v ∷ xs
  set (x ∷ xs) (suc i) v = x ∷ set xs i v

  -- `out[i], out[j] = out[j], out[i]`. The pairs that `rand.Shuffle` passes are within bounds.
  swap : ℕ → ℕ → List A → List A
  unfolding set
  swap i j out = elim (get_elem? out i) [
    | none ↦ out
    | some a ↦ elim (get_elem? out j) [ none ↦ out | some b ↦ set (set out i b) j a ]
  ]

  unfoldable pub shuffle : List (ℕ × ℕ) → List A → List A
  unfolding swap
  shuffle [] out = out
  shuffle ((i, j) ∷ pairs) out = shuffle pairs (swap i j out)

  length-set : (xs : List A) (i : ℕ) (v : A) → length (set xs i v) ≡ length xs
  unfolding set
  length-set [] i v = refl
  length-set (x ∷ xs) zero v = refl
  length-set (x ∷ xs) (suc i) v = ap suc (length-set xs i v)

  -- A swap changes nothing, or writes two elements of the list.
  swap_cases {κ} :
      (P : List A → Type κ) (i j : ℕ) (out : List A)
      → P out
      → ((a b : A)
          → get_elem? out i ≡ some a
          → get_elem? out j ≡ some b
          → P (set (set out i b) j a))
      → P (swap i j out)
  unfolding swap
  swap_cases P i j out same swapped = elim (Option-cases (get_elem? out i)) [
    | inl e ↦ rw (e, swap) same
    | inr (a, e) ↦ elim (Option-cases (get_elem? out j)) [
      | inl f ↦ rw (e, f, swap) same
      | inr (b, f) ↦ rw (e, f, swap) (swapped a b e f)
    ]
  ]

  length-swap : (i j : ℕ) (out : List A) → length (swap i j out) ≡ length out
  unfolding swap
  length-swap i j out =
      swap_cases (λ ys. length ys ≡ length out) i j out refl
        λ a b _ _. length-set (set out i b) j a ∙ length-set out i b

  pub length-shuffle :
      (pairs : List (ℕ × ℕ)) (out : List A) → length (shuffle pairs out) ≡ length out
  unfolding shuffle
  length-shuffle [] out = refl
  length-shuffle ((i, j) ∷ pairs) out = length-shuffle pairs (swap i j out) ∙ length-swap i j out

module _ {ℓ κ} {A : Type ℓ} (P : A → Type κ) where
  All-get : (xs : List A) (i : ℕ) {a : A} → All P xs → get_elem? xs i ≡ some a → P a
  All-get [] i h e = cc
  All-get (x ∷ xs) zero h e = subst P (some-injective _ _ e) h.0
  All-get (x ∷ xs) (suc i) h e = All-get xs i h.1 e

  All-set : (xs : List A) (i : ℕ) (v : A) → All P xs → P v → All P (set xs i v)
  unfolding set
  All-set [] i v h p = h
  All-set (x ∷ xs) zero v h p = (p, h.1)
  All-set (x ∷ xs) (suc i) v h p = (h.0, All-set xs i v h.1 p)

  -- What holds of every card of the list holds of every card of a shuffle of it.
  pub All-shuffle : (pairs : List (ℕ × ℕ)) (out : List A) → All P out → All P (shuffle pairs out)
  unfolding shuffle
  All-shuffle [] out h = h
  All-shuffle ((i, j) ∷ pairs) out h = All-shuffle pairs (swap i j out) (
      swap_cases (All P) i j out h λ a b e f.
        All-set (set out i b) j a (All-set out i b h (All-get out j h f)) (All-get out i h e))

unfoldable pub shuffled_prompts : Deck → List (ℕ × ℕ) → List PromptCard
unfolding shuffle
shuffled_prompts d pairs = shuffle pairs d.prompts

unfoldable pub shuffled_answers : Deck → List (ℕ × ℕ) → List AnswerCard
unfolding shuffle
shuffled_answers d pairs = shuffle pairs d.answers
