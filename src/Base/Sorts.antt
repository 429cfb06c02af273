-- ===== src/Base/Sorts.antt =====
-- `sort.Slice`, as an insertion sort by the code's comparison, and what makes its result one that the
-- order of the elements does not change.
use mathlib.Core.Path.{◌≡◌, refl, sym, subst, ◌∙◌}
use mathlib.Core.Bool.{Bool, true, false}
use mathlib.Core.Logic.{◌⊎◌, inl, inr}
use mathlib.Core.List.{List, [], ◌∷◌, Perm}
use mathlib.Core.List.Permᴰ.{Permᴰ}
use mathlib.Core.Logic.{∥∥₁_elim}
use mathlib.Core.HLevel.{hedberg}
use mathlib.Core.List.{List-discrete}
use native.Mathlib.Omega.{arith}
use punchline.Base.Tests.{if◌then◌else◌}

module _ {A : Type 0} where
  unfoldable pub insert_by : (A → A → Bool) → A → List A → List A
  insert_by lt s [] = s ∷ []
  insert_by lt s (t ∷ ts) = let rest = insert_by lt s ts in if lt t s then t ∷ rest else s ∷ t ∷ ts

  unfoldable pub sort_by : (A → A → Bool) → List A → List A
  unfolding insert_by
  sort_by lt [] = []
  sort_by lt (s ∷ ss) = insert_by lt s (sort_by lt ss)

-- A comparison that is a strict total order.
pub record StrictOrder {A : Type 0} (lt : A → A → Bool) : Type 0 where
  pub asymm : (a b : A) → lt a b ≡ true → lt b a ≡ false
  pub trans : (a b c : A) → lt a b ≡ true → lt b c ≡ true → lt a c ≡ true
  pub total : (a b : A) → (lt a b ≡ true) ⊎ ((lt b a ≡ true) ⊎ (a ≡ b))

module _ {A : Type 0} (lt : A → A → Bool) (order : StrictOrder lt) where
  insert_by-lt :
      (a b : A) (l : List A)
      → lt a b ≡ true
      → insert_by lt a (insert_by lt b l) ≡ insert_by lt b (insert_by lt a l)
  unfolding insert_by
  insert_by-lt a b [] h = ground (arith, h, order.asymm a b h)
  insert_by-lt a b (t ∷ l) h =
      ground (arith, h, order.asymm a b h, insert_by-lt a b l h, order.trans t a b)

  insert_by_comm :
      (a b : A) (l : List A) → insert_by lt a (insert_by lt b l) ≡ insert_by lt b (insert_by lt a l)
  insert_by_comm a b l = elim (order.total a b) [
    | inl h ↦ insert_by-lt a b l h
    | inr (inl h) ↦ sym (insert_by-lt b a l h)
    | inr (inr e) ↦
        subst (λ c. insert_by lt a (insert_by lt c l) ≡ insert_by lt c (insert_by lt a l)) e refl
  ]

  sort_by-reordered : {ks js : List A} → Permᴰ ks js → sort_by lt ks ≡ sort_by lt js
  unfolding sort_by
  sort_by-reordered Permᴰ.nil = refl
  sort_by-reordered (Permᴰ.cons e d) = λ i. insert_by lt (e i) (sort_by-reordered d i)
  sort_by-reordered (Permᴰ.swap {l = l} e f) =
      (λ i. insert_by lt (e i) (insert_by lt (f i) (sort_by lt l)))
      ∙ insert_by_comm _ _ (sort_by lt l)
  sort_by-reordered (Permᴰ.trans d f) = sort_by-reordered d ∙ sort_by-reordered f

  -- The result does not depend on the order in which the elements come.
  pub sort_by-perm : Discrete A → (ks js : List A) → Perm ks js → sort_by lt ks ≡ sort_by lt js
  sort_by-perm d ks js p =
      ∥∥₁_elim p (hedberg (List-discrete d) (sort_by lt ks) (sort_by lt js))
        (λ q. sort_by-reordered q)
