-- ===== src/Cards/Valid.antt =====
-- What a deck that has passed `validateDeck` is like.
use punchline.Base.{
  ℕ, suc, ◌+◌, map, subst, trim_space, ◌≤◌, ◌<◌, ◌≡◌, ◌≢◌, refl, ap, false, List, [], ◌∷◌, length,
  Text, All, arith, ◌⊎◌, inl, inr,
}
use punchline.Cards.Deck.{
  PromptCard, AnswerCard, Deck, deck_for, family_prompts, family_answers, tier_family, tier_party,
}
use punchline.Cards.Validate.{
  Checked, DeckError, ok, err, normalize_seed_tier, seen, count_family, validate_prompt,
  validate_answer, validate_prompts, validate_answers, validate_deck,
}

Checked-cases :
    {A : Type 0} (m : Checked A) → ((a : A) × (m ≡ ok a)) ⊎ ((e : DeckError) × (m ≡ err e))
Checked-cases (ok a) = inl (a, refl)
Checked-cases (err e) = inr (e, refl)

-- One of the two tiers.
abbrev pub IsTier : Text → Type 0
IsTier tier = (tier ≡ tier_party) ⊎ (tier ≡ tier_family)

-- A card as the code may deal it: an id, a text and one of the two tiers.
abbrev pub IsFit : Text → Text → Text → Type 0
IsFit id text tier = (id ≢ []) × (text ≢ []) × IsTier tier

normalize_seed_tier-IsTier :
    (tier t : Text) (e : DeckError) → normalize_seed_tier tier e ≡ ok t → IsTier t
unfolding normalize_seed_tier
normalize_seed_tier-IsTier tier t e h = ground (arith, h)

validate_prompt-IsFit :
    (ids : List Text) (c p : PromptCard)
    → validate_prompt ids c ≡ ok p
    → IsFit p.id p.text p.tier × (seen p.id ids ≡ false)
unfolding validate_prompt
validate_prompt-IsFit ids c p h =
    elim (Checked-cases (normalize_seed_tier c.tier (DeckError.prompt_tier (trim_space c.id)))) [
      | inl (t, e) ↦ ground (arith, e, normalize_seed_tier-IsTier c.tier t _ e)
      | inr (x, e) ↦ ground (arith, e)
    ]

validate_answer-IsFit :
    (ids : List Text) (c p : AnswerCard)
    → validate_answer ids c ≡ ok p
    → IsFit p.id p.text p.tier × (seen p.id ids ≡ false)
unfolding validate_answer
validate_answer-IsFit ids c p h =
    elim (Checked-cases (normalize_seed_tier c.tier (DeckError.answer_tier (trim_space c.id)))) [
      | inl (t, e) ↦ ground (arith, e, normalize_seed_tier-IsTier c.tier t _ e)
      | inr (x, e) ↦ ground (arith, e)
    ]

abbrev value_or : {A : Type 0} → A → Checked A → A
value_or a (ok b) = b
value_or a (err _) = a

-- No two of the ids are the same.
abbrev pub Unlike : List Text → Type 0
Unlike [] = Unit {0}
Unlike (id ∷ ids) = All (λ j. j ≢ id) ids × Unlike ids

unseen_split :
    (j id : Text) (ids : List Text) → seen j (id ∷ ids) ≡ false → (j ≢ id) × (seen j ids ≡ false)
unfolding seen
unseen_split j id ids h = (λ e. ground (arith, h, e), ground (arith, h))

ok_inj : {A : Type 0} {a b : A} → ok a ≡ ok b → a ≡ b
ok_inj {a = a} h = ap (λ m. value_or a m) h

-- The cards are fit, and their ids are none of `ids`.
abbrev PromptsNew : List Text → List PromptCard → Type 0
PromptsNew ids = All (λ p. IsFit p.id p.text p.tier × (seen p.id ids ≡ false))

PromptsNew-weaken :
    (id : Text) (ids : List Text) (ps : List PromptCard)
    → PromptsNew (id ∷ ids) ps
    → PromptsNew ids ps × All (λ j. j ≢ id) (map (λ p. p.id) ps)
unfolding seen
PromptsNew-weaken id ids [] h = (tt, tt)
PromptsNew-weaken id ids (p ∷ ps) h =
    let (f, g) = PromptsNew-weaken id ids ps h.1 in
    let s = unseen_split p.id id ids h.0.1 in (((h.0.0, s.1), f), (s.0, g))

-- What a loop from `n` family cards over `k` cards gives: as many cards, the family cards counted,
-- and every card fit and under an id of its own.
abbrev PromptsPassed : List Text → ℕ → ℕ → List PromptCard → ℕ → Type 0
PromptsPassed ids n k ps m =
    (length ps ≡ k)
    × (m ≡ n + length (family_prompts ps))
    × PromptsNew ids ps
    × Unlike (map (λ p. p.id) ps)

PromptsPassed-cons :
    (ids : List Text) (n k m : ℕ) (p : PromptCard) (ps : List PromptCard)
    → IsFit p.id p.text p.tier × (seen p.id ids ≡ false)
    → PromptsPassed (p.id ∷ ids) (count_family p.tier n) k ps m
    → PromptsPassed ids n (suc k) (p ∷ ps) m
unfolding family_prompts
PromptsPassed-cons ids n k m p ps f (l, c, h, u) =
    let (g, a) = PromptsNew-weaken p.id ids ps h in
    (omega (arith, l), ground (arith, c), (f, g), (a, u))

validate_prompts-PromptsPassed :
    (ids : List Text) (n m : ℕ) (cs ps : List PromptCard)
    → validate_prompts ids n cs ≡ ok (ps, m)
    → PromptsPassed ids n (length cs) ps m
unfolding validate_prompts family_prompts
validate_prompts-PromptsPassed ids n m [] ps h =
    subst (λ r. PromptsPassed ids n 0 (r.0) (r.1)) (ok_inj h) (refl, omega arith, tt, tt)
validate_prompts-PromptsPassed ids n m (c ∷ cs) ps h =
    elim (Checked-cases (validate_prompt ids c)) [
      | inr (x, e) ↦ absurd (ground (arith, e))
      | inl (p, e) ↦
          elim (Checked-cases (validate_prompts (p.id ∷ ids) (count_family p.tier n) cs)) [
            | inr (x, f) ↦ absurd (ground (arith, e, f))
            | inl (out, f) ↦
                subst (λ r. PromptsPassed ids n (suc (length cs)) (r.0) (r.1))
                  (ok_inj (rw (e, f) at h))
                  (PromptsPassed-cons ids n (length cs) (out.1) p (out.0)
                    (validate_prompt-IsFit ids c p e)
                    (validate_prompts-PromptsPassed (p.id ∷ ids) (count_family p.tier n) (out.1) cs
                      (out.0) f))
          ]
    ]

-- The cards are fit, and their ids are none of `ids`.
abbrev AnswersNew : List Text → List AnswerCard → Type 0
AnswersNew ids = All (λ p. IsFit p.id p.text p.tier × (seen p.id ids ≡ false))

AnswersNew-weaken :
    (id : Text) (ids : List Text) (ps : List AnswerCard)
    → AnswersNew (id ∷ ids) ps
    → AnswersNew ids ps × All (λ j. j ≢ id) (map (λ p. p.id) ps)
unfolding seen
AnswersNew-weaken id ids [] h = (tt, tt)
AnswersNew-weaken id ids (p ∷ ps) h =
    let (f, g) = AnswersNew-weaken id ids ps h.1 in
    let s = unseen_split p.id id ids h.0.1 in (((h.0.0, s.1), f), (s.0, g))

-- What a loop from `n` family cards over `k` cards gives: as many cards, the family cards counted,
-- and every card fit and under an id of its own.
abbrev AnswersPassed : List Text → ℕ → ℕ → List AnswerCard → ℕ → Type 0
AnswersPassed ids n k ps m =
    (length ps ≡ k)
    × (m ≡ n + length (family_answers ps))
    × AnswersNew ids ps
    × Unlike (map (λ p. p.id) ps)

AnswersPassed-cons :
    (ids : List Text) (n k m : ℕ) (p : AnswerCard) (ps : List AnswerCard)
    → IsFit p.id p.text p.tier × (seen p.id ids ≡ false)
    → AnswersPassed (p.id ∷ ids) (count_family p.tier n) k ps m
    → AnswersPassed ids n (suc k) (p ∷ ps) m
unfolding family_answers
AnswersPassed-cons ids n k m p ps f (l, c, h, u) =
    let (g, a) = AnswersNew-weaken p.id ids ps h in
    (omega (arith, l), ground (arith, c), (f, g), (a, u))

validate_answers-AnswersPassed :
    (ids : List Text) (n m : ℕ) (cs ps : List AnswerCard)
    → validate_answers ids n cs ≡ ok (ps, m)
    → AnswersPassed ids n (length cs) ps m
unfolding validate_answers family_answers
validate_answers-AnswersPassed ids n m [] ps h =
    subst (λ r. AnswersPassed ids n 0 (r.0) (r.1)) (ok_inj h) (refl, omega arith, tt, tt)
validate_answers-AnswersPassed ids n m (c ∷ cs) ps h =
    elim (Checked-cases (validate_answer ids c)) [
      | inr (x, e) ↦ absurd (ground (arith, e))
      | inl (p, e) ↦
          elim (Checked-cases (validate_answers (p.id ∷ ids) (count_family p.tier n) cs)) [
            | inr (x, f) ↦ absurd (ground (arith, e, f))
            | inl (out, f) ↦
                subst (λ r. AnswersPassed ids n (suc (length cs)) (r.0) (r.1))
                  (ok_inj (rw (e, f) at h))
                  (AnswersPassed-cons ids n (length cs) (out.1) p (out.0)
                    (validate_answer-IsFit ids c p e)
                    (validate_answers-AnswersPassed (p.id ∷ ids) (count_family p.tier n) (out.1) cs
                      (out.0) f))
          ]
    ]

-- A deck that can be played with.
pub record IsValid (d : Deck) : Type 0 where
  pub many_prompts : 90 ≤ length d.prompts
  pub many_answers : 180 ≤ length d.answers
  pub family_many_prompts : 50 ≤ length (family_prompts d.prompts)
  pub family_many_answers : 100 ≤ length (family_answers d.answers)
  pub fit_prompts : PromptsNew [] d.prompts
  pub fit_answers : AnswersNew [] d.answers
  pub unlike_prompts : Unlike (map (λ p. p.id) d.prompts)
  pub unlike_answers : Unlike (map (λ a. a.id) d.answers)

-- The loops' results in a deck that has passed, and the tests after them.
tests_passed :
    (d e : Deck) (x : List PromptCard × ℕ) (y : List AnswerCard × ℕ)
    → validate_prompts [] 0 d.prompts ≡ ok x
    → validate_answers [] 0 d.answers ≡ ok y
    → validate_deck d ≡ ok e
    → (90 ≤ length d.prompts)
      × (180 ≤ length d.answers)
      × (50 ≤ x.1)
      × (100 ≤ y.1)
      × (record { prompts = x.0; answers = y.0 } ≡ e)
unfolding validate_deck
tests_passed d e x y f g h = ground (arith, f, g, h)

-- Every deck that `validateDeck` accepts is left with 90 prompts and 180 answers or more, of the
-- family tier 50 and 100 or more; with an id, a text and one of the two tiers on every card; and
-- with no two prompts and no two answers under one id.
pub validate_deck-IsValid : (d e : Deck) → validate_deck d ≡ ok e → IsValid e
unfolding validate_deck
validate_deck-IsValid d e h = elim (Checked-cases (validate_prompts [] 0 d.prompts)) [
  | inr (x, f) ↦ absurd (ground (arith, f))
  | inl (x, f) ↦ elim (Checked-cases (validate_answers [] 0 d.answers)) [
    | inr (y, g) ↦ absurd (ground (arith, f, g))
    | inl (y, g) ↦
        let (a, b, c, k, l) = tests_passed d e x y f g h in
        let (lp, cp, np, up) = validate_prompts-PromptsPassed [] 0 (x.1) d.prompts (x.0) f in
        let (la, ca, na, ua) = validate_answers-AnswersPassed [] 0 (y.1) d.answers (y.0) g in
        subst IsValid l (record {
          many_prompts = omega (arith, a, lp);
          many_answers = omega (arith, b, la);
          family_many_prompts = omega (arith, c, cp);
          family_many_answers = omega (arith, k, ca);
          fit_prompts = np;
          fit_answers = na;
          unlike_prompts = up;
          unlike_answers = ua;
        })
  ]
]

-- A valid deck can be dealt from at every tier.
pub IsValid-deals :
    (d : Deck) (tier : Text)
    → IsValid d
    → (0 < length (deck_for d tier).prompts) × (0 < length (deck_for d tier).answers)
unfolding deck_for
IsValid-deals d tier v =
    ground (arith, v.many_prompts, v.many_answers, v.family_many_prompts, v.family_many_answers)
