-- ===== src/Base/Keys.antt =====
-- The keys of a map, and what writes and deletions do to them.
use mathlib.Core.Path.{◌≡◌, refl, ap, sym, subst}
use mathlib.Core.Logic.{◌≢◌}
use mathlib.Core.List.{List, [], ◌∷◌}
use mathlib.Core.Option.{Option, none, some}
use native.Mathlib.Omega.{arith}
use Prim.Native.Nat.{suc, ◌≤◌}
use punchline.Base.Tests.{if◌then◌else◌, holds}
use punchline.Base.Runes.{Text, text_discrete}
use punchline.Base.Lists.{length, All}
use punchline.Base.Maps.{find, put, delete}

module _ {A : Type 0} where
  abbrev value_or : A → Option A → A
  value_or a none = a
  value_or a (some b) = b

  -- No entry has the key.
  abbrev pub IsFree : Text → List (Text × A) → Type 0
  IsFree key = All (λ e. e.0 ≢ key)

  -- No two entries have the same key.
  abbrev pub IsMap : List (Text × A) → Type 0
  IsMap [] = Unit {0}
  IsMap ((k, a) ∷ es) = IsFree k es × IsMap es

  pub put-IsFree :
      (key other : Text) (a : A) (es : List (Text × A))
      → other ≢ key
      → IsFree key es
      → IsFree key (put other a es)
  unfolding put
  put-IsFree key other a [] n f = (n, tt)
  put-IsFree key other a ((k, b) ∷ es) n f = ground (arith, put-IsFree key other a es n f.1)

  pub put-IsMap : (key : Text) (a : A) (es : List (Text × A)) → IsMap es → IsMap (put key a es)
  unfolding put
  put-IsMap key a [] v = (tt, tt)
  put-IsMap key a ((k, b) ∷ es) v =
      elim (text_discrete k key)
        as (λ x. IsMap (if holds x then (key, a) ∷ es else (k, b) ∷ put key a es)) [
          | yes e ↦ (subst (λ j. IsFree j es) e v.0, v.1)
          | no n ↦ (put-IsFree k key a es (λ e. n (sym e)) v.0, put-IsMap key a es v.1)
        ]

  pub delete-IsFree :
      (key other : Text) (es : List (Text × A)) → IsFree key es → IsFree key (delete other es)
  unfolding delete
  delete-IsFree key other [] f = tt
  delete-IsFree key other ((k, b) ∷ es) f = ground (arith, delete-IsFree key other es f.1)

  pub delete-IsMap : (key : Text) (es : List (Text × A)) → IsMap es → IsMap (delete key es)
  unfolding delete
  delete-IsMap key [] v = tt
  delete-IsMap key ((k, b) ∷ es) v =
      ground (arith, delete-IsFree k key es v.0, delete-IsMap key es v.1)

  pub length-put_new :
      (key : Text) (a : A) (es : List (Text × A))
      → find key es ≡ none
      → length (put key a es) ≡ suc (length es)
  unfolding find put
  length-put_new key a [] h = refl
  length-put_new key a ((k, b) ∷ es) h = ground (arith, length-put_new key a es)

  pub length-put_old :
      (key : Text) (a b : A) (es : List (Text × A))
      → find key es ≡ some b
      → length (put key a es) ≡ length es
  unfolding find put
  length-put_old key a b [] h = cc
  length-put_old key a b ((k, c) ∷ es) h = ground (arith, length-put_old key a b es)

  pub length-delete : (key : Text) (es : List (Text × A)) → length (delete key es) ≤ length es
  unfolding delete
  length-delete key [] = omega arith
  length-delete key ((k, b) ∷ es) = ground (arith, length-delete key es)

  pub some_inj : {a b : A} → some a ≡ some b → a ≡ b
  some_inj {a = a} h = ap (λ o. value_or a o) h

  module _ (P : Text → A → Type 0) where
    -- What holds of every entry.
    abbrev pub Each : List (Text × A) → Type 0
    Each = All (λ e. P (e.0) (e.1))

    pub put-Each :
        (key : Text) (a : A) (es : List (Text × A)) → P key a → Each es → Each (put key a es)
    unfolding put
    put-Each key a [] p h = (p, tt)
    put-Each key a ((k, b) ∷ es) p h =
        elim (text_discrete k key)
          as (λ x. Each (if holds x then (key, a) ∷ es else (k, b) ∷ put key a es)) [
            | yes e ↦ (p, h.1)
            | no n ↦ (h.0, put-Each key a es p h.1)
          ]

    pub delete-Each : (key : Text) (es : List (Text × A)) → Each es → Each (delete key es)
    unfolding delete
    delete-Each key [] h = tt
    delete-Each key ((k, b) ∷ es) h =
        elim (text_discrete k key) as (λ x. Each (if holds x then es else (k, b) ∷ delete key es)) [
          | yes e ↦ h.1
          | no n ↦ (h.0, delete-Each key es h.1)
        ]

    pub find-Each :
        (key : Text) (a : A) (es : List (Text × A)) → Each es → find key es ≡ some a → P key a
    unfolding find
    find-Each key a [] h e = cc
    find-Each key a ((k, b) ∷ es) h e =
        found_in k key b a (find key es) (text_discrete k key) h.0 (λ f. find-Each key a es h.1 f) e
      where
        found_in :
            (k key : Text) (b a : A) (o : Option A) (x : Dec (k ≡ key))
            → P k b
            → (o ≡ some a → P key a)
            → (if holds x then some b else o) ≡ some a
            → P key a
        found_in k key b a o (yes f) p q e = subst (λ j. P j a) f (subst (P k) (some_inj e) p)
        found_in k key b a o (no n) p q e = q e

  pub find_free : (key : Text) (es : List (Text × A)) → IsFree key es → find key es ≡ none
  unfolding find
  find_free key [] f = refl
  find_free key ((k, b) ∷ es) f = ground (arith, find_free key es f.1, f.0)

  -- What is deleted from a map is not there.
  pub find-delete : (key : Text) (es : List (Text × A)) → IsMap es → find key (delete key es) ≡ none
  unfolding find delete
  find-delete key [] v = refl
  find-delete key ((k, b) ∷ es) v =
      elim (text_discrete k key)
        as (λ x. find key (if holds x then es else (k, b) ∷ delete key es) ≡ none) [
          | yes e ↦ find_free key es (subst (λ j. IsFree j es) e v.0)
          | no n ↦ ground (arith, find-delete key es v.1, n)
        ]

  pub find-delete_ne :
      (key other : Text) (es : List (Text × A))
      → other ≢ key
      → find key (delete other es) ≡ find key es
  unfolding find delete
  find-delete_ne key other [] n = refl
  find-delete_ne key other ((k, b) ∷ es) n = ground (arith, find-delete_ne key other es n)

  pub find-put_same : (key : Text) (a : A) (es : List (Text × A)) → find key (put key a es) ≡ some a
  unfolding find put
  find-put_same key a [] = ground arith
  find-put_same key a ((k, b) ∷ es) = ground (arith, find-put_same key a es)

  -- What holds of everything that is found holds of every entry.
  pub Each-found :
      (P : Text → A → Type 0) (es : List (Text × A))
      → IsMap es
      → ((key : Text) (a : A) → find key es ≡ some a → P key a)
      → Each P es
  unfolding find
  Each-found P [] v h = tt
  Each-found P ((k, b) ∷ es) v h = (
    h k b (ground arith),
    Each-found P es v.1 (λ key a f. h key a (ground (arith, f, find_free key es, v.0))),
  )
