-- ===== src/Base/Maps.antt =====
-- Go maps with string keys, as lists of entries.
use mathlib.Core.Path.{◌≡◌, refl}
use mathlib.Core.Bool.{Bool}
use mathlib.Core.List.{List, [], ◌∷◌}
use mathlib.Core.Option.{Option, none, some}
use native.Mathlib.Omega.{arith}
use punchline.Base.Tests.{if◌then◌else◌}
use punchline.Base.Runes.{Text, same}

module _ {A : Type 0} where
  -- `m[key]`.
  unfoldable pub find : Text → List (Text × A) → Option A
  find key [] = none
  find key ((k, a) ∷ es) = if same k key then some a else find key es

  -- `m[key] = a`.
  unfoldable pub put : Text → A → List (Text × A) → List (Text × A)
  put key a [] = (key, a) ∷ []
  put key a ((k, b) ∷ es) = if same k key then (key, a) ∷ es else (k, b) ∷ put key a es

  -- `delete(m, key)` of an entry whose value passes a test, as a loop over the map does.
  unfoldable pub keep : (A → Bool) → List (Text × A) → List (Text × A)
  keep ok [] = []
  keep ok ((k, a) ∷ es) = if ok a then (k, a) ∷ keep ok es else keep ok es

  unfoldable pub delete : Text → List (Text × A) → List (Text × A)
  delete key [] = []
  delete key ((k, a) ∷ es) = if same k key then es else (k, a) ∷ delete key es

  pub find-put :
      (key other : Text) (a : A) (es : List (Text × A))
      → find key (put other a es) ≡ (if same other key then some a else find key es)
  unfolding find put
  find-put key other a [] = refl
  find-put key other a ((k, b) ∷ es) = ground (arith, find-put key other a es)
