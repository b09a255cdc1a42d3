-- ===== src/Common/Assoc.antt =====
-- `Map` and plain objects with text keys as association lists, in insertion order.
use mathlib.Core.Path.{◌≡◌, refl}
use mathlib.Core.Logic.{ite, ◌≢◌}
use mathlib.Core.Option.{Option, none, some}
use mathlib.Core.List.{List, [], ◌∷◌, ◌++◌}
use native.Mathlib.Omega.{arith}
use ibridger.Common.Text.{Text, text_dec}

module _ {ℓ} {V : Type ℓ} where
  -- `map.get(key)`
  unfoldable pub get : Text → List (Text × V) → Option V
  get k [] = none
  get k ((j, v) ∷ m) = ite (text_dec j k) (some v) (get k m)

  -- `map.set(key, value)`: an old key keeps its place.
  unfoldable pub set : Text → V → List (Text × V) → List (Text × V)
  set k v [] = (k, v) ∷ []
  set k v ((j, w) ∷ m) = ite (text_dec j k) ((j, v) ∷ m) ((j, w) ∷ set k v m)

  pub get-set :
      (k j : Text) (v : V) (m : List (Text × V))
      → get j (set k v m) ≡ ite (text_dec k j) (some v) (get j m)
  unfolding get set
  get-set k j v [] = refl
  get-set k j v ((i, w) ∷ m) = ground (arith, get-set k j v m)

  -- No entry has the key.
  abbrev pub Fresh : Text → List (Text × V) → Type 0
  Fresh k [] = Unit {0}
  Fresh k ((j, v) ∷ m) = (j ≢ k) × Fresh k m

  -- Every key once.
  abbrev pub Distinct : List (Text × V) → Type 0
  Distinct [] = Unit {0}
  Distinct ((k, v) ∷ m) = Fresh k m × Distinct m

  pub set-append :
      (k : Text) (v : V) (m : List (Text × V)) → Fresh k m → set k v m ≡ m ++ (k, v) ∷ []
  unfolding set
  set-append k v [] h = refl
  set-append k v ((j, w) ∷ m) h = ground (arith, set-append k v m h.1)
