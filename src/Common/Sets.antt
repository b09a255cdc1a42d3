-- ===== src/Common/Sets.antt =====
-- A `Set` of numbered objects, in insertion order.
use Prim.Native.Nat.{ℕ}
use mathlib.Core.Path.{◌≡◌, refl}
use mathlib.Core.Bool.{Bool, true, false}
use mathlib.Core.List.{List, [], ◌∷◌, ◌++◌}
use native.Mathlib.Omega.{arith}
use ibridger.Common.Tests.{◌==◌, if◌then◌else◌}

-- `set.has(x)`
unfoldable pub has : ℕ → List ℕ → Bool
has x [] = false
has x (y ∷ ys) = if y == x then true else has x ys

-- `set.add(x)`
unfoldable pub add : ℕ → List ℕ → List ℕ
unfolding has
add x ys = if has x ys then ys else ys ++ x ∷ []

-- `set.delete(x)`
unfoldable pub delete : ℕ → List ℕ → List ℕ
delete x [] = []
delete x (y ∷ ys) = let rest = delete x ys in if y == x then rest else y ∷ rest

pub has-append : (x : ℕ) (ys zs : List ℕ) → has x (ys ++ zs) ≡ (if has x ys then true else has x zs)
unfolding has
has-append x [] zs = refl
has-append x (y ∷ ys) zs = ground (arith, has-append x ys zs)

pub has-add : (x y : ℕ) (ys : List ℕ) → has x (add y ys) ≡ (if y == x then true else has x ys)
unfolding add has
has-add x y ys = grind (arith, has-append x ys (y ∷ []))

pub has-delete :
    (x y : ℕ) (ys : List ℕ) → has x (delete y ys) ≡ (if y == x then false else has x ys)
unfolding has delete
has-delete x y [] = ground arith
has-delete x y (z ∷ ys) = ground (arith, has-delete x y ys)
