-- ===== src/Base/Sets.antt =====
-- Finite sets of keys: Go's `map[K]struct{}` as a list without repetitions, in iteration order.
use Prim.Native.Nat.{ℕ}
use mathlib.Core.Path.{◌≡◌, refl}
use mathlib.Core.Logic.{◌≢◌}
use mathlib.Core.Bool.{Bool, true, false, ◌||◌}
use mathlib.Core.List.{List, [], ◌∷◌}
use native.Mathlib.Omega.{arith}
use aul_private_location.Base.Core.{◌==◌, if◌then◌else◌, ==_iff}

-- `_, ok := set[x]`
unfoldable pub has : ℕ → List ℕ → Bool
has x [] = false
has x (y ∷ ys) = y == x || has x ys

-- `set[x] = struct{}{}`
unfoldable pub add : ℕ → List ℕ → List ℕ
add x s = if has x s then s else x ∷ s

-- `delete(set, x)`
unfoldable pub del : ℕ → List ℕ → List ℕ
del x [] = []
del x (y ∷ ys) = let rest = del x ys in if y == x then rest else y ∷ rest

abbrev pub Distinct : List ℕ → Type 0
Distinct [] = Unit {0}
Distinct (x ∷ xs) = (has x xs ≡ false) × Distinct xs

pub has-add : (x y : ℕ) (s : List ℕ) → has y (add x s) ≡ (if x == y then true else has y s)
unfolding add has
has-add x y s = ground (arith, ==_iff x y)

pub has-del : (x y : ℕ) (s : List ℕ) → has y (del x s) ≡ (if x == y then false else has y s)
unfolding del has
has-del x y [] = ground arith
has-del x y (z ∷ zs) = ground (arith, has-del x y zs)

pub add-Distinct : (x : ℕ) (s : List ℕ) → Distinct s → Distinct (add x s)
unfolding add
add-Distinct x s d = ground arith

pub del-Distinct : (x : ℕ) (s : List ℕ) → Distinct s → Distinct (del x s)
unfolding del
del-Distinct x [] d = tt
del-Distinct x (y ∷ ys) d = ground (arith, del-Distinct x ys d.1, has-del x y ys)

pub add-ne-nil : (x : ℕ) (s : List ℕ) → add x s ≢ []
unfolding add has
add-ne-nil x [] h = cc
add-ne-nil x (y ∷ ys) h = ground arith

pub has-cons : (x y : ℕ) (s : List ℕ) → has x (y ∷ s) ≡ (y == x || has x s)
unfolding has
has-cons x y s = refl

pub has-nil : (x : ℕ) → has x [] ≡ false
unfolding has
has-nil x = refl
