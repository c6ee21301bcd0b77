-- ===== src/Base/Maps.antt =====
-- Maps with numeric keys. Clients have `get`, `size` and the laws; the entries stay in this file.
use Prim.Native.Nat.{ℕ}
use mathlib.Core.Path.{◌≡◌, refl}
use mathlib.Core.Bool.{Bool}
use mathlib.Core.Option.{Option, none, some}
use mathlib.Core.List.{List, [], ◌∷◌}
use native.Mathlib.Omega.{arith}
use aul_private_location.Base.Core.{◌==◌, if◌then◌else◌, length}

pub record Map {ℓ} (V : Type ℓ) : Type ℓ where
  entries : List (ℕ × V)

module _ {ℓ} {V : Type ℓ} where
  find : ℕ → List (ℕ × V) → Option V
  find k [] = none
  find k ((j, v) ∷ m) = if j == k then some v else find k m

  without : ℕ → List (ℕ × V) → List (ℕ × V)
  without k [] = []
  without k ((j, v) ∷ m) = let rest = without k m in if j == k then rest else (j, v) ∷ rest

  find-without :
      (k j : ℕ) (m : List (ℕ × V)) → find j (without k m) ≡ (if k == j then none else find j m)
  unfolding find without
  find-without k j [] = ground arith
  find-without k j ((i, v) ∷ m) = ground (arith, find-without k j m)

  -- The entries whose value passes a test.
  kept : (V → Bool) → List (ℕ × V) → List (ℕ × V)
  kept f [] = []
  kept f ((j, v) ∷ m) = let rest = without j (kept f m) in if f v then (j, v) ∷ rest else rest

  abbrev pub passing : (V → Bool) → Option V → Option V
  passing f none = none
  passing f (some v) = if f v then some v else none

  find-kept : (f : V → Bool) (k : ℕ) (m : List (ℕ × V)) → find k (kept f m) ≡ passing f (find k m)
  unfolding find kept
  find-kept f k [] = refl
  find-kept f k ((j, v) ∷ m) = ground (arith, find-kept f k m, find-without j k (kept f m))

  unfoldable pub empty : Map V
  empty = record { entries = [] }

  unfoldable pub get : Map V → ℕ → Option V
  unfolding find
  get m k = find k m.entries

  -- `delete(m, k)`
  unfoldable pub remove : Map V → ℕ → Map V
  unfolding without
  remove m k = record { entries = without k m.entries }

  -- `m[k] = v`
  unfoldable pub put : Map V → ℕ → V → Map V
  unfolding without
  put m k v = record { entries = (k, v) ∷ without k m.entries }

  -- `for k, v := range m { if … { delete(m, k) } }`
  unfoldable pub retain : (V → Bool) → Map V → Map V
  unfolding kept without
  retain f m = record { entries = kept f m.entries }

  -- `len(m)`
  unfoldable pub size : Map V → ℕ
  size m = length m.entries

  pub get-empty : (k : ℕ) → get empty k ≡ none
  unfolding get empty
  get-empty k = refl

  pub get-remove : (m : Map V) (k j : ℕ) → get (remove m k) j ≡ (if k == j then none else get m j)
  unfolding get remove
  get-remove m k j = find-without k j m.entries

  pub get-put :
      (m : Map V) (k j : ℕ) (v : V) → get (put m k v) j ≡ (if k == j then some v else get m j)
  unfolding get put
  get-put m k j v = ground (arith, find-without k j m.entries)

  pub get-retain : (f : V → Bool) (m : Map V) (k : ℕ) → get (retain f m) k ≡ passing f (get m k)
  unfolding get retain
  get-retain f m k = find-kept f k m.entries
