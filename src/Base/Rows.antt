-- ===== src/Base/Rows.antt =====
-- The statements of SQL on the rows of one table: what a WHERE clause selects, and what UPDATE,
-- DELETE and `count(*)` do with it.
use Prim.Native.Nat.{ℕ, ◌≤◌}
use mathlib.Core.Path.{◌≡◌, refl, subst}
use mathlib.Core.Logic.{◌⊎◌, inl, inr}
use mathlib.Core.Bool.{Bool, true, false, not, ◌||◌}
use mathlib.Core.Option.{Option, none, some}
use mathlib.Core.List.{List, [], ◌∷◌}
use native.Mathlib.Omega.{arith}
use aul_private_location.Base.Core.{if◌then◌else◌, length, Bool-cases}

module _ {ℓ} {A : Type ℓ} where
  -- SELECT with at most one row in the result.
  unfoldable pub find_row : (A → Bool) → List A → Option A
  find_row p [] = none
  find_row p (x ∷ xs) = let rest = find_row p xs in if p x then some x else rest

  -- SELECT
  unfoldable pub select : (A → Bool) → List A → List A
  select p [] = []
  select p (x ∷ xs) = let rest = select p xs in if p x then x ∷ rest else rest

  -- UPDATE
  unfoldable pub modify : (A → Bool) → (A → A) → List A → List A
  modify p f [] = []
  modify p f (x ∷ xs) = (if p x then f x else x) ∷ modify p f xs

  -- SELECT EXISTS
  unfoldable pub any_row : (A → Bool) → List A → Bool
  any_row p [] = false
  any_row p (x ∷ xs) = p x || any_row p xs

  -- DELETE keeps the rows that the clause does not select.
  abbrev pub delete : (A → Bool) → List A → List A
  delete p = select (λ x. not (p x))

  -- SELECT count(*)
  abbrev pub count_rows : (A → Bool) → List A → ℕ
  count_rows p xs = length (select p xs)

  -- All rows, as a predicate that computes.
  abbrev pub All {κ} : (A → Type κ) → List A → Type κ
  All P [] = Unit
  All P (x ∷ xs) = P x × All P xs

  pub find_row-cases :
      (p : A → Bool) (xs : List A)
      → (find_row p xs ≡ none) ⊎ ((x : A) × (find_row p xs ≡ some x) × (p x ≡ true))
  unfolding find_row
  find_row-cases p [] = inl refl
  find_row-cases p (x ∷ xs) = elim (Bool-cases (p x)) [
    | inl e ↦ inr (x, rw e, e)
    | inr e ↦ rw e (find_row-cases p xs)
  ]

  pub find_row-holds : (p : A → Bool) (xs : List A) (x : A) → find_row p xs ≡ some x → p x ≡ true
  unfolding find_row
  find_row-holds p [] y e = cc
  find_row-holds p (x ∷ xs) y e = ground (arith, find_row-holds p xs y)

  pub any_row-find_row :
      (p : A → Bool) (xs : List A) (x : A) → find_row p xs ≡ some x → any_row p xs ≡ true
  unfolding find_row any_row
  any_row-find_row p [] y e = cc
  any_row-find_row p (x ∷ xs) y e = ground (arith, any_row-find_row p xs y)

  pub any_row-none : (p : A → Bool) (xs : List A) → find_row p xs ≡ none → any_row p xs ≡ false
  unfolding find_row any_row
  any_row-none p [] e = refl
  any_row-none p (x ∷ xs) e = ground (arith, any_row-none p xs)

  pub length-modify : (p : A → Bool) (f : A → A) (xs : List A) → length (modify p f xs) ≡ length xs
  unfolding modify
  length-modify p f [] = refl
  length-modify p f (x ∷ xs) = omega (arith, length-modify p f xs)

  pub length-delete : (p : A → Bool) (xs : List A) → length (delete p xs) ≤ length xs
  unfolding select
  length-delete p [] = omega arith
  length-delete p (x ∷ xs) = ground (arith, length-delete p xs)

  -- A row that a DELETE does not select is found as before.
  pub find_row-delete :
      (p gone : A → Bool) (x : A) (xs : List A)
      → find_row p xs ≡ some x
      → gone x ≡ false
      → find_row p (delete gone xs) ≡ some x
  unfolding find_row select
  find_row-delete p gone y [] f k = cc
  find_row-delete p gone y (x ∷ xs) f k = ground (arith, find_row-delete p gone y xs)

  pub All-delete_kept : (gone : A → Bool) (xs : List A) → All (λ x. gone x ≡ false) (delete gone xs)
  unfolding select
  All-delete_kept gone [] = tt
  All-delete_kept gone (x ∷ xs) = elim (Bool-cases (gone x)) [
    | inl e ↦ rw e (All-delete_kept gone xs)
    | inr e ↦ rw e (e, All-delete_kept gone xs)
  ]

  pub any_row-delete :
      (p gone : A → Bool) (xs : List A) → any_row p xs ≡ false → any_row p (delete gone xs) ≡ false
  unfolding any_row select
  any_row-delete p gone [] h = refl
  any_row-delete p gone (x ∷ xs) h = ground (arith, any_row-delete p gone xs)

  pub modify-none :
      (p : A → Bool) (f : A → A) (xs : List A) → any_row p xs ≡ false → modify p f xs ≡ xs
  unfolding modify any_row
  modify-none p f [] e = refl
  modify-none p f (x ∷ xs) e = ground (arith, modify-none p f xs)

module _ {ℓ κ} {A : Type ℓ} (P : A → Type κ) where
  -- A row that is selected, or is not.
  pub if-All :
      (b : Bool) (x : A) (xs : List A)
      → (b ≡ true → P x)
      → All P xs
      → All P (if b then x ∷ xs else xs)
  if-All true x xs h a = (h refl, a)
  if-All false x xs h a = a

  pub All-find_row : (p : A → Bool) (xs : List A) (x : A) → All P xs → find_row p xs ≡ some x → P x
  unfolding find_row
  All-find_row p [] x a e = cc
  All-find_row p (y ∷ ys) x a e = elim (Bool-cases (p y)) [
    | inl h ↦ subst P (ground arith) a.0
    | inr h ↦ All-find_row p ys x a.1 (ground arith)
  ]

  -- Rows that are left as they are, or changed, keep a predicate.
  pub All-modify :
      (p : A → Bool) (f : A → A) (xs : List A)
      → ((x : A) → p x ≡ true → P x → P (f x))
      → All P xs
      → All P (modify p f xs)
  unfolding modify
  All-modify p f [] h a = tt
  All-modify p f (x ∷ xs) h a = elim (Bool-cases (p x)) [
    | inl e ↦ rw e (h x e a.0, All-modify p f xs h a.1)
    | inr e ↦ rw e (a.0, All-modify p f xs h a.1)
  ]

  pub All-delete : (p : A → Bool) (xs : List A) → All P xs → All P (delete p xs)
  unfolding select
  All-delete p [] a = tt
  All-delete p (x ∷ xs) a = elim (Bool-cases (p x)) [
    | inl e ↦ rw e (All-delete p xs a.1)
    | inr e ↦ rw e (a.0, All-delete p xs a.1)
  ]
