-- ===== src/Store/Places/Versions/Rows.antt =====
-- The rows of places under the four statements.
use aul_private_location.Base.{
  ℕ, ◌≡◌, refl, sym, subst, Bool, true, false, ◌&&◌, Option, none, some, List, [], ◌∷◌, ◌++◌, arith,
  ◌==◌, ==_iff, if◌then◌else◌, find_row, select, modify, any_row, delete, All, All-modify,
  All-delete, Bool-cases, inl, inr, ℤ, ltb,
}
use aul_private_location.Store.Schema.{Place, tv}
use aul_private_location.Store.Places.{live_place, at_version, has_version, revised, buried}
use aul_private_location.Store.Places.Versions.{live}

-- The primary key of the table.
abbrev pub Keyed : List Place → Type 0
Keyed [] = Unit {0}
Keyed (p ∷ rows) = All (λ q. (q.id == p.id) ≡ false) rows × Keyed rows

no_live :
    (id : ℕ) (p : Place) (rows : List Place)
    → (p.id == id) ≡ true
    → All (λ q. (q.id == p.id) ≡ false) rows
    → find_row (live id) rows ≡ none
unfolding find_row
no_live id p [] h a = refl
no_live id p (q ∷ rows) h a = ground (arith, ==_iff p.id id, no_live id p rows h a.1, a.0)

no_version :
    (id circle : ℕ) (version : ℤ) (p : Place) (rows : List Place)
    → (p.id == id) ≡ true
    → All (λ q. (q.id == p.id) ≡ false) rows
    → find_row (at_version id circle version) rows ≡ none
unfolding find_row
no_version id circle version p [] h a = refl
no_version id circle version p (q ∷ rows) h a =
    ground (arith, ==_iff p.id id, no_version id circle version p rows h a.1, a.0)

abbrev if_version : ℕ → ℤ → Option Place → Option Place
if_version circle version none = none
if_version circle version (some p) =
    if p.circle_id == circle && has_version version p.version then some p else none

pub find-at_version :
    (id circle : ℕ) (version : ℤ) (rows : List Place)
    → Keyed rows
    → find_row (at_version id circle version) rows
      ≡ if_version circle version (find_row (live id) rows)
unfolding find_row
find-at_version id circle version [] k = refl
find-at_version id circle version (p ∷ rows) k = elim (Bool-cases (p.id == id)) [
  | inl h ↦ ground (arith, no_live id p rows h k.0, no_version id circle version p rows h k.0)
  | inr h ↦ ground (arith, find-at_version id circle version rows k.1)
]

abbrev if_revised : (Place → Bool) → (Place → Place) → Option Place → Option Place
if_revised q f none = none
if_revised q f (some p) = some (if q p then f p else p)

pub live-modify :
    (j id circle : ℕ) (version : ℤ) (now : ℕ) (content : List ℕ) (user : ℕ) (rows : List Place)
    → find_row (live j) (modify (at_version id circle version) (revised now content user) rows)
      ≡ if_revised
          (at_version id circle version)
          (revised now content user)
          (find_row (live j) rows)
unfolding find_row modify
live-modify j id circle version now content user [] = refl
live-modify j id circle version now content user (p ∷ rows) =
    ground (arith, live-modify j id circle version now content user rows)

no_live_place :
    (id circle : ℕ) (p : Place) (rows : List Place)
    → (p.id == id) ≡ true
    → All (λ q. (q.id == p.id) ≡ false) rows
    → find_row (live_place id circle) rows ≡ none
unfolding find_row
no_live_place id circle p [] h a = refl
no_live_place id circle p (q ∷ rows) h a =
    ground (arith, ==_iff p.id id, no_live_place id circle p rows h a.1, a.0)

abbrev if_circle : ℕ → Option Place → Option Place
if_circle circle none = none
if_circle circle (some p) = if p.circle_id == circle then some p else none

pub find-live_place :
    (id circle : ℕ) (rows : List Place)
    → Keyed rows
    → find_row (live_place id circle) rows ≡ if_circle circle (find_row (live id) rows)
unfolding find_row
find-live_place id circle [] k = refl
find-live_place id circle (p ∷ rows) k = elim (Bool-cases (p.id == id)) [
  | inl h ↦ ground (arith, no_live id p rows h k.0, no_live_place id circle p rows h k.0)
  | inr h ↦ ground (arith, find-live_place id circle rows k.1)
]

abbrev unless_circle : Bool → ℕ → Option Place → Option Place
unless_circle same circle none = none
unless_circle same circle (some p) = if same && p.circle_id == circle then none else some p

no_live-buried :
    (id circle now user : ℕ) (p : Place) (rows : List Place)
    → (p.id == id) ≡ true
    → All (λ q. (q.id == p.id) ≡ false) rows
    → find_row (live id) (modify (live_place id circle) (buried now user) rows) ≡ none
unfolding find_row modify
no_live-buried id circle now user p [] h a = refl
no_live-buried id circle now user p (q ∷ rows) h a =
    ground (arith, ==_iff p.id id, no_live-buried id circle now user p rows h a.1, a.0)

pub live-buried :
    (j id circle now user : ℕ) (rows : List Place)
    → Keyed rows
    → find_row (live j) (modify (live_place id circle) (buried now user) rows)
      ≡ unless_circle (id == j) circle (find_row (live j) rows)
unfolding find_row modify
live-buried j id circle now user [] k = refl
live-buried j id circle now user (p ∷ rows) k = elim (Bool-cases (p.id == j)) [
  | inl h ↦ elim (Bool-cases (id == j)) [
    | inl g ↦ ground (
      arith,
      ==_iff p.id j,
      ==_iff id j,
      ==_iff p.id id,
      no_live id p rows,
      no_live-buried id circle now user p rows,
      k.0,
    )
    | inr g ↦ ground (
      arith,
      ==_iff p.id j,
      ==_iff id j,
      ==_iff p.id id,
      live-buried j id circle now user rows k.1,
    )
  ]
  | inr h ↦ ground (arith, live-buried j id circle now user rows k.1)
]

pub live-pruned :
    (j horizon : ℕ) (rows : List Place)
    → find_row (live j) (delete (λ p. p.deleted && ltb p.updated_at (tv horizon)) rows)
      ≡ find_row (live j) rows
unfolding find_row select
live-pruned j horizon [] = refl
live-pruned j horizon (p ∷ rows) = ground (arith, live-pruned j horizon rows)

abbrev or_row : (Place → Bool) → Place → Option Place → Option Place
or_row q p none = if q p then some p else none
or_row q p (some r) = some r

pub live-append :
    (j : ℕ) (p : Place) (rows : List Place)
    → find_row (live j) (rows ++ p ∷ []) ≡ or_row (live j) p (find_row (live j) rows)
unfolding find_row
live-append j p [] = refl
live-append j p (q ∷ rows) = ground (arith, live-append j p rows)

pub unused-live :
    (id : ℕ) (rows : List Place)
    → any_row (λ p. p.id == id) rows ≡ false
    → find_row (live id) rows ≡ none
unfolding find_row any_row
unused-live id [] h = refl
unused-live id (p ∷ rows) h = ground (arith, unused-live id rows)

-- The key holds after every statement.
modify-Others :
    (q : Place → Bool) (f : Place → Place) (id : ℕ) (rows : List Place)
    → ((p : Place) → (f p).id ≡ p.id)
    → All (λ p. (p.id == id) ≡ false) rows
    → All (λ p. (p.id == id) ≡ false) (modify q f rows)
modify-Others q f id rows same =
    All-modify (λ p. (p.id == id) ≡ false) q f rows (λ p h a. rw (same p) a)

pub modify-Keyed :
    (q : Place → Bool) (f : Place → Place) (rows : List Place)
    → ((p : Place) → (f p).id ≡ p.id)
    → Keyed rows
    → Keyed (modify q f rows)
unfolding modify
modify-Keyed q f [] same k = tt
modify-Keyed q f (p ∷ rows) same k =
    let id : (if q p then f p else p).id ≡ p.id = ground (arith, same p) in
    (
      subst (λ i. All (λ r. (r.id == i) ≡ false) (modify q f rows)) (sym id)
          (modify-Others q f p.id rows same k.0),
      modify-Keyed q f rows same k.1,
    )

pub delete-Keyed : (q : Place → Bool) (rows : List Place) → Keyed rows → Keyed (delete q rows)
unfolding select
delete-Keyed q [] k = tt
delete-Keyed q (p ∷ rows) k = elim (Bool-cases (q p)) [
  | inl e ↦ rw e (delete-Keyed q rows k.1)
  | inr e ↦ rw e (All-delete (λ r. (r.id == p.id) ≡ false) q rows k.0, delete-Keyed q rows k.1)
]

append-Others :
    (id : ℕ) (p : Place) (rows : List Place)
    → (p.id == id) ≡ false
    → All (λ r. (r.id == id) ≡ false) rows
    → All (λ r. (r.id == id) ≡ false) (rows ++ p ∷ [])
append-Others id p [] h a = (h, tt)
append-Others id p (r ∷ rows) h a = (a.0, append-Others id p rows h a.1)

pub append-Keyed :
    (p : Place) (rows : List Place)
    → any_row (λ r. r.id == p.id) rows ≡ false
    → Keyed rows
    → Keyed (rows ++ p ∷ [])
unfolding any_row
append-Keyed p [] h k = (tt, tt)
append-Keyed p (r ∷ rows) h k = (
  append-Others r.id p rows (ground (arith, ==_iff r.id p.id, ==_iff p.id r.id)) k.0,
  append-Keyed p rows (ground arith) k.1,
)
