-- ===== src/Store/Places/Versions.antt =====
-- The places as versioned registers: what the queries of Places do to the places that are not
-- deleted, forgetting the tombstones, the authors and the times.
pub mod Rows
pub mod Statements
pub mod Refinement
mod Examples
use aul_private_location.Base.{
  ℕ, ◌+◌, Bool, true, false, not, ◌&&◌, Option, none, some, List, [], ◌∷◌, ◌==◌, if◌then◌else◌,
  find_row, ℤ, update, ◌≡◌,
}
use aul_private_location.Store.Schema.{Db, Place}
use aul_private_location.Store.{DbError, Outcome, ok, err}
use aul_private_location.Store.Places.{
  create_place, update_place, soft_delete_place, prune_place_tombstones, has_version,
}

pub record Register : Type 0 where
  pub circle : ℕ
  pub version : ℕ
  pub content : List ℕ

abbrev pub View : Type 0
View = ℕ → Option Register

abbrev pub live : ℕ → Place → Bool
live id p = p.id == id && not p.deleted

abbrev pub register_of : Option Place → Option Register
register_of none = none
register_of (some p) =
    some (record { circle = p.circle_id; version = p.version; content = p.ciphertext })

abbrev pub view : Db → View
view db id = register_of (find_row (live id) db.places)

pub data PlaceOp : Type 0 where
  create_op : ℕ → ℕ → ℕ → List ℕ → ℕ → PlaceOp
  update_op : ℕ → ℕ → ℕ → List ℕ → ℕ → ℤ → PlaceOp
  delete_op : ℕ → ℕ → ℕ → ℕ → PlaceOp
  prune_op : ℕ → PlaceOp

-- The version that a statement returns, and nothing where it returns an error.
abbrev pub answer : Outcome DbError Place → Option ℕ
answer (ok p) = some p.version
answer (err e) = none

abbrev pub run_op : PlaceOp → Db → Option ℕ × Db
run_op (create_op now id circle content author) db =
    let (r, db') = create_place now id circle content author db in (answer r, db')
run_op (update_op now id circle content user version) db =
    let (r, db') = update_place now id circle content user version db in (answer r, db')
run_op (delete_op now id circle user) db =
    let (r, db') = soft_delete_place now id circle user db in (answer r, db')
run_op (prune_op horizon) db = (none, (prune_place_tombstones horizon db).1)

-- A compare and set of the register, on the version.
abbrev pub set_if : View → ℕ → List ℕ → Register → Bool → Option ℕ × View
set_if v id content r false = (none, v)
set_if v id content r true = (
  some (r.version + 1),
  update v id (some (record { circle = r.circle; version = r.version + 1; content = content })),
)

abbrev pub compare_and_set : View → ℕ → ℕ → List ℕ → ℤ → Option Register → Option ℕ × View
compare_and_set v id circle content version none = (none, v)
compare_and_set v id circle content version (some r) =
    set_if v id content r (r.circle == circle && has_version version r.version)

abbrev pub drop_if : View → ℕ → Register → Bool → Option ℕ × View
drop_if v id r false = (none, v)
drop_if v id r true = (some (r.version + 1), update v id none)

abbrev pub drop : View → ℕ → ℕ → Option Register → Option ℕ × View
drop v id circle none = (none, v)
drop v id circle (some r) = drop_if v id r (r.circle == circle)

-- What the registers allow a statement to answer and to change. A creation may be refused.
abbrev pub Allows : PlaceOp → View → Option ℕ → View → Type 0
Allows (create_op now id circle content author) v none v' = v' ≡ v
Allows (create_op now id circle content author) v (some n) v' =
    (v id ≡ none)
    × (n ≡ 1)
    × (v' ≡ update v id (some (record { circle = circle; version = 1; content = content })))
Allows (update_op now id circle content user version) v a v' =
    (a, v') ≡ compare_and_set v id circle content version (v id)
Allows (delete_op now id circle user) v a v' = (a, v') ≡ drop v id circle (v id)
Allows (prune_op horizon) v a v' = (a ≡ none) × (v' ≡ v)

abbrev pub Runs : List PlaceOp → View → List (Option ℕ) → View → Type 0
Runs [] v [] v' = v' ≡ v
Runs [] v (a ∷ answers) v' = ⊥
Runs (op ∷ ops) v [] v' = ⊥
Runs (op ∷ ops) v (a ∷ answers) v' = (u : View) × Allows op v a u × Runs ops u answers v'

abbrev pub answers_of : List PlaceOp → Db → List (Option ℕ)
answers_of [] db = []
answers_of (op ∷ ops) db = (run_op op db).0 ∷ answers_of ops (run_op op db).1

abbrev pub after_all : List PlaceOp → Db → Db
after_all [] db = db
after_all (op ∷ ops) db = after_all ops (run_op op db).1
