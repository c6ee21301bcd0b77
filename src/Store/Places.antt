-- ===== src/Store/Places.antt =====
-- The place queries of server/internal/store/sqlite_queries.go (places.sql). A version is an int32
-- there, which a client gives with a sign; the model does not bound the count of updates.
pub mod Versions
use aul_private_location.Base.{
  ℕ, ◌+◌, Bool, true, false, not, ◌&&◌, Option, none, some, List, [], ◌∷◌, ◌++◌, ◌==◌, ltb,
  if◌then◌else◌, find_row, select, modify, any_row, delete, ℤ, pos, negsuc,
}
use aul_private_location.Store.Schema.{Db, Place, tv}
use aul_private_location.Store.{DbError, unavailable, Outcome, ok, err, Query, update_returning}

abbrev pub new_place : ℕ → ℕ → ℕ → List ℕ → ℕ → Place
new_place now id circle ciphertext author = record {
  id = id;
  circle_id = circle;
  ciphertext = ciphertext;
  version = 1;
  deleted = false;
  updated_by = some author;
  updated_at = tv now;
  created_at = tv now;
  created_by = some author;
}

unfoldable pub create_place : ℕ → ℕ → ℕ → List ℕ → ℕ → Query Place
create_place now id circle ciphertext author db =
    if not (any_row (λ p. p.id == id) db.places)
      && any_row (λ c. c.id == circle) db.circles
      && any_row (λ u. u.id == author) db.users
    then (
      ok (new_place now id circle ciphertext author),
      record db { places = db.places ++ new_place now id circle ciphertext author ∷ [] },
    )
    else (err unavailable, db)

-- The rows of ListPlaces; their order is not modelled.
unfoldable pub list_places : ℕ → Query (List Place)
list_places circle db = (ok (select (λ p. p.circle_id == circle && not p.deleted) db.places), db)

unfoldable pub prune_place_tombstones : ℕ → Query (Unit {0})
prune_place_tombstones horizon db = (
  ok tt,
  record db { places = delete (λ p. p.deleted && ltb p.updated_at (tv horizon)) db.places },
)

abbrev pub live_place : ℕ → ℕ → Place → Bool
live_place id circle p = p.id == id && p.circle_id == circle && not p.deleted

abbrev pub buried : ℕ → ℕ → Place → Place
buried now user p = record p {
  deleted = true;
  version = p.version + 1;
  updated_by = some user;
  updated_at = tv now;
}

unfoldable pub soft_delete_place : ℕ → ℕ → ℕ → ℕ → Query Place
soft_delete_place now id circle user db =
    update_returning (live_place id circle) (buried now user) db.places
      (λ rows. record db { places = rows }) db

abbrev pub has_version : ℤ → ℕ → Bool
has_version (pos n) version = version == n
has_version (negsuc n) version = false

abbrev pub at_version : ℕ → ℕ → ℤ → Place → Bool
at_version id circle version p = live_place id circle p && has_version version p.version

abbrev pub revised : ℕ → List ℕ → ℕ → Place → Place
revised now ciphertext user p = record p {
  ciphertext = ciphertext;
  version = p.version + 1;
  updated_by = some user;
  updated_at = tv now;
}

-- The clause compares the version that the client has seen.
unfoldable pub update_place : ℕ → ℕ → ℕ → List ℕ → ℕ → ℤ → Query Place
update_place now id circle ciphertext user version db =
    update_returning (at_version id circle version) (revised now ciphertext user) db.places
      (λ rows. record db { places = rows }) db
