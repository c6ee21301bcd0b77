-- ===== src/Http/Places/Examples.antt =====
-- Two updates of one version of a place.
use aul_private_location.Base.{ℕ, ◌≡◌, refl, false, some, [], ◌∷◌, find_row, pos}
use aul_private_location.Store.Schema.{Place, owner}
use aul_private_location.Store.{err, World, run_query, send, update_returning}
use aul_private_location.Store.Places.{new_place, update_place, revised}
use aul_private_location.Http.{conflict, decode_blob, max_blob_bytes}
use aul_private_location.Http.Examples.{plain, home, in_family, steady}
use aul_private_location.Http.Places.{PlaceReq, handle_update_place}
use aul_private_location.Http.Places.Conflicts.{update_place-once}

abbrev harbour : Place
harbour = new_place 0 7 4 (1 ∷ []) 1

abbrev charted : World
charted = record steady { db = record home { places = harbour ∷ [] } }

abbrev moved : ℕ → PlaceReq
moved text = record { ciphertext = text ∷ []; version = pos 1 }

update_place-once_example :
    let after =
      (handle_update_place plain 0 (in_family 1 owner) (some 7) (some (moved 2)) charted).1 in
    (decode_blob plain max_blob_bytes (2 ∷ []) ≡ some (2 ∷ []))
    × (after.outage after.calls ≡ false
        → ((handle_update_place plain 5 (in_family 2 owner) (some 7) (some (moved 3)) after).0
            ≡ err conflict)
          × ((handle_update_place plain 5 (in_family 2 owner) (some 7) (some (moved 3)) after).1.db
              ≡ after.db))
unfolding handle_update_place decode_blob run_query update_place update_returning find_row send
update_place-once_example =
    update_place-once plain 0 5 (in_family 1 owner) (in_family 2 owner) 7 (moved 2) (moved 3)
      charted (revised 0 (2 ∷ []) 1 harbour) (3 ∷ []) refl refl refl refl
