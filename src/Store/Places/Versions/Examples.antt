-- ===== src/Store/Places/Versions/Examples.antt =====
-- A history of one place.
use aul_private_location.Base.{List, [], ◌∷◌, pos}
use aul_private_location.Store.Schema.{Db, no_tables}
use aul_private_location.Store.Places.{new_place}
use aul_private_location.Store.Places.Versions.{
  PlaceOp, update_op, delete_op, prune_op, view, Runs, answers_of, after_all,
}
use aul_private_location.Store.Places.Versions.Refinement.{places_refine}

abbrev charted : Db
charted = record no_tables { places = new_place 0 7 4 (1 ∷ []) 1 ∷ [] }

-- The second update names a version that is gone.
abbrev history : List PlaceOp
history =
    update_op 1 7 4 (2 ∷ []) 1 (pos 1)
    ∷ update_op 2 7 4 (3 ∷ []) 2 (pos 1)
    ∷ delete_op 3 7 4 1
    ∷ prune_op 9000000
    ∷ []

places_refine_example :
    Runs history (view charted) (answers_of history charted) (view (after_all history charted))
places_refine_example = places_refine history charted (tt, tt)
