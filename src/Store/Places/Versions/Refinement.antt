-- ===== src/Store/Places/Versions/Refinement.antt =====
-- Histories of the place statements, against the versioned registers.
use aul_private_location.Base.{ℕ, ◌≡◌, refl, ap, List, [], ◌∷◌}
use aul_private_location.Store.Schema.{Db}
use aul_private_location.Store.Places.{prune_place_tombstones}
use aul_private_location.Store.Places.Versions.{
  register_of, view, PlaceOp, create_op, update_op, delete_op, prune_op, run_op, Allows, Runs,
  answers_of, after_all,
}
use aul_private_location.Store.Places.Versions.Rows.{Keyed, live-pruned, delete-Keyed}
use aul_private_location.Store.Places.Versions.Statements.{
  update-Keyed, delete_place-Keyed, create-Keyed, update-Allows, delete-Allows, create-Allows,
}

prune-Allows : (horizon : ℕ) (db : Db) → view (prune_place_tombstones horizon db).1 ≡ view db
unfolding prune_place_tombstones
prune-Allows horizon db = λ i j. ap register_of (live-pruned j horizon db.places) i

prune-Keyed :
    (horizon : ℕ) (db : Db) → Keyed db.places → Keyed (prune_place_tombstones horizon db).1.places
unfolding prune_place_tombstones
prune-Keyed horizon db k = delete-Keyed _ db.places k

op-Keyed : (op : PlaceOp) (db : Db) → Keyed db.places → Keyed (run_op op db).1.places
op-Keyed (create_op now id circle content author) db k =
    create-Keyed now id circle content author db k
op-Keyed (update_op now id circle content user version) db k =
    update-Keyed now id circle content user version db k
op-Keyed (delete_op now id circle user) db k = delete_place-Keyed now id circle user db k
op-Keyed (prune_op horizon) db k = prune-Keyed horizon db k

op-Allows :
    (op : PlaceOp) (db : Db)
    → Keyed db.places
    → Allows op (view db) (run_op op db).0 (view (run_op op db).1)
op-Allows (create_op now id circle content author) db k =
    create-Allows now id circle content author db
op-Allows (update_op now id circle content user version) db k =
    update-Allows now id circle content user version db k
op-Allows (delete_op now id circle user) db k = delete-Allows now id circle user db k
op-Allows (prune_op horizon) db k = (refl, prune-Allows horizon db)

-- The place statements refine a map of versioned registers: whatever statements run, in whatever
-- order, each answers and changes what the registers allow. An update is a compare and set on the
-- version, which keeps the circle; a deletion empties the register; a creation fills one that is
-- empty with version 1, or is refused; and pruning tombstones is not seen. The ids of the rows are
-- a key.
pub places_refine :
    (ops : List PlaceOp) (db : Db)
    → Keyed db.places
    → Runs ops (view db) (answers_of ops db) (view (after_all ops db))
places_refine [] db k = refl
places_refine (op ∷ ops) db k = (
  view (run_op op db).1,
  op-Allows op db k,
  places_refine ops (run_op op db).1 (op-Keyed op db k),
)
