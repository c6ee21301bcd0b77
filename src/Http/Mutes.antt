-- ===== src/Http/Mutes.antt =====
-- The handlers of server/internal/httpapi/mutes.go.
pub mod Inserting
pub mod Replacing
pub mod Silence
mod Examples
use aul_private_location.Base.{
  ℕ, Bool, true, false, Option, none, some, List, [], ◌∷◌, ◌==◌, ltb, if◌then◌else◌, length, has,
  add,
}
use aul_private_location.Store.Schema.{CircleMember}
use aul_private_location.Store.{
  DbError, World, Act, stop, pure, ◌>>=◌, ◌>>◌, or_else, run_query, with_tx,
}
use aul_private_location.Store.Mutes.{list_mutes, delete_mutes, insert_mute, count_members_in}
use aul_private_location.Http.{Handler, bad_request, any_internal, required}

abbrev pub max_muted_users : ℕ
max_muted_users = 500

-- `mutesDTO`
pub record MuteSet : Type 0 where
  pub circle_muted : Bool
  pub muted_user_ids : List ℕ

abbrev pub prepend : ℕ → Option (List ℕ) → Option (List ℕ)
prepend id none = none
prepend id (some ids) = some (id ∷ ids)

-- The loop over the request, with the set `seen`: `none` is the answer to the caller's own id.
unfoldable pub deduped : ℕ → List ℕ → List ℕ → Option (List ℕ)
deduped user seen [] = some []
deduped user seen (id ∷ rest) = elim (id == user) [
  | true ↦ none
  | false ↦ elim (has id seen) [
    | true ↦ deduped user seen rest
    | false ↦ prepend id (deduped user (add id seen) rest)
  ]
]

-- `mutesFromRows`
abbrev pub with_row : Option ℕ → MuteSet → MuteSet
with_row none out = record out { circle_muted = true }
with_row (some id) out = record out { muted_user_ids = id ∷ out.muted_user_ids }

unfoldable pub mutes_from_rows : List (Option ℕ) → MuteSet
mutes_from_rows [] = record { circle_muted = false; muted_user_ids = [] }
mutes_from_rows (row ∷ rows) = with_row row (mutes_from_rows rows)

unfoldable pub handle_get_mutes : CircleMember → Handler MuteSet
handle_get_mutes m = do
  rows ← or_else (run_query (list_mutes m.user_id m.circle_id)) any_internal
  pure (mutes_from_rows rows)

unfoldable pub insert_ids : ℕ → ℕ → ℕ → List ℕ → Act DbError (Unit {0})
insert_ids now user circle [] = pure tt
insert_ids now user circle (id ∷ ids) =
    run_query (insert_mute now user circle (some id)) >> insert_ids now user circle ids

abbrev pub insert_circle : ℕ → ℕ → ℕ → Bool → Act DbError (Unit {0})
insert_circle now user circle true = run_query (insert_mute now user circle none)
insert_circle now user circle false = pure tt

-- The transaction.
unfoldable pub replace_mutes : ℕ → ℕ → ℕ → Bool → List ℕ → Act DbError (Unit {0})
replace_mutes now user circle whole ids = do
  run_query (delete_mutes user circle)
  insert_circle now user circle whole
  insert_ids now user circle ids

all_members : ℕ → List ℕ → Handler (Unit {0})
all_members circle [] = pure tt
all_members circle (id ∷ ids) = do
  n ← or_else (run_query (count_members_in circle (id ∷ ids))) any_internal
  if n == length (id ∷ ids) then pure tt else stop bad_request

unfoldable pub handle_set_mutes : ℕ → CircleMember → Option MuteSet → Handler MuteSet
unfolding all_members
handle_set_mutes now m body = do
  req ← required body
  if ltb max_muted_users (length req.muted_user_ids) then stop bad_request else pure tt
  ids ← required (deduped m.user_id [] req.muted_user_ids)
  all_members m.circle_id ids
  or_else (with_tx (replace_mutes now m.user_id m.circle_id req.circle_muted ids)) any_internal
  pure (record { circle_muted = req.circle_muted; muted_user_ids = ids })
