-- ===== src/Http/Mutes/Examples.antt =====
-- The theorems on the mutes at a circle of two.
use aul_private_location.Base.{
  ℕ, ◌≡◌, refl, false, not, ◌&&◌, ◌||◌, some, none, [], ◌∷◌, ◌==◌, has, add, any_row, select,
  Distinct,
}
use aul_private_location.Store.Schema.{owner, PushSubscription, fcm}
use aul_private_location.Store.{ok, run_query, with_tx, finish_tx}
use aul_private_location.Store.Mutes.{delete_mutes, insert_mute, count_members_in}
use aul_private_location.Store.Push.{reaches}
use aul_private_location.Http.Examples.{in_family, steady}
use aul_private_location.Http.Mutes.{
  MuteSet, handle_set_mutes, handle_get_mutes, deduped, replace_mutes, insert_ids,
}
use aul_private_location.Http.Mutes.Replacing.{set_then_get_mutes}
use aul_private_location.Http.Mutes.Silence.{set_mutes-reaches}

abbrev asked_twice : MuteSet
asked_twice = record { circle_muted = false; muted_user_ids = 2 ∷ 2 ∷ [] }

abbrev once : MuteSet
once = record { circle_muted = false; muted_user_ids = 2 ∷ [] }

set_then_get_mutes_example :
    let after = (handle_set_mutes 0 (in_family 1 owner) (some asked_twice) steady).1 in
    (after.outage after.calls ≡ false → (handle_get_mutes (in_family 1 owner) after).0 ≡ ok once)
    × (false ≡ false)
    × ((id : ℕ) → has id (2 ∷ []) ≡ has id (2 ∷ 2 ∷ []))
    × Distinct (2 ∷ [])
unfolding handle_set_mutes deduped has run_query count_members_in select any_row with_tx finish_tx
    replace_mutes delete_mutes insert_ids insert_mute add
set_then_get_mutes_example = set_then_get_mutes 0 (in_family 1 owner) asked_twice once steady refl

abbrev token : PushSubscription
token = record {
  id = 6;
  user_id = 1;
  device_id = none;
  endpoint = 1 ∷ [];
  channel = fcm;
  created_at = 0;
}

set_mutes-reaches_example :
    let after = (handle_set_mutes 0 (in_family 1 owner) (some asked_twice) steady).1.db in
    reaches 4 2 after.members after.mutes token ≡ (
      any_row (λ c. c.circle_id == 4 && c.user_id == 1) after.members
      && not (1 == 2)
      && not (false || has 2 (2 ∷ 2 ∷ [])))
unfolding handle_set_mutes deduped has run_query count_members_in select any_row with_tx finish_tx
    replace_mutes delete_mutes insert_ids insert_mute add
set_mutes-reaches_example =
    set_mutes-reaches 0 2 (in_family 1 owner) asked_twice once steady token refl refl
