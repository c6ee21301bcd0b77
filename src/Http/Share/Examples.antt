-- ===== src/Http/Share/Examples.antt =====
-- The theorems on live shares at a small database.
use aul_private_location.Base.{
  ℕ, ◌+◌, ◌≤◌, ◌≡◌, refl, true, false, none, some, [], ◌∷◌, ◌++◌, find_row, any_row, pos,
}
use aul_private_location.Store.Schema.{ns_per_ms}
use aul_private_location.Store.{send, World, ok, run_query, set_share_cookie}
use aul_private_location.Store.Shares.{
  get_share_session, bind_share_viewer, get_share_position, is_position, bound_to,
  create_share_session, new_share,
}
use aul_private_location.Http.Share.{
  bind_viewer, clamp_share_ttl, handle_create_share, handle_get_share, Viewed, share_live,
  min_share_ttl, max_share_ttl,
}
use aul_private_location.Http.Share.OneDevice.{create_share-bounded, one_device, bound_answer}
use aul_private_location.Http.Examples.{steady, link}

create_share-bounded_example :
    let s = new_share 0 6 1 max_share_ttl in
    ((later : ℕ) → later + ns_per_ms ≤ 0 + min_share_ttl → share_live later s ≡ true)
    × ((later : ℕ) → 0 + max_share_ttl ≤ later → share_live later s ≡ false)
unfolding handle_create_share run_query create_share_session any_row clamp_share_ttl
create_share-bounded_example =
    create_share-bounded 0 6 1 (some (pos 999999)) steady (new_share 0 6 1 max_share_ttl) refl

abbrev hash : ℕ → ℕ
hash token = token + 1000

-- The link as the first fetch leaves it.
abbrev opened : World
opened = (handle_get_share hash 0 none (some 33) (some 5) steady).1

one_device_example :
    let (first, w₁) = handle_get_share hash 0 none (some 33) (some 5) steady in
    let (again, w₂) = handle_get_share hash 7000000 (some 33) (some 44) (some 5) opened in
    ((v : Viewed) × (first ≡ ok v))
    × (w₁.sent ≡ [] ++ set_share_cookie 5 33 900 ∷ [])
    × (again
        ≡ bound_answer hash 7000000
            (some 33)
            (bound_to 0 1033 link)
            (find_row (is_position 5) opened.db.positions))
    × (w₂.db ≡ opened.db)
    × (w₂.sent ≡ opened.sent)
unfolding find_row handle_get_share run_query get_share_session bind_viewer bind_share_viewer send
    get_share_position
one_device_example =
    one_device hash 0 7000000 5 33 link none (some 33) (some 44) steady opened (λ n. refl)
      (λ n. refl) refl refl refl refl
