-- ===== src/Store/Pings/Newest.antt =====
-- Which pings the retention worker keeps, and repeated insertions of a ping.
use aul_private_location.Base.{
  ℕ, ◌*◌, ◌-◌, ◌≡◌, Bool, true, false, some, List, [], ◌∷◌, ◌++◌, arith, ◌==◌, ==_refl,
  same_text_refl, find_row, any_row, All, find_row-delete, All-delete_kept,
}
use aul_private_location.Store.Schema.{Db, Ping, tv}
use aul_private_location.Store.{no_rows, ok, err}
use aul_private_location.Store.Sessions.{hour_ns}
use aul_private_location.Store.Pings.{
  InsertPingParams, insert_ping, new_ping, same_ping, superseded, outdated, outdated_in,
  prune_stale_pings, delete_expired_pings_for_circle,
}

-- Neither of the two passes that prune old pings takes the newest ping of a device in a circle,
-- whatever its age; and what the first leaves is within its window or the newest of its device.
pub newest_kept :
    (now hours circle days id : ℕ) (db : Db) (p : Ping)
    → find_row (λ q. q.id == id) db.pings ≡ some p
    → superseded db.pings p ≡ false
    → (find_row (λ q. q.id == id) (prune_stale_pings now hours db).1.pings ≡ some p)
      × (find_row (λ q. q.id == id) (delete_expired_pings_for_circle now circle days db).1.pings
          ≡ some p)
      × All
          (λ q. outdated (tv (now - hours * hour_ns)) db.pings q ≡ false)
          (prune_stale_pings now hours db).1.pings
unfolding prune_stale_pings delete_expired_pings_for_circle
newest_kept now hours circle days id db p f k = (
  find_row-delete (λ q. q.id == id) (outdated (tv (now - hours * hour_ns)) db.pings) p db.pings f
      (ground arith),
  find_row-delete (λ q. q.id == id) (outdated_in circle (tv (now - days * 24 * hour_ns)) db.pings) p
      db.pings f (ground arith),
  All-delete_kept (outdated (tv (now - hours * hour_ns)) db.pings) db.pings,
)

any_row-appended :
    (test : Ping → Bool) (p : Ping) (rows : List Ping)
    → test p ≡ true
    → any_row test (rows ++ p ∷ []) ≡ true
unfolding any_row
any_row-appended test p [] h = ground arith
any_row-appended test p (x ∷ rows) h = ground (arith, any_row-appended test p rows h)

-- A ping that a client sends again is stored once: after an insertion that succeeded, another with
-- the same device, client id and capture time returns no row and changes nothing, whatever else it
-- holds.
pub insert_once :
    (now later id id' : ℕ) (p q : InsertPingParams) (db : Db) (stored : Ping)
    → (insert_ping now id p db).0 ≡ ok stored
    → q.device_id ≡ p.device_id
    → q.client_id ≡ p.client_id
    → q.captured_at ≡ p.captured_at
    → insert_ping later id' q (insert_ping now id p db).1
      ≡ (err no_rows, (insert_ping now id p db).1)
unfolding insert_ping
insert_once now later id id' p q db s e d c t = ground (
  arith,
  any_row-appended (same_ping q) (new_ping now id p) db.pings,
  ==_refl p.device_id,
  same_text_refl p.client_id,
  ==_refl (tv p.captured_at),
)
