-- ===== src/Http/Share/OneDevice.antt =====
-- A live-share link: its bounded life, and the one device that may open it.
use aul_private_location.Base.{
  ℕ, ◌+◌, ◌≤◌, ◌≡◌, ap, ◌∙◌, not, if◌then◌else◌, true, false, Option, none, some, List, [], ◌∷◌,
  ◌++◌, arith, ◌==◌, ==_iff, find_row, modify, find_row-holds, ℤ, pos, negsuc,
}
use aul_private_location.Store.Schema.{ShareSession, SharePosition, stime, ns_per_ms}
use aul_private_location.Store.{Outcome, ok, err, World, run_query, send, set_share_cookie}
use aul_private_location.Store.Shares.{
  is_position, create_share_session, new_share, get_share_session, get_share_position,
  bind_share_viewer, unbound, bound_to, is_share,
}
use aul_private_location.Http.{HttpError, forbidden, gone}
use aul_private_location.Http.Share.{
  clamp_share_ttl, min_share_ttl, max_share_ttl, handle_create_share, handle_get_share, share_live,
  bind_viewer, cookie_matches, cookie_max_age, Viewed,
}

clamp_share_ttl-bounds :
    (seconds : ℤ)
    → (min_share_ttl ≤ clamp_share_ttl seconds) × (clamp_share_ttl seconds ≤ max_share_ttl)
unfolding clamp_share_ttl
clamp_share_ttl-bounds (negsuc n) = (ground arith, ground arith)
clamp_share_ttl-bounds (pos n) = (ground arith, ground arith)

created :
    (now id user : ℕ) (ttl : ℤ) (w : World) (s : ShareSession)
    → (handle_create_share now id user (some ttl) w).0 ≡ ok s
    → s ≡ new_share now id user (now + clamp_share_ttl ttl)
unfolding handle_create_share run_query create_share_session
created now id user ttl w s e = ground arith

-- Whatever time to live is asked for, a share that is created is not over before a minute has
-- passed, to the millisecond that the store keeps, and is over after an hour.
pub create_share-bounded :
    (now id user : ℕ) (body : Option ℤ) (w : World) (s : ShareSession)
    → (handle_create_share now id user body w).0 ≡ ok s
    → ((later : ℕ) → later + ns_per_ms ≤ now + min_share_ttl → share_live later s ≡ true)
      × ((later : ℕ) → now + max_share_ttl ≤ later → share_live later s ≡ false)
unfolding handle_create_share
create_share-bounded now id user none w s e = ground arith
create_share-bounded now id user (some ttl) w s e =
    let c = created now id user ttl w s e in
    (
      (λ later h. ground (arith, c, clamp_share_ttl-bounds ttl)),
      (λ later h. ground (arith, c, clamp_share_ttl-bounds ttl)),
    )

-- A link that is over answers 410, binds no device and sets no cookie.
get_share-over :
    (hash : ℕ → ℕ) (now id : ℕ) (cookie fresh : Option ℕ) (w : World) (s : ShareSession)
    → find_row (is_share id) w.db.shares ≡ some s
    → share_live now s ≡ false
    → w.outage w.calls ≡ false
    → ((handle_get_share hash now cookie fresh (some id) w).0 ≡ err gone)
      × ((handle_get_share hash now cookie fresh (some id) w).1.db ≡ w.db)
      × ((handle_get_share hash now cookie fresh (some id) w).1.sent ≡ w.sent)
unfolding handle_get_share run_query get_share_session
get_share-over hash now id cookie fresh w s f l o = (ground arith, ground arith, ground arith)

-- No call of the database fails.
abbrev pub IsSteady : World → Type 0
IsSteady w = (n : ℕ) → w.outage n ≡ false

find_row-unbound :
    (id : ℕ) (s : ShareSession) (rows : List ShareSession)
    → find_row (is_share id) rows ≡ some s
    → s.viewer_token_hash ≡ none
    → find_row (unbound id) rows ≡ some s
unfolding find_row
find_row-unbound id s [] f n = cc
find_row-unbound id s (x ∷ rows) f n = ground (arith, find_row-unbound id s rows)

find_row-bound_to :
    (now hash id : ℕ) (s : ShareSession) (rows : List ShareSession)
    → find_row (is_share id) rows ≡ some s
    → s.viewer_token_hash ≡ none
    → find_row (is_share id) (modify (unbound id) (bound_to now hash) rows)
      ≡ some (bound_to now hash s)
unfolding find_row modify
find_row-bound_to now hash id s [] f n = cc
find_row-bound_to now hash id s (x ∷ rows) f n =
    ground (arith, find_row-bound_to now hash id s rows)

module _ (hash : ℕ → ℕ) (now id token : ℕ) (s : ShareSession) (w : World) where
  -- The first fetch of a live link that no device has opened.
  first_fetch :
      (cookie : Option ℕ)
      → IsSteady w
      → find_row (is_share id) w.db.shares ≡ some s
      → share_live now s ≡ true
      → s.viewer_token_hash ≡ none
      → let (r, w₁) = handle_get_share hash now cookie (some token) (some id) w in
        (r
          ≡ ok (record {
            expires_at = stime s.expires_at;
            position = find_row (is_position id) w.db.positions;
          }))
        × (w₁.sent ≡ w.sent ++ set_share_cookie id token (cookie_max_age now s) ∷ [])
        × (w₁.db.shares ≡ modify (unbound id) (bound_to now (hash token)) w.db.shares)
        × (w₁.outage ≡ w.outage)
  unfolding handle_get_share run_query get_share_session get_share_position bind_share_viewer send
      bind_viewer
  first_fetch cookie st f l n =
      let i : (s.id == id) ≡ true = find_row-holds (is_share id) w.db.shares s f in
      let u = find_row-unbound id s w.db.shares f n in
      let same = ==_iff s.id id in
      (
        ground (arith, st w.calls, st (w.calls + 1), st (w.calls + 2)),
        ground (arith, st w.calls, st (w.calls + 1), st (w.calls + 2)),
        ground (arith, st w.calls, st (w.calls + 1), st (w.calls + 2)),
        ground (arith, st w.calls, st (w.calls + 1), st (w.calls + 2)),
      )

-- What a fetch of a bound link is answered.
abbrev pub bound_answer :
    (ℕ → ℕ) → ℕ → Option ℕ → ShareSession → Option SharePosition → Outcome HttpError Viewed
bound_answer hash now cookie s position =
    if not (share_live now s)
    then err gone
    else if cookie_matches hash cookie s
    then ok (record { expires_at = stime s.expires_at; position = position })
    else err forbidden

-- A fetch of a bound link, by whichever cookie.
bound_fetch :
    (hash : ℕ → ℕ) (now later token id : ℕ) (s : ShareSession) (cookie fresh : Option ℕ) (w : World)
    → IsSteady w
    → find_row (is_share id) w.db.shares ≡ some (bound_to now (hash token) s)
    → let (r, w₁) = handle_get_share hash later cookie fresh (some id) w in
      (r
        ≡ bound_answer hash later cookie
            (bound_to now (hash token) s)
            (find_row (is_position id) w.db.positions))
      × (w₁.db ≡ w.db)
      × (w₁.sent ≡ w.sent)
unfolding handle_get_share run_query get_share_session get_share_position send bind_viewer
bound_fetch hash now later token id s cookie fresh w st f =
    let i : (s.id == id) ≡ true =
      find_row-holds (is_share id) w.db.shares (bound_to now (hash token) s) f in
    let same = ==_iff s.id id in
    (
      ground (arith, st w.calls, st (w.calls + 1)),
      ground (arith, st w.calls, st (w.calls + 1)),
      ground (arith, st w.calls, st (w.calls + 1)),
    )

-- One device per link. The first fetch of a live link that nobody has opened is served and is handed
-- the cookie. From then on, whatever else happens to the tables as long as the row of the link stays
-- as that fetch left it, every fetch changes nothing and hands out no cookie: once the link is over
-- it is answered 410; until then it is served where its cookie has the hash of the one that was
-- handed out, and refused where it has another or where there is none. No call of the database fails.
pub one_device :
    (hash : ℕ → ℕ) (now later id token : ℕ) (s : ShareSession) (cookie other fresh : Option ℕ)
    (w after : World)
    → IsSteady w
    → IsSteady after
    → find_row (is_share id) w.db.shares ≡ some s
    → share_live now s ≡ true
    → s.viewer_token_hash ≡ none
    → find_row (is_share id) after.db.shares
      ≡ find_row
          (is_share id)
          (handle_get_share hash now cookie (some token) (some id) w).1.db.shares
    → let (first, w₁) = handle_get_share hash now cookie (some token) (some id) w in
      let (again, w₂) = handle_get_share hash later other fresh (some id) after in
      ((v : Viewed) × (first ≡ ok v))
      × (w₁.sent ≡ w.sent ++ set_share_cookie id token (cookie_max_age now s) ∷ [])
      × (again
          ≡ bound_answer hash later other
              (bound_to now (hash token) s)
              (find_row (is_position id) after.db.positions))
      × (w₂.db ≡ after.db)
      × (w₂.sent ≡ after.sent)
one_device hash now later id token s cookie other fresh w after st st' f l n kept =
    let (first, sent, rows, outage) = first_fetch hash now id token s w cookie st f l n in
    let bound =
      kept
      ∙ ap (find_row (is_share id)) rows
      ∙ find_row-bound_to now (hash token) id s w.db.shares f n in
    let (answer, db, quiet) = bound_fetch hash now later token id s other fresh after st' bound in
    (
      (
        record {
          expires_at = stime s.expires_at;
          position = find_row (is_position id) w.db.positions;
        },
        first,
      ),
      sent,
      answer,
      db,
      quiet,
    )
