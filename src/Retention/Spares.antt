-- ===== src/Retention/Spares.antt =====
-- The rows that a maintenance pass leaves, statement by statement.
use aul_private_location.Base.{
  ℕ, ◌*◌, ◌-◌, ◌≡◌, refl, ◌∙◌, true, false, ◌&&◌, ◌||◌, some, List, arith, ◌==◌, ltb, is_none,
  find_row, find_row-delete, any_row-delete,
}
use aul_private_location.Store.Schema.{
  Db, Ping, SosEvent, Place, ShareSession, Session, KeyEnvelope, tv,
}
use aul_private_location.Store.Pings.{
  prune_all_pings_before, prune_stale_pings, delete_expired_pings_for_circle, superseded, outdated,
  outdated_in,
}
use aul_private_location.Store.LoginAttempts.{prune_login_attempts}
use aul_private_location.Store.Sessions.{delete_expired_sessions, set_before, hour_ns}
use aul_private_location.Store.KeyEnvelopes.{prune_key_envelopes, is_spent, day_ns}
use aul_private_location.Store.Sos.{prune_resolved_sos}
use aul_private_location.Store.Places.{prune_place_tombstones}
use aul_private_location.Store.Shares.{prune_share_sessions, stale, before}

-- What each table keeps.
abbrev pub KeepsPings : ℕ → List Ping → List Ping → Type 0
KeepsPings horizon old new =
    (id : ℕ) (p : Ping)
    → find_row (λ q. q.id == id) old ≡ some p
    → superseded old p ≡ false
    → ltb p.captured_at (tv horizon) ≡ false
    → (find_row (λ q. q.id == id) new ≡ some p) × (superseded new p ≡ false)

abbrev pub KeepsSos : List SosEvent → List SosEvent → Type 0
KeepsSos old new =
    (id : ℕ) (e : SosEvent)
    → find_row (λ q. q.id == id) old ≡ some e
    → is_none e.resolved_at ≡ true
    → find_row (λ q. q.id == id) new ≡ some e

abbrev pub KeepsPlaces : List Place → List Place → Type 0
KeepsPlaces old new =
    (id : ℕ) (p : Place)
    → find_row (λ q. q.id == id) old ≡ some p
    → p.deleted ≡ false
    → find_row (λ q. q.id == id) new ≡ some p

abbrev pub KeepsSessions : ℕ → List Session → List Session → Type 0
KeepsSessions now old new =
    (id : ℕ) (s : Session)
    → find_row (λ q. q.id == id) old ≡ some s
    → is_none s.revoked_at ≡ true
    → ltb s.refresh_expires_at (tv now) ≡ false
    → find_row (λ q. q.id == id) new ≡ some s

abbrev pub KeepsShares : ℕ → List ShareSession → List ShareSession → Type 0
KeepsShares now old new =
    (id : ℕ) (s : ShareSession)
    → find_row (λ q. q.id == id) old ≡ some s
    → is_none s.revoked_at ≡ true
    → ltb s.expires_at (tv now) ≡ false
    → find_row (λ q. q.id == id) new ≡ some s

abbrev pub KeepsEnvelopes : ℕ → List KeyEnvelope → List KeyEnvelope → Type 0
KeepsEnvelopes now old new =
    (id : ℕ) (e : KeyEnvelope)
    → find_row (λ q. q.id == id) old ≡ some e
    → is_none e.consumed_at ≡ true
    → ltb e.created_at (tv (now - 30 * day_ns)) ≡ false
    → find_row (λ q. q.id == id) new ≡ some e

-- What is still there at `now`: the newest ping of a device in a circle, unless it is older than the
-- horizon; an SOS that is not resolved; a place that is not deleted; a session and a live share that
-- are neither over nor revoked; and an envelope that is not consumed and not a month old.
pub record Spares (horizon now : ℕ) (old new : Db) : Type 0 where
  pub newest_ping : KeepsPings horizon old.pings new.pings
  pub active_sos : KeepsSos old.sos_events new.sos_events
  pub live_place : KeepsPlaces old.places new.places
  pub session : KeepsSessions now old.sessions new.sessions
  pub share : KeepsShares now old.shares new.shares
  pub envelope : KeepsEnvelopes now old.key_envelopes new.key_envelopes
  pub members : new.members ≡ old.members

module _ {horizon now : ℕ} where
  pub same-Spares : (db : Db) → Spares horizon now db db
  same-Spares db = record {
    newest_ping = λ id p f s h. (f, s);
    active_sos = λ id e f n. f;
    live_place = λ id p f d. f;
    session = λ id s f r h. f;
    share = λ id s f r h. f;
    envelope = λ id e f c h. f;
    members = refl;
  }

  pub then-Spares :
      {old mid new : Db}
      → Spares horizon now old mid
      → Spares horizon now mid new
      → Spares horizon now old new
  then-Spares a b = record {
    newest_ping = λ id p f s h. let (g, t) = a.newest_ping id p f s h in b.newest_ping id p g t h;
    active_sos = λ id e f n. b.active_sos id e (a.active_sos id e f n) n;
    live_place = λ id p f d. b.live_place id p (a.live_place id p f d) d;
    session = λ id s f r h. b.session id s (a.session id s f r h) r h;
    share = λ id s f r h. b.share id s (a.share id s f r h) r h;
    envelope = λ id e f c h. b.envelope id e (a.envelope id e f c h) c h;
    members = b.members ∙ a.members;
  }

module _ (horizon now : ℕ) (db : Db) where
  pub all_pings-Spares : Spares horizon now db (prune_all_pings_before horizon db).1
  unfolding prune_all_pings_before
  all_pings-Spares = record {
    active_sos = λ id e f n. f;
    live_place = λ id p f d. f;
    session = λ id s f r h. f;
    share = λ id s f r h. f;
    envelope = λ id e f c h. f;
    members = refl;
    newest_ping = λ id p f s h. (
      find_row-delete (λ q. q.id == id) (λ q. ltb q.captured_at (tv horizon)) p db.pings f h,
      any_row-delete _ (λ q. ltb q.captured_at (tv horizon)) db.pings s,
    );
  }

  pub stale_pings-Spares : (hours : ℕ) → Spares horizon now db (prune_stale_pings now hours db).1
  unfolding prune_stale_pings
  stale_pings-Spares hours =
      let gone = outdated (tv (now - hours * hour_ns)) db.pings in
      record {
        active_sos = λ id e f n. f;
        live_place = λ id p f d. f;
        session = λ id s f r h. f;
        share = λ id s f r h. f;
        envelope = λ id e f c h. f;
        members = refl;
        newest_ping = λ id p f s h. (
          find_row-delete (λ q. q.id == id) gone p db.pings f (ground arith),
          any_row-delete _ gone db.pings s,
        );
      }

  pub circle_pings-Spares :
      (circle days : ℕ)
      → Spares horizon now db (delete_expired_pings_for_circle now circle days db).1
  unfolding delete_expired_pings_for_circle
  circle_pings-Spares circle days =
      let gone = outdated_in circle (tv (now - days * 24 * hour_ns)) db.pings in
      record {
        active_sos = λ id e f n. f;
        live_place = λ id p f d. f;
        session = λ id s f r h. f;
        share = λ id s f r h. f;
        envelope = λ id e f c h. f;
        members = refl;
        newest_ping = λ id p f s h. (
          find_row-delete (λ q. q.id == id) gone p db.pings f (ground arith),
          any_row-delete _ gone db.pings s,
        );
      }

  pub login_attempts-Spares :
      (days : ℕ) → Spares horizon now db (prune_login_attempts now days db).1
  unfolding prune_login_attempts
  login_attempts-Spares days = record {
    newest_ping = λ id p f s h. (f, s);
    active_sos = λ id e f n. f;
    live_place = λ id p f d. f;
    session = λ id s f r h. f;
    share = λ id s f r h. f;
    envelope = λ id e f c h. f;
    members = refl;
  }

  pub sessions-Spares : Spares horizon now db (delete_expired_sessions now db).1
  unfolding delete_expired_sessions
  sessions-Spares =
      let cutoff = tv (now - 24 * hour_ns) in
      record {
        newest_ping = λ id p f s h. (f, s);
        active_sos = λ id e f n. f;
        live_place = λ id p f d. f;
        share = λ id s f r h. f;
        envelope = λ id e f c h. f;
        members = refl;
        session = λ id s f r h.
            find_row-delete (λ q. q.id == id)
              (λ q. ltb q.refresh_expires_at cutoff || set_before cutoff q.revoked_at) s db.sessions
              f (ground arith);
      }

  pub envelopes-Spares : Spares horizon now db (prune_key_envelopes now db).1
  unfolding prune_key_envelopes
  envelopes-Spares = record {
    newest_ping = λ id p f s h. (f, s);
    active_sos = λ id e f n. f;
    live_place = λ id p f d. f;
    session = λ id s f r h. f;
    share = λ id s f r h. f;
    members = refl;
    envelope = λ id e f c h.
        find_row-delete (λ q. q.id == id) (is_spent now) e db.key_envelopes f (ground arith);
  }

  pub sos-Spares : (cutoff : ℕ) → Spares horizon now db (prune_resolved_sos cutoff db).1
  unfolding prune_resolved_sos
  sos-Spares cutoff = record {
    newest_ping = λ id p f s h. (f, s);
    live_place = λ id p f d. f;
    session = λ id s f r h. f;
    share = λ id s f r h. f;
    envelope = λ id e f c h. f;
    members = refl;
    active_sos = λ id e f n.
        find_row-delete (λ q. q.id == id) (λ q. before (tv cutoff) q.resolved_at) e db.sos_events f
          (ground arith);
  }

  pub places-Spares : (cutoff : ℕ) → Spares horizon now db (prune_place_tombstones cutoff db).1
  unfolding prune_place_tombstones
  places-Spares cutoff = record {
    newest_ping = λ id p f s h. (f, s);
    active_sos = λ id e f n. f;
    session = λ id s f r h. f;
    share = λ id s f r h. f;
    envelope = λ id e f c h. f;
    members = refl;
    live_place = λ id p f d.
        find_row-delete (λ q. q.id == id) (λ q. q.deleted && ltb q.updated_at (tv cutoff)) p
          db.places f (ground arith);
  }

  pub shares-Spares : (hours : ℕ) → Spares horizon now db (prune_share_sessions now hours db).1
  unfolding prune_share_sessions
  shares-Spares hours = record {
    newest_ping = λ id p f s h. (f, s);
    active_sos = λ id e f n. f;
    live_place = λ id p f d. f;
    session = λ id s f r h. f;
    envelope = λ id e f c h. f;
    members = refl;
    share = λ id s f r h.
        find_row-delete (λ q. q.id == id) (stale (tv (now - hours * hour_ns))) s db.shares f
          (ground arith);
  }
