-- ===== src/Store/Schema.antt =====
-- The tables of the database: the structs of server/internal/store/models.go, with the checks of
-- server/db/migrations_sqlite/00001_schema.sql on the columns that take few values. Identifiers,
-- hashes, addresses and names are numbers that are only compared; a stored time counts milliseconds, which is the
-- width of the text form that sqlite.go stores.
use aul_private_location.Base.{[], ℕ, Bool, Option, List, ◌/◌, ◌*◌}

-- A time in Go counts nanoseconds.
abbrev pub ns_per_ms : ℕ
ns_per_ms = 1000000

-- `tv`: the bound form of a time, cut to the milliseconds of `sqliteTimeLayout`.
abbrev pub tv : ℕ → ℕ
tv t = t / ns_per_ms

-- `stime`: a stored time read back.
abbrev pub stime : ℕ → ℕ
stime t = t * ns_per_ms

pub data Role : Type 0 where
  owner member guardian : Role

pub data Precision : Type 0 where
  precise city paused : Precision

pub data Status : Type 0 where
  active revoked : Status

pub data Platform : Type 0 where
  android ios web web_mobile : Platform

pub record User : Type 0 where
  pub id : ℕ
  pub email : ℕ
  pub pass_hash : ℕ
  pub created_at : ℕ
  pub updated_at : ℕ

pub record Device : Type 0 where
  pub id : ℕ
  pub user_id : ℕ
  pub platform : Platform
  pub display_name : Option ℕ
  pub pubkey : List ℕ
  pub push_token : Option ℕ
  pub created_at : ℕ
  pub last_seen : Option ℕ

pub record Circle : Type 0 where
  pub id : ℕ
  pub name_enc : List ℕ
  pub retention_days : ℕ
  pub key_epoch : ℕ
  pub created_by : ℕ
  pub created_at : ℕ

pub record CircleMember : Type 0 where
  pub circle_id : ℕ
  pub user_id : ℕ
  pub role : Role
  pub precision_mode : Precision
  pub joined_at : ℕ
  pub profile_enc : List ℕ

pub record Invite : Type 0 where
  pub id : ℕ
  pub circle_id : ℕ
  pub created_by : ℕ
  pub role : Role
  pub max_uses : ℕ
  pub uses : ℕ
  pub expires_at : ℕ
  pub status : Status
  pub created_at : ℕ

pub record Session : Type 0 where
  pub id : ℕ
  pub user_id : ℕ
  pub device_id : ℕ
  pub access_token_hash : ℕ
  pub refresh_token_hash : ℕ
  pub prev_refresh_hash : Option ℕ
  pub access_expires_at : ℕ
  pub refresh_expires_at : ℕ
  pub revoked_at : Option ℕ
  pub created_at : ℕ
  pub rotated_at : ℕ

pub record Place : Type 0 where
  pub id : ℕ
  pub circle_id : ℕ
  pub ciphertext : List ℕ
  pub version : ℕ
  pub deleted : Bool
  pub updated_by : Option ℕ
  pub updated_at : ℕ
  pub created_at : ℕ
  pub created_by : Option ℕ

pub record SosEvent : Type 0 where
  pub id : ℕ
  pub circle_id : ℕ
  pub device_id : Option ℕ
  pub ciphertext : List ℕ
  pub created_at : ℕ
  pub resolved_at : Option ℕ
  pub resolved_by : Option ℕ

pub record Ping : Type 0 where
  pub id : ℕ
  pub circle_id : ℕ
  pub device_id : ℕ
  pub client_id : List ℕ
  pub nonce : List ℕ
  pub ciphertext : List ℕ
  pub captured_at : ℕ
  pub received_at : ℕ
  pub expires_at : Option ℕ

pub record ShareSession : Type 0 where
  pub id : ℕ
  pub user_id : ℕ
  pub created_at : ℕ
  pub expires_at : ℕ
  pub revoked_at : Option ℕ
  pub viewer_token_hash : Option ℕ
  pub viewer_bound_at : Option ℕ

pub record SharePosition : Type 0 where
  pub session_id : ℕ
  pub nonce : List ℕ
  pub ciphertext : List ℕ
  pub captured_at : ℕ
  pub updated_at : ℕ

pub record NotificationMute : Type 0 where
  pub user_id : ℕ
  pub circle_id : ℕ
  pub muted_user_id : Option ℕ
  pub created_at : ℕ

pub record KeyEnvelope : Type 0 where
  pub id : ℕ
  pub circle_id : ℕ
  pub recipient_device_id : ℕ
  pub sender_device_id : Option ℕ
  pub ciphertext : List ℕ
  pub key_epoch : ℕ
  pub created_at : ℕ
  pub consumed_at : Option ℕ

-- The two shapes that the check on the table allows: a web push row has its keys, an FCM row none.
pub data Channel : Type 0 where
  web_push : List ℕ → List ℕ → Channel
  fcm : Channel

pub record PushSubscription : Type 0 where
  pub id : ℕ
  pub user_id : ℕ
  pub device_id : Option ℕ
  pub endpoint : List ℕ
  pub channel : Channel
  pub created_at : ℕ

pub record LoginAttempt : Type 0 where
  pub email : Option ℕ
  pub ip : Option ℕ
  pub success : Bool
  pub created_at : ℕ

pub record Db : Type 0 where
  pub users : List User
  pub devices : List Device
  pub circles : List Circle
  pub members : List CircleMember
  pub invites : List Invite
  pub sessions : List Session
  pub places : List Place
  pub sos_events : List SosEvent
  pub pings : List Ping
  pub shares : List ShareSession
  pub positions : List SharePosition
  pub mutes : List NotificationMute
  pub login_attempts : List LoginAttempt
  pub key_envelopes : List KeyEnvelope
  pub push_subscriptions : List PushSubscription

-- A database after its migrations.
abbrev pub no_tables : Db
no_tables = record {
  users = [];
  devices = [];
  circles = [];
  members = [];
  invites = [];
  sessions = [];
  places = [];
  sos_events = [];
  pings = [];
  shares = [];
  positions = [];
  mutes = [];
  login_attempts = [];
  key_envelopes = [];
  push_subscriptions = [];
}
