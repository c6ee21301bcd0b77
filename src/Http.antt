-- ===== src/Http.antt =====
-- What the handlers of server/internal/httpapi share (helpers.go, httpx.go). A handler stops with
-- the status of the error that it answers, or returns what it answers with success.
pub mod Circles
pub mod Invites
pub mod Share
pub mod Mutes
pub mod Places
pub mod Sos
pub mod Pings
pub mod KeyEnvelopes
pub mod Push
pub mod Accounts
mod Examples
use aul_private_location.Base.{
  ℕ, Option, none, some, List, [], ◌∷◌, leb, length, if◌then◌else◌, ltb,
}
use aul_private_location.Store.Schema.{CircleMember, Role, owner, member, guardian}
use aul_private_location.Store.{
  DbError, no_rows, unavailable, World, Act, stop, pure, ◌>>=◌, ◌>>◌, or_else, run_query, Outcome,
}
use aul_private_location.Store.Circles.{get_membership}

pub data HttpError : Type 0 where
  bad_request unauthorized forbidden not_found gone conflict internal not_configured : HttpError
  too_many : ℕ → HttpError

abbrev pub Handler : Type 0 → Type 0
Handler = Act HttpError

-- `httpx.Internal`, whatever the error of the database.
abbrev pub any_internal : DbError → HttpError
any_internal _ = internal

-- `IsNotFound(err)` answers 404, and any other error 500.
abbrev pub missing_is_404 : DbError → HttpError
missing_is_404 no_rows = not_found
missing_is_404 unavailable = internal

-- A path parameter that is no UUID is `none`, and is answered as given.
abbrev pub parsed : HttpError → Option ℕ → Handler ℕ
parsed e none = stop e
parsed e (some id) = pure id

-- `requireCircleMember`: the membership of the caller in the circle of the path.
unfoldable pub require_circle_member : Option ℕ → ℕ → Handler CircleMember
require_circle_member circle user = do
  id ← parsed not_found circle
  or_else (run_query (get_membership id user)) missing_is_404

-- `requireOwner`, on the membership that was loaded.
abbrev pub require_owner : Role → Handler (Unit {0})
require_owner owner = pure tt
require_owner member = stop forbidden
require_owner guardian = stop forbidden

-- The decoders of encoding/base64 that `decodeBlob` tries.
pub record Base64 : Type 0 where
  pub std : List ℕ → Option (List ℕ)
  pub raw_std : List ℕ → Option (List ℕ)
  pub url : List ℕ → Option (List ℕ)

first_decoded : Option (List ℕ) → Option (List ℕ) → Option (List ℕ) → Option (List ℕ)
first_decoded (some b) raw url = some b
first_decoded none (some b) url = some b
first_decoded none none url = url

abbrev sized : ℕ → Option (List ℕ) → Option (List ℕ)
sized max none = none
sized max (some []) = none
sized max (some (b ∷ bs)) = if ltb max (length (b ∷ bs)) then none else some (b ∷ bs)

-- `decodeBlob`: `none` is a field that is missing, no base64, empty or over the limit.
unfoldable pub decode_blob : Base64 → ℕ → List ℕ → Option (List ℕ)
unfolding first_decoded
decode_blob b64 max [] = none
decode_blob b64 max (c ∷ cs) =
    sized max (first_decoded (b64.std (c ∷ cs)) (b64.raw_std (c ∷ cs)) (b64.url (c ∷ cs)))

abbrev pub max_blob_bytes : ℕ
max_blob_bytes = 4096

abbrev pub max_nonce_bytes : ℕ
max_nonce_bytes = 40

-- A value that the request must hold, and 400 otherwise.
abbrev pub required : {A : Type 0} → Option A → Handler A
required none = stop bad_request
required (some a) = pure a
