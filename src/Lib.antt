-- ===== src/Lib.antt =====
-- A model of the Aul server (server/), which relays end-to-end encrypted positions between the
-- members of circles, and of what keeps it correct.
--
-- Realtime, of server/internal/realtime/hub.go. Clients are cells of a heap, so that the hub's
-- tables share them by address; a channel is a queue with a capacity and a flag for closed.
-- `serve` is one round of `Run`: addClient, removeClient, dispatch and doEvict are `add_client`,
-- `remove_client`, `dispatch` and `do_evict`. A panic of Go, such as a send on a closed channel,
-- is the result `none`. `Step` of Realtime/Steps is what may happen between two states: a client
-- connects, the loop serves a request, a handler publishes or evicts, a client drains its channel.
-- Realtime/Admission is the count of connections behind `Admit` and `Release`.
--
-- Store, of server/internal/store. The tables of Store/Schema are lists of rows, and a query is a
-- function on them that follows the text of its statement in sqlite_queries.go: Sessions,
-- Circles, Invites, Shares, Pings, Places, Sos, Mutes, KeyEnvelopes, Accounts, Push and
-- LoginAttempts. Store/Places/Versions is the abstract view of the places, a map of versioned
-- registers. `Act E A` is a program that reads and changes the world and returns an `A` or stops
-- with an `E`. Any call of the database may fail: the oracle `outage` of a world says which. A
-- transaction rolls back when its body or its commit fails (WithTx). Each call is given the clock
-- and the new identifiers that it reads; times are natural numbers of nanoseconds, cut to
-- milliseconds where they are stored.
--
-- Auth, of server/internal/auth: refresh tokens with reuse detection (service.go) in Auth, Register
-- and Login in Auth/SignIn, and the lockout (lockout.go) in Auth/Lockout. Http, of
-- server/internal/httpapi: the handlers of circles, invites, live shares, mutes, places, SOS, pings,
-- key envelopes, push subscriptions and accounts, over the store; Http/Accounts is also RequireAuth
-- of server/internal/auth/middleware.go; an answer that is no success is an `HttpError`. What a handler
-- asks of the hub and of the audit log is the list `sent` of the world, in order; an audit event is
-- its name, and only that of a failed login has its contents.
--
-- Retention is the maintenance pass of server/internal/retention/retention.go over the same tables,
-- and RateLimit the keyed limiter of server/internal/ratelimit/ratelimit.go. Launcher/Supervision is
-- the loop of server/internal/launcher/supervise.go, which restarts the server; what it observes of
-- a child and of the pause after it is one `Round`.
--
-- Parameters of the model: the encoding of an event, crypto.HashToken and its peppered variant as
-- functions on numbers, the tokens of crypto.GenerateToken, the hashing and verifying of passwords,
-- what net/mail and unicode/utf8 do with a text, the decoders of encoding/base64, the bucket of
-- golang.org/x/time/rate, what becomes of one delivery of a push message (`deliver`), and how many
-- are queued before the time budget runs out (`queued`). No definition uses fuel: the loops run over
-- lists.
--
-- Not modelled: the encryption and the network of push messages, the audit log as a table, the
-- other middleware of HTTP, cookies but that of a live share, configuration, the rest of the
-- launcher, and the clients in app/ and web/, which are I/O, glue or written in other languages.
-- The orders of listings and their limits are left out. A handler's calls are a sequence: two
-- requests interleave only at the level of the hub's steps and of single statements.
-- PostgreSQL is not modelled, only SQLite.
pub mod Base
pub mod Realtime
pub mod Store
pub mod Auth
pub mod Http
pub mod Retention
pub mod RateLimit
pub mod Launcher
