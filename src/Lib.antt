-- ===== src/Lib.antt =====
-- A model of tokenzy, a service that issues limited-use tokens and one-time codes (OTPs) and tells
-- webhooks what happened to them, with the theorems that make its parts correct.
--
-- The program is a Go server over one SQLite file. internal/model holds the records and validators;
-- internal/ttl, internal/token and internal/otp are pure rules (lifetimes, statuses, generation);
-- internal/db has one function for each query; internal/auth decides who may call; internal/cleanup
-- deletes what is finished with; internal/webhook turns the token events that internal/db reports into
-- signed HTTP requests with retries; internal/api answers the requests of machines and internal/ui those
-- of the panel; main.go reads the configuration, prepares the database and puts the parts together.
--
-- Which file models which part:
--   Model, Model/Scope, Model/Validate   internal/model/model.go
--   Ttl                                  internal/ttl/ttl.go
--   Limits                               what internal/token/limits.go and internal/otp/otp.go share
--   Token/Status, Limits, Generate       internal/token
--   Otp                                  internal/otp/otp.go
--   Db, Db/Listing, Db/Tokens            internal/db/db.go (the event hook), internal/db/tokens.go
--   Db/Tokens/Voucher                    what that file promises of one token, without its table
--   Db/Otps, Db/Otps/Filter              internal/db/otps.go
--   Db/Webhooks, Projects, Keys, Users   the files of these names in internal/db
--   Cleanup                              internal/cleanup/job.go
--   Webhook/Headers, Request, Attempt,
--   Webhook/Record                       internal/webhook/dispatch.go
--   Webhook/Loops                        the loops of Run there, as steps that interleave
--   Webhook/Target                       the checks of a new webhook there
--   Auth/Keys, Sessions, Passwords       internal/auth/apikey.go, session.go, password.go
--   Api/Tokens, Api/Otps                 internal/api
--   Panel, Panel/Links, Panel/Login      internal/ui/ui.go and the addresses in the pages
--   Panel/Tokens, Otps, Keys, Projects,
--   Panel/Webhooks                       the files of these names in internal/ui; handlers in Actions
--   Db/Migrate                           internal/db/db.go (migrations), internal/db/seed.go
--   Server/Variables, Settings,
--   Server/Accounts, Start               main.go
--   Prelude                              helpers: bytes, texts, integers, and the statements of SQL
--   Examples                             concrete inputs
-- A definition has the name of its Go function in antt's spelling: ConsumeToken is consume_token. The
-- other files below a module hold its lemmas.
--
-- How the model corresponds to the code:
--   - A table is a list of rows in the order of insertion, and a query is the meaning of its statement
--     on it (Prelude/Table). `Database` is the whole file; a transaction is one step, since there is one
--     write connection. A LIMIT without ORDER BY takes the rows in the order of the table.
--   - The clock is an argument, as are random bytes, UUIDs and digits (`none` where the generator
--     fails), SHA-256 and HMAC-SHA256, the HTTP client, encoding/json, RFC 3339, argon2, base64,
--     net/url's Parse, time.ParseDuration, json.Indent and the printing of times in the local zone.
--   - Row counts, ids and unix times are natural numbers; the integers of requests and Durations that
--     may be negative are integers, and products of Durations wrap at 64 bits (Ttl.mul_int64).
--   - A string is the list of its bytes; a status is a data type whose names are the source's strings.
--   - An error of the driver or the disk is not modelled: `failure` stands for a broken constraint other
--     than UNIQUE. Where both a UNIQUE constraint and a foreign key are broken, UNIQUE is reported.
--   - The hook OnTokenEvent is the flag `hooked` with the list `events` of its calls.
--   - Attempts of one webhook batch run concurrently in the program and each writes its own row only;
--     `sweep` in Webhook/Attempt takes them in the order of the batch, Webhook/Loops in any order. The map
--     of a webhook's own headers is a list, in the order in which the map yields them.
--   - The dispatcher's loops run beside the handlers and the cleanup (Webhook/Loops): a step is one
--     statement of a loop or of a call that reads or writes the database or a channel, or a write by the
--     rest of the program, and the steps come in any order, under a clock that does not run backwards. The
--     timer of the sender may fire at any time. Webhook/Record has recording as one function, for a run
--     of it that no other writer disturbs.
--   - SQL's LIKE (Db/Otps/Filter) ends a pattern and a text at a zero byte, as SQLite's does.
--
-- Bounds and fuel: the client that turns the pages (Db/Listing/Pages) and the sweep over due deliveries
-- (Webhook/Attempt) run on fuel, and theorems below say which fuel is enough. Texts are trimmed with as
-- much fuel as they have bytes, of which each round drops one. All else is structural recursion.
--
-- Not modelled: routing, decoding and encoding of HTTP (internal/httpx and the edges of internal/api and
-- internal/ui), templates and static files, flags, listeners and the request log of main.go, the opening
-- of the database file and its permissions, the timer and the goroutine of the cleanup, and timeouts.
pub mod Prelude
pub mod Model
pub mod Ttl
pub mod Limits
pub mod Token
pub mod Otp
pub mod Db
pub mod Cleanup
pub mod Webhook
pub mod Auth
pub mod Api
pub mod Panel
pub mod Server
pub mod Examples
