-- ===== src/Lib.antt =====
-- Matchcamp, a dating service for a university: an HTTP server over PostgreSQL and Redis. Users
-- register with a password or sign in with Google, and hold sessions; they swipe on profiles; a
-- like that is returned makes a match with a conversation; its members write to each other, and are
-- told of matches and messages over Redis channels.
--
-- The parts, and the files that model them:
--
-- Base: the names of the libraries that every module shares, Boolean tests on numbers, lists,
--   searches, sorting, and signed numbers.
-- Text: Go strings as lists of code points, with the functions of `strings`, `unicode` and
--   `strconv` that the server calls; Text/Atoi is `strconv.Atoi`, Text/Split has laws of
--   `strings.Split`, Text/Dates is `time.Parse` of a date, Text/Paths is `path.Clean`.
-- Apperror: internal/apperror/apperror.go, the catalogue of errors and `Lookup`.
-- Ratelimit: internal/server/ratelimit.go, `keyedLimiter`.
-- Database: internal/database/db. Models has the rows and the tables (models.go, migrations),
--   Auth, Match, Chat, Profile, Photos and Discovery have one function for each sqlc query, with
--   the constraints and triggers of migrations/ that it meets. Mutual says when the tables of
--   matches are sound: each match joins two users who liked each other, and each conversation
--   member is a side of the conversation's match. Talks has the listings of matches and of
--   conversations.
-- Config: internal/config/config.go, `Load` and what it reads of the environment.
-- Storage: internal/storage. `ObjectStore` is what the server uses of a store; Photos has the keys
--   and the types of photos, Local and R2 the two stores, Choice the choice between them.
-- World: what a handler works on (the tables, the clock, randomness, publications, objects, keys of
--   presence, limiters), the code that the repository only calls (`Env`: UUIDs, bcrypt, SHA-256,
--   the random source, the token bucket, Unicode's lower case), the monad of a Go function that
--   returns a value or an error, and the rules for what its calls leave.
-- Server: internal/server/server.go. Response has responses, errors and `currentUser`; Swipe has
--   `swipe` and `recordSwipe`, and in Race two interleaved transactions of it; Payload the chat
--   payloads; Chat has `createMessage`, its handler and `messages`; Auth has `register`, `login`,
--   `logout`, `requireAuth`, `createSession` and `emailAllowed`, with internal/auth; Paging has
--   `parsePagination`, and the loop that reverses a page; Profiles has `me`, `publicProfile` and
--   what changes a profile or preferences; Photos the photos of a profile; Blocks the blocks;
--   Browsing `discovery`; Talks `matches` and `conversations`; Socket the loop of `websocket` over
--   its frames; Google the sign-in with Google; Cors the decision of `cors`.
-- Seed: cmd/seed/main.go, the loop that makes the users of a demonstration.
-- Tests and Samples: concrete data, witnesses and runs.
--
-- How the code is rendered. A handler takes what it reads of a request and returns a response or
-- the code of its error, which `serve` turns into the response of `writeError`. A statement is a
-- function from the tables to an error or to a value and new tables; the row inserted last stands
-- first. Each round trip to PostgreSQL draws one entry of a list of faults, so that any statement,
-- BeginTx or Commit can fail; each call of Redis draws one of another list; a transaction that fails restores its tables. A Commit whose outcome
-- is unknown is not modelled: a failed one has rolled back. A UUID is the number of its 128 bits,
-- a timestamp a number of nanoseconds, a column that may be NULL an Option. Random values are
-- functions of a counter of draws. JSON is decoded before a handler starts: a body that the
-- decoder refuses is `none`.
--
-- Loops are structural recursion on the list that they walk, but for the one that reverses a page:
-- it runs on fuel, the length of the page, which is at least its turns, half as many.
--
-- Not modelled: the routes, the health check, the pages of the documentation, and the start of the
-- server. Two requests run one after the other, but for two likes at the same time
-- (Server/Swipe/Race). PostgreSQL refuses a text with a NUL: that is modelled for the body of a
-- message only, other texts are taken to have none. Of the WebSocket, the goroutines that forward
-- publications and ping are left out. What Google answers, the file system, S3, connections, the
-- encoding of JSON and HTTP itself are I/O.
pub mod Base
pub mod Text
pub mod Apperror
pub mod Database
pub mod Ratelimit
pub mod Storage
pub mod Config
pub mod World
pub mod Server
pub mod Seed
mod Samples
mod Tests
