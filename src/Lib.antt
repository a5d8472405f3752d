-- ===== src/Lib.antt =====
-- Verification library of mxlrcgo-svc, a service that fetches song lyrics. Scans and webhooks put
-- tracks into a work queue in SQLite; a worker claims one item at a time, looks in a cache, asks a
-- provider, writes the lyrics and settles the item. A one-shot mode runs over a queue in memory, and
-- commands edit the configuration and maintain the tables.
--
-- Store: database/sql as the repositories use it. Store.Tables has the tables of
--   internal/db/migrations as lists of rows with a sequence number each, and the update trigger.
--   Store.Session is a state and error monad: a statement has all of its effect or none, a
--   transaction that fails restores the database, and a list of faults says which of the next
--   statements the driver refuses, so a theorem over all sessions is one over all failures.
--   Store.Outcomes and Store.Triples reason on successful and failed runs; Store.Valid and
--   Store.Keeps carry invariants. Lyrics.Files uses the same monad over files, where a refused write
--   may leave half of its text.
-- Queue: internal/queue/queue.go. Queue.Memory is InputsQueue (Queue.Fifo its
--   proofs); Queue.Items is WorkItem with its
--   columns; Queue.Enqueue, Queue.Work, Queue.Admin and Queue.Cancel have the operations of DBQueue
--   under the names of the source (enqueue is DBQueue.Enqueue, and so on). Queue.Invariant and
--   Queue.Laws hold the proofs.
-- Worker: internal/worker/worker.go. Worker.Engine has the services that the worker calls as a
--   record of functions on a world, and an early-return monad; Worker.Steps is RunOnce, cut at its
--   statements (run_once, process, deliver, finish), and Worker.Loop is the loop of Run and RunPaced. A
--   trace notes the calls with their ids and whether they were accepted, for the theorems only.
-- App: internal/app/app.go. App.Loop is App.Run and handleFailed.
-- Auth: internal/auth. Auth.Scopes, Auth.Memory, Auth.Service, Auth.Sql and Auth.Webhook follow
--   service.go, memory.go, store.go and webhook.go; Auth.Text is strings.TrimSpace. Auth.Keys has the
--   interface that the service takes and that both stores fill; Auth.Refinement relates the stores,
--   Auth.Granting the scopes that are given and required, and Auth.KeyCalls and Auth.Revocation follow
--   a revoked key through any later calls of the key table.
-- Server: internal/server/server.go. Server.Requests has the payload of a webhook, Server.Handlers the
--   routes over services that may be nil, and Server.Live runs them, as serve wires them, over the key
--   table and DBQueue.
-- Config: internal/config/config.go. Config.Data has the structs and the environment, Config.Loading
--   is Load, and Config.Numbers has Go's int, its decimal texts and the bits of a float64.
-- Commands: internal/commands/commands.go. Commands.Settings has the keys of the config command,
--   Commands.Libraries is resolveLibrary, Commands.Maintenance has the queue and scan commands,
--   Commands.ServeKeys is keyService, and Commands.Texts has small tests and texts.
-- Cache: internal/cache/cache.go.
-- Scan: Scan.Repository, Scan.Enqueuer and Scan.Scheduler follow the files of internal/scan with these
--   names; the enqueuer calls the queue, the cache and the scan results of one database.
-- Scanner: internal/scanner/scanner.go. Scanner.Walking is ScanLibrary, Scanner.Inputs a one-shot
--   run's inputs; Scanner.Found says what a reported file is.
-- Lyrics: internal/lyrics. Lyrics.Slugs follows slugify.go; Lyrics.Contents and Lyrics.Writer follow
--   writer.go, on the operations of Lyrics.Files.
-- Library: internal/library/repository.go. Providers: internal/providers/providers.go.
-- Musixmatch: internal/musixmatch/client.go. Verification: internal/verification/verification.go.
-- Backoff and Models: internal/backoff/backoff.go and internal/models/models.go.
-- Strings: Go's strings and path/filepath on Unix, as the program calls them, with the case of ASCII
--   letters only.
-- Common: the lemmas on lists, tests and orders that the parts share. Examples: concrete runs.
--
-- Numbers that the source never makes negative (ids, counts, times, durations) are natural numbers;
-- the configuration has Go's int, and the delay loop of the backoff works on the 64 bits of an int64,
-- with its wrap and its signed order. A clock reading is an argument, in
-- nanoseconds, and SQLite's own clock is the same; stored times are whole seconds, whose order is that
-- of the RFC 3339 texts. The JSON column of destinations is blank, a list of paths or malformed.
-- Loops: those over lists are structural. App.Loop runs on fuel, as many rounds as there are inputs;
-- each round takes one input, and the drained state shows that the fuel was enough. The rounds of the
-- backoff are the attempts. Worker.Loop runs on any fuel, since the source's loop has no bound, and
-- running out is an outcome of its own. The scanner recurses on the levels of depth that remain, the
-- scheduler on the list of its ticks, and the digits of a number n on n + 1 rounds, which are more than
-- its digits.
--
-- Not modelled: the normalization of names, whose NormalizeKey stands on Unicode tables of a
-- third-party package and is a parameter; the opening of the database and the migrations; flags,
-- printing and most of the wiring of the commands, and main; logs and the redaction of logged
-- URIs. JSON, TOML, CSV, HTTP, ffmpeg, the tag reader, PBKDF2, NFKC, ParseFloat and the random source
-- are parameters, and so are the context and, for the worker, its services. A refused row scan after a
-- committed statement is modelled as the source has it.
pub mod Common
pub mod Models
pub mod Backoff
pub mod Store
pub mod Queue
pub mod Worker
pub mod App
pub mod Auth
pub mod Cache
pub mod Examples
pub mod Scan
pub mod Library
pub mod Strings
pub mod Server
pub mod Config
pub mod Commands
pub mod Lyrics
pub mod Providers
pub mod Verification
pub mod Scanner
pub mod Musixmatch
