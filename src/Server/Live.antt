-- ===== src/Server/Live.antt =====
-- A handler over the queue's database and the table of keys, as serve wires it, and its answers
-- (internal/server/server.go, runServe of internal/commands/commands.go). The keys and the queue stand
-- in one database file, in tables that no statement shares, each here with faults of its own.
use mxlrc_go.Common.{Option, ℕ, String, Bool, List, true, false, none, some, [], ◌∷◌, ◌≡◌, ◌⊎◌}
use mxlrc_go.Auth.Keys.{Key}
use mxlrc_go.Auth.Scopes.{err, Result, ok}
use mxlrc_go.Auth.Sql.{KeyTable, sql_store}
use mxlrc_go.Auth.Service.{validate_key}
use mxlrc_go.Store.Tables.{Db, Status}
use mxlrc_go.Store.Session
use mxlrc_go.Store.Session.{Session, boundary}
use mxlrc_go.Queue.Enqueue
use mxlrc_go.Queue.Admin
use mxlrc_go.Server.Requests.{Response}
use mxlrc_go.Server.Handlers.{with_readiness, with_status_reporter, new_handler, Handler, WorkQueue}

abbrev pub World : Type 0
World = Session KeyTable × Session Db

-- A refusal, with 401 or with 500, that leaves the key table and the database as they are.
abbrev pub IsRefused : KeyTable → Session Db → Response × World → Type 0
IsRefused table s (answered, w) =
    ((answered.status ≡ 401) ⊎ (answered.status ≡ 500)) × (w.0.db ≡ table) × (w.1 ≡ s)

module _ (hash_key : String → Option String) (normalize_key : String → String) (now : ℕ) where
  abbrev checked : Session Db → Result Key × Session KeyTable → Result Key × World
  checked s (r, keys) = (r, (keys, s))

  unfoldable pub live_auth : String → String → World → Result Key × World
  unfolding validate_key
  live_auth raw required (keys, s) = checked s (validate_key sql_store hash_key raw required keys)

  abbrev pub succeeded :
      {A : Type 0} → Session KeyTable → Session.Result A × Session Db → Bool × World
  succeeded keys (Session.ok _, s) = (true, (keys, s))
  succeeded keys (Session.err _, s) = (false, (keys, s))

  abbrev answer : {A : Type 0} → Session KeyTable → Session.Result A × Session Db → Option A × World
  answer keys (Session.ok a, s) = (some a, (keys, s))
  answer keys (Session.err _, s) = (none, (keys, s))

  unfoldable pub live_queue : WorkQueue World
  unfolding Enqueue.enqueue Admin.cleanup
  live_queue = record {
    enqueue =
        λ inputs priority w. succeeded w.0 (Enqueue.enqueue normalize_key inputs priority now w.1);
    cleanup = λ inputs w. answer w.0 (Admin.cleanup normalize_key inputs w.1);
  }

  unfoldable pub live_stats : World → Option (List (Status × ℕ)) × World
  unfolding Admin.count_by_status
  live_stats w = answer w.0 (Admin.count_by_status w.1)

  -- A ping of the database is a statement that finds nothing.
  unfoldable pub live_handler : (outdir : String) → Handler World
  unfolding live_auth live_queue live_stats new_handler
  live_handler outdir =
      new_handler (some live_auth) (some live_queue) outdir
        (with_readiness (λ w. succeeded w.0 (boundary w.1)) ∷ with_status_reporter live_stats ∷ [])
