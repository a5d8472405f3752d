-- ===== src/Queue/Invariant/Calls.antt =====
-- Any sequence of calls of DBQueue (internal/queue/queue.go), each with its own clock reading, from
-- any set of callers: SQLite runs one writer at a time, so a history is a list of calls.
use mxlrc_go.Common.{ℕ, List, [], ◌∷◌, Option, String}
use mxlrc_go.Store.Session.{Session}
use mxlrc_go.Models.{Inputs}
use mxlrc_go.Store.Tables.{Db}
use mxlrc_go.Queue.Enqueue.{enqueue}
use mxlrc_go.Store.Valid.{IsValid}
use mxlrc_go.Queue.Invariant.Enqueue.{enqueue-Keeps}
use mxlrc_go.Queue.Work.{fail, retry, release, complete, dequeue}
use mxlrc_go.Queue.Invariant.Work.{
  fail-Keeps, retry-Keeps, release-Keeps, complete-Keeps, dequeue-Keeps,
}
use mxlrc_go.Queue.Admin.{clear_done, cleanup}
use mxlrc_go.Queue.Invariant.Cancel.{cancel_by_library-Keeps, clear_done-Keeps, cleanup-Keeps}
use mxlrc_go.Queue.Cancel.{cancel_by_library}

pub data Call : Type 0 where
  enqueues : Inputs → (priority now : ℕ) → Call
  dequeues : (now : ℕ) → Call
  completes releases retries : (id now : ℕ) → Call
  fails : (id : ℕ) → Option String → (now : ℕ) → Call
  cleans_up : Inputs → Call
  clears_done : Call
  cancels : (library now : ℕ) → Call

module _ (normalize_key : String → String) (base longest : ℕ) where
  unfoldable pub perform : Call → Session Db → Session Db
  perform (enqueues inputs priority now) s = (enqueue normalize_key inputs priority now s).1
  perform (dequeues now) s = (dequeue now s).1
  perform (completes id now) s = (complete id now s).1
  perform (releases id now) s = (release id now s).1
  perform (retries id now) s = (retry id now s).1
  perform (fails id cause now) s = (fail base longest id cause now s).1
  perform (cleans_up inputs) s = (cleanup normalize_key inputs s).1
  perform clears_done s = (clear_done s).1
  perform (cancels library now) s = (cancel_by_library library now s).1

  unfoldable pub perform_all : List Call → Session Db → Session Db
  unfolding perform
  perform_all [] s = s
  perform_all (c ∷ cs) s = perform_all cs (perform c s)

  perform-IsValid : (c : Call) (s : Session Db) → IsValid s.db → IsValid (perform c s).db
  unfolding perform
  perform-IsValid (enqueues inputs priority now) s v =
      enqueue-Keeps normalize_key inputs priority now s v
  perform-IsValid (dequeues now) s v = dequeue-Keeps now s v
  perform-IsValid (completes id now) s v = complete-Keeps id now s v
  perform-IsValid (releases id now) s v = release-Keeps id now s v
  perform-IsValid (retries id now) s v = retry-Keeps id now s v
  perform-IsValid (fails id cause now) s v = fail-Keeps base longest id cause now s v
  perform-IsValid (cleans_up inputs) s v = cleanup-Keeps normalize_key inputs s v
  perform-IsValid clears_done s v = clear_done-Keeps s v
  perform-IsValid (cancels library now) s v = cancel_by_library-Keeps library now s v

  -- Whatever calls are made, in whatever order, and whatever statements the driver refuses: in the
  -- work queue no two rows share an id or a normalized artist and title, ids stay below the sequence
  -- number, only done rows have a completion time, pending and done rows carry no error text, and a
  -- failed row has at least one attempt.
  pub perform_all-IsValid :
      (cs : List Call) (s : Session Db) → IsValid s.db → IsValid (perform_all cs s).db
  unfolding perform_all
  perform_all-IsValid [] s v = v
  perform_all-IsValid (c ∷ cs) s v = perform_all-IsValid cs (perform c s) (perform-IsValid c s v)
