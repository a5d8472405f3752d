-- ===== src/Worker/Engine.antt =====
-- The state of a Worker (internal/worker/worker.go), the services it calls, and how a run of RunOnce
-- goes on or returns early. Claims, settlements, fetches, writes and stores are noted in a trace, newest
-- first, so that theorems can speak of these calls; the code has no such field.
use mxlrc_go.Common.{ℕ, String, Bool, false, List, [], ◌∷◌, Option, ◌||◌}
use mxlrc_go.Models.{Track, Song, OutputPath}
use mxlrc_go.Queue.Items.{WorkItem}

-- An error as errors.Is sees it, and its text from the outermost wrapping to the cause. `canceled` is
-- context.Canceled or context.DeadlineExceeded.
pub record Failure : Type 0 where
  pub no_rows : Bool
  pub rate_limited : Bool
  pub unauthorized : Bool
  pub canceled : Bool
  pub message : List String

abbrev pub wrap : String → Failure → Failure
wrap text e = record e { message = text ∷ e.message }

-- fmt.Errorf without %w, and errors.Join.
abbrev pub plain : String → Failure
plain text = record {
  no_rows = false;
  rate_limited = false;
  unauthorized = false;
  canceled = false;
  message = text ∷ [];
}

abbrev pub join : Failure → Failure → Failure
join a b = record {
  no_rows = a.no_rows || b.no_rows;
  rate_limited = a.rate_limited || b.rate_limited;
  unauthorized = a.unauthorized || b.unauthorized;
  canceled = a.canceled || b.canceled;
  message = a.message;
}

pub data Reply (A : Type 0) : Type 0 where
  ok : A → Reply A
  err : Failure → Reply A

-- What the worker calls. `W` is everything behind these interfaces, the clock and the context
-- included; floats are an abstract type `F` with the one comparison that the worker makes.
pub record Services (W F : Type 0) : Type 0 where
  pub dequeue : W → Reply WorkItem × W
  pub complete : ℕ → W → Reply (Unit {0}) × W
  pub fail : ℕ → Failure → W → Reply (Unit {0}) × W
  pub release : ℕ → W → Reply (Unit {0}) × W
  pub lookup_exact : String → String → String → W → Reply String × W
  pub lookup_fallback : String → String → W → Reply String × W
  pub store : String → String → String → String → W → Reply (Unit {0}) × W
  pub find_lyrics : Track → W → Reply Song × W
  pub write_lrc : Song → OutputPath → W → Reply (Unit {0}) × W
  pub verify : String → Song → W → Reply Bool × W
  pub context_error : W → Option Failure × W
  pub now : W → ℕ × W
  pub sleep : ℕ → W → W
  pub confidence : Track → Track → F
  pub at_least : F → F → Bool
  pub encode_song : Song → Reply String
  pub decode_json : String → Option Song

-- The fields of Worker that are not services; a verifier is there or not.
pub record Worker (F : Type 0) : Type 0 where
  pub has_verifier : Bool
  pub verify_below_confidence : F
  pub consecutive_failures : ℕ
  pub base_backoff : ℕ
  pub max_backoff : ℕ
  pub circuit_open_duration : ℕ
  pub circuit_open_until : Option ℕ  -- none is the zero time

pub data Event : Type 0 where
  dequeued : ℕ → Event
  completed complete_refused failed fail_refused released release_refused : ℕ → Event
  fetched stored : Event
  wrote : OutputPath → Event

-- What a call of Complete, Fail or Release leaves in the trace: the id that it was given, and whether
-- the queue accepted it.
abbrev pub completion : ℕ → Reply (Unit {0}) → Event
completion id (ok _) = completed id
completion id (err _) = complete_refused id

abbrev pub failure : ℕ → Reply (Unit {0}) → Event
failure id (ok _) = failed id
failure id (err _) = fail_refused id

abbrev pub giving_back : ℕ → Reply (Unit {0}) → Event
giving_back id (ok _) = released id
giving_back id (err _) = release_refused id

pub record Engine (W F : Type 0) : Type 0 where
  pub worker : Worker F
  pub world : W
  pub trace : List Event

-- What RunOnce returns: nil, errQueueEmpty, or another error.
pub data Verdict : Type 0 where
  finished queue_empty : Verdict
  stopped : Failure → Verdict

-- A statement of RunOnce goes on with a value or returns.
pub data Flow (A : Type 0) : Type 0 where
  goes_on : A → Flow A
  returns : Verdict → Flow A

abbrev pub Act : Type 0 → Type 0 → Type 0 → Type 0
Act W F A = Engine W F → Flow A × Engine W F

module _ {W F : Type 0} where
  module _ {A : Type 0} where
    abbrev pub pure : A → Act W F A
    pure a s = (goes_on a, s)

    abbrev pub return : Verdict → Act W F A
    return v s = (returns v, s)

    -- A call of a service, whose reply is a value.
    abbrev pub call : (W → A × W) → Act W F A
    call f s = let (a, w) = f s.world in (goes_on a, record s { world = w })

  -- A call on an item of the queue, which leaves its event.
  abbrev pub call_noted :
      (ℕ → Reply (Unit {0}) → Event)
      → (ℕ → W → Reply (Unit {0}) × W)
      → ℕ
      → Act W F (Reply (Unit {0}))
  call_noted event f id s =
      let (r, w) = f id s.world in (goes_on r, record s { world = w; trace = event id r ∷ s.trace })

  abbrev pub note : Event → Act W F (Unit {0})
  note e s = (goes_on tt, record s { trace = e ∷ s.trace })

  abbrev pub modify : (Worker F → Worker F) → Act W F (Unit {0})
  modify f s = (goes_on tt, record s { worker = f s.worker })

  abbrev pub get : Act W F (Worker F)
  get s = (goes_on s.worker, s)

  module _ {A B : Type 0} where
    abbrev pub and_then : (A → Act W F B) → Flow A → Engine W F → Flow B × Engine W F
    and_then f (goes_on a) s = f a s
    and_then f (returns v) s = (returns v, s)

    infixl 5 ◌>>=◌ ◌>>◌
    abbrev pub ◌>>=◌ : Act W F A → (A → Act W F B) → Act W F B
    m >>= f = λ s. let (r, s') = m s in and_then f r s'

    abbrev pub ◌>>◌ : Act W F A → Act W F B → Act W F B
    m >> k = m >>= λ _. k
