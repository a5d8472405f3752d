-- ===== src/Examples/WorkerRuns.antt =====
-- Runs of the worker. The world is a clock; the provider limits the rate, or has a song.
use mxlrc_go.Common.{ℕ, ◌+◌, ◌≡◌, true, false, [], ◌∷◌, Option, none, refl}
use mxlrc_go.Models.{Track, Song}
use mxlrc_go.Store.Tables.{processing}
use mxlrc_go.Queue.Items.{WorkItem, item_of}
use mxlrc_go.Worker.Engine.{
  Failure, plain, Reply, ok, err, Services, Engine, released, completed, wrote, fetched, stored,
  dequeued,
}
use mxlrc_go.Worker.Steps.{run_once}
use mxlrc_go.Worker.Settlement.{claims, settled, stranded}
use mxlrc_go.Worker.Balance.{run_once-settles}
use mxlrc_go.Examples.Data.{row_of, song_of}

abbrev job : WorkItem
job =
    item_of (row_of 2 "Fernando" processing 0 0)
      (record { outdir = "/music"; filename = "song.lrc" } ∷ [])

abbrev missing : Failure
missing = record (plain "no rows") { no_rows = true }

abbrev limited : Failure
limited = record (plain "too many requests") { rate_limited = true }

abbrev services_of : (Track → Reply Song) → Services ℕ ℕ
services_of find = record {
  dequeue = λ w. (ok job, w);
  complete = λ _ w. (ok tt, w);
  fail = λ _ _ w. (ok tt, w);
  release = λ _ w. (ok tt, w);
  lookup_exact = λ _ _ _ w. (err missing, w);
  lookup_fallback = λ _ _ w. (err missing, w);
  store = λ _ _ _ _ w. (ok tt, w);
  find_lyrics = λ t w. (find t, w);
  write_lrc = λ _ _ w. (ok tt, w);
  verify = λ _ _ w. (ok true, w);
  context_error = λ w. (none, w);
  now = λ w. (w, w);
  sleep = λ d w. w + d;
  confidence = λ _ _. 1;
  at_least = λ _ _. true;
  encode_song = λ s. ok (s.lyrics.lyrics_body);
  decode_json = λ _. none;
}

abbrev generous : Services ℕ ℕ
generous = services_of (λ t. ok (song_of t))

abbrev strict : Services ℕ ℕ
strict = services_of (λ _. err limited)

abbrev engine : Option ℕ → Engine ℕ ℕ
engine until = record {
  worker = record {
    has_verifier = false;
    verify_below_confidence = 0;
    consecutive_failures = 0;
    base_backoff = 60;
    max_backoff = 3600;
    circuit_open_duration = 1800;
    circuit_open_until = until;
  };
  world = 100;
  trace = [];
}

run_once-settles_example :
    let t = (run_once strict (engine none)).1 in
    claims 2 t.trace + (settled 2 [] + stranded 2 [])
    ≡ claims 2 [] + (settled 2 t.trace + stranded 2 t.trace)
run_once-settles_example = run_once-settles strict 2 (engine none)

-- The runs that the example speaks of: a rate limit, and a song that is written.
strict_trace : (run_once strict (engine none)).1.trace ≡ released 2 ∷ fetched ∷ dequeued 2 ∷ []
unfolding run_once
strict_trace = refl

generous_trace :
    (run_once generous (engine none)).1.trace
    ≡ completed 2
      ∷ wrote (record { outdir = "/music"; filename = "song.lrc" })
      ∷ stored
      ∷ fetched
      ∷ dequeued 2
      ∷ []
unfolding run_once
generous_trace = refl
