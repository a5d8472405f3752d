-- ===== src/App/Loop.antt =====
-- App.Run and what it calls (internal/app/app.go). The log lines and progress dots are left out.
use mxlrc_go.Common.{List, [], ◌∷◌, ◌++◌, ℕ, zero, suc, ◌+◌, String, Bool, ◌==◌, not, if◌then◌else◌}
use mxlrc_go.Models.{Inputs, Track, Song}
use mxlrc_go.Backoff.{second, geometric}
use mxlrc_go.Queue.Memory.{InputsQueue, Front, queue_is_empty, front, next, pop, push, len, empty}

-- What FindLyrics returns.
pub data Fetched : Type 0 where
  fetch_error : Fetched
  fetched : Song → Fetched

-- What the loop calls: the context, the fetcher, the writer, the sleep (which says whether it ran to
-- its end) and the file of failed items. `W` is everything behind these calls.
pub record Services (W : Type 0) : Type 0 where
  pub context_ended : W → Bool × W
  pub find_lyrics : Track → W → Fetched × W
  pub write_lrc : Song → String → String → W → Bool × W  -- true where it succeeds
  pub sleep : ℕ → W → Bool × W
  pub create_file : W → Bool × W
  pub write_row : String → String → W → Bool × W
  pub flush : W → Bool × W
  pub close : W → Bool × W

pub record App (W : Type 0) : Type 0 where
  pub inputs : InputsQueue
  pub failed : InputsQueue
  pub dir_mode : Bool  -- mode is "dir"
  pub cooldown : ℕ
  pub base_backoff : ℕ
  pub max_backoff : ℕ
  pub failure_count : ℕ
  pub world : W
  pub saved : List Inputs  -- what WriteLRC has accepted; the code has no such field

-- The errors that Run returns.
pub data Failure : Type 0 where
  drain_failed create_failed unexpected_empty write_failed flush_failed close_failed : Failure

pub data Outcome : Type 0 where
  finished : Outcome
  stopped : Failure → Outcome

module _ {W : Type 0} (services : Services W) where
  open services use {
    context_ended, find_lyrics, write_lrc, sleep, create_file, write_row, flush, close,
  }

  -- The countdown from `cooldown` seconds; an interrupted sleep ends it.
  unfoldable pub countdown : ℕ → W → W
  countdown zero w = w
  countdown (suc i) w =
      let (slept, w') = sleep second w in let rest = countdown i w' in if slept then rest else w'

  unfoldable pub timer : App W → App W
  unfolding countdown
  timer a = if empty a.inputs then a else record a { world = countdown a.cooldown a.world }

  unfoldable pub backoff_timer : ℕ → App W → App W
  backoff_timer attempts a =
      let delay = geometric attempts a.base_backoff a.max_backoff in
      if empty a.inputs
      then a
      else if delay == 0
      then a
      else record a { world = (sleep delay a.world).1 }

  -- The branches of the loop body; `none` of the queue is its "unexpected empty queue".
  unfoldable pub save : Song → InputsQueue × Front → App W → App W
  save song (q, queue_is_empty) a = record a { inputs = q }
  save song (q, front cur) a =
      let (written, w) = write_lrc song cur.filename cur.outdir a.world in
      record a {
        inputs = q;
        failed = if written then a.failed else push a.failed cur;
        world = w;
        saved = if written then a.saved ++ cur ∷ [] else a.saved;
      }

  unfoldable pub set_aside : InputsQueue × Front → App W → App W
  set_aside (q, queue_is_empty) a = record a { inputs = q }
  set_aside (q, front item) a = record a { inputs = q; failed = push a.failed item }

  unfoldable pub after_fetch : Fetched × W → App W → App W
  unfolding timer save backoff_timer set_aside
  after_fetch (fetched song, w) a =
      timer (save song (pop a.inputs) (record a { failure_count = 0; world = w }))
  after_fetch (fetch_error, w) a =
      backoff_timer (a.failure_count + 1)
        (set_aside (pop a.inputs) (record a { failure_count = a.failure_count + 1; world = w }))

  -- The loop body after the context check: Next, FindLyrics, and the rest.
  unfoldable pub step : Front → App W → App W
  unfolding after_fetch
  step queue_is_empty a = a
  step (front cur) a = after_fetch (find_lyrics cur.track a.world) a

  -- The loop of Run. Each round pops one item, so as many rounds as there are items are enough.
  unfoldable pub loop : ℕ → App W → App W
  unfolding step
  loop zero a = a
  loop (suc n) a =
      let (ended, w) = context_ended a.world in
      let a' = record a { world = w } in
      let rest = loop n (step (next a.inputs) a') in
      if empty a.inputs then a else if ended then a' else rest

  -- The draining loop of handleFailed.
  unfoldable pub drain : ℕ → App W → App W
  drain zero a = a
  drain (suc n) a = if empty a.inputs then a else drain n (set_aside (pop a.inputs) a)

  -- Rows of the CSV file, until the queue is empty or a row is refused.
  unfoldable pub write_failed_items : ℕ → App W → Outcome × App W
  write_failed_items zero a = (finished, a)
  write_failed_items (suc n) a = elim (pop a.failed).1 [
    | queue_is_empty ↦ (finished, a)
    | front cur ↦
        let (ok, w) = write_row cur.track.artist_name cur.track.track_name a.world in
        let a' = record a { failed = (pop a.failed).0; world = w } in
        let rest = write_failed_items n a' in
        if ok then rest else (stopped write_failed, record a' { world = (close w).1 })
  ]

  unfoldable pub close_file : Outcome × App W → Outcome × App W
  close_file (stopped e, a) = (stopped e, a)
  close_file (finished, a) =
      let (flushed, w) = flush a.world in
      let (closed, w') = close w in
      let a' = record a { world = w' } in
      if not flushed
      then (stopped flush_failed, a')
      else if not closed
      then (stopped close_failed, a')
      else (finished, a')

  unfoldable pub save_failed : App W → Outcome × App W
  unfolding write_failed_items close_file
  save_failed a =
      let (created, w) = create_file a.world in
      let a' = record a { world = w } in
      if created
      then close_file (write_failed_items (len a.failed) a')
      else (stopped create_failed, a')

  unfoldable pub report : App W → Outcome × App W
  unfolding save_failed
  report a =
      if empty a.failed then (finished, a) else if a.dir_mode then (finished, a) else save_failed a

  unfoldable pub handle_failed : App W → Outcome × App W
  unfolding drain report
  handle_failed a = report (drain (len a.inputs) a)

  unfoldable pub run : App W → Outcome × App W
  unfolding loop handle_failed
  run a = handle_failed (loop (len a.inputs) a)
