-- ===== src/Examples/QueueRuns.antt =====
-- Runs of the queue.
use mxlrc_go.Common.{
  ℕ, ◌*◌, ◌≡◌, ◌≢◌, List, [], ◌∷◌, some, refl, true, false, In, All, any, inl, inr, arith, ◌&&◌,
  update_where,
}
use mxlrc_go.Backoff.{second, default_base, default_max, geometric}
use mxlrc_go.Store.Tables.{Db, Status, WorkRow, has_id, is_failed, processing, touch}
use mxlrc_go.Store.Session.{exec, transaction, Session, err, no_rows, not_retryable}
use mxlrc_go.Store.Valid.{IsValid}
use mxlrc_go.Queue.Items.{scan_work_item, WorkItem, item_of, format_time}
use mxlrc_go.Queue.Enqueue.{enqueue}
use mxlrc_go.Queue.Memory.{InputsQueue, len}
use mxlrc_go.Queue.Fifo.{push_all, pop_all, push-then-pop}
use mxlrc_go.Queue.Work.{dequeue, complete, fail, retry, is_ready}
use mxlrc_go.Queue.Invariant.Calls.{
  Call, enqueues, dequeues, fails, completes, cancels, perform_all, perform_all-IsValid,
}
use mxlrc_go.Queue.Laws.Claiming.{IsAhead, dequeue-first, dequeue-no_rows}
use mxlrc_go.Queue.Laws.Completing.{Completed, complete-Completed}
use mxlrc_go.Queue.Laws.Failing.{fail-then-dequeue}
use mxlrc_go.Queue.Laws.Retrying.{retry_refusals}
use mxlrc_go.Queue.Laws.Enqueueing.{Scheduled, enqueue-Scheduled}
use mxlrc_go.Queue.Laws.Settled.{refreshed, enqueue-refreshed}
use mxlrc_go.Examples.Data.{
  mixed, mixed_db, mixed-IsValid, key_of, inputs_of, owned, retried, db_of,
}

-- Ten seconds after the start, and later.
abbrev early : ℕ
early = 10 * second

abbrev soon : ℕ
soon = 20 * second

-- The second statement of this history, the claim, is refused by the driver.
abbrev history : List Call
history =
    enqueues (inputs_of "Abba" "Fernando" 7) 10 early
    ∷ dequeues early
    ∷ fails 2 (some "no lyrics") early
    ∷ completes 3 soon
    ∷ cancels 1 soon
    ∷ []

perform_all-IsValid_example : IsValid (perform_all key_of default_base default_max history mixed).db
perform_all-IsValid_example =
    perform_all-IsValid key_of default_base default_max history mixed mixed-IsValid

-- The row of priority 10 comes first.
abbrev first_item : WorkItem
first_item =
    item_of (record retried { status = processing })
      (record { outdir = "/music"; filename = "song.lrc" } ∷ [])

dequeue-first_example :
    (r : WorkRow) × In r mixed_db.work
    × (is_ready (format_time early) r ≡ true)
    × (first_item.id ≡ r.id)
    × ((w : WorkRow) → In w mixed_db.work → is_ready (format_time early) w ≡ true → IsAhead r w)
    × ((dequeue early mixed).1.db ≡ record mixed_db {
      work =
          update_where
            (has_id r.id)
            (λ w. touch (format_time early) (record w { status = processing }))
            mixed_db.work;
    })
unfolding dequeue exec scan_work_item
dequeue-first_example = dequeue-first early mixed first_item refl

-- Nothing is due before the failed row's time, and the others are done.
abbrev idle : Session Db
idle = record { db = db_of (record retried { next_attempt_at = 99 } ∷ []) 4 []; faults = [] }

dequeue-no_rows_example : All (λ r. is_ready (format_time early) r ≡ false) idle.db.work
unfolding dequeue exec scan_work_item
dequeue-no_rows_example = dequeue-no_rows early idle refl

complete-Completed_example : Completed 2 (format_time soon) mixed_db (complete 2 soon mixed).1.db
unfolding complete exec transaction scan_work_item
complete-Completed_example = complete-Completed 2 soon mixed refl

-- The commit is refused.
abbrev refused : Session Db
refused = record { db = mixed_db; faults = false ∷ false ∷ false ∷ true ∷ [] }

abbrev failed_item : WorkItem
failed_item =
    item_of
      (record owned {
        status = Status.failed;
        attempts = 1;
        next_attempt_at = 70;
        last_error = "no lyrics";
      })
      (record { outdir = "/music"; filename = "song.lrc" } ∷ [])

-- Ten seconds after its failure the row rests, and the row of priority 10 is taken.
fail-then-dequeue_example : first_item.id ≢ 2
unfolding fail dequeue exec transaction scan_work_item geometric
fail-then-dequeue_example =
    fail-then-dequeue default_base default_max (some "no lyrics") early soon mixed owned failed_item
      first_item mixed-IsValid (inr (inl refl)) refl (omega arith) refl

retry_refusals_example :
    ((retry 1 early mixed).0 ≡ err no_rows → any (has_id 1) mixed_db.work ≡ false)
    × ((retry 1 early mixed).0 ≡ err not_retryable
        → (any (has_id 1) mixed_db.work ≡ true)
          × All (λ r. has_id 1 r && is_failed r.status ≡ false) mixed_db.work)
retry_refusals_example = retry_refusals 1 early mixed

-- The second refusal is met.
retry_waiting : (retry 1 early mixed).0 ≡ err not_retryable
unfolding retry exec transaction scan_work_item
retry_waiting = refl

-- A scan meets the failed row.
abbrev met_item : WorkItem
met_item =
    item_of (record retried { source_path = "/music/song.flac" })
      (record { outdir = "/music"; filename = "song.lrc" } ∷ [])

enqueue-Scheduled_example : Scheduled 0 (format_time early) mixed_db.work met_item
unfolding enqueue exec transaction scan_work_item
enqueue-Scheduled_example =
    enqueue-Scheduled key_of (inputs_of "Abba" "Money" 0) 0 early mixed met_item refl

-- A webhook meets the row that is being processed.
abbrev owned_item : WorkItem
owned_item =
    item_of (record owned { priority = 10; scan_result_id = some 8 })
      (record { outdir = "/music"; filename = "song.lrc" } ∷ [])

enqueue-refreshed_example :
    In
      (refreshed (inputs_of "Abba" "Fernando" 8) 10 (format_time early) owned)
      (enqueue key_of (inputs_of "Abba" "Fernando" 8) 10 early mixed).1.db.work
unfolding enqueue exec transaction scan_work_item
enqueue-refreshed_example =
    enqueue-refreshed key_of (inputs_of "Abba" "Fernando" 8) 10 early mixed owned_item owned
      mixed-IsValid refl (inr (inl refl)) refl refl

abbrev one_left : InputsQueue
one_left = record { queue = inputs_of "Abba" "Waterloo" 0 ∷ [] }

push-then-pop_example :
    pop_all
      (len (push_all one_left (inputs_of "Abba" "Money" 0 ∷ [])))
      (push_all one_left (inputs_of "Abba" "Money" 0 ∷ []))
    ≡ (inputs_of "Abba" "Waterloo" 0 ∷ inputs_of "Abba" "Money" 0 ∷ [], record { queue = [] })
push-then-pop_example = push-then-pop one_left (inputs_of "Abba" "Money" 0 ∷ [])
