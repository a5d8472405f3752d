-- ===== src/Worker/Loop.antt =====
-- Run and RunPaced (internal/worker/worker.go), and the setters. The loop has no bound in the source;
-- here it has fuel, and running out of it is an outcome of its own.
use mxlrc_go.Common.{
  none, not, some, ◌&&◌, Option, ℕ, zero, suc, ltb, Bool, true, false, ◌==◌, if◌then◌else◌,
}
use mxlrc_go.Backoff.{geometric}
use mxlrc_go.Worker.Engine.{
  Services, Engine, Worker, Failure, Verdict, finished, queue_empty, stopped,
}
use mxlrc_go.Worker.Steps.{run_once}

pub data Ended : Type 0 where
  returned : Ended  -- nil
  failed_with : Failure → Ended
  out_of_fuel : Ended

-- SetCircuitOpenDuration
unfoldable pub set_circuit_open_duration : {F : Type 0} → ℕ → Worker F → Worker F
set_circuit_open_duration d w = if ltb 0 d then record w { circuit_open_duration = d } else w

module _ {W F : Type 0} (services : Services W F) where
  open services use {context_error, sleep}

  -- The pause of RunPaced: an interval, and whether the context ends while it lasts.
  abbrev pub Pause : Type 0
  Pause = Option (W → Option Failure × W)

  abbrev pub with_world : W → Engine W F → Engine W F
  with_world w s = record s { world = w }

  -- ctx.Err() != nil
  abbrev pub ended : Option Failure → Bool
  ended none = false
  ended (some e) = true

  -- The backoff at the head of the loop, and whether the context has ended after it.
  unfoldable pub back_off : Engine W F → Bool × Engine W F
  back_off s =
      let delay =
        geometric s.worker.consecutive_failures s.worker.base_backoff s.worker.max_backoff in
      let (e, w) = context_error (sleep delay s.world) in
      if s.worker.consecutive_failures == 0 then (false, s) else (ended e, with_world w s)

  -- A result of RunOnce that ends the loop.
  unfoldable pub stop : Failure → Engine W F → Ended × Engine W F
  stop e s =
      let (c, w) = context_error s.world in
      (if ended c && e.canceled then returned else failed_with e, with_world w s)

  unfoldable pub paused : Option Failure × W → Engine W F → Option Ended × Engine W F
  paused (none, w) s = (none, with_world w s)
  paused (some e, w) s = (some (if e.canceled then returned else failed_with e), with_world w s)

  unfoldable pub pause_after : Pause → Engine W F → Option Ended × Engine W F
  unfolding paused
  pause_after none s = (none, s)
  pause_after (some pause) s = paused (pause s.world) s

  -- What follows a RunOnce without an error: the end of the loop, or another round.
  unfoldable pub after_success : Pause → Engine W F → Option Ended × Engine W F
  unfolding pause_after
  after_success pause s =
      let (c, w) = context_error s.world in
      let t = with_world w s in
      let next = pause_after pause t in
      if ended c
      then (some returned, t)
      else if not (t.worker.consecutive_failures == 0)
      then (none, t)
      else next

  unfoldable pub after_round : Pause → Verdict × Engine W F → Option Ended × Engine W F
  unfolding after_success stop
  after_round pause (finished, s) = after_success pause s
  after_round pause (queue_empty, s) = (some returned, s)
  after_round pause (stopped e, s) = (some (stop e s).0, (stop e s).1)

  -- One round of the loop.
  unfoldable pub round : Pause → Bool × Engine W F → Option Ended × Engine W F
  unfolding after_round
  round pause (true, s) = (some returned, s)
  round pause (false, s) = after_round pause (run_once services s)

  -- The rest of the loop, unless the round has ended it.
  abbrev pub go_on :
      (Engine W F → Ended × Engine W F) → Option Ended × Engine W F → Ended × Engine W F
  go_on rest (none, s) = rest s
  go_on rest (some e, s) = (e, s)

  unfoldable pub run : ℕ → Pause → Engine W F → Ended × Engine W F
  unfolding back_off round
  run zero pause s = (out_of_fuel, s)
  run (suc n) pause s = go_on (run n pause) (round pause (back_off s))
