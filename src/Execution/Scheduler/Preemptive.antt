-- ===== src/Execution/Scheduler/Preemptive.antt =====
-- `_preemptive_stop` and `close`.
use embodi_run.Base.{
  Bool, true, false, not, ◌&&◌, ◌||◌, none, some, [], ◌∷◌, is_some, if◌then◌else◌,
}
use embodi_run.Execution.Io.{
  completed, cancelled, failed, rejected, unknown, stop, close, nothing, IoResult, immediate,
  stop_confirmation,
}
use embodi_run.Execution.Scheduler.State.{State, drop_queue, drop_queued_motion}
use embodi_run.Execution.Scheduler.Admit.{Admission, admitted, answered}
use embodi_run.Execution.Scheduler.Worker.{DriverAnswer, raised, returned, stop_went_wrong}

unfoldable pub preemptive_begin : State → Admission
preemptive_begin s =
    if s.closed || s.preemptive_active || is_some s.queued_stop
    then answered (immediate stop rejected false)
    else admitted (record s { preemptive_active = true })

-- The stop's own thread, when the driver has answered.
unfoldable pub preemptive_return : State → State
preemptive_return s = record s { preemptive_active = false }

-- The caller's wait timed out before that.
unfoldable pub preemptive_timeout : State → State
preemptive_timeout s =
    let q = drop_queued_motion (record s { quarantined = true }) in
    record q { last_stop_result = some (immediate stop unknown true) }

preemptive_result : DriverAnswer → IoResult
preemptive_result (raised e) = record {
  operation = stop;
  status = failed;
  driver_returned = false;
  driver_value = nothing;
  stop_confirmed = stop_confirmation nothing;
  error = some e;
  quarantined = false;
}
preemptive_result (returned v) = record {
  operation = stop;
  status = completed;
  driver_returned = true;
  driver_value = v;
  stop_confirmed = stop_confirmation v;
  error = none;
  quarantined = false;
}

-- The caller's last lock, with the driver's answer.
unfoldable pub preemptive_finish : DriverAnswer → State → State
unfolding preemptive_result stop_confirmation
preemptive_finish answer s =
    let result = preemptive_result answer in
    let q =
      if stop_went_wrong result then drop_queued_motion (record s { quarantined = true }) else s in
    record q { last_stop_result = some (record result { quarantined = q.quarantined }) }

-- The lock of `close`: queued motion is cancelled, and a queued stop is left to drain.
unfoldable pub close_begin : State → State
close_begin s = if s.closed then s else drop_queue cancelled false (record s { closed = true })

abbrev pub is_empty_queue : State → Bool
is_empty_queue s = elim s.queue [ [] ↦ true | r ∷ rs ↦ false ]

abbrev pub drained : State → Bool
drained s = not (is_some s.active) && is_empty_queue s && not s.preemptive_active

-- What `close` returns after it has waited for the worker.
unfoldable pub close_result : State → IoResult
close_result s =
    immediate close (if drained s then completed else unknown) (not (drained s) || s.quarantined)
