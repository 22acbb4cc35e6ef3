-- ===== src/Execution/Arbiter/Tests/Races.antt =====
-- The interleavings of two methods at concrete states.
use embodi_run.Base.{ℕ, ◌≡◌, ◌≢◌, refl, true, false, none, some, [], ok}
use embodi_run.Execution.Ticket.{new_ticket, settle}
use embodi_run.Execution.Arbiter.State.{
  State, model_authority, manual_authority, estop_latched, cancel_active, cancel_active_manual,
  clear_model_queue, clear_manual,
}
use embodi_run.Execution.Arbiter.Queue.{
  submit, submit_model, submit_manual, enqueue_automatic, enqueue_manual,
}
use embodi_run.Execution.Arbiter.Stops.{finish_hold, wait_for_hold, reset_begin, reset_commit}
use embodi_run.Execution.Arbiter.Authority.{
  join_hold, finished, acquire_manual_begin, release_manual_begin, set_deadman_begin,
}
use embodi_run.Execution.Arbiter.Races.{
  acquire_during_release, deadman_during_release, late_reset_keeps_queue,
}
use embodi_run.Execution.Arbiter.Tests.States.{fresh, one_queued, held, by_hand_pending}

abbrev releasing : State ℕ
releasing = record held { deadman_active = false; manual_heartbeat = none; hold_in_progress = true }

acquire_during_release_example :
    (join_hold ≡ join_hold)
    × (wait_for_hold (finish_hold (some model_authority) none releasing) ≡ ok tt)
    × ((finish_hold (some model_authority) none releasing).authority ≡ model_authority)
unfolding release_manual_begin acquire_manual_begin cancel_active cancel_active_manual clear_manual
    clear_model_queue settle
acquire_during_release_example =
    acquire_during_release held releasing releasing join_hold refl refl refl

deadman_during_release_example :
    let c = record by_hand_pending { hold_in_progress = true; manual_heartbeat = some 6 } in
    let d = finish_hold (some model_authority) none c in
    (d.authority ≡ model_authority) × (d.deadman_active ≡ true) × (d.manual_pending ≢ none)
unfolding release_manual_begin set_deadman_begin submit_manual submit enqueue_manual new_ticket
    cancel_active_manual clear_manual settle
deadman_during_release_example =
    deadman_during_release 5 6 9 none held releasing
      (record held { hold_in_progress = true; manual_heartbeat = some 5 })
      (record by_hand_pending { hold_in_progress = true; manual_heartbeat = some 6 }) finished refl
      refl refl

abbrev reset_queued : State ℕ
reset_queued = record one_queued { estop_generation = 1 }

late_reset_keeps_queue_example :
    let e = record reset_queued { authority = manual_authority } in
    (e.authority ≡ manual_authority) × (e.model_queue ≢ [])
unfolding reset_begin reset_commit release_manual_begin submit_model submit enqueue_automatic
    new_ticket finish_hold cancel_active_manual clear_manual settle
late_reset_keeps_queue_example =
    late_reset_keeps_queue 1 0 7 (some 50) none
      (record fresh { estop_generation = 1; authority = estop_latched })
      (record fresh { estop_generation = 1; authority = manual_authority })
      (record fresh { estop_generation = 1; authority = manual_authority; hold_in_progress = true })
      reset_queued (record reset_queued { authority = manual_authority }) refl refl refl refl refl
