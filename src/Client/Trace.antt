-- ===== src/Client/Trace.antt =====
-- The trace only grows: the number of effects of any kind never falls.
use uniubi_ros.Prelude.{
  ℕ, ◌+◌, ◌%◌, ◌^◌, ◌≤◌, String, Bool, Option, none, some, List, [], ◌∷◌, arith, if◌then◌else◌,
}
use uniubi_ros.Json.{Json}
use uniubi_ros.Client.{
  Client, Env, Exit, returned, threw, Response, Input, renew_tick, renew_response, event, Effect,
  EventMessage, HighLevelError, emit, removed, session_expired, session_revoked, set_error,
  read_clock, pass, mark_control_activity,
}
use uniubi_ros.Client.Renew.{
  stop_renew_timer, lose_control, check_pending, record_renewal, send_renewal, check_lease,
  check_tick, tick_renew, keep_lease, judge_renewal, read_renewal, settle_renewal,
  handle_renew_response,
}
use uniubi_ros.Client.Events.{
  call_event_callback, forward_event, handle_control_status, handle_payload, handle_event,
}
use uniubi_ros.Client.Calls.{deliver}
use uniubi_ros.Client.Stable.{IsStable}

module _ (kind : Effect → Bool) where
  -- How many effects of the kind there are.
  abbrev pub tally : List (ℕ × Effect) → ℕ
  tally [] = 0
  tally ((at, e) ∷ es) = (if kind e then 1 else 0) + tally es

  stop_renew_timer-tally : (s : Client) → tally s.trace ≤ tally (stop_renew_timer s).trace
  unfolding stop_renew_timer
  stop_renew_timer-tally s = ground arith

  lose_control-tally :
      (error : HighLevelError) (s : Client) → tally s.trace ≤ tally (lose_control error s).trace
  unfolding lose_control
  lose_control-tally error s = ground (arith, stop_renew_timer-tally s)

  check_pending-tally :
      (now id : ℕ) (d : Option ℕ) (s : Client)
      → tally s.trace ≤ tally (check_pending now id d s).trace
  unfolding check_pending
  check_pending-tally now id none s = omega arith
  check_pending-tally now id (some d) s = ground (
    arith,
    lose_control-tally session_expired (record (emit (removed id) s) {
      pending_renew_request_id = none;
      pending_renew_deadline = none;
    }),
  )

  module _ {V : Type 0} (json : Json V) (env : Env) where
    record_renewal-tally :
        (now : ℕ) (id : Option ℕ) (s : Client)
        → tally s.trace ≤ tally (record_renewal json env now id s).trace
    unfolding record_renewal read_clock
    record_renewal-tally now (some id) s = ground arith
    record_renewal-tally now none s =
        ground (arith, lose_control-tally session_expired (read_clock env s).1)

    check_tick-tally :
        (now : ℕ) (id : Option ℕ) (s : Client)
        → tally s.trace ≤ tally (check_tick json env now id s).trace
    unfolding check_tick check_lease send_renewal
    check_tick-tally now (some id) s = check_pending-tally now id s.pending_renew_deadline s
    check_tick-tally now none s = ground (
      arith,
      lose_control-tally session_expired s,
      record_renewal-tally now (env.async_send s.steps)
          (record s { renew_sequence = (s.renew_sequence + 1) % 2 ^ 64 }),
    )

    tick_renew-tally : (s : Client) → tally s.trace ≤ tally (tick_renew json env s).trace
    unfolding tick_renew read_clock
    tick_renew-tally s = ground (
      arith,
      stop_renew_timer-tally s,
      check_tick-tally (read_clock env s).0 s.pending_renew_request_id (read_clock env s).1,
    )

    settle_renewal-tally :
        (future : Exit (Option Response)) (s : Client)
        → tally s.trace ≤ tally (settle_renewal json env future s).trace
    unfolding settle_renewal read_renewal judge_renewal keep_lease
    settle_renewal-tally (returned (some r)) s =
        ground (arith, lose_control-tally session_expired s)
    settle_renewal-tally (returned none) s = lose_control-tally session_expired s
    settle_renewal-tally (threw what) s = lose_control-tally session_expired s

    handle_renew_response-tally :
        (sequence : ℕ) (controller : String) (future : Exit (Option Response)) (s : Client)
        → tally s.trace ≤ tally (handle_renew_response json env sequence controller future s).trace
    unfolding handle_renew_response
    handle_renew_response-tally sequence controller future s = ground (
      arith,
      settle_renewal-tally future
          (record s { pending_renew_request_id = none; pending_renew_deadline = none }),
    )

    handle_event-tally :
        (message : EventMessage) (s : Client)
        → tally s.trace ≤ tally (handle_event json message s).1.trace
    unfolding handle_event handle_payload handle_control_status forward_event call_event_callback
    handle_event-tally message s = ground (arith, lose_control-tally session_revoked s)

    pub deliver-tally :
        (i : Input) (s : Client) → tally s.trace ≤ tally (deliver json env i s).1.trace
    unfolding deliver
    deliver-tally renew_tick s = ground (arith, tick_renew-tally s)
    deliver-tally (renew_response sequence controller future) s =
        handle_renew_response-tally sequence controller future s
    deliver-tally (event message) s = ground (arith, handle_event-tally message s)

    -- A lower bound on a tally survives a call.
    pub tally-stable : (k : ℕ) → IsStable json env (λ s. k ≤ tally s.trace)
    unfolding set_error pass mark_control_activity
    tally-stable k = record {
      on_deliver = λ i s h. omega (arith, deliver-tally i s);
      on_sent = λ r timeout s h. ground arith;
      on_removed = λ s h. ground arith;
      on_pass = λ s h. h;
      on_activity = λ s h. h;
      on_error = λ error s h. h;
    }
