-- ===== src/Client/Clock.antt =====
-- The clock of the model never runs back.
use uniubi_ros.Prelude.{ℕ, ◌+◌, ◌%◌, ◌^◌, ◌≤◌, String, Option, none, some, arith}
use uniubi_ros.Json.{Json}
use uniubi_ros.Client.{
  Client, Env, Exit, returned, threw, Response, Input, renew_tick, renew_response, event,
  EventMessage, HighLevelError, emit, removed, session_expired, session_revoked, set_error,
  read_clock, pass, mark_control_activity,
}
use uniubi_ros.Client.Renew.{
  stop_renew_timer, lose_control, check_pending, record_renewal, send_renewal, check_lease,
  check_tick, tick_renew, keep_lease, judge_renewal, read_renewal, settle_renewal,
  handle_renew_response,
}
use uniubi_ros.Client.Events.{
  call_event_callback, forward_event, handle_control_status, handle_payload, handle_event,
}
use uniubi_ros.Client.Calls.{deliver}
use uniubi_ros.Client.Stable.{IsStable}

stop_renew_timer-time : (s : Client) → s.time ≤ (stop_renew_timer s).time
unfolding stop_renew_timer
stop_renew_timer-time s = ground arith

lose_control-time : (error : HighLevelError) (s : Client) → s.time ≤ (lose_control error s).time
unfolding lose_control
lose_control-time error s = ground (arith, stop_renew_timer-time s)

check_pending-time :
    (now id : ℕ) (d : Option ℕ) (s : Client) → s.time ≤ (check_pending now id d s).time
unfolding check_pending
check_pending-time now id none s = omega arith
check_pending-time now id (some d) s = ground (
  arith,
  lose_control-time session_expired (record (emit (removed id) s) {
    pending_renew_request_id = none;
    pending_renew_deadline = none;
  }),
)

module _ {V : Type 0} (json : Json V) (env : Env) where
  record_renewal-time :
      (now : ℕ) (id : Option ℕ) (s : Client) → s.time ≤ (record_renewal json env now id s).time
  unfolding record_renewal read_clock
  record_renewal-time now (some id) s = ground arith
  record_renewal-time now none s =
      ground (arith, lose_control-time session_expired (read_clock env s).1)

  check_tick-time :
      (now : ℕ) (id : Option ℕ) (s : Client) → s.time ≤ (check_tick json env now id s).time
  unfolding check_tick check_lease send_renewal
  check_tick-time now (some id) s = check_pending-time now id s.pending_renew_deadline s
  check_tick-time now none s = ground (
    arith,
    lose_control-time session_expired s,
    record_renewal-time now (env.async_send s.steps)
        (record s { renew_sequence = (s.renew_sequence + 1) % 2 ^ 64 }),
  )

  tick_renew-time : (s : Client) → s.time ≤ (tick_renew json env s).time
  unfolding tick_renew read_clock
  tick_renew-time s = ground (
    arith,
    stop_renew_timer-time s,
    check_tick-time (read_clock env s).0 s.pending_renew_request_id (read_clock env s).1,
  )

  settle_renewal-time :
      (future : Exit (Option Response)) (s : Client)
      → s.time ≤ (settle_renewal json env future s).time
  unfolding settle_renewal read_renewal judge_renewal keep_lease
  settle_renewal-time (returned (some r)) s = ground (arith, lose_control-time session_expired s)
  settle_renewal-time (returned none) s = lose_control-time session_expired s
  settle_renewal-time (threw what) s = lose_control-time session_expired s

  handle_renew_response-time :
      (sequence : ℕ) (controller : String) (future : Exit (Option Response)) (s : Client)
      → s.time ≤ (handle_renew_response json env sequence controller future s).time
  unfolding handle_renew_response
  handle_renew_response-time sequence controller future s = ground (
    arith,
    settle_renewal-time future
        (record s { pending_renew_request_id = none; pending_renew_deadline = none }),
  )

  handle_event-time :
      (message : EventMessage) (s : Client) → s.time ≤ (handle_event json message s).1.time
  unfolding handle_event handle_payload handle_control_status forward_event call_event_callback
  handle_event-time message s = ground (arith, lose_control-time session_revoked s)

  pub deliver-time : (i : Input) (s : Client) → s.time ≤ (deliver json env i s).1.time
  unfolding deliver
  deliver-time renew_tick s = ground (arith, tick_renew-time s)
  deliver-time (renew_response sequence controller future) s =
      handle_renew_response-time sequence controller future s
  deliver-time (event message) s = ground (arith, handle_event-time message s)

  -- A lower bound on the time survives a call.
  pub time-stable : (k : ℕ) → IsStable json env (λ s. k ≤ s.time)
  unfolding set_error pass mark_control_activity
  time-stable k = record {
    on_deliver = λ i s h. omega (arith, deliver-time i s);
    on_sent = λ r timeout s h. h;
    on_removed = λ s h. h;
    on_pass = λ s h. omega arith;
    on_activity = λ s h. omega arith;
    on_error = λ error s h. h;
  }
