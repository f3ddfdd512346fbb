-- ===== src/Client/StateChange.antt =====
-- How the callbacks of the executor change the state of the session: not at all, or to `connected`
-- by a loss of control.
use uniubi_ros.Prelude.{
  ℕ, ◌+◌, ◌%◌, ◌^◌, String, true, false, Option, none, some, ◌≡◌, refl, ◌⊎◌, inl, inr, arith,
}
use uniubi_ros.Json.{Json, Parsed, value, malformed, fault}
use uniubi_ros.Client.{
  Client, Env, Exit, returned, threw, Response, Input, renew_tick, renew_response, event,
  EventMessage, HighLevelState, HighLevelError, connected, emit, removed, session_expired,
  set_error, session_revoked, is_controlled, is_disconnected, read_clock, pass,
  mark_control_activity,
}
use uniubi_ros.Client.Renew.{
  stop_renew_timer, lose_control, check_pending, record_renewal, send_renewal, check_lease,
  check_tick, tick_renew, keep_lease, judge_renewal, read_renewal, settle_renewal,
  handle_renew_response,
}
use uniubi_ros.Client.Events.{
  call_event_callback, forward_event, handle_control_status, handle_payload, handle_event,
}
use uniubi_ros.Client.Calls.{deliver}
use uniubi_ros.Client.Stable.{IsStable}
use uniubi_ros.Client.Invariant.{IsConsistent, deliver-IsConsistent}

abbrev pub KeepsState : HighLevelState → HighLevelState → Type 0
KeepsState a b = (b ≡ a) ⊎ ((b ≡ connected) × (is_controlled a ≡ true))

pub stop_renew_timer-state : (s : Client) → (stop_renew_timer s).state ≡ s.state
unfolding stop_renew_timer
stop_renew_timer-state s = ground arith

pub lose_control-state :
    (error : HighLevelError) (s : Client) → (lose_control error s).state ≡ connected
unfolding lose_control
lose_control-state error s = ground arith

module _ {V : Type 0} (json : Json V) (env : Env) where
  check_pending-state :
      (now id : ℕ) (d : Option ℕ) (s : Client)
      → is_controlled s.state ≡ true
      → KeepsState s.state (check_pending now id d s).state
  unfolding check_pending
  check_pending-state now id none s c = inl refl
  check_pending-state now id (some d) s c = ground (
    arith,
    lose_control-state session_expired (record (emit (removed id) s) {
      pending_renew_request_id = none;
      pending_renew_deadline = none;
    }),
  )

  record_renewal-state :
      (now : ℕ) (id : Option ℕ) (s : Client)
      → is_controlled s.state ≡ true
      → KeepsState s.state (record_renewal json env now id s).state
  unfolding record_renewal read_clock
  record_renewal-state now (some id) s c = inl refl
  record_renewal-state now none s c =
      ground (arith, lose_control-state session_expired (read_clock env s).1)

  check_tick-state :
      (now : ℕ) (id : Option ℕ) (s : Client)
      → is_controlled s.state ≡ true
      → KeepsState s.state (check_tick json env now id s).state
  unfolding check_tick check_lease send_renewal
  check_tick-state now (some id) s c = check_pending-state now id s.pending_renew_deadline s c
  check_tick-state now none s c = ground (
    arith,
    lose_control-state session_expired s,
    record_renewal-state now (env.async_send s.steps)
        (record s { renew_sequence = (s.renew_sequence + 1) % 2 ^ 64 }) c,
  )

  pub tick_renew-state : (s : Client) → KeepsState s.state (tick_renew json env s).state
  unfolding tick_renew read_clock
  tick_renew-state s = ground (
    arith,
    stop_renew_timer-state s,
    check_tick-state (read_clock env s).0 s.pending_renew_request_id (read_clock env s).1,
  )

  settle_renewal-state :
      (future : Exit (Option Response)) (s : Client)
      → is_controlled s.state ≡ true
      → KeepsState s.state (settle_renewal json env future s).state
  unfolding settle_renewal read_renewal judge_renewal keep_lease
  settle_renewal-state (returned (some r)) s c =
      ground (arith, lose_control-state session_expired s)
  settle_renewal-state (returned none) s c = inr (lose_control-state session_expired s, c)
  settle_renewal-state (threw what) s c = inr (lose_control-state session_expired s, c)

  pub handle_renew_response-state :
      (sequence : ℕ) (controller : String) (future : Exit (Option Response)) (s : Client)
      → KeepsState s.state (handle_renew_response json env sequence controller future s).state
  unfolding handle_renew_response
  handle_renew_response-state sequence controller future s = ground (
    arith,
    settle_renewal-state future
        (record s { pending_renew_request_id = none; pending_renew_deadline = none }),
  )

  handle_payload-state :
      (p : Parsed V) (message : EventMessage) (s : Client)
      → KeepsState s.state (handle_payload json p message s).1.state
  unfolding handle_payload handle_control_status forward_event call_event_callback
  handle_payload-state (value payload) message s =
      ground (arith, lose_control-state session_revoked s)
  handle_payload-state malformed message s = ground arith
  handle_payload-state fault message s = inl refl

  pub handle_event-state :
      (message : EventMessage) (s : Client)
      → KeepsState s.state (handle_event json message s).1.state
  unfolding handle_event
  handle_event-state message s =
      ground (arith, handle_payload-state (json.parse message.payload) message s)

  pub deliver-state : (i : Input) (s : Client) → KeepsState s.state (deliver json env i s).1.state
  unfolding deliver
  deliver-state renew_tick s = ground (arith, tick_renew-state s)
  deliver-state (renew_response sequence controller future) s =
      handle_renew_response-state sequence controller future s
  deliver-state (event message) s = ground (arith, handle_event-state message s)

-- Connected and without control, as `startControl` is while it waits.
pub record IsWaiting (s : Client) : Type 0 where
  pub consistent : IsConsistent s
  pub waiting : s.state ≡ connected

-- Not disconnected.
pub record IsOpen (s : Client) : Type 0 where
  pub consistent : IsConsistent s
  pub linked : is_disconnected s.state ≡ false

module _ {V : Type 0} (json : Json V) (env : Env) where
  deliver-IsWaiting : (i : Input) (s : Client) → IsWaiting s → IsWaiting (deliver json env i s).1
  deliver-IsWaiting i s h =
      ground (arith, deliver-state json env i s, deliver-IsConsistent json env i s h.consistent)

  deliver-IsOpen : (i : Input) (s : Client) → IsOpen s → IsOpen (deliver json env i s).1
  deliver-IsOpen i s h =
      ground (arith, deliver-state json env i s, deliver-IsConsistent json env i s h.consistent)

  pub IsWaiting-stable : IsStable json env IsWaiting
  unfolding set_error pass mark_control_activity
  IsWaiting-stable = record {
    on_deliver = deliver-IsWaiting;
    on_sent = λ r timeout s h. ground arith;
    on_removed = λ s h. ground arith;
    on_pass = λ s h. ground arith;
    on_activity = λ s h. ground arith;
    on_error = λ error s h. ground arith;
  }

  pub IsOpen-stable : IsStable json env IsOpen
  unfolding set_error pass mark_control_activity
  IsOpen-stable = record {
    on_deliver = deliver-IsOpen;
    on_sent = λ r timeout s h. ground arith;
    on_removed = λ s h. ground arith;
    on_pass = λ s h. ground arith;
    on_activity = λ s h. ground arith;
    on_error = λ error s h. ground arith;
  }
