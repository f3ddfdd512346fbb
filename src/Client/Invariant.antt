-- ===== src/Client/Invariant.antt =====
-- What holds of a client between two of its calls: the renewal timer and the request in flight
-- belong to a held session, and a disconnected client holds nothing.
use uniubi_ros.Prelude.{
  ltb, leb, ◌&&◌, Bool, ℤ, Bool-cases, inl, inr, ◌≤◌, ◌<◌, positive_or, ℕ, ◌+◌, ◌%◌, ◌^◌, String,
  true, false, Option, none, some, ◌≡◌, ◌⊎◌, arith, is_some, eq_iff,
}
use uniubi_ros.Json.{Json, Parsed, value, malformed, fault}
use uniubi_ros.Client.{
  ms, default_lease_ms, Client, Env, Exit, returned, threw, Response, Input, renew_tick,
  renew_response, event, HighLevelError, disconnected, controlled, emit, set_error, pass,
  is_controlled, mark_control_activity, EventMessage, read_clock, removed, session_expired,
  session_revoked,
}
use uniubi_ros.Client.Renew.{
  renew_interval, renew_timeout_ms, lease_deadline, stop_renew_timer, lose_control, tick_renew,
  handle_renew_response, check_pending, record_renewal, check_lease, check_tick, send_renewal,
  read_renewal, judge_renewal, keep_lease, settle_renewal,
}
use uniubi_ros.Client.Events.{
  handle_event, handle_control_status, handle_payload, call_event_callback, forward_event,
}
use uniubi_ros.Client.Calls.{deliver}
use uniubi_ros.Client.Stable.{IsStable}

-- No renewal is armed or in flight.
pub record IsQuiet (s : Client) : Type 0 where
  pub no_timer : s.renew_timer ≡ false
  pub no_request : s.pending_renew_request_id ≡ none
  pub no_deadline : s.pending_renew_deadline ≡ none

-- Nothing is left of a connection.
pub record IsClosed (s : Client) : Type 0 where
  pub no_controller : s.controller ≡ ""
  pub no_event : s.event_subscription ≡ false
  pub no_sensor : s.sensor_observed_subscription ≡ false
  pub no_motion : s.motion_observed_subscription ≡ false
  pub no_reader : s.cere_sensor_reader ≡ false

-- A renewal in flight is given up less than 3 s after the lease has run out.
abbrev pub Within : ℕ → Option ℕ → Type 0
Within limit none = Unit
Within limit (some deadline) = deadline < limit + ms renew_timeout_ms

abbrev pub lease_end : Client → ℕ
lease_end s = s.last_control_activity_at + ms (positive_or default_lease_ms s.lease_ms)

pub record IsConsistent (s : Client) : Type 0 where
  pub paired : is_some s.pending_renew_request_id ≡ is_some s.pending_renew_deadline
  pub quiet : is_controlled s.state ≡ false → IsQuiet s
  pub armed : s.state ≡ controlled → (s.renew_timer ≡ true) ⊎ (s.controller ≡ "")
  pub closed : s.state ≡ disconnected → IsClosed s
  pub past : s.last_control_activity_at ≤ s.time
  pub timely : Within (lease_end s) s.pending_renew_deadline
  pub reader_wanted :
      s.cere_sensor_reader ≡ true → (s.cere_sensor_enabled ≡ true) ⊎ (s.cere_motion_enabled ≡ true)

pub stop_renew_timer-IsQuiet : (s : Client) → IsConsistent s → IsQuiet (stop_renew_timer s)
unfolding stop_renew_timer
stop_renew_timer-IsQuiet s h = ground arith

pub stop_renew_timer-IsConsistent :
    (s : Client)
    → IsConsistent s
    → (is_controlled s.state ≡ false) ⊎ (s.controller ≡ "")
    → IsConsistent (stop_renew_timer s)
unfolding stop_renew_timer
stop_renew_timer-IsConsistent s h c = ground arith

pub lose_control-IsConsistent :
    (error : HighLevelError) (s : Client)
    → IsConsistent s
    → s.state ≡ controlled
    → IsConsistent (lose_control error s)
unfolding lose_control stop_renew_timer
lose_control-IsConsistent error s h c = ground arith

module _ {V : Type 0} (json : Json V) (env : Env) where
  check_pending-IsConsistent :
      (now id : ℕ) (d : Option ℕ) (s : Client)
      → IsConsistent s
      → s.state ≡ controlled
      → IsConsistent (check_pending now id d s)
  unfolding check_pending
  check_pending-IsConsistent now id none s h c = h
  check_pending-IsConsistent now id (some d) s h c = ground (
    arith,
    lose_control-IsConsistent session_expired (record (emit (removed id) s) {
      pending_renew_request_id = none;
      pending_renew_deadline = none;
    }),
  )

  record_renewal-IsConsistent :
      (now : ℕ) (id : Option ℕ) (s : Client)
      → IsConsistent s
      → s.state ≡ controlled
      → now < lease_end s
      → IsConsistent (record_renewal json env now id s)
  unfolding record_renewal read_clock
  record_renewal-IsConsistent now (some id) s h c early = ground arith
  record_renewal-IsConsistent now none s h c early =
      ground (arith, lose_control-IsConsistent session_expired (read_clock env s).1)

  check_lease-IsConsistent :
      (now : ℕ) (s : Client)
      → IsConsistent s
      → s.state ≡ controlled
      → IsConsistent (check_lease json env now s)
  unfolding check_lease send_renewal lease_deadline
  check_lease-IsConsistent now s h c =
      let t = record s { renew_sequence = (s.renew_sequence + 1) % 2 ^ 64 } in
      let k : IsConsistent t = ground arith in
      elim (Bool-cases (leb (lease_deadline s) now)) [
        | inl late ↦ rw late (lose_control-IsConsistent session_expired s h c)
        | inr early ↦
            rw early (elim (Bool-cases (ltb now (s.last_control_activity_at + renew_interval s))) [
              | inl fresh ↦ rw fresh h
              | inr due ↦
                  rw due
                    (record_renewal-IsConsistent now (env.async_send s.steps) t k c (ground arith))
            ])
      ]

  check_tick-IsConsistent :
      (now : ℕ) (id : Option ℕ) (s : Client)
      → IsConsistent s
      → s.state ≡ controlled
      → IsConsistent (check_tick json env now id s)
  unfolding check_tick
  check_tick-IsConsistent now (some id) s h c =
      check_pending-IsConsistent now id s.pending_renew_deadline s h c
  check_tick-IsConsistent now none s h c = check_lease-IsConsistent now s h c

  pub tick_renew-IsConsistent : (s : Client) → IsConsistent s → IsConsistent (tick_renew json env s)
  unfolding tick_renew read_clock
  tick_renew-IsConsistent s h = ground (
    arith,
    eq_iff s.controller "",
    stop_renew_timer-IsConsistent s h,
    check_tick-IsConsistent (read_clock env s).0 s.pending_renew_request_id (read_clock env s).1,
  )

  keep_lease-IsConsistent :
      (lease : Option ℤ) (s : Client)
      → IsConsistent s
      → s.state ≡ controlled
      → s.pending_renew_deadline ≡ none
      → IsConsistent (keep_lease json env lease s)
  unfolding keep_lease
  keep_lease-IsConsistent (some lease) s h c e = ground arith
  keep_lease-IsConsistent none s h c e = lose_control-IsConsistent session_expired s h c

  judge_renewal-IsConsistent :
      (b : Option Bool) (payload : V) (s : Client)
      → IsConsistent s
      → s.state ≡ controlled
      → s.pending_renew_deadline ≡ none
      → IsConsistent (judge_renewal json env b payload s)
  unfolding judge_renewal
  judge_renewal-IsConsistent (some true) payload s h c e = keep_lease-IsConsistent _ s h c e
  judge_renewal-IsConsistent (some false) payload s h c e =
      lose_control-IsConsistent session_expired s h c
  judge_renewal-IsConsistent none payload s h c e = lose_control-IsConsistent session_expired s h c

  read_renewal-IsConsistent :
      (p : Parsed V) (s : Client)
      → IsConsistent s
      → s.state ≡ controlled
      → s.pending_renew_deadline ≡ none
      → IsConsistent (read_renewal json env p s)
  unfolding read_renewal
  read_renewal-IsConsistent (value payload) s h c e =
      elim (Bool-cases (json.is_object payload && json.is_member payload "result")) [
        | inl ok ↦ rw ok (judge_renewal-IsConsistent _ payload s h c e)
        | inr bad ↦ rw bad (lose_control-IsConsistent session_expired s h c)
      ]
  read_renewal-IsConsistent malformed s h c e = lose_control-IsConsistent session_expired s h c
  read_renewal-IsConsistent fault s h c e = lose_control-IsConsistent session_expired s h c

  settle_renewal-IsConsistent :
      (future : Exit (Option Response)) (s : Client)
      → IsConsistent s
      → s.state ≡ controlled
      → s.pending_renew_deadline ≡ none
      → IsConsistent (settle_renewal json env future s)
  unfolding settle_renewal
  settle_renewal-IsConsistent (returned (some r)) s h c e = ground (
    arith,
    lose_control-IsConsistent session_expired s h c,
    read_renewal-IsConsistent (json.parse r.payload) s h c e,
  )
  settle_renewal-IsConsistent (returned none) s h c e =
      lose_control-IsConsistent session_expired s h c
  settle_renewal-IsConsistent (threw what) s h c e = lose_control-IsConsistent session_expired s h c

  pub handle_renew_response-IsConsistent :
      (sequence : ℕ) (controller : String) (future : Exit (Option Response)) (s : Client)
      → IsConsistent s
      → IsConsistent (handle_renew_response json env sequence controller future s)
  unfolding handle_renew_response
  handle_renew_response-IsConsistent sequence controller future s h = ground (
    arith,
    settle_renewal-IsConsistent future
        (record s { pending_renew_request_id = none; pending_renew_deadline = none }),
  )

  handle_control_status-IsConsistent :
      (payload : V) (s : Client)
      → IsConsistent s
      → IsConsistent (handle_control_status json payload s)
  unfolding handle_control_status
  handle_control_status-IsConsistent payload s h =
      ground (arith, lose_control-IsConsistent session_revoked s h)

  handle_payload-IsConsistent :
      (p : Parsed V) (message : EventMessage) (s : Client)
      → IsConsistent s
      → IsConsistent (handle_payload json p message s).1
  unfolding handle_payload call_event_callback forward_event
  handle_payload-IsConsistent (value payload) message s h =
      ground (arith, handle_control_status-IsConsistent payload s h)
  handle_payload-IsConsistent malformed message s h = ground arith
  handle_payload-IsConsistent fault message s h = h

  pub handle_event-IsConsistent :
      (message : EventMessage) (s : Client)
      → IsConsistent s
      → IsConsistent (handle_event json message s).1
  unfolding handle_event
  handle_event-IsConsistent message s h =
      ground (arith, handle_payload-IsConsistent (json.parse message.payload) message s h)

  pub deliver-IsConsistent :
      (i : Input) (s : Client) → IsConsistent s → IsConsistent (deliver json env i s).1
  unfolding deliver
  deliver-IsConsistent renew_tick s h = ground (arith, tick_renew-IsConsistent s h)
  deliver-IsConsistent (renew_response sequence controller future) s h =
      handle_renew_response-IsConsistent sequence controller future s h
  deliver-IsConsistent (event message) s h = ground (arith, handle_event-IsConsistent message s h)

  -- The executor may run any callbacks during a call.
  pub IsConsistent-stable : IsStable json env IsConsistent
  unfolding set_error pass mark_control_activity
  IsConsistent-stable = record {
    on_deliver = deliver-IsConsistent;
    on_sent = λ r timeout s h. ground arith;
    on_removed = λ s h. ground arith;
    on_pass = λ s h. ground arith;
    on_activity = λ s h. ground arith;
    on_error = λ error s h. ground arith;
  }
