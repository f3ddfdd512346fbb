-- ===== src/Client/SessionKept.antt =====
-- `connect`, `disconnect`, `startControl`, `releaseControl` and the setters keep the invariant.
use uniubi_ros.Prelude.{
  ℕ, zero, suc, ◌+◌, ℤ, pos, Bool, true, false, arith, inl, inr, Bool-cases, leb,
}
use uniubi_ros.Json.{Json}
use uniubi_ros.Client.{
  Client, Env, is_controlled, ms, read_clock, set_connect_callback, set_event_callback,
  set_sensor_observed_callback, set_motion_observed_callback, timeout_from_ms,
}
use uniubi_ros.Client.Renew.{stop_renew_timer, start_renew_timer}
use uniubi_ros.Client.Session.{
  Switch, switched, expired, exhausted, fail_acquire, connect, finish_release, release_control,
  drop_connection, disconnect, master_params, retry_switch, after_attempt, attempt_switch,
  switch_master, take_params, enter_control, adopt_lease, accept_controller, after_take,
  take_control, settle_switch, after_switch, acquire_until, start_control, master_switch_wait_ms,
}
use uniubi_ros.Client.Stable.{rpc_call_keeps}
use uniubi_ros.Client.Invariant.{IsConsistent, IsConsistent-stable}
use uniubi_ros.Client.StateChange.{IsWaiting, IsWaiting-stable}

module _ (env : Env) where
  pub connect-IsConsistent :
      (lease_ms : ℤ) (s : Client) → IsConsistent s → IsConsistent (connect env lease_ms s).1
  unfolding connect
  connect-IsConsistent lease_ms s h = ground arith

pub callbacks-IsConsistent :
    (c e o m : Bool) (s : Client)
    → IsConsistent s
    → IsConsistent (
        set_motion_observed_callback m
          (set_sensor_observed_callback o (set_event_callback e (set_connect_callback c s))))
unfolding set_motion_observed_callback set_sensor_observed_callback set_event_callback
    set_connect_callback
callbacks-IsConsistent c e o m s h = ground arith

drop_connection-IsConsistent : (s : Client) → IsConsistent s → IsConsistent (drop_connection s)
unfolding drop_connection stop_renew_timer
drop_connection-IsConsistent s h = ground arith

module _ {V : Type 0} (json : Json V) (env : Env) where
  open json use {null_value}

  finish_release-IsConsistent :
      (r : Bool × V × Client) → IsConsistent r.2 → IsConsistent (finish_release json env r).1
  unfolding finish_release stop_renew_timer
  finish_release-IsConsistent (true, out, s) h = ground arith
  finish_release-IsConsistent (false, out, s) h = h

  pub release_control-IsConsistent :
      (s : Client) → IsConsistent s → IsConsistent (release_control json env s).1
  unfolding release_control
  release_control-IsConsistent s h = elim (Bool-cases (is_controlled s.state)) [
    | inl e ↦ rw e (
        finish_release-IsConsistent _ (
          rpc_call_keeps json env IsConsistent (IsConsistent-stable json env) "releaseMotionControl"
            s.controller null_value null_value (pos 5000) s h))
    | inr e ↦ rw e (ground arith)
  ]

  pub disconnect-IsConsistent : (s : Client) → IsConsistent s → IsConsistent (disconnect json env s)
  unfolding disconnect
  disconnect-IsConsistent s h = elim (Bool-cases (is_controlled s.state)) [
    | inl e ↦ rw e (drop_connection-IsConsistent _ (release_control-IsConsistent s h))
    | inr e ↦ rw e (drop_connection-IsConsistent s h)
  ]

  -- The loop of `startControl` waits in the state `connected`.
  retry_switch-IsWaiting :
      (deadline : ℕ) (again : Client → Switch × Client) (s : Client)
      → ((t : Client) → IsWaiting t → IsWaiting (again t).1)
      → IsWaiting s
      → IsWaiting (retry_switch json env deadline again s).1
  unfolding retry_switch
  retry_switch-IsWaiting deadline again s g h =
      elim (Bool-cases (leb deadline (read_clock env s).0)) [
        | inl e ↦ rw (e, retry_switch) (ground arith)
        | inr e ↦ rw (e, retry_switch) (g _ (ground arith))
      ]

  after_attempt-IsWaiting :
      (deadline : ℕ) (again : Client → Switch × Client) (r : Bool × V × Client)
      → ((t : Client) → IsWaiting t → IsWaiting (again t).1)
      → IsWaiting r.2
      → IsWaiting (after_attempt json env deadline again r).1
  unfolding after_attempt
  after_attempt-IsWaiting deadline again (true, out, s) g h = h
  after_attempt-IsWaiting deadline again (false, out, s) g h =
      retry_switch-IsWaiting deadline again s g h

  attempt_switch-IsWaiting :
      (deadline : ℕ) (again : Client → Switch × Client) (s : Client)
      → ((t : Client) → IsWaiting t → IsWaiting (again t).1)
      → IsWaiting s
      → IsWaiting (attempt_switch json env deadline again s).1
  unfolding attempt_switch
  attempt_switch-IsWaiting deadline again s g h =
      let t = (read_clock env s).1 in
      let k : IsWaiting t = ground arith in
      elim (Bool-cases (leb deadline (read_clock env s).0)) [
        | inl e ↦ rw (e, attempt_switch) k
        | inr e ↦
            rw (e, attempt_switch)
              (after_attempt-IsWaiting deadline again _ g (
                rpc_call_keeps json env IsWaiting (IsWaiting-stable json env) "setMotionMasterRole"
                  t.client_id (master_params json env) null_value _ t k))
      ]

  switch_master-IsWaiting :
      (fuel deadline : ℕ) (s : Client)
      → IsWaiting s
      → IsWaiting (switch_master json env fuel deadline s).1
  unfolding switch_master
  switch_master-IsWaiting zero deadline s h = h
  switch_master-IsWaiting (suc fuel) deadline s h =
      attempt_switch-IsWaiting deadline (switch_master json env fuel deadline) s
        (switch_master-IsWaiting fuel deadline) h

  fail_acquire-IsConsistent : (s : Client) → IsWaiting s → IsConsistent (fail_acquire s).1
  unfolding fail_acquire
  fail_acquire-IsConsistent s h = ground arith

  enter_control-IsConsistent :
      (s : Client) → IsWaiting s → IsConsistent (enter_control json env s).1
  unfolding enter_control start_renew_timer stop_renew_timer
  enter_control-IsConsistent s h = ground arith

  accept_controller-IsConsistent :
      (ret : V) (s : Client) → IsWaiting s → IsConsistent (accept_controller json env ret s).1
  unfolding accept_controller adopt_lease enter_control fail_acquire start_renew_timer
      stop_renew_timer
  accept_controller-IsConsistent ret s h = ground arith

  after_take-IsConsistent :
      (r : Bool × V × Client) → IsWaiting r.2 → IsConsistent (after_take json env r).1
  unfolding after_take
  after_take-IsConsistent (true, ret, s) h = accept_controller-IsConsistent ret s h
  after_take-IsConsistent (false, ret, s) h = fail_acquire-IsConsistent s h

  take_control-IsConsistent :
      (deadline : ℕ) (s : Client) → IsWaiting s → IsConsistent (take_control json env deadline s).1
  unfolding take_control
  take_control-IsConsistent deadline s h =
      let t = (read_clock env s).1 in
      let k : IsWaiting t = ground arith in
      elim (Bool-cases (leb deadline (read_clock env s).0)) [
        | inl e ↦ rw e (fail_acquire-IsConsistent t k)
        | inr e ↦ rw e (
            after_take-IsConsistent _ (
              rpc_call_keeps json env IsWaiting (IsWaiting-stable json env) "takeMotionControl"
                t.client_id (take_params json env t) null_value _ t k))
      ]

  settle_switch-IsConsistent :
      (deadline : ℕ) (s : Client) → IsWaiting s → IsConsistent (settle_switch json env deadline s).1
  unfolding settle_switch
  settle_switch-IsConsistent deadline s h =
      let t = (read_clock env s).1 in
      let k : IsWaiting t = ground arith in
      elim (Bool-cases (leb deadline ((read_clock env s).0 + ms master_switch_wait_ms))) [
        | inl e ↦ rw e (fail_acquire-IsConsistent t k)
        | inr e ↦ rw e (take_control-IsConsistent deadline _ (ground arith))
      ]

  after_switch-IsConsistent :
      (deadline : ℕ) (r : Switch × Client)
      → IsWaiting r.1
      → IsConsistent (after_switch json env deadline r).1
  unfolding after_switch
  after_switch-IsConsistent deadline (switched, s) h = settle_switch-IsConsistent deadline s h
  after_switch-IsConsistent deadline (expired, s) h = fail_acquire-IsConsistent s h
  after_switch-IsConsistent deadline (exhausted, s) h = h.consistent

  acquire_until-IsConsistent :
      (fuel deadline : ℕ) (s : Client)
      → IsWaiting s
      → IsConsistent (acquire_until json env fuel deadline s).1
  unfolding acquire_until
  acquire_until-IsConsistent fuel deadline s h =
      after_switch-IsConsistent deadline _ (switch_master-IsWaiting fuel deadline s h)

  pub start_control-IsConsistent :
      (timeout_ms : ℤ) (s : Client)
      → IsConsistent s
      → IsConsistent (start_control json env timeout_ms s).1
  unfolding start_control
  start_control-IsConsistent timeout_ms s h = ground (
    arith,
    acquire_until-IsConsistent (suc (timeout_from_ms timeout_ms))
        ((read_clock env s).0 + timeout_from_ms timeout_ms) (read_clock env s).1,
  )
