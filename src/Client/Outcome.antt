-- ===== src/Client/Outcome.antt =====
-- `startControl` and `disconnect`: the state in which they leave the client.
use uniubi_ros.Prelude.{
  ℕ, zero, suc, ◌+◌, ◌≤◌, ◌<◌, ℤ, Bool, true, false, Option, none, some, ◌≡◌, arith, inl, inr, leb,
  Bool-cases,
}
use uniubi_ros.Json.{Json}
use uniubi_ros.Client.{
  Client, Env, Exit, returned, threw, connected, controlled, disconnected, no_error,
  rpc_acquire_rejected, ms, read_clock, sleep_for, pass, timeout_from_ms, ensure_connected,
  set_error, mark_control_activity,
}
use uniubi_ros.Client.Renew.{start_renew_timer, stop_renew_timer}
use uniubi_ros.Client.Session.{
  Switch, switched, expired, exhausted, fail_acquire, master_params, retry_switch, after_attempt,
  attempt_switch, switch_master, take_params, enter_control, adopt_lease, accept_controller,
  after_take, take_control, settle_switch, after_switch, acquire_until, start_control,
  master_switch_wait_ms, drop_connection, disconnect,
}
use uniubi_ros.Client.Stable.{IsStable, rpc_call_keeps}
use uniubi_ros.Client.Clock.{deliver-time}
use uniubi_ros.Client.StateChange.{deliver-state}
use uniubi_ros.Client.Invariant.{IsClosed}

-- Connected, at a time of `k` on.
record Waits (k : ℕ) (s : Client) : Type 0 where
  linked : s.state ≡ connected
  late : k ≤ s.time

-- What the three results of `startControl` mean: `start` is its first reading of the clock.
abbrev pub Outcome : ℕ → ℕ → Option (Exit Bool) × Client → Type 0
Outcome start deadline (some (returned true), t) =
    (t.state ≡ controlled)
    × (t.last_error ≡ no_error)
    × (t.renew_timer ≡ true)
    × (t.pending_renew_request_id ≡ none)
    × (start + ms master_switch_wait_ms < deadline)
    × (start + ms master_switch_wait_ms ≤ t.last_control_activity_at)
Outcome start deadline (some (returned false), t) =
    (t.state ≡ connected) × (t.last_error ≡ rpc_acquire_rejected)
Outcome start deadline (some (threw what), t) = t.state ≡ connected
Outcome start deadline (none, t) = t.state ≡ connected

module _ {V : Type 0} (json : Json V) (env : Env) where
  open json use {null_value}

  Waits-stable : (k : ℕ) → IsStable json env (Waits k)
  unfolding set_error pass mark_control_activity
  Waits-stable k = record {
    on_deliver = λ i s h. ground (arith, deliver-state json env i s, deliver-time json env i s);
    on_sent = λ r timeout s h. ground arith;
    on_removed = λ s h. ground arith;
    on_pass = λ s h. ground arith;
    on_activity = λ s h. ground arith;
    on_error = λ error s h. ground arith;
  }

  read_clock-Waits :
      (s : Client) → s.state ≡ connected → Waits (read_clock env s).0 (read_clock env s).1
  unfolding read_clock pass
  read_clock-Waits s h = ground arith

  retry_switch-Waits :
      (k deadline : ℕ) (again : Client → Switch × Client) (s : Client)
      → ((t : Client) → Waits k t → Waits k (again t).1)
      → Waits k s
      → Waits k (retry_switch json env deadline again s).1
  unfolding retry_switch read_clock sleep_for pass
  retry_switch-Waits k deadline again s g h =
      elim (Bool-cases (leb deadline (read_clock env s).0)) [
        | inl e ↦ rw (e, retry_switch) (ground arith)
        | inr e ↦ rw (e, retry_switch) (g _ (ground arith))
      ]

  after_attempt-Waits :
      (k deadline : ℕ) (again : Client → Switch × Client) (r : Bool × V × Client)
      → ((t : Client) → Waits k t → Waits k (again t).1)
      → Waits k r.2
      → Waits k (after_attempt json env deadline again r).1
  unfolding after_attempt
  after_attempt-Waits k deadline again (true, out, s) g h = h
  after_attempt-Waits k deadline again (false, out, s) g h =
      retry_switch-Waits k deadline again s g h

  switch_master-Waits :
      (fuel k deadline : ℕ) (s : Client)
      → Waits k s
      → Waits k (switch_master json env fuel deadline s).1
  unfolding switch_master attempt_switch read_clock pass
  switch_master-Waits zero k deadline s h = h
  switch_master-Waits (suc fuel) k deadline s h =
      let t = (read_clock env s).1 in
      let w : Waits k t = ground arith in
      elim (Bool-cases (leb deadline (read_clock env s).0)) [
        | inl e ↦ rw (e, attempt_switch) w
        | inr e ↦
            rw (e, attempt_switch)
              (after_attempt-Waits k deadline (switch_master json env fuel deadline) _
                (switch_master-Waits fuel k deadline)
                (rpc_call_keeps json env (Waits k) (Waits-stable k) "setMotionMasterRole"
                  t.client_id (master_params json env) null_value _ t w))
      ]

  module _ (start deadline : ℕ) where
    abbrev waited : ℕ
    waited = start + ms master_switch_wait_ms

    fail_acquire-Outcome :
        (s : Client) → s.state ≡ connected → Outcome start deadline (fail_acquire s)
    unfolding fail_acquire
    fail_acquire-Outcome s h = ground arith

    accept_controller-Outcome :
        (ret : V) (s : Client)
        → waited < deadline
        → Waits waited s
        → Outcome start deadline (accept_controller json env ret s)
    unfolding accept_controller adopt_lease enter_control fail_acquire start_renew_timer
        stop_renew_timer pass mark_control_activity read_clock
    accept_controller-Outcome ret s early h = ground arith

    after_take-Outcome :
        (r : Bool × V × Client)
        → waited < deadline
        → Waits waited r.2
        → Outcome start deadline (after_take json env r)
    unfolding after_take
    after_take-Outcome (true, ret, s) early h = accept_controller-Outcome ret s early h
    after_take-Outcome (false, ret, s) early h = fail_acquire-Outcome s h.linked

    take_control-Outcome :
        (s : Client)
        → waited < deadline
        → Waits waited s
        → Outcome start deadline (take_control json env deadline s)
    unfolding take_control read_clock pass
    take_control-Outcome s early h =
        let t = (read_clock env s).1 in
        let w : Waits waited t = ground arith in
        elim (Bool-cases (leb deadline (read_clock env s).0)) [
          | inl e ↦ rw e (fail_acquire-Outcome t w.linked)
          | inr e ↦ rw e (
              after_take-Outcome _ early (
                rpc_call_keeps json env (Waits waited) (Waits-stable waited) "takeMotionControl"
                  t.client_id (take_params json env t) null_value _ t w))
        ]

    settle_switch-Outcome :
        (s : Client) → Waits start s → Outcome start deadline (settle_switch json env deadline s)
    unfolding settle_switch read_clock sleep_for pass
    settle_switch-Outcome s h =
        let t = (read_clock env s).1 in
        elim (Bool-cases (leb deadline ((read_clock env s).0 + ms master_switch_wait_ms))) [
          | inl e ↦ rw e (fail_acquire-Outcome t h.linked)
          | inr e ↦ rw e (take_control-Outcome _ (ground arith) (ground arith))
        ]

    after_switch-Outcome :
        (r : Switch × Client)
        → Waits start r.1
        → Outcome start deadline (after_switch json env deadline r)
    unfolding after_switch
    after_switch-Outcome (switched, s) h = settle_switch-Outcome s h
    after_switch-Outcome (expired, s) h = fail_acquire-Outcome s h.linked
    after_switch-Outcome (exhausted, s) h = h.linked

  -- A connected client goes on to the loop.
  start_control-loop :
      (timeout_ms : ℤ) (s : Client)
      → s.state ≡ connected
      → start_control json env timeout_ms s
        ≡ acquire_until json env
            (suc (timeout_from_ms timeout_ms))
            ((read_clock env s).0 + timeout_from_ms timeout_ms)
            (read_clock env s).1
  unfolding start_control ensure_connected
  start_control-loop timeout_ms s h = ground arith

  -- Of a connected client without control: when `startControl` returns true, the client has control,
  -- with no error, the renewal timer armed, no renewal in flight and its last activity 3 s or more
  -- after the call, which the timeout must exceed; when it returns false, the client is still
  -- connected and the error is `rpc_acquire_rejected`; when it throws, the client is still connected.
  pub start_control-Outcome :
      (timeout_ms : ℤ) (s : Client)
      → s.state ≡ connected
      → let start = (read_clock env s).0 in
        Outcome start (start + timeout_from_ms timeout_ms) (start_control json env timeout_ms s)
  unfolding acquire_until
  start_control-Outcome timeout_ms s h =
      let u = (read_clock env s).1 in
      let start = (read_clock env s).0 in
      let deadline = start + timeout_from_ms timeout_ms in
      let fuel = suc (timeout_from_ms timeout_ms) in
      rw (start_control-loop timeout_ms s h) (
        after_switch-Outcome start deadline (switch_master json env fuel deadline u)
          (switch_master-Waits fuel start deadline u (read_clock-Waits s h)))

  -- Whatever the service answers to the release, `disconnect` leaves the client disconnected, with no
  -- controller, no subscription, no timer and no renewal in flight.
  pub disconnect_closes :
      (s : Client)
      → let t = disconnect json env s in
        (t.state ≡ disconnected)
        × IsClosed t
        × (t.renew_timer ≡ false)
        × (t.pending_renew_request_id ≡ none)
  unfolding disconnect drop_connection stop_renew_timer
  disconnect_closes s = ground arith
