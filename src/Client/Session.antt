-- ===== src/Client/Session.antt =====
-- motion_high_level_client.cpp: `connect`, `disconnect`, `startControl`, `releaseControl`.
use uniubi_ros.Prelude.{
  ℕ, zero, suc, ◌+◌, ◌-◌, ◌/◌, ℤ, pos, Bool, true, false, not, ◌&&◌, Option, none, some, min, max,
  leb, is_positive, if◌then◌else◌,
}
use uniubi_ros.Json.{Json}
use uniubi_ros.Client.{
  Client, Env, Exit, returned, threw, connected, controlled, disconnected, no_error,
  rpc_connect_failed, rpc_acquire_rejected, not_controlled, is_controlled, is_disconnected, ms,
  default_lease_ms, set_error, notify, timeout_from_ms, pass, read_clock, sleep_for,
  mark_control_activity, ensure_connected,
}
use uniubi_ros.Client.Renew.{stop_renew_timer, start_renew_timer}
use uniubi_ros.Client.Calls.{rpc_call}
use uniubi_ros.Client.Observation.{
  create_event_subscription, destroy_event_subscription, destroy_sensor_observed_subscription,
  destroy_motion_observed_subscription,
}

abbrev pub master_switch_rpc_timeout_ms : ℕ
master_switch_rpc_timeout_ms = 5000

abbrev pub master_switch_retry_ms : ℕ
master_switch_retry_ms = 1000

abbrev pub master_switch_wait_ms : ℕ
master_switch_wait_ms = 3000

-- How the loop of `startControl` ends; `exhausted` says that the fuel was too little.
pub data Switch : Type 0 where
  switched expired exhausted : Switch

-- The milliseconds of `deadline - now`, at least one.
abbrev pub remaining_ms : ℕ → ℕ → ℕ
remaining_ms deadline now = max 1 ((deadline - now) / 1000000)

-- `fail_acquire`.
unfoldable pub fail_acquire : Client → Option (Exit Bool) × Client
unfolding notify set_error
fail_acquire s = (
  some (returned false),
  notify connected rpc_acquire_rejected (set_error rpc_acquire_rejected s),
)

-- What `disconnect` does once control is given up.
unfoldable pub drop_connection : Client → Client
unfolding destroy_event_subscription destroy_sensor_observed_subscription
    destroy_motion_observed_subscription
drop_connection s =
    let t = destroy_event_subscription (stop_renew_timer s) in
    let u = destroy_motion_observed_subscription (destroy_sensor_observed_subscription t) in
    record u { controller = ""; state = disconnected }

module _ (env : Env) where
  unfoldable pub connect : ℤ → Client → Bool × Client
  unfolding pass sleep_for set_error create_event_subscription
  connect lease_ms s =
      if not (is_disconnected s.state)
      then (true, s)
      else if not (env.service_ready s.steps)
      then (false, set_error rpc_connect_failed (pass env 0 s))
      else (let t = sleep_for env (ms 200) (pass env 0 s) in
          let u = record t {
            lease_ms = if is_positive lease_ms then lease_ms else pos default_lease_ms;
            controller = "";
          } in
          (true, record (set_error no_error (create_event_subscription u)) { state = connected }))

module _ {V : Type 0} (json : Json V) (env : Env) where
  open json use {
    null_value, object_value, of_bool, of_int, of_string, put, is_object, is_string, is_numeric,
    is_member, member, as_string, as_int,
  }

  -- The branch of `releaseControl` behind the answer of the service.
  unfoldable pub finish_release : Bool × V × Client → Bool × Client
  unfolding notify set_error
  finish_release (false, out, s) = (false, s)
  finish_release (true, out, s) = (
    true,
    notify connected no_error
        (set_error no_error (record (stop_renew_timer s) { controller = ""; state = connected })),
  )

  unfoldable pub release_control : Client → Bool × Client
  unfolding set_error
  release_control s =
      if not (is_controlled s.state)
      then (false, set_error not_controlled s)
      else finish_release
          (rpc_call json env "releaseMotionControl" s.controller null_value null_value (pos 5000) s)

  unfoldable pub disconnect : Client → Client
  disconnect s = drop_connection (if is_controlled s.state then (release_control s).1 else s)

  unfoldable pub master_params : V
  master_params = put object_value "master" (of_string "cerebellum")

  -- The rest of a round of the loop: `again` is the next round.
  unfoldable pub retry_switch : ℕ → (Client → Switch × Client) → Client → Switch × Client
  unfolding read_clock sleep_for
  retry_switch deadline again s =
      let (retry_at, t) = read_clock env s in
      elim (leb deadline retry_at) [
        | true ↦ (expired, t)
        | false ↦ again (
            sleep_for env (min (ms master_switch_retry_ms) (ms ((deadline - retry_at) / 1000000)))
              t)
      ]

  unfoldable pub after_attempt :
      ℕ → (Client → Switch × Client) → Bool × V × Client → Switch × Client
  after_attempt deadline again (true, out, s) = (switched, s)
  after_attempt deadline again (false, out, s) = retry_switch deadline again s

  unfoldable pub attempt_switch : ℕ → (Client → Switch × Client) → Client → Switch × Client
  unfolding read_clock master_params
  attempt_switch deadline again s =
      let (now, t) = read_clock env s in
      elim (leb deadline now) [
        | true ↦ (expired, t)
        | false ↦ after_attempt deadline again (
            rpc_call json env "setMotionMasterRole" t.client_id master_params null_value
              (pos (min (remaining_ms deadline now) master_switch_rpc_timeout_ms)) t)
      ]

  -- The loop of `startControl` that hands the motors back to the built-in controller.
  unfoldable pub switch_master : ℕ → ℕ → Client → Switch × Client
  switch_master zero deadline s = (exhausted, s)
  switch_master (suc fuel) deadline s = attempt_switch deadline (switch_master fuel deadline) s

  unfoldable pub take_params : Client → V
  take_params s =
      let params = put object_value "cmdMode" (of_bool true) in
      if is_positive s.lease_ms then put params "leaseTimeout" (of_int s.lease_ms) else params

  unfoldable pub enter_control : Client → Option (Exit Bool) × Client
  unfolding notify set_error mark_control_activity
  enter_control s = (
    some (returned true),
    notify controlled no_error (
        start_renew_timer
          (set_error no_error (record (mark_control_activity env s) { state = controlled }))),
  )

  -- `ret["leaseTimeout"].asInt()` is outside every `try`.
  unfoldable pub adopt_lease : Option ℤ → Client → Option (Exit Bool) × Client
  adopt_lease none s = (some (threw "Value is not convertible to Int."), s)
  adopt_lease (some lease) s = enter_control (record s { lease_ms = lease })

  unfoldable pub accept_controller : V → Client → Option (Exit Bool) × Client
  accept_controller ret s =
      if not (is_object ret && is_member ret "controller" && is_string (member ret "controller"))
      then fail_acquire s
      else (let t = record s { controller = as_string (member ret "controller") } in
          if is_member ret "leaseTimeout" && is_numeric (member ret "leaseTimeout")
          then adopt_lease (as_int (member ret "leaseTimeout")) t
          else enter_control t)

  unfoldable pub after_take : Bool × V × Client → Option (Exit Bool) × Client
  after_take (true, ret, s) = accept_controller ret s
  after_take (false, ret, s) = fail_acquire s

  unfoldable pub take_control : ℕ → Client → Option (Exit Bool) × Client
  unfolding read_clock take_params
  take_control deadline s =
      let (take_at, t) = read_clock env s in
      if leb deadline take_at
      then fail_acquire t
      else after_take (
          rpc_call json env "takeMotionControl" t.client_id (take_params t) null_value
            (pos (remaining_ms deadline take_at)) t)

  -- The wait for the switch, unless it would pass the deadline.
  unfoldable pub settle_switch : ℕ → Client → Option (Exit Bool) × Client
  unfolding read_clock sleep_for
  settle_switch deadline s =
      let (switched_at, t) = read_clock env s in
      if leb deadline (switched_at + ms master_switch_wait_ms)
      then fail_acquire t
      else take_control deadline (sleep_for env (ms master_switch_wait_ms) t)

  unfoldable pub after_switch : ℕ → Switch × Client → Option (Exit Bool) × Client
  after_switch deadline (switched, s) = settle_switch deadline s
  after_switch deadline (expired, s) = fail_acquire s
  after_switch deadline (exhausted, s) = (none, s)

  -- The fuel is one more than the nanoseconds up to the deadline.
  unfoldable pub acquire_until : ℕ → ℕ → Client → Option (Exit Bool) × Client
  acquire_until fuel deadline s = after_switch deadline (switch_master fuel deadline s)

  -- `startControl`; `none` where the fuel of its loop runs out.
  unfoldable pub start_control : ℤ → Client → Option (Exit Bool) × Client
  unfolding ensure_connected read_clock timeout_from_ms
  start_control timeout_ms s =
      let (ok, t) = ensure_connected s in
      if not ok
      then (some (returned false), t)
      else if is_controlled t.state
      then (some (returned true), t)
      else (let (now, u) = read_clock env t in
          acquire_until (suc (timeout_from_ms timeout_ms)) (now + timeout_from_ms timeout_ms) u)
