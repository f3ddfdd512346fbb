-- ===== src/Client/ObservedKept.antt =====
-- `setMotionObservedEnable` keeps the invariant.
use uniubi_ros.Prelude.{ℤ, Bool, true, false, ◌≡◌, refl, arith}
use uniubi_ros.Json.{Json}
use uniubi_ros.Client.{Client, Env, Exit, returned, threw, ms, sleep_for, caller}
use uniubi_ros.Client.Observation.{
  destroy_sensor_observed_subscription, destroy_motion_observed_subscription,
  create_motion_observed_subscription, create_sensor_observed_subscription, open_reader,
  create_cere_observed_reader, exit_true, enable_cere, subscribe_observed, retry_enable,
  enable_host, set_motion_observed_enable, observed_params,
}
use uniubi_ros.Client.Stable.{rpc_call_keeps}
use uniubi_ros.Client.Invariant.{IsConsistent}
use uniubi_ros.Client.StateChange.{IsOpen, IsOpen-stable}

create_motion-IsOpen : (s : Client) → IsOpen s → IsOpen (create_motion_observed_subscription s)
unfolding create_motion_observed_subscription
create_motion-IsOpen s h = ground arith

create_sensor-IsOpen : (s : Client) → IsOpen s → IsOpen (create_sensor_observed_subscription s)
unfolding create_sensor_observed_subscription
create_sensor-IsOpen s h = ground arith

module _ {V : Type 0} (json : Json V) (env : Env) where
  open json use {null_value}

  create_cere_observed_reader-IsConsistent :
      (s : Client) → IsOpen s → IsConsistent (create_cere_observed_reader env s).1
  unfolding create_cere_observed_reader open_reader
  create_cere_observed_reader-IsConsistent s h = ground arith

  exit_true-client : (r : Exit (Unit {0}) × Client) → (exit_true r).1 ≡ r.1
  exit_true-client (returned _, s) = refl
  exit_true-client (threw what, s) = refl

  enable_cere-IsConsistent :
      (motion_enable sensor_enable : Bool) (s : Client)
      → IsOpen s
      → s.cere_sensor_reader ≡ false
      → IsConsistent (enable_cere json env motion_enable sensor_enable s).1
  unfolding enable_cere
  enable_cere-IsConsistent motion_enable sensor_enable s h e =
      let t = record s {
        cere_motion_enabled = motion_enable;
        cere_sensor_enabled = sensor_enable;
      } in
      ground (
        arith,
        create_cere_observed_reader-IsConsistent t,
        exit_true-client (create_cere_observed_reader env t),
      )

  subscribe_observed-IsConsistent :
      (motion_enable sensor_enable : Bool) (r : Bool × V × Client)
      → IsOpen r.2
      → IsConsistent (subscribe_observed json env motion_enable sensor_enable r).1
  unfolding subscribe_observed
  subscribe_observed-IsConsistent motion_enable sensor_enable (false, ret, s) h = h.consistent
  subscribe_observed-IsConsistent false false (true, ret, s) h = h.consistent
  subscribe_observed-IsConsistent false true (true, ret, s) h =
      (create_sensor-IsOpen s h).consistent
  subscribe_observed-IsConsistent true false (true, ret, s) h =
      (create_motion-IsOpen s h).consistent
  subscribe_observed-IsConsistent true true (true, ret, s) h =
      (create_sensor-IsOpen _ (create_motion-IsOpen s h)).consistent

  retry_enable-IsOpen :
      (params : V) (timeout_ms : ℤ) (r : Bool × V × Client)
      → IsOpen r.2
      → IsOpen (retry_enable json env params timeout_ms r).2
  unfolding retry_enable
  retry_enable-IsOpen params timeout_ms (true, ret, s) h = h
  retry_enable-IsOpen params timeout_ms (false, ret, s) h =
      let t = sleep_for env (ms 100) s in
      rpc_call_keeps json env IsOpen (IsOpen-stable json env) "setMotionObservedEnable" (caller t)
        params ret timeout_ms t (ground arith)

  enable_host-IsConsistent :
      (motion_enable sensor_enable : Bool) (timeout_ms : ℤ) (s : Client)
      → IsOpen s
      → IsConsistent (enable_host json env motion_enable sensor_enable timeout_ms s).1
  unfolding enable_host
  enable_host-IsConsistent motion_enable sensor_enable timeout_ms s h =
      let params = observed_params json env motion_enable sensor_enable s in
      subscribe_observed-IsConsistent motion_enable sensor_enable _ (
        retry_enable-IsOpen params timeout_ms _ (
          rpc_call_keeps json env IsOpen (IsOpen-stable json env) "setMotionObservedEnable"
            (caller s) params null_value timeout_ms s h))

  pub set_motion_observed_enable-IsConsistent :
      (motion_enable sensor_enable : Bool) (timeout_ms : ℤ) (s : Client)
      → IsConsistent s
      → IsConsistent
          (set_motion_observed_enable json env motion_enable sensor_enable timeout_ms s).1
  unfolding set_motion_observed_enable
  set_motion_observed_enable-IsConsistent motion_enable sensor_enable timeout_ms s h =
      let u = destroy_sensor_observed_subscription (destroy_motion_observed_subscription s) in
      ground (
        arith,
        enable_cere-IsConsistent motion_enable sensor_enable u,
        enable_host-IsConsistent motion_enable sensor_enable timeout_ms u,
      )
