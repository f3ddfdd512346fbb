-- ===== src/Bridge/Commands/Connection.antt =====
-- uniubi_motion_bridge_node.cpp: connecting, acquiring control, and the commands that need them.
use uniubi_ros.Prelude.{
  ℕ, zero, suc, ◌+◌, ◌-◌, ◌/◌, ℤ, pos, String, Bool, true, false, not, ◌&&◌, Option, none, some,
  List, [], min, max, leb, if◌then◌else◌,
}
use uniubi_ros.Json.{Json}
use uniubi_ros.Client.{
  Client, Env, Exit, returned, threw, HighLevelState, HighLevelError, disconnected, connected,
  controlled, no_error, rpc_connect_failed, is_disconnected, ms, read_clock, sleep_for,
}
use uniubi_ros.Client.Session.{connect as client_connect}
use uniubi_ros.Client.Queries.{query_capabilities as client_query_capabilities, query_motor_layout}
use uniubi_ros.Client.Observation.{set_motion_observed_enable}
use uniubi_ros.Bridge.{
  Bridge, CommandResult, Numbers, is_none, set_status_error, clear_status_error,
  publish_motion_status, cancel_motion_status_query, call_client, after_call, error_of, and_then,
}
use uniubi_ros.Bridge.Layout.{
  MotorLayoutEntry, Filling, filled, refused, past_end, parse_motor_layout,
  configure_fallback_motor_layout,
}
use uniubi_ros.Bridge.Commands.{poll_status_now}

-- `kConnectReadinessTimeout`, `kConnectReadinessRetryInterval`, `kConnectReadinessRpcTimeoutMs`.
abbrev pub connect_readiness_timeout_ms : ℕ
connect_readiness_timeout_ms = 5000

abbrev pub connect_readiness_retry_interval_ms : ℕ
connect_readiness_retry_interval_ms = 200

abbrev pub connect_readiness_rpc_timeout_ms : ℕ
connect_readiness_rpc_timeout_ms = 500

-- `state_name`.
abbrev pub state_name : HighLevelState → String
state_name connected = "connected"
state_name controlled = "controlled"
state_name disconnected = "disconnected"

-- The node's own parameters.
pub record ConnectionConfig : Type 0 where
  pub lease_ms : ℤ
  pub publish_joint_states : Bool
  pub fallback_limb_sizes : List ℤ
  pub fallback_joint_names : List String

-- How the wait for the service ends; `exhausted` says that the fuel was too little.
pub data Readiness : Type 0 where
  ready late exhausted : Readiness

abbrev pub succeeded : String → CommandResult
succeeded message = record { success = true; error_code = no_error; message = message }

abbrev pub failed : HighLevelError → String → CommandResult
failed error message = record { success = false; error_code = error; message = message }

module _ {V : Type 0} (json : Json V) (env : Env) where
  -- The rest of a round: `again` is the next one.
  unfoldable pub retry_ready :
      ℕ → (Client → Readiness × Client) → Bool × Option String × Client → Readiness × Client
  unfolding read_clock sleep_for
  retry_ready deadline again (true, out, s) = (ready, s)
  retry_ready deadline again (false, out, s) =
      let (now, t) = read_clock env s in
      elim (leb deadline now) [
        | true ↦ (late, t)
        | false ↦ again (
            sleep_for env
              (min (ms connect_readiness_retry_interval_ms) (ms ((deadline - now) / 1000000))) t)
      ]

  -- The second reading of the clock of a round; the time that is left may be negative.
  unfoldable pub ask_ready : ℕ → (Client → Readiness × Client) → Client → Readiness × Client
  unfolding read_clock
  ask_ready deadline again s =
      let (later, t) = read_clock env s in
      retry_ready deadline again (
        client_query_capabilities json env
          (pos (max 1 (min connect_readiness_rpc_timeout_ms ((deadline - later) / 1000000)))) t)

  unfoldable pub round_ready : ℕ → (Client → Readiness × Client) → Client → Readiness × Client
  unfolding read_clock
  round_ready deadline again s =
      let (now, t) = read_clock env s in
      elim (leb deadline now) [ true ↦ (late, t) | false ↦ ask_ready deadline again t ]

  -- The loop of `wait_for_rpc_ready`.
  unfoldable pub wait_until : ℕ → ℕ → Client → Readiness × Client
  wait_until zero deadline s = (exhausted, s)
  wait_until (suc fuel) deadline s = round_ready deadline (wait_until fuel deadline) s

  -- The fuel is one more than the nanoseconds of the wait.
  unfoldable pub wait_for_rpc_ready : Client → Readiness × Client
  unfolding read_clock
  wait_for_rpc_ready s =
      let (now, t) = read_clock env s in
      wait_until (suc (ms connect_readiness_timeout_ms)) (now + ms connect_readiness_timeout_ms) t

module _ {V N : Type 0} (json : Json V) (numbers : Numbers N) (env : Env)
    (config : ConnectionConfig) where
  -- A call of the client that returns and cannot throw.
  abbrev pub sure : Bool × Client → Exit Bool × Client
  sure (ok, s) = (returned ok, s)

  abbrev pub with_layout : Option (List MotorLayoutEntry) → Bridge N → Bridge N
  with_layout none b = record b { motor_layout = [] }
  with_layout (some layout) b = record b { motor_layout = layout }

  -- Where the fallback reads past the end of the names, the model ends the command there: what C++
  -- does then is not defined.
  abbrev pub with_fallback : Filling (List MotorLayoutEntry) → Bridge N → Exit (Unit {0}) × Bridge N
  with_fallback (filled layout) b = (returned tt, with_layout (some layout) b)
  with_fallback refused b = (returned tt, with_layout none b)
  with_fallback past_end b = (threw "fallback_joint_names_ read past its end", b)

  -- `getLastError` and the fallback, where the layout of the robot is not usable.
  unfoldable pub use_fallback : Bridge N → Exit (Unit {0}) × Bridge N
  unfolding error_of
  use_fallback b =
      let (error, t) = error_of numbers false b in
      with_fallback
        (configure_fallback_motor_layout config.fallback_limb_sizes config.fallback_joint_names) t

  unfoldable pub take_layout :
      Exit (Option (List MotorLayoutEntry)) → Bridge N → Exit (Unit {0}) × Bridge N
  take_layout (threw what) b = (threw what, b)
  take_layout (returned none) b = use_fallback b
  take_layout (returned (some layout)) b = (returned tt, with_layout (some layout) b)

  unfoldable pub read_layout_answer :
      Bool × Option String × Client → Bridge N → Exit (Unit {0}) × Bridge N
  read_layout_answer (true, some layout_json, s) b =
      take_layout (parse_motor_layout json layout_json) (after_call numbers s b)
  read_layout_answer (true, none, s) b =
      take_layout (parse_motor_layout json "") (after_call numbers s b)
  read_layout_answer (false, out, s) b = use_fallback (after_call numbers s b)

  unfoldable pub settle_observed : Bool → Bridge N → Exit (Unit {0}) × Bridge N
  unfolding error_of
  settle_observed true b = (returned tt, record b { motion_observed_enabled = true })
  settle_observed false b =
      let (error, t) = error_of numbers false b in (returned tt, record t { motor_layout = [] })

  unfoldable pub enable_observed : Bridge N → Exit (Unit {0}) × Bridge N
  enable_observed b =
      and_then (call_client numbers (set_motion_observed_enable json env true true (pos 3000)) b)
        settle_observed

  unfoldable pub configure_joint_states : Bridge N → Exit (Unit {0}) × Bridge N
  configure_joint_states b =
      if b.motion_observed_enabled
      then (returned tt, b)
      else if config.publish_joint_states
      then and_then (read_layout_answer (query_motor_layout json env (pos 3000) b.client) b)
          (λ _ t. enable_observed t)
      else enable_observed b

  -- `none` where the fuel of the wait runs out.
  unfoldable pub settle_ready :
      Readiness × Client → Bridge N → Option (Exit CommandResult × Bridge N)
  unfolding error_of set_status_error clear_status_error cancel_motion_status_query
      publish_motion_status
  settle_ready (ready, s) b =
      let t = record (after_call numbers s b) { rpc_ready = true } in
      some (
        and_then (configure_joint_states t) (λ _ u. (
          returned (succeeded "connected"),
          publish_motion_status (poll_status_now (clear_status_error u)),
        )))
  settle_ready (late, s) b =
      let (error, t) = error_of numbers false (after_call numbers s b) in
      let code = if is_none error then rpc_connect_failed else error in
      some (
        returned (failed code "connect readiness check timed out"),
        publish_motion_status (set_status_error code "connect readiness check timed out" false t),
      )
  settle_ready (exhausted, s) b = none

  unfoldable pub await_ready : Bridge N → Option (Exit CommandResult × Bridge N)
  await_ready b = settle_ready (wait_for_rpc_ready json env b.client) b

  unfoldable pub settle_connect : Bool → Bridge N → Option (Exit CommandResult × Bridge N)
  unfolding error_of set_status_error publish_motion_status
  settle_connect true b = await_ready b
  settle_connect false b =
      let (error, t) = error_of numbers false b in
      some (
        returned (failed error "connect failed"),
        publish_motion_status (set_status_error error "connect failed" false t),
      )

  unfoldable pub connect_client : Bridge N → Option (Exit CommandResult × Bridge N)
  connect_client b =
      if not (is_disconnected b.client.state) && b.rpc_ready
      then some (returned (succeeded (state_name b.client.state)), b)
      else if is_disconnected b.client.state
      then (let (ok, s) = client_connect env config.lease_ms b.client in
          settle_connect ok (after_call numbers s (record b { rpc_ready = false })))
      else await_ready b
