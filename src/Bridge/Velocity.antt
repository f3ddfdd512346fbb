-- ===== src/Bridge/Velocity.antt =====
-- uniubi_motion_bridge_node.cpp: `cmd_vel`, its dispatch and its watchdog.
use uniubi_ros.Prelude.{
  ℕ, ◌+◌, ◌-◌, pos, Bool, true, false, not, ◌||◌, Option, none, some, ltb, ◌==◌, if◌then◌else◌,
}
use uniubi_ros.Json.{Json}
use uniubi_ros.Client.{Env, Exit, returned, is_controlled, ms, read_clock}
use uniubi_ros.Client.Commands.{set_action_params}
use uniubi_ros.Bridge.{
  VelocityCommand, Bridge, Numbers, set_status_error, clear_status_error, publish_motion_status,
  call_client, error_of, and_then,
}

module _ {N : Type 0} (env : Env) where
  -- `steady_clock::now()` of the node.
  unfoldable pub bridge_clock : Bridge N → ℕ × Bridge N
  bridge_clock b = let (now, t) = read_clock env b.client in (now, record b { client = t })

  -- The subscription of `cmd_vel`.
  unfoldable pub on_cmd_vel : Numbers N → N → N → N → Bridge N → Bridge N
  unfolding bridge_clock
  on_cmd_vel numbers x y yaw b =
      if not (numbers.is_finite x) || not (numbers.is_finite y) || not (numbers.is_finite yaw)
      then b
      else (let (now, t) = bridge_clock b in
          record t {
            pending_velocity =
                some (record { linear_x = x; linear_y = y; angular_z = yaw; received_at = now });
            last_velocity_received_at = now;
          })

-- The node's own parameters: `cmd_vel_timeout_ms_`, which its constructor makes positive, and the
-- period of the dispatch in nanoseconds.
pub record VelocityConfig : Type 0 where
  pub cmd_vel_timeout_ms : ℕ
  pub velocity_dispatch_period : ℕ

module _ {V N : Type 0} (json : Json V) (numbers : Numbers N) (of_number : N → V) (env : Env)
    (config : VelocityConfig) where
  open json use {object_value, put, write}

  unfoldable pub velocity_params : VelocityCommand N → V
  velocity_params command =
      put
        (put (put object_value "lineVelocityX" (of_number command.linear_x)) "lineVelocityY"
          (of_number command.linear_y))
        "velocity" (of_number command.angular_z)

  unfoldable pub any_nonzero : VelocityCommand N → Bool
  any_nonzero command =
      numbers.is_nonzero command.linear_x
      || numbers.is_nonzero command.linear_y
      || numbers.is_nonzero command.angular_z

  -- What `apply_velocity` does with the answer of the client.
  unfoldable pub settle_velocity : VelocityCommand N → Bool → Bridge N → Exit (Unit {0}) × Bridge N
  unfolding any_nonzero set_status_error clear_status_error publish_motion_status error_of
  settle_velocity command true b = (
    returned tt,
    publish_motion_status
        (clear_status_error (record b { velocity_command_active = any_nonzero command })),
  )
  settle_velocity command false b =
      let (error, t) = error_of numbers false b in
      (returned tt, publish_motion_status (set_status_error error "cmd_vel rejected" false t))

  -- `setActionParams` with its default timeout of 5000 ms.
  unfoldable pub apply_velocity : VelocityCommand N → Bridge N → Exit (Unit {0}) × Bridge N
  unfolding velocity_params
  apply_velocity command b =
      and_then
        (call_client numbers
          (set_action_params json env (write (velocity_params command)) (pos 5000)) b)
        (settle_velocity command)

  unfoldable pub dispatch : Option (VelocityCommand N) → ℕ → Bridge N → Exit (Unit {0}) × Bridge N
  dispatch none now b = (returned tt, b)
  dispatch (some command) now b =
      if ltb now b.next_velocity_dispatch_at
      then (returned tt, b)
      else (let t = record b {
        pending_velocity = none;
        next_velocity_dispatch_at = now + config.velocity_dispatch_period;
      } in
          if ltb (ms config.cmd_vel_timeout_ms) (now - command.received_at)
          then (returned tt, t)
          else apply_velocity command (record t { velocity_watchdog_fired = false }))

  unfoldable pub dispatch_pending_velocity : Bridge N → Exit (Unit {0}) × Bridge N
  unfolding bridge_clock
  dispatch_pending_velocity b =
      let (now, t) = bridge_clock env b in dispatch t.pending_velocity now t

  abbrev pub stopped : ℕ → VelocityCommand N
  stopped now = record {
    linear_x = numbers.zero_value;
    linear_y = numbers.zero_value;
    angular_z = numbers.zero_value;
    received_at = now;
  }

  unfoldable pub fire_watchdog : Bridge N → Exit (Unit {0}) × Bridge N
  unfolding bridge_clock
  fire_watchdog b =
      let (now, t) = bridge_clock env b in
      and_then (apply_velocity (stopped now) t)
        (λ _ u. (returned tt, record u { velocity_watchdog_fired = true }))

  unfoldable pub enforce_cmd_vel_watchdog : Bridge N → Exit (Unit {0}) × Bridge N
  unfolding bridge_clock
  enforce_cmd_vel_watchdog b =
      if not b.velocity_command_active
        || b.velocity_watchdog_fired
        || not (is_controlled b.client.state)
      then (returned tt, b)
      else if b.last_velocity_received_at == 0
      then (returned tt, b)
      else (let (now, t) = bridge_clock env b in
          if ltb (ms config.cmd_vel_timeout_ms) (now - b.last_velocity_received_at)
          then fire_watchdog t
          else (returned tt, t))
