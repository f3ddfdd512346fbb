-- ===== src/Bridge/Commands/Actions.antt =====
-- uniubi_motion_bridge_node.cpp: `acquire_control`, `start_action` with its rollback,
-- `query_capabilities`, and the services with JSON parameters.
use Prim.Native.String.{◌++◌}
use uniubi_ros.Prelude.{
  String, Bool, true, false, not, Option, none, some, pos, str_eq, if◌then◌else◌,
}
use uniubi_ros.Json.{Json}
use uniubi_ros.Client.{Client, Env, Exit, returned, threw, action_rejected, is_controlled}
use uniubi_ros.Client.Session.{start_control}
use uniubi_ros.Client.Queries.{query_capabilities as client_query_capabilities}
use uniubi_ros.Client.Commands.{start_action as client_start_action}
use uniubi_ros.Bridge.{
  Bridge, CommandResult, Numbers, set_status_error, clear_status_error, publish_motion_status,
  cancel_motion_status_query, reset_velocity_tracking, call_client, after_call, error_of, and_then,
}
use uniubi_ros.Bridge.Commands.{poll_status_now, release_call}
use uniubi_ros.Bridge.Commands.Connection.{ConnectionConfig, succeeded, failed, connect_client}

-- What throws, or runs out of fuel, ends a command.
abbrev pub go_on :
    {A B N : Type 0}
    → Option (Exit A × Bridge N)
    → (A → Bridge N → Option (Exit B × Bridge N))
    → Option (Exit B × Bridge N)
go_on none k = none
go_on (some (returned a, b)) k = k a b
go_on (some (threw what, b)) k = some (threw what, b)

module _ {V N : Type 0} (json : Json V) (numbers : Numbers N) (env : Env)
    (config : ConnectionConfig) where
  open json use {parse, is_object}

  unfoldable pub settle_acquire : Bool → Bridge N → Exit (CommandResult × Bool) × Bridge N
  unfolding error_of set_status_error clear_status_error publish_motion_status
  settle_acquire true b =
      (returned (succeeded "control acquired", true), publish_motion_status (clear_status_error b))
  settle_acquire false b =
      let (error, t) = error_of numbers false b in
      (
        returned (failed error "control acquire failed", false),
        publish_motion_status (set_status_error error "control acquire failed" false t),
      )

  -- `startControl` with its default timeout of 10 s.
  unfoldable pub take_control :
      Option (Exit Bool) × Client → Bridge N → Option (Exit (CommandResult × Bool) × Bridge N)
  take_control (none, s) b = none
  take_control (some (threw what), s) b = some (threw what, after_call numbers s b)
  take_control (some (returned ok), s) b = some (settle_acquire ok (after_call numbers s b))

  unfoldable pub acquire_connected :
      CommandResult → Bridge N → Option (Exit (CommandResult × Bool) × Bridge N)
  acquire_connected link b =
      if not link.success
      then some (returned (link, false), b)
      else if is_controlled b.client.state
      then some (returned (succeeded "already controlled", false), b)
      else take_control (start_control json env (pos 10000) b.client) b

  -- The result, and the reference parameter `acquired_now`.
  unfoldable pub acquire_control : Bridge N → Option (Exit (CommandResult × Bool) × Bridge N)
  acquire_control b = go_on (connect_client json numbers env config b) acquire_connected

  -- The message where an action failed; the argument says whether control was newly acquired, and
  -- whether it could be released.
  abbrev pub failed_message : String → Option Bool → String
  failed_message action none = action ++ " failed"
  failed_message action (some true) =
      (action ++ " failed") ++ "; newly acquired control was released"
  failed_message action (some false) =
      (action ++ " failed") ++ "; newly acquired control could not be released"

  -- The rollback: control that was acquired for the action is released. An error of the release is
  -- read, and so cleared.
  unfoldable pub settle_rollback : Bool → Bridge N → Bool × Bridge N
  unfolding error_of publish_motion_status
  settle_rollback true b = (true, publish_motion_status b)
  settle_rollback false b = (false, publish_motion_status (error_of numbers false b).1)

  unfoldable pub roll_back : Bridge N → Exit Bool × Bridge N
  unfolding settle_rollback
  roll_back b =
      and_then (call_client numbers (release_call json numbers env) b)
        (λ ok t. let (released, u) = settle_rollback ok t in (returned released, u))

  unfoldable pub settle_action : String → Bool → Bool → Bridge N → Exit CommandResult × Bridge N
  unfolding error_of set_status_error clear_status_error cancel_motion_status_query
      reset_velocity_tracking publish_motion_status
  settle_action action acquired_now true b = (
    returned (succeeded (action ++ " started")),
    publish_motion_status (
        poll_status_now
          (clear_status_error (reset_velocity_tracking (record b { current_action = action })))),
  )
  settle_action action false false b =
      let (error, t) = error_of numbers false b in
      (
        returned (failed error (failed_message action none)),
        publish_motion_status (set_status_error error (action ++ " failed") false t),
      )
  settle_action action true false b =
      let (error, t) = error_of numbers false b in
      and_then (roll_back (set_status_error error (action ++ " failed") false t)) (λ released u.
        (returned (failed error (failed_message action (some released))), publish_motion_status u))

  unfoldable pub act :
      String → String → CommandResult × Bool → Bridge N → Option (Exit CommandResult × Bridge N)
  act action params_json (acquired, acquired_now) b =
      if not acquired.success
      then some (returned acquired, b)
      else some (
          and_then
            (call_client numbers (client_start_action json env action params_json (pos 5000)) b)
            (settle_action action acquired_now))

  unfoldable pub start_connected :
      String → String → CommandResult → Bridge N → Option (Exit CommandResult × Bridge N)
  start_connected action params_json link b =
      if not link.success
      then some (returned link, b)
      else go_on (acquire_control b) (act action params_json)

  unfoldable pub start_action : String → String → Bridge N → Option (Exit CommandResult × Bridge N)
  start_action action params_json b =
      if str_eq action ""
      then some (returned (failed action_rejected "action must not be empty"), b)
      else go_on (connect_client json numbers env config b) (start_connected action params_json)

  unfoldable pub settle_capabilities :
      Bool × Option String × Client → Bridge N → Exit CommandResult × Bridge N
  unfolding error_of
  settle_capabilities (true, some capabilities, s) b =
      (returned (succeeded capabilities), after_call numbers s b)
  settle_capabilities (true, none, s) b = (returned (succeeded ""), after_call numbers s b)
  settle_capabilities (false, out, s) b =
      let (error, t) = error_of numbers false (after_call numbers s b) in
      (returned (failed error "capability query failed"), t)

  unfoldable pub query_connected : CommandResult → Bridge N → Option (Exit CommandResult × Bridge N)
  query_connected link b =
      if not link.success
      then some (returned link, b)
      else some (settle_capabilities (client_query_capabilities json env (pos 5000) b.client) b)

  unfoldable pub query_capabilities : Bridge N → Option (Exit CommandResult × Bridge N)
  query_capabilities b = go_on (connect_client json numbers env config b) query_connected
