-- ===== src/Bridge/Commands.antt =====
-- uniubi_motion_bridge_node.cpp: the commands that the services of the node run on its worker.
pub mod Connection
pub mod Actions
pub mod Ready
use Prim.Native.String.{◌++◌}
use uniubi_ros.Prelude.{String, Bool, true, false, not, ◌&&◌, pos, str_eq, if◌then◌else◌}
use uniubi_ros.Json.{Json}
use uniubi_ros.Client.{
  Client, Env, Exit, returned, threw, HighLevelError, no_error, rpc_connect_failed,
  rpc_acquire_rejected, rpc_call_failed, session_expired, session_revoked, not_connected,
  not_controlled, action_rejected, is_controlled, is_disconnected,
}
use uniubi_ros.Client.Session.{release_control as client_release_control}
use uniubi_ros.Client.Commands.{
  stop_action as client_stop_action, emergency_stop as client_emergency_stop,
  start_action as client_start_action,
}
use uniubi_ros.Bridge.{
  Bridge, CommandResult, Numbers, set_status_error, clear_status_error, publish_motion_status,
  cancel_motion_status_query, reset_velocity_tracking, forget_action, call_client, error_of,
  and_then,
}

-- `next_motion_status_query_at_ = {}` behind the cancellation: the status is asked for at once.
abbrev pub poll_status_now : {N : Type 0} → Bridge N → Bridge N
poll_status_now b = record (cancel_motion_status_query b) { next_motion_status_query_at = 0 }

abbrev pub not_in_control : CommandResult
not_in_control = record {
  success = false;
  error_code = not_controlled;
  message = "control is not acquired";
}

module _ {V N : Type 0} (json : Json V) (numbers : Numbers N) (env : Env) where
  -- What `stop_action` and `emergency_stop` do with the answer of the client.
  unfoldable pub settle_stop : String → String → Bool → Bridge N → Exit CommandResult × Bridge N
  unfolding reset_velocity_tracking clear_status_error cancel_motion_status_query set_status_error
      publish_motion_status error_of
  settle_stop done failed true b = (
    returned (record { success = true; error_code = no_error; message = done }),
    publish_motion_status (poll_status_now (clear_status_error (reset_velocity_tracking b))),
  )
  settle_stop done failed false b =
      let (error, t) = error_of numbers false b in
      (
        returned (record { success = false; error_code = error; message = failed }),
        publish_motion_status (set_status_error error failed false t),
      )

  unfoldable pub stop_action : String → Bridge N → Exit CommandResult × Bridge N
  stop_action reason b =
      if not (is_controlled b.client.state)
      then (returned not_in_control, b)
      else and_then (call_client numbers (client_stop_action json env (pos 5000)) b)
          (settle_stop ("action stopped: " ++ reason) "stop action failed")

  unfoldable pub emergency_stop : Bridge N → Exit CommandResult × Bridge N
  emergency_stop b =
      if not (is_controlled b.client.state)
      then (returned not_in_control, b)
      else and_then (call_client numbers (client_emergency_stop json env (pos 5000)) b)
          (settle_stop "emergency stop sent" "emergency stop failed")

  unfoldable pub settle_release : Bool → Bridge N → Exit CommandResult × Bridge N
  unfolding reset_velocity_tracking clear_status_error set_status_error publish_motion_status
      forget_action error_of
  settle_release true b = (
    returned (record { success = true; error_code = no_error; message = "control released" }),
    publish_motion_status (clear_status_error (reset_velocity_tracking (forget_action numbers b))),
  )
  settle_release false b =
      let (error, t) = error_of numbers false b in
      (
        returned
            (record { success = false; error_code = error; message = "control release failed" }),
        publish_motion_status (set_status_error error "control release failed" false t),
      )

  abbrev pub release_call : Client → Exit Bool × Client
  release_call s = let (ok, t) = client_release_control json env s in (returned ok, t)

  -- The call of `releaseControl`, behind the stop of the active action.
  unfoldable pub release_client : Bridge N → Exit CommandResult × Bridge N
  release_client b = and_then (call_client numbers release_call b) settle_release

  unfoldable pub release_stopped : CommandResult → Bridge N → Exit CommandResult × Bridge N
  release_stopped stopped b = if stopped.success then release_client b else (
    returned (record {
      success = false;
      error_code = stopped.error_code;
      message = "control release aborted because the active action could not be stopped";
    }),
    b,
  )

  unfoldable pub release_control : Bridge N → Exit CommandResult × Bridge N
  unfolding publish_motion_status
  release_control b =
      if is_disconnected b.client.state
      then (
        returned
            (record { success = true; error_code = no_error; message = "already disconnected" }),
        publish_motion_status b,
      )
      else if not (is_controlled b.client.state)
      then (
        returned (record {
          success = true;
          error_code = no_error;
          message = "control already released";
        }),
        publish_motion_status b,
      )
      else if not (str_eq b.current_action "")
      then and_then (stop_action "release control" b) release_stopped
      else release_client b

-- `std::to_string` of the code: the errors are numbered from 0.
abbrev pub code_text : HighLevelError → String
code_text no_error = "0"
code_text rpc_connect_failed = "1"
code_text rpc_acquire_rejected = "2"
code_text rpc_call_failed = "3"
code_text session_expired = "4"
code_text session_revoked = "5"
code_text not_connected = "6"
code_text not_controlled = "7"
code_text action_rejected = "8"

-- The response of a trigger service.
pub record TriggerResponse : Type 0 where
  pub success : Bool
  pub message : String

unfoldable pub set_response : CommandResult → TriggerResponse
set_response result = record {
  success = result.success;
  message =
      if result.success
      then result.message
      else result.message ++ (" (error=" ++ (code_text result.error_code ++ ")"));
}
