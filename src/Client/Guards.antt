-- ===== src/Client/Guards.antt =====
-- What a command needs, and what it sends.
use uniubi_ros.Prelude.{
  suc, ◌≤◌, ℤ, String, Bool, true, false, ◌&&◌, Option, none, some, ◌≡◌, refl, inl, inr, arith,
  str_eq, Bool-cases, if◌then◌else◌,
}
use text.Mathlib.TextPositions.{eq_refl}
use uniubi_ros.Json.{Json}
use uniubi_ros.Rpc.{
  client_request, make_request, make_rpc_request, system_rpc_call, make_payload,
  empty_object_if_null,
}
use uniubi_ros.Client.{
  Client, Env, Exit, returned, threw, HighLevelError, Effect, sent, not_controlled, not_connected,
  action_rejected, set_error, is_controlled, is_disconnected, ensure_controlled, ensure_connected,
  caller, pass, read_clock, mark_control_activity, read_clock,
}
use uniubi_ros.Client.Calls.{rpc_request, rpc_call}
use uniubi_ros.Client.Queries.{
  guarded, query_capabilities, query_system_status, query_motion_state, query_motor_layout,
  query_audio_play_detail, get_camera_light_brightness,
}
use uniubi_ros.Client.Commands.{
  parse_params_json, if_controlled, with_params, check_params, mark_success, motion_call,
  device_call, start_action, stop_action, set_action_params, emergency_stop, audio_call,
  guard_play_list, query_audio_play_list, start_audio_play, stop_audio_play, pause_audio_play,
  add_audio_file, delete_audio_file, set_camera_light_brightness, is_brightness,
}
use uniubi_ros.Client.Stable.{rpc_call_reaches}
use uniubi_ros.Client.Trace.{tally, tally-stable}
use uniubi_ros.Client.Machine.{
  Query, capabilities, system_status, motion_state, motor_layout, play_detail, light_brightness,
  Command, action, stop, emergency, action_params, audio_start, audio_add, audio_delete, audio_stop,
  audio_pause, light, ask, command,
}

-- The method of the service that a command calls.
abbrev pub method_of : Command → String
method_of (action name params_json) = "startMotionAction"
method_of stop = "stopMotionAction"
method_of emergency = "emergencyStopMotion"
method_of (action_params params_json) = "setMotionActionParams"
method_of (audio_start params_json) = "startPlayList"
method_of (audio_add params_json) = "addAudioFile"
method_of (audio_delete params_json) = "deleteAudioFile"
method_of audio_stop = "stopPlayList"
method_of audio_pause = "stopPlayList"
method_of (light brightness) = "setCameraLightBrightness"

-- The error with which a query is refused while disconnected.
abbrev pub refusal : Query → HighLevelError
refusal light_brightness = not_controlled
refusal _ = not_connected

-- A request for the method with the payload.
abbrev pub is_request : String → String → Effect → Bool
is_request method payload (sent r timeout) = str_eq r.method method && str_eq r.payload payload
is_request method payload _ = false

module _ {V : Type 0} (json : Json V) (env : Env) where
  open json use {null_value, object_value, of_int, put, parse}

  -- Without control every command is refused before anything is sent or parsed: only the error
  -- changes.
  pub command_needs_control :
      (c : Command) (timeout_ms : ℤ) (s : Client)
      → is_controlled s.state ≡ false
      → command json env c timeout_ms s ≡ (returned false, set_error not_controlled s)
  unfolding command ensure_controlled if_controlled start_action stop_action set_action_params
      emergency_stop start_audio_play stop_audio_play pause_audio_play add_audio_file
      delete_audio_file set_camera_light_brightness audio_call
  command_needs_control (action name params_json) timeout_ms s e = rw e
  command_needs_control stop timeout_ms s e = rw e
  command_needs_control emergency timeout_ms s e = rw e
  command_needs_control (action_params params_json) timeout_ms s e = rw e
  command_needs_control (audio_start params_json) timeout_ms s e = rw e
  command_needs_control (audio_add params_json) timeout_ms s e = rw e
  command_needs_control (audio_delete params_json) timeout_ms s e = rw e
  command_needs_control audio_stop timeout_ms s e = rw e
  command_needs_control audio_pause timeout_ms s e = rw e
  command_needs_control (light brightness) timeout_ms s e = rw e

  -- A query is refused while disconnected, the one for the audio play list before its parameters
  -- are parsed, and the one for the brightness of the light also without control: the answer is
  -- false, nothing is handed out, nothing is sent and only the error changes.
  pub query_needs_connection :
      (q : Query) (params_json : String) (timeout_ms : ℤ) (s : Client)
      → (is_disconnected s.state ≡ true
          → ask json env q timeout_ms s ≡ (false, none, set_error (refusal q) s))
        × (is_controlled s.state ≡ false
            → ask json env light_brightness timeout_ms s
              ≡ (false, none, set_error not_controlled s))
        × (is_disconnected s.state ≡ true
            → query_audio_play_list json env params_json timeout_ms s
              ≡ (returned false, none, set_error not_connected s))
  unfolding ask guarded guard_play_list query_audio_play_list query_capabilities query_system_status
      query_motion_state query_motor_layout query_audio_play_detail get_camera_light_brightness
      ensure_connected ensure_controlled
  query_needs_connection capabilities params_json timeout_ms s =
      (ground arith, ground arith, λ e. rw e refl)
  query_needs_connection system_status params_json timeout_ms s =
      (ground arith, ground arith, λ e. rw e refl)
  query_needs_connection motion_state params_json timeout_ms s =
      (ground arith, ground arith, λ e. rw e refl)
  query_needs_connection motor_layout params_json timeout_ms s =
      (ground arith, ground arith, λ e. rw e refl)
  query_needs_connection play_detail params_json timeout_ms s =
      (ground arith, ground arith, λ e. rw e refl)
  query_needs_connection light_brightness params_json timeout_ms s =
      (ground arith, ground arith, λ e. rw e refl)

  abbrev payload_of : String → V → String
  payload_of id params = make_payload json id (empty_object_if_null json params)

  -- A request for the method with the parameters under the caller's name is added to the trace.
  abbrev pub SendsParams : String → V → Client → Client → Type 0
  SendsParams method params s t =
      suc (tally (is_request method (payload_of (caller s) params)) s.trace)
      ≤ tally (is_request method (payload_of (caller s) params)) t.trace

  -- A request for the method under the caller's name is added to the trace.
  abbrev pub Sends : String → Client → Client → Type 0
  Sends method s t = (params : V) × SendsParams method params s t

  rpc_call-SendsParams :
      (method : String) (params out : V) (timeout_ms : ℤ) (s : Client)
      → SendsParams method params s
          (rpc_call json env method s.controller params out timeout_ms s).2
  unfolding rpc_request client_request make_request make_rpc_request system_rpc_call caller
  rpc_call-SendsParams method params out timeout_ms s =
      let kind = is_request method (payload_of (caller s) params) in
      rpc_call_reaches json env (λ t. suc (tally kind s.trace) ≤ tally kind t.trace)
        (tally-stable kind json env (suc (tally kind s.trace))) method s.controller params out
        timeout_ms s (rw (eq_refl method, eq_refl (payload_of (caller s) params)) (omega arith))

  pub rpc_call-Sends :
      (method : String) (params out : V) (timeout_ms : ℤ) (s : Client)
      → Sends method s (rpc_call json env method s.controller params out timeout_ms s).2
  rpc_call-Sends method params out timeout_ms s =
      (params, rpc_call-SendsParams method params out timeout_ms s)

  mark_success-trace : (r : Bool × V × Client) → (mark_success json env r).1.trace ≡ r.2.trace
  unfolding mark_success mark_control_activity read_clock pass
  mark_success-trace (true, ret, s) = refl
  mark_success-trace (false, ret, s) = refl

  pub motion_call-SendsParams :
      (method : String) (params : V) (timeout_ms : ℤ) (s : Client)
      → SendsParams method params s (motion_call json env method params timeout_ms s).1
  unfolding motion_call
  motion_call-SendsParams method params timeout_ms s =
      rw (mark_success-trace (rpc_call json env method s.controller params null_value timeout_ms s))
        (rpc_call-SendsParams method params null_value timeout_ms s)

  motion_call-Sends :
      (method : String) (params : V) (timeout_ms : ℤ) (s : Client)
      → Sends method s (motion_call json env method params timeout_ms s).1
  motion_call-Sends method params timeout_ms s =
      (params, motion_call-SendsParams method params timeout_ms s)

  device_call-Sends :
      (method : String) (params : V) (timeout_ms : ℤ) (s : Client)
      → Sends method s (device_call json env method params timeout_ms s).1
  unfolding device_call
  device_call-Sends method params timeout_ms s =
      rpc_call-Sends method params null_value timeout_ms s

  -- Parameters that are read leave the client as it was.
  parse_params_json-client :
      (params_json : String) (s : Client) (params : V)
      → (parse_params_json json env params_json s).0 ≡ returned (some params)
      → (parse_params_json json env params_json s).1 ≡ s
  unfolding parse_params_json check_params
  parse_params_json-client params_json s params h = ground arith

  with_params-Sends :
      (method : String) (s : Client) (r : Exit (Option V) × Client)
      (go : V → Client → Exit Bool × Client)
      → ((params : V) → r.0 ≡ returned (some params) → r.1 ≡ s)
      → ((params : V) → Sends method s (go params s).1)
      → (with_params json env r go).0 ≡ returned true
      → Sends method s (with_params json env r go).1
  unfolding with_params
  with_params-Sends method s (returned (some params), t) go same sends h =
      rw (same params refl) (sends params)
  with_params-Sends method s (returned none, t) go same sends h = absurd cc
  with_params-Sends method s (threw what, t) go same sends h = absurd cc

  if_controlled-Sends :
      (method : String) (s : Client) (go : Client → Exit Bool × Client)
      → ((go s).0 ≡ returned true → Sends method s (go s).1)
      → (if_controlled (ensure_controlled s) go).0 ≡ returned true
      → Sends method s (if_controlled (ensure_controlled s) go).1
  unfolding if_controlled ensure_controlled
  if_controlled-Sends method s go sends h = elim (Bool-cases (is_controlled s.state)) [
    | inl e ↦ rw (e, if_controlled) (sends (rw (e, if_controlled) at h))
    | inr e ↦ ground arith
  ]

  audio_call-Sends :
      (method params_json : String) (timeout_ms : ℤ) (s : Client)
      → (audio_call json env method params_json timeout_ms s).0 ≡ returned true
      → Sends method s (audio_call json env method params_json timeout_ms s).1
  unfolding audio_call
  audio_call-Sends method params_json timeout_ms s h =
      if_controlled-Sends method s _
        (λ k.
          with_params-Sends method s (parse_params_json json env params_json s) _
            (parse_params_json-client params_json s) (λ p. device_call-Sends method p timeout_ms s)
            k)
        h

  abbrev light_call : ℤ → ℤ → Client → Exit Bool × Client
  light_call brightness timeout_ms t =
      if is_brightness brightness
      then device_call json env "setCameraLightBrightness"
          (put object_value "brightness" (of_int brightness)) timeout_ms t
      else (returned false, set_error action_rejected t)

  light_call-Sends :
      (brightness timeout_ms : ℤ) (s : Client)
      → (light_call brightness timeout_ms s).0 ≡ returned true
      → Sends "setCameraLightBrightness" s (light_call brightness timeout_ms s).1
  light_call-Sends brightness timeout_ms s h = elim (Bool-cases (is_brightness brightness)) [
    | inl e ↦ rw e (device_call-Sends "setCameraLightBrightness" _ timeout_ms s)
    | inr e ↦ ground arith
  ]

  -- A command that reports success has sent the request for its method under the controller's name.
  pub command-Sends :
      (c : Command) (timeout_ms : ℤ) (s : Client)
      → (command json env c timeout_ms s).0 ≡ returned true
      → Sends (method_of c) s (command json env c timeout_ms s).1
  unfolding command start_action stop_action set_action_params emergency_stop start_audio_play
      stop_audio_play pause_audio_play add_audio_file delete_audio_file set_camera_light_brightness
      audio_call
  command-Sends (action name params_json) timeout_ms s h =
      if_controlled-Sends "startMotionAction" s _
        (λ k.
          with_params-Sends "startMotionAction" s (parse_params_json json env params_json s) _
            (parse_params_json-client params_json s)
            (λ p. motion_call-Sends "startMotionAction" _ timeout_ms s) k)
        h
  command-Sends stop timeout_ms s h =
      if_controlled-Sends "stopMotionAction" s _
        (λ k. motion_call-Sends "stopMotionAction" null_value timeout_ms s) h
  command-Sends emergency timeout_ms s h =
      if_controlled-Sends "emergencyStopMotion" s _
        (λ k. motion_call-Sends "emergencyStopMotion" null_value timeout_ms s) h
  command-Sends (action_params params_json) timeout_ms s h =
      if_controlled-Sends "setMotionActionParams" s _
        (λ k.
          with_params-Sends "setMotionActionParams" s (parse_params_json json env params_json s) _
            (parse_params_json-client params_json s)
            (λ p. motion_call-Sends "setMotionActionParams" _ timeout_ms s) k)
        h
  command-Sends (audio_start params_json) timeout_ms s h =
      audio_call-Sends "startPlayList" params_json timeout_ms s h
  command-Sends (audio_add params_json) timeout_ms s h =
      audio_call-Sends "addAudioFile" params_json timeout_ms s h
  command-Sends (audio_delete params_json) timeout_ms s h =
      audio_call-Sends "deleteAudioFile" params_json timeout_ms s h
  command-Sends audio_stop timeout_ms s h =
      if_controlled-Sends "stopPlayList" s _
        (λ k. device_call-Sends "stopPlayList" null_value timeout_ms s) h
  command-Sends audio_pause timeout_ms s h =
      if_controlled-Sends "stopPlayList" s _ (λ k. device_call-Sends "stopPlayList" _ timeout_ms s)
        h
  command-Sends (light brightness) timeout_ms s h =
      if_controlled-Sends "setCameraLightBrightness" s _ (light_call-Sends brightness timeout_ms s)
        h
