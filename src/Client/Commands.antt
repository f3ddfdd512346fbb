-- ===== src/Client/Commands.antt =====
-- motion_high_level_client.cpp: the calls that need control, and `parse_params_json`.
use uniubi_ros.Prelude.{
  ℤ, pos, negsuc, String, Bool, true, false, ◌||◌, Option, none, some, ltb, str_eq, if◌then◌else◌,
}
use uniubi_ros.Json.{Json, Parsed, value, malformed, fault}
use uniubi_ros.Client.{
  Client, Env, Exit, returned, threw, action_rejected, set_error, mark_control_activity,
  ensure_connected, ensure_controlled, caller,
}
use uniubi_ros.Client.Calls.{rpc_call}
use uniubi_ros.Client.Queries.{query}

-- Brightness is refused outside 0 to 100.
abbrev pub is_brightness : ℤ → Bool
is_brightness (pos n) = ltb n 101
is_brightness (negsuc n) = false

-- The rest of a command behind its guard.
unfoldable pub if_controlled : Bool × Client → (Client → Exit Bool × Client) → Exit Bool × Client
if_controlled (true, s) go = go s
if_controlled (false, s) go = (returned false, s)

module _ {V : Type 0} (json : Json V) (env : Env) where
  open json use {
    null_value, object_value, of_bool, of_int, of_string, put, is_null, is_object, is_array, parse,
  }

  -- `parse_params_json`: the parameters, `none` for the result `false`, or an exception.
  unfoldable pub check_params : Parsed V → Client → Exit (Option V) × Client
  unfolding set_error
  check_params (value params) s =
      if is_null params || is_object params || is_array params
      then (returned (some params), s)
      else (returned none, set_error action_rejected s)
  check_params malformed s = (returned none, set_error action_rejected s)
  check_params fault s = (threw "JSON", s)

  unfoldable pub parse_params_json : String → Client → Exit (Option V) × Client
  unfolding check_params
  parse_params_json params_json s =
      if str_eq params_json ""
      then (returned (some null_value), s)
      else check_params (parse params_json) s

  unfoldable pub with_params :
      Exit (Option V) × Client → (V → Client → Exit Bool × Client) → Exit Bool × Client
  with_params (returned (some params), s) go = go params s
  with_params (returned none, s) go = (returned false, s)
  with_params (threw what, s) go = (threw what, s)

  -- The motion calls refresh the lease where they succeed, the others do not.
  unfoldable pub mark_success : Bool × V × Client → Exit Bool × Client
  unfolding mark_control_activity
  mark_success (true, ret, s) = (returned true, mark_control_activity env s)
  mark_success (false, ret, s) = (returned false, s)

  unfoldable pub motion_call : String → V → ℤ → Client → Exit Bool × Client
  motion_call method params timeout_ms s =
      mark_success (rpc_call json env method s.controller params null_value timeout_ms s)

  abbrev pub result : Bool × V × Client → Exit Bool × Client
  result (ok, ret, s) = (returned ok, s)

  unfoldable pub device_call : String → V → ℤ → Client → Exit Bool × Client
  device_call method params timeout_ms s =
      result (rpc_call json env method s.controller params null_value timeout_ms s)

  unfoldable pub put_params : V → V → V
  put_params action_params params =
      if is_null action_params then params else put params "params" action_params

  unfoldable pub start_action : String → String → ℤ → Client → Exit Bool × Client
  unfolding put_params ensure_controlled
  start_action action params_json timeout_ms s = if_controlled (ensure_controlled s) (λ t.
      with_params (parse_params_json params_json t) (λ action_params u.
        motion_call "startMotionAction"
          (put_params action_params (put object_value "action" (of_string action))) timeout_ms u))

  unfoldable pub stop_action : ℤ → Client → Exit Bool × Client
  unfolding ensure_controlled
  stop_action timeout_ms s =
      if_controlled (ensure_controlled s)
        (λ t. motion_call "stopMotionAction" null_value timeout_ms t)

  unfoldable pub set_action_params : String → ℤ → Client → Exit Bool × Client
  unfolding put_params ensure_controlled
  set_action_params params_json timeout_ms s = if_controlled (ensure_controlled s) (λ t.
      with_params (parse_params_json params_json t) (λ action_params u.
        motion_call "setMotionActionParams" (put_params action_params object_value) timeout_ms u))

  unfoldable pub emergency_stop : ℤ → Client → Exit Bool × Client
  unfolding ensure_controlled
  emergency_stop timeout_ms s =
      if_controlled (ensure_controlled s)
        (λ t. motion_call "emergencyStopMotion" null_value timeout_ms t)

  -- `startAudioPlay`, `addAudioFile` and `deleteAudioFile` differ in the method.
  unfoldable pub audio_call : String → String → ℤ → Client → Exit Bool × Client
  unfolding ensure_controlled
  audio_call method params_json timeout_ms s = if_controlled (ensure_controlled s) (λ t.
      with_params (parse_params_json params_json t)
        (λ params u. device_call method params timeout_ms u))

  unfoldable pub start_audio_play : String → ℤ → Client → Exit Bool × Client
  start_audio_play = audio_call "startPlayList"

  unfoldable pub add_audio_file : String → ℤ → Client → Exit Bool × Client
  add_audio_file = audio_call "addAudioFile"

  unfoldable pub delete_audio_file : String → ℤ → Client → Exit Bool × Client
  delete_audio_file = audio_call "deleteAudioFile"

  unfoldable pub stop_audio_play : ℤ → Client → Exit Bool × Client
  unfolding ensure_controlled
  stop_audio_play timeout_ms s =
      if_controlled (ensure_controlled s) (λ t. device_call "stopPlayList" null_value timeout_ms t)

  unfoldable pub pause_audio_play : ℤ → Client → Exit Bool × Client
  unfolding ensure_controlled
  pause_audio_play timeout_ms s =
      if_controlled (ensure_controlled s)
        (λ t. device_call "stopPlayList" (put object_value "pause" (of_bool true)) timeout_ms t)

  unfoldable pub set_camera_light_brightness : ℤ → ℤ → Client → Exit Bool × Client
  unfolding ensure_controlled set_error
  set_camera_light_brightness brightness timeout_ms s = if_controlled (ensure_controlled s) (λ t.
      if is_brightness brightness
      then device_call "setCameraLightBrightness"
          (put object_value "brightness" (of_int brightness)) timeout_ms t
      else (returned false, set_error action_rejected t))

  -- The one query with parameters; `out` is the second part of the result.
  unfoldable pub play_list : Exit (Option V) × Client → ℤ → Exit Bool × Option String × Client
  unfolding caller
  play_list (returned (some params), s) timeout_ms =
      let (ok, out, t) = query json env "getAudioPlayList" (caller s) params timeout_ms s in
      (returned ok, out, t)
  play_list (returned none, s) timeout_ms = (returned false, none, s)
  play_list (threw what, s) timeout_ms = (threw what, none, s)

  unfoldable pub guard_play_list : Bool × Client → String → ℤ → Exit Bool × Option String × Client
  guard_play_list (true, s) params_json timeout_ms =
      play_list (parse_params_json params_json s) timeout_ms
  guard_play_list (false, s) params_json timeout_ms = (returned false, none, s)

  unfoldable pub query_audio_play_list : String → ℤ → Client → Exit Bool × Option String × Client
  unfolding ensure_connected
  query_audio_play_list params_json timeout_ms s =
      guard_play_list (ensure_connected s) params_json timeout_ms
