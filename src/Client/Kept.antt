-- ===== src/Client/Kept.antt =====
-- The queries and the commands keep what a call keeps: they add guards and a mark of activity.
use uniubi_ros.Prelude.{
  ℤ, String, Bool, true, false, Option, none, some, inl, inr, Bool-cases, ◌||◌, str_eq,
}
use uniubi_ros.Json.{Json, Parsed, value, malformed, fault}
use uniubi_ros.Client.{
  Client, Env, Exit, returned, threw, action_rejected, not_connected, not_controlled, is_controlled,
  is_disconnected, ensure_connected, ensure_controlled, caller,
}
use uniubi_ros.Client.Calls.{rpc_call}
use uniubi_ros.Client.Queries.{
  query, output, guarded, query_capabilities, query_system_status, query_motion_state,
  query_motor_layout, query_audio_play_detail, get_camera_light_brightness,
}
use uniubi_ros.Client.Commands.{
  check_params, parse_params_json, if_controlled, with_params, mark_success, motion_call,
  device_call, start_action, stop_action, set_action_params, emergency_stop, audio_call,
  start_audio_play, stop_audio_play, pause_audio_play, add_audio_file, delete_audio_file,
  set_camera_light_brightness, play_list, guard_play_list, query_audio_play_list, is_brightness,
}
use uniubi_ros.Client.Stable.{IsStable, rpc_call_keeps}
use uniubi_ros.Client.Machine.{
  Query, capabilities, system_status, motion_state, motor_layout, play_detail, light_brightness,
  Command, action, stop, emergency, action_params, audio_start, audio_add, audio_delete, audio_stop,
  audio_pause, light, ask, command,
}

module _ {V : Type 0} (json : Json V) (env : Env) (P : Client → Type 0)
    (stable : IsStable json env P) where
  open stable use {on_error, on_activity}
  open json use {null_value, object_value, parse}

  ensure_connected_keeps : (s : Client) → P s → P (ensure_connected s).1
  unfolding ensure_connected
  ensure_connected_keeps s h = elim (Bool-cases (is_disconnected s.state)) [
    | inl e ↦ rw e (on_error not_connected s h)
    | inr e ↦ rw e h
  ]

  ensure_controlled_keeps : (s : Client) → P s → P (ensure_controlled s).1
  unfolding ensure_controlled
  ensure_controlled_keeps s h = elim (Bool-cases (is_controlled s.state)) [
    | inl e ↦ rw e h
    | inr e ↦ rw e (on_error not_controlled s h)
  ]

  output_keeps : (r : Bool × V × Client) → P r.2 → P (output json env r).2
  unfolding output
  output_keeps (true, ret, s) h = h
  output_keeps (false, ret, s) h = h

  pub query_keeps :
      (method id : String) (params : V) (timeout_ms : ℤ) (s : Client)
      → P s
      → P (query json env method id params timeout_ms s).2
  unfolding query
  query_keeps method id params timeout_ms s h =
      output_keeps (rpc_call json env method id params null_value timeout_ms s)
        (rpc_call_keeps json env P stable method id params null_value timeout_ms s h)

  guarded_keeps :
      (r : Bool × Client) (go : Client → Bool × Option String × Client)
      → P r.1
      → ((t : Client) → P t → P (go t).2)
      → P (guarded json env r go).2
  unfolding guarded
  guarded_keeps (true, s) go h g = g s h
  guarded_keeps (false, s) go h g = h

  pub ask_keeps :
      (q : Query) (timeout_ms : ℤ) (s : Client) → P s → P (ask json env q timeout_ms s).2
  unfolding ask query_capabilities query_system_status query_motion_state query_motor_layout
      query_audio_play_detail get_camera_light_brightness
  ask_keeps capabilities timeout_ms s h =
      guarded_keeps (ensure_connected s) _ (ensure_connected_keeps s h)
        (λ t. query_keeps "getMotionCapabilities" t.client_id null_value timeout_ms t)
  ask_keeps system_status timeout_ms s h =
      guarded_keeps (ensure_connected s) _ (ensure_connected_keeps s h)
        (λ t. query_keeps "getSystemStatus" (caller t) null_value timeout_ms t)
  ask_keeps motion_state timeout_ms s h =
      guarded_keeps (ensure_connected s) _ (ensure_connected_keeps s h)
        (λ t. query_keeps "queryMotionState" (caller t) null_value timeout_ms t)
  ask_keeps motor_layout timeout_ms s h =
      guarded_keeps (ensure_connected s) _ (ensure_connected_keeps s h)
        (λ t. query_keeps "getMotorLayout" t.client_id null_value timeout_ms t)
  ask_keeps play_detail timeout_ms s h =
      guarded_keeps (ensure_connected s) _ (ensure_connected_keeps s h)
        (λ t. query_keeps "getAudioPlayDetail" (caller t) null_value timeout_ms t)
  ask_keeps light_brightness timeout_ms s h =
      guarded_keeps (ensure_controlled s) _ (ensure_controlled_keeps s h)
        (λ t. query_keeps "getCameraLightBrightness" t.controller null_value timeout_ms t)

  check_params_keeps : (p : Parsed V) (s : Client) → P s → P (check_params json env p s).1
  unfolding check_params
  check_params_keeps (value params) s h =
      elim (Bool-cases (json.is_null params || json.is_object params || json.is_array params)) [
        | inl e ↦ rw e h
        | inr e ↦ rw e (on_error action_rejected s h)
      ]
  check_params_keeps malformed s h = on_error action_rejected s h
  check_params_keeps fault s h = h

  parse_params_json_keeps :
      (params_json : String) (s : Client) → P s → P (parse_params_json json env params_json s).1
  unfolding parse_params_json
  parse_params_json_keeps params_json s h = elim (Bool-cases (str_eq params_json "")) [
    | inl e ↦ rw e h
    | inr e ↦ rw e (check_params_keeps (parse params_json) s h)
  ]

  if_controlled_keeps :
      (r : Bool × Client) (go : Client → Exit Bool × Client)
      → P r.1
      → ((t : Client) → P t → P (go t).1)
      → P (if_controlled r go).1
  unfolding if_controlled
  if_controlled_keeps (true, s) go h g = g s h
  if_controlled_keeps (false, s) go h g = h

  with_params_keeps :
      (r : Exit (Option V) × Client) (go : V → Client → Exit Bool × Client)
      → P r.1
      → ((params : V) (t : Client) → P t → P (go params t).1)
      → P (with_params json env r go).1
  unfolding with_params
  with_params_keeps (returned (some params), s) go h g = g params s h
  with_params_keeps (returned none, s) go h g = h
  with_params_keeps (threw what, s) go h g = h

  mark_success_keeps : (r : Bool × V × Client) → P r.2 → P (mark_success json env r).1
  unfolding mark_success
  mark_success_keeps (true, ret, s) h = on_activity s h
  mark_success_keeps (false, ret, s) h = h

  pub motion_call_keeps :
      (method : String) (params : V) (timeout_ms : ℤ) (s : Client)
      → P s
      → P (motion_call json env method params timeout_ms s).1
  unfolding motion_call
  motion_call_keeps method params timeout_ms s h =
      mark_success_keeps (rpc_call json env method s.controller params null_value timeout_ms s)
        (rpc_call_keeps json env P stable method s.controller params null_value timeout_ms s h)

  pub device_call_keeps :
      (method : String) (params : V) (timeout_ms : ℤ) (s : Client)
      → P s
      → P (device_call json env method params timeout_ms s).1
  unfolding device_call
  device_call_keeps method params timeout_ms s h =
      rpc_call_keeps json env P stable method s.controller params null_value timeout_ms s h

  audio_call_keeps :
      (method params_json : String) (timeout_ms : ℤ) (s : Client)
      → P s
      → P (audio_call json env method params_json timeout_ms s).1
  unfolding audio_call
  audio_call_keeps method params_json timeout_ms s h =
      if_controlled_keeps (ensure_controlled s) _ (ensure_controlled_keeps s h) λ t k.
        with_params_keeps (parse_params_json json env params_json t) _
          (parse_params_json_keeps params_json t k)
          (λ params. device_call_keeps method params timeout_ms)

  light_keeps :
      (brightness timeout_ms : ℤ) (s : Client)
      → P s
      → P (set_camera_light_brightness json env brightness timeout_ms s).1
  unfolding set_camera_light_brightness
  light_keeps brightness timeout_ms s h =
      if_controlled_keeps (ensure_controlled s) _ (ensure_controlled_keeps s h) λ t k.
        elim (Bool-cases (is_brightness brightness)) [
          | inl e ↦ rw e (device_call_keeps "setCameraLightBrightness" _ timeout_ms t k)
          | inr e ↦ rw e (on_error action_rejected t k)
        ]

  pub command_keeps :
      (c : Command) (timeout_ms : ℤ) (s : Client) → P s → P (command json env c timeout_ms s).1
  unfolding command start_action stop_action set_action_params emergency_stop start_audio_play
      stop_audio_play pause_audio_play add_audio_file delete_audio_file
  command_keeps (action name params_json) timeout_ms s h =
      if_controlled_keeps (ensure_controlled s) _ (ensure_controlled_keeps s h) λ t k.
        with_params_keeps (parse_params_json json env params_json t) _
          (parse_params_json_keeps params_json t k)
          (λ params. motion_call_keeps "startMotionAction" _ timeout_ms)
  command_keeps stop timeout_ms s h =
      if_controlled_keeps (ensure_controlled s) _ (ensure_controlled_keeps s h)
        (motion_call_keeps "stopMotionAction" null_value timeout_ms)
  command_keeps emergency timeout_ms s h =
      if_controlled_keeps (ensure_controlled s) _ (ensure_controlled_keeps s h)
        (motion_call_keeps "emergencyStopMotion" null_value timeout_ms)
  command_keeps (action_params params_json) timeout_ms s h =
      if_controlled_keeps (ensure_controlled s) _ (ensure_controlled_keeps s h) λ t k.
        with_params_keeps (parse_params_json json env params_json t) _
          (parse_params_json_keeps params_json t k)
          (λ params. motion_call_keeps "setMotionActionParams" _ timeout_ms)
  command_keeps (audio_start params_json) timeout_ms s h =
      audio_call_keeps "startPlayList" params_json timeout_ms s h
  command_keeps (audio_add params_json) timeout_ms s h =
      audio_call_keeps "addAudioFile" params_json timeout_ms s h
  command_keeps (audio_delete params_json) timeout_ms s h =
      audio_call_keeps "deleteAudioFile" params_json timeout_ms s h
  command_keeps audio_stop timeout_ms s h =
      if_controlled_keeps (ensure_controlled s) _ (ensure_controlled_keeps s h)
        (device_call_keeps "stopPlayList" null_value timeout_ms)
  command_keeps audio_pause timeout_ms s h =
      if_controlled_keeps (ensure_controlled s) _ (ensure_controlled_keeps s h)
        (device_call_keeps "stopPlayList" _ timeout_ms)
  command_keeps (light brightness) timeout_ms s h = light_keeps brightness timeout_ms s h

  play_list_keeps :
      (r : Exit (Option V) × Client) (timeout_ms : ℤ)
      → P r.1
      → P (play_list json env r timeout_ms).2
  unfolding play_list
  play_list_keeps (returned (some params), s) timeout_ms h =
      query_keeps "getAudioPlayList" (caller s) params timeout_ms s h
  play_list_keeps (returned none, s) timeout_ms h = h
  play_list_keeps (threw what, s) timeout_ms h = h

  guard_play_list_keeps :
      (r : Bool × Client) (params_json : String) (timeout_ms : ℤ)
      → P r.1
      → P (guard_play_list json env r params_json timeout_ms).2
  unfolding guard_play_list
  guard_play_list_keeps (true, s) params_json timeout_ms h =
      play_list_keeps (parse_params_json json env params_json s) timeout_ms
        (parse_params_json_keeps params_json s h)
  guard_play_list_keeps (false, s) params_json timeout_ms h = h

  pub query_audio_play_list_keeps :
      (params_json : String) (timeout_ms : ℤ) (s : Client)
      → P s
      → P (query_audio_play_list json env params_json timeout_ms s).2
  unfolding query_audio_play_list
  query_audio_play_list_keeps params_json timeout_ms s h =
      guard_play_list_keeps (ensure_connected s) params_json timeout_ms (ensure_connected_keeps s h)
