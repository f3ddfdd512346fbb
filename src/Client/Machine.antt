-- ===== src/Client/Machine.antt =====
-- A client as a machine: its public calls and the callbacks of the executor, in any order.
use uniubi_ros.Prelude.{ℤ, String, Bool, List, [], ◌∷◌, Option}
use uniubi_ros.Json.{Json}
use uniubi_ros.Client.{
  Client, Env, Exit, Input, get_last_error, set_connect_callback, set_event_callback,
  set_sensor_observed_callback, set_motion_observed_callback,
}
use uniubi_ros.Client.Calls.{deliver}
use uniubi_ros.Client.Observation.{set_motion_observed_enable}
use uniubi_ros.Client.Session.{connect, disconnect, start_control, release_control}
use uniubi_ros.Client.Queries.{
  query_capabilities, query_system_status, query_motion_state, query_motor_layout,
  query_audio_play_detail, get_camera_light_brightness,
}
use uniubi_ros.Client.Commands.{
  start_action, stop_action, set_action_params, emergency_stop, start_audio_play, stop_audio_play,
  pause_audio_play, add_audio_file, delete_audio_file, set_camera_light_brightness,
  query_audio_play_list,
}

-- What reads the state and returns text.
pub data Query : Type 0 where
  capabilities system_status motion_state motor_layout play_detail light_brightness : Query

-- What needs control; a text is the parameter `params_json`.
pub data Command : Type 0 where
  action : String → String → Command
  stop emergency : Command
  action_params : String → Command
  audio_start audio_add audio_delete : String → Command
  audio_stop audio_pause : Command
  light : ℤ → Command

pub data Call : Type 0 where
  connects : ℤ → Call
  disconnects : Call
  starts_control : ℤ → Call
  releases_control : Call
  reads_error : Call
  sets_callbacks : Bool → Bool → Bool → Bool → Call
  queries : Query → ℤ → Call
  lists_audio : String → ℤ → Call
  commands : Command → ℤ → Call
  observes : Bool → Bool → ℤ → Call
  delivers : Input → Call

module _ {V : Type 0} (json : Json V) (env : Env) where
  unfoldable pub ask : Query → ℤ → Client → Bool × Option String × Client
  ask capabilities timeout_ms s = query_capabilities json env timeout_ms s
  ask system_status timeout_ms s = query_system_status json env timeout_ms s
  ask motion_state timeout_ms s = query_motion_state json env timeout_ms s
  ask motor_layout timeout_ms s = query_motor_layout json env timeout_ms s
  ask play_detail timeout_ms s = query_audio_play_detail json env timeout_ms s
  ask light_brightness timeout_ms s = get_camera_light_brightness json env timeout_ms s

  unfoldable pub command : Command → ℤ → Client → Exit Bool × Client
  command (action name params_json) timeout_ms s =
      start_action json env name params_json timeout_ms s
  command stop timeout_ms s = stop_action json env timeout_ms s
  command emergency timeout_ms s = emergency_stop json env timeout_ms s
  command (action_params params_json) timeout_ms s =
      set_action_params json env params_json timeout_ms s
  command (audio_start params_json) timeout_ms s =
      start_audio_play json env params_json timeout_ms s
  command (audio_add params_json) timeout_ms s = add_audio_file json env params_json timeout_ms s
  command (audio_delete params_json) timeout_ms s =
      delete_audio_file json env params_json timeout_ms s
  command audio_stop timeout_ms s = stop_audio_play json env timeout_ms s
  command audio_pause timeout_ms s = pause_audio_play json env timeout_ms s
  command (light brightness) timeout_ms s =
      set_camera_light_brightness json env brightness timeout_ms s

  -- The client behind a call, also where it throws.
  unfoldable pub step : Call → Client → Client
  step (connects lease_ms) s = (connect env lease_ms s).1
  step disconnects s = disconnect json env s
  step (starts_control timeout_ms) s = (start_control json env timeout_ms s).1
  step releases_control s = (release_control json env s).1
  step reads_error s = (get_last_error s).1
  step (sets_callbacks c e o m) s =
      set_motion_observed_callback m
        (set_sensor_observed_callback o (set_event_callback e (set_connect_callback c s)))
  step (queries q timeout_ms) s = (ask q timeout_ms s).2
  step (lists_audio params_json timeout_ms) s =
      (query_audio_play_list json env params_json timeout_ms s).2
  step (commands c timeout_ms) s = (command c timeout_ms s).1
  step (observes motion_enable sensor_enable timeout_ms) s =
      (set_motion_observed_enable json env motion_enable sensor_enable timeout_ms s).1
  step (delivers i) s = (deliver json env i s).1

  unfoldable pub run : List Call → Client → Client
  run [] s = s
  run (c ∷ cs) s = run cs (step c s)
