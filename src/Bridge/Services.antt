-- ===== src/Bridge/Services.antt =====
-- uniubi_motion_bridge_node.cpp: the services with JSON parameters that `create_extended_interfaces`
-- offers, and what `add_json_service` does around each.
pub mod Guarded
use uniubi_ros.Prelude.{
  ℤ, pos, negsuc, String, Bool, true, false, not, ◌&&◌, Option, none, some, str_eq, if◌then◌else◌,
}
use uniubi_ros.Json.{Json, Parsed, value, malformed, fault}
use uniubi_ros.Client.{
  Client, Env, Exit, returned, threw, no_error, action_rejected, not_controlled, is_controlled,
}
use uniubi_ros.Client.Queries.{
  query_system_status, query_motion_state, query_motor_layout, query_audio_play_detail,
  get_camera_light_brightness,
}
use uniubi_ros.Client.Commands.{
  set_action_params, start_audio_play, stop_audio_play, pause_audio_play, add_audio_file,
  delete_audio_file, set_camera_light_brightness, query_audio_play_list,
}
use uniubi_ros.Bridge.{
  Bridge, CommandResult, Numbers, reset_velocity_tracking, after_call, error_of, and_then,
}
use uniubi_ros.Bridge.Commands.{poll_status_now}
use uniubi_ros.Bridge.Commands.Connection.{ConnectionConfig, failed, connect_client}
use uniubi_ros.Bridge.Commands.Actions.{go_on}

-- The services, by their names.
pub data Operation : Type 0 where
  query_status query_state query_layout query_play_list query_play_detail : Operation
  start_play stop_play pause_play add_file delete_file : Operation
  query_brightness set_brightness action_params : Operation

-- The argument `controlled` of `add_json_service`.
unfoldable pub needs_control : Operation → Bool
needs_control query_status = false
needs_control query_state = false
needs_control query_layout = false
needs_control query_play_list = false
needs_control query_play_detail = false
needs_control _ = true

-- The answer to a service: the result, and `result_json` where it is written.
pub record Answer : Type 0 where
  pub result : CommandResult
  pub result_json : String

abbrev pub plain : CommandResult → Answer
plain r = record { result = r; result_json = "" }

-- A text that a query wrote to `out`, which was empty.
abbrev pub text_or_empty : Option String → String
text_or_empty none = ""
text_or_empty (some s) = s

abbrev pub queried : Bool × Option String × Client → Exit (Bool × String) × Client
queried (ok, out, s) = (returned (ok, text_or_empty out), s)

abbrev pub listed : Exit Bool × Option String × Client → Exit (Bool × String) × Client
listed (returned ok, out, s) = (returned (ok, text_or_empty out), s)
listed (threw what, out, s) = (threw what, s)

abbrev pub commanded : Exit Bool × Client → Exit (Bool × String) × Client
commanded (returned ok, s) = (returned (ok, ""), s)
commanded (threw what, s) = (threw what, s)

module _ {V : Type 0} (json : Json V) (env : Env) where
  open json use {member, is_int, as_int, is_object, parse}

  -- `value["brightness"].isInt() ? value["brightness"].asInt() : -1`.
  unfoldable pub brightness_of : V → ℤ
  brightness_of v =
      if is_int (member v "brightness")
      then (elim (as_int (member v "brightness")) [ some n ↦ n | none ↦ negsuc 0 ])
      else negsuc 0

  unfoldable pub set_parsed_brightness : Parsed V → Client → Exit Bool × Client
  unfolding brightness_of
  set_parsed_brightness (value v) s =
      set_camera_light_brightness json env (brightness_of v) (pos 5000) s
  set_parsed_brightness malformed s = set_camera_light_brightness json env (negsuc 0) (pos 5000) s
  set_parsed_brightness fault s = (threw "JSON", s)

  -- The call of the client, with its default timeout.
  unfoldable pub call_of : Operation → String → Client → Exit (Bool × String) × Client
  unfolding set_parsed_brightness
  call_of query_status params s = queried (query_system_status json env (pos 5000) s)
  call_of query_state params s = queried (query_motion_state json env (pos 5000) s)
  call_of query_layout params s = queried (query_motor_layout json env (pos 5000) s)
  call_of query_play_list params s = listed (query_audio_play_list json env params (pos 5000) s)
  call_of query_play_detail params s = queried (query_audio_play_detail json env (pos 5000) s)
  call_of start_play params s = commanded (start_audio_play json env params (pos 5000) s)
  call_of stop_play params s = commanded (stop_audio_play json env (pos 5000) s)
  call_of pause_play params s = commanded (pause_audio_play json env (pos 5000) s)
  call_of add_file params s = commanded (add_audio_file json env params (pos 30000) s)
  call_of delete_file params s = commanded (delete_audio_file json env params (pos 5000) s)
  call_of query_brightness params s = queried (get_camera_light_brightness json env (pos 5000) s)
  call_of set_brightness params s = commanded (set_parsed_brightness (parse params) s)
  call_of action_params params s = commanded (set_action_params json env params (pos 5000) s)

module _ {V N : Type 0} (json : Json V) (numbers : Numbers N) (env : Env)
    (config : ConnectionConfig) where
  open json use {is_object, parse}

  -- What the service of `setActionParams` does where the call succeeded.
  unfoldable pub after_operation :
      Operation → Bool × String → Bridge N → Exit (Bool × String) × Bridge N
  unfolding reset_velocity_tracking
  after_operation action_params (true, out) b =
      (returned (true, out), poll_status_now (reset_velocity_tracking b))
  after_operation op r b = (returned r, b)

  unfoldable pub operate : Operation → String → Bridge N → Exit (Bool × String) × Bridge N
  unfolding call_of after_operation
  operate op params b =
      let (result, s) = call_of json env op params b.client in
      and_then (result, after_call numbers s b) (after_operation op)

  unfoldable pub settle_operation : Bool × String → Bridge N → Exit Answer × Bridge N
  unfolding error_of
  settle_operation (true, out) b = (
    returned (record {
      result = record { success = true; error_code = no_error; message = "success" };
      result_json = out;
    }),
    b,
  )
  settle_operation (false, out) b =
      let (error, t) = error_of numbers false b in
      (returned (plain (failed error "device request failed")), t)

  unfoldable pub operate_connected :
      Operation → String → CommandResult → Bridge N → Option (Exit Answer × Bridge N)
  unfolding operate settle_operation
  operate_connected op params link b =
      if not link.success
      then some (returned (plain link), b)
      else some (and_then (operate op params b) settle_operation)

  unfoldable pub serve_parsed :
      Parsed V → Operation → String → Bridge N → Option (Exit Answer × Bridge N)
  unfolding needs_control operate_connected
  serve_parsed fault op params b = some (threw "JSON", b)
  serve_parsed malformed op params b =
      some (returned (plain (failed action_rejected "params_json must be a JSON object")), b)
  serve_parsed (value v) op params b =
      if not (is_object v)
      then some (returned (plain (failed action_rejected "params_json must be a JSON object")), b)
      else if needs_control op && not (is_controlled b.client.state)
      then some (
        returned (
            plain
              (failed not_controlled "call motion/acquire_control in this bridge namespace first")),
        b,
      )
      else go_on (connect_client json numbers env config b) (operate_connected op params)

  -- The command that a service with JSON parameters submits.
  unfoldable pub serve_json : Operation → String → Bridge N → Option (Exit Answer × Bridge N)
  unfolding serve_parsed
  serve_json op params_json b =
      let params = if str_eq params_json "" then "{}" else params_json in
      serve_parsed (parse params) op params b
