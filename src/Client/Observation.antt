-- ===== src/Client/Observation.antt =====
-- motion_high_level_client.cpp: the subscriptions, and `setMotionObservedEnable`.
use uniubi_ros.Prelude.{
  ℤ, String, Bool, true, false, not, ◌&&◌, ◌||◌, Option, none, some, str_eq, if◌then◌else◌,
}
use uniubi_ros.Json.{Json}
use uniubi_ros.Client.{
  Client, Env, Exit, returned, threw, ms, pass, sleep_for, caller, ensure_connected,
}
use uniubi_ros.Client.Calls.{rpc_call}

unfoldable pub create_event_subscription : Client → Client
create_event_subscription s =
    if s.event_subscription || str_eq s.event_topic ""
    then s
    else record s { event_subscription = true }

unfoldable pub destroy_event_subscription : Client → Client
destroy_event_subscription s = record s { event_subscription = false }

unfoldable pub destroy_sensor_observed_subscription : Client → Client
destroy_sensor_observed_subscription s = record s {
  cere_sensor_enabled = false;
  cere_sensor_reader = s.cere_motion_enabled && s.cere_sensor_reader;
  sensor_observed_subscription = false;
}

unfoldable pub destroy_motion_observed_subscription : Client → Client
destroy_motion_observed_subscription s = record s {
  cere_motion_enabled = false;
  cere_sensor_reader = s.cere_sensor_enabled && s.cere_sensor_reader;
  motion_observed_subscription = false;
}

abbrev pub is_cere : Client → Bool
is_cere s = str_eq s.sensor_observed_source "cere_motion_state"

module _ (env : Env) where
  -- The constructor of the reader refuses an empty topic, and throws where DDS fails.
  unfoldable pub open_reader : Option String → Client → Exit (Unit {0}) × Client
  unfolding pass
  open_reader (some what) s = (threw what, pass env 0 s)
  open_reader none s = (returned tt, record (pass env 0 s) { cere_sensor_reader = true })

  unfoldable pub create_cere_observed_reader : Client → Exit (Unit {0}) × Client
  unfolding open_reader
  create_cere_observed_reader s =
      if s.cere_sensor_reader || not s.cere_sensor_enabled && not s.cere_motion_enabled
      then (returned tt, s)
      else if str_eq s.cere_motion_topic ""
      then (threw "cere_motion_topic must not be empty", s)
      else open_reader (env.reader_failure s.steps) s

-- The two `create_*_observed_subscription`, past their branch for the on-board source, which
-- `setMotionObservedEnable` has left before it calls them.
unfoldable pub create_sensor_observed_subscription : Client → Client
create_sensor_observed_subscription s =
    if s.sensor_observed_subscription
      || str_eq s.sensor_observed_topic ""
      || not s.sensor_observed_callback
    then s
    else record s { sensor_observed_subscription = true }

unfoldable pub create_motion_observed_subscription : Client → Client
create_motion_observed_subscription s =
    if s.motion_observed_subscription
      || str_eq s.motion_observed_topic ""
      || not s.motion_observed_callback
    then s
    else record s { motion_observed_subscription = true }

abbrev pub exit_true : Exit (Unit {0}) × Client → Exit Bool × Client
exit_true (returned _, s) = (returned true, s)
exit_true (threw what, s) = (threw what, s)

module _ {V : Type 0} (json : Json V) (env : Env) where
  open json use {null_value, object_value, of_bool, put}

  -- `params`: the source of the client names the members.
  unfoldable pub observed_params : Bool → Bool → Client → V
  observed_params motion_enable sensor_enable s =
      let motion = put object_value "motionEnable" (of_bool motion_enable) in
      if str_eq s.sensor_observed_source "sensor_observed"
      then put motion "sensorEnable" (of_bool sensor_enable)
      else motion

  unfoldable pub enable_cere : Bool → Bool → Client → Exit Bool × Client
  enable_cere motion_enable sensor_enable s =
      let t = record s {
        cere_motion_enabled = motion_enable;
        cere_sensor_enabled = sensor_enable;
      } in
      if motion_enable || sensor_enable
      then exit_true (create_cere_observed_reader env t)
      else (returned true, t)

  -- The subscriptions follow the reply.
  unfoldable pub subscribe_observed : Bool → Bool → Bool × V × Client → Bool × Client
  unfolding create_motion_observed_subscription create_sensor_observed_subscription
  subscribe_observed motion_enable sensor_enable (false, ret, s) = (false, s)
  subscribe_observed motion_enable sensor_enable (true, ret, s) =
      let t = if motion_enable then create_motion_observed_subscription s else s in
      (true, if sensor_enable then create_sensor_observed_subscription t else t)

  -- The one retry, 100 ms later.
  unfoldable pub retry_enable : V → ℤ → Bool × V × Client → Bool × V × Client
  unfolding sleep_for caller
  retry_enable params timeout_ms (true, ret, s) = (true, ret, s)
  retry_enable params timeout_ms (false, ret, s) =
      let t = sleep_for env (ms 100) s in
      rpc_call json env "setMotionObservedEnable" (caller t) params ret timeout_ms t

  unfoldable pub enable_host : Bool → Bool → ℤ → Client → Bool × Client
  unfolding observed_params caller
  enable_host motion_enable sensor_enable timeout_ms s =
      let params = observed_params motion_enable sensor_enable s in
      subscribe_observed motion_enable sensor_enable (
        retry_enable params timeout_ms
          (rpc_call json env "setMotionObservedEnable" (caller s) params null_value timeout_ms s))

  unfoldable pub set_motion_observed_enable : Bool → Bool → ℤ → Client → Exit Bool × Client
  unfolding destroy_motion_observed_subscription destroy_sensor_observed_subscription
      ensure_connected
  set_motion_observed_enable motion_enable sensor_enable timeout_ms s =
      let (ok, t) = ensure_connected s in
      if not ok
      then (returned false, t)
      else (let u = destroy_sensor_observed_subscription (destroy_motion_observed_subscription t) in
          if is_cere u
          then enable_cere motion_enable sensor_enable u
          else (let (result, v) = enable_host motion_enable sensor_enable timeout_ms u in
              (returned result, v)))
