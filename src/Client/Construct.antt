-- ===== src/Client/Construct.antt =====
-- motion_high_level_client.cpp and its header: the constructor of `MotionHighLevelClient`.
use uniubi_ros.Prelude.{String, false, not, ◌&&◌, none, arith, pos, str_eq, if◌then◌else◌}
use Prim.Native.String.{◌++◌}
use uniubi_ros.Client.{
  Client, World, Exit, returned, threw, disconnected, no_error, default_lease_ms,
}
use uniubi_ros.Client.Invariant.{IsConsistent}

-- The topic of an observation: the argument, or by default one by the source.
unfoldable pub observed_topic : String → String → String → String → String
observed_topic topic source device_id suffix =
    if str_eq topic ""
    then (if str_eq source "cere_motion_state" then suffix else ("/robot/" ++ device_id) ++ suffix)
    else topic

-- The members as the initialiser list sets them; `client_id` is what `make_client_id` made, and
-- `world.time` the reading of the clock.
unfoldable pub initial :
    String → String → String → String → String → String → String → String → World → Client
unfolding observed_topic
initial service client_id device_id event_topic sensor_topic motion_topic source cere_topic world =
    record {
      ros_service_name = service;
      device_id = device_id;
      client_id = client_id;
      event_topic = event_topic;
      sensor_observed_topic = observed_topic sensor_topic source device_id "/sensor/observed";
      motion_observed_topic = observed_topic motion_topic source device_id "/motion/observed";
      sensor_observed_source = source;
      cere_motion_topic = cere_topic;
      controller = "";
      lease_ms = pos default_lease_ms;
      state = disconnected;
      last_error = no_error;
      renew_timer = false;
      pending_renew_request_id = none;
      pending_renew_deadline = none;
      last_control_activity_at = world.time;
      renew_sequence = 0;
      event_subscription = false;
      sensor_observed_subscription = false;
      motion_observed_subscription = false;
      cere_sensor_reader = false;
      cere_sensor_enabled = false;
      cere_motion_enabled = false;
      connect_callback = false;
      event_callback = false;
      sensor_observed_callback = false;
      motion_observed_callback = false;
      world = world;
    }

-- The body of the constructor checks the identifier and the source.
unfoldable pub construct :
    String → String → String → String → String → String → String → String → World → Exit Client
construct service client_id device_id event_topic sensor_topic motion_topic source cere_topic
      world =
    if str_eq device_id ""
    then threw "device_id is required for robot-specific observation and event routing"
    else if not (str_eq source "sensor_observed") && not (str_eq source "cere_motion_state")
    then threw "sensor_observed_source must be sensor_observed or cere_motion_state"
    else returned (
        initial service client_id device_id event_topic sensor_topic motion_topic source cere_topic
          world)

pub initial-IsConsistent :
    (service client_id device_id event_topic sensor_topic motion_topic source cere_topic : String)
    (world : World)
    → IsConsistent (
        initial service client_id device_id event_topic sensor_topic motion_topic source cere_topic
          world)
unfolding initial
initial-IsConsistent service client_id device_id event_topic sensor_topic motion_topic source
      cere_topic world =
    ground arith
