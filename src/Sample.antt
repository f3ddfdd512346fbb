-- ===== src/Sample.antt =====
-- A service, its documents and a client, small enough to run.
pub mod Sessions
pub mod Leases
pub mod Cameras
pub mod Robots
pub mod Sounds
pub mod Rtsp
pub mod Nodes
pub mod Readers
pub mod Drivers
use uniubi_ros.Prelude.{
  ℕ, zero, suc, ◌+◌, ℤ, pos, negsuc, String, Bool, true, false, Option, none, some, List, [],
  str_eq, if◌then◌else◌, leb, ◌∷◌,
}
use uniubi_ros.Json.{Json, Parsed, value, malformed}
use uniubi_ros.Rpc.{Request}
use uniubi_ros.Client.{
  Client, World, Env, Response, EventMessage, Reply, answered, connected, disconnected, controlled,
  no_error,
}

mutual
  pub data Doc : Type 0 where
    null : Doc
    boolean : Bool → Doc
    number : ℤ → Doc
    text : String → Doc
    object : Members → Doc
    array : Members → Doc

  pub data Members : Type 0 where
    nil : Members
    entry : String → Doc → Members → Members

abbrev pub find : Members → String → Option Doc
find nil name = none
find (entry key v rest) name = if str_eq key name then some v else find rest name

abbrev pub members : Doc → Members
members (object m) = m
members _ = nil

abbrev pub found : Option Doc → Doc
found none = null
found (some v) = v

abbrev pub is_found : Option Doc → Bool
is_found none = false
is_found (some v) = true

abbrev pub boolean_of : Doc → Option Bool
boolean_of (boolean b) = some b
boolean_of null = some false
boolean_of (number (pos zero)) = some false
boolean_of (number _) = some true
boolean_of _ = none

abbrev pub text_of : Doc → String
text_of (text s) = s
text_of _ = ""

-- `asInt` throws past 32 bits.
abbrev pub int_of : Doc → Option ℤ
int_of (number (pos n)) = if leb n 2147483647 then some (pos n) else none
int_of (number (negsuc n)) = if leb n 2147483647 then some (negsuc n) else none
int_of null = some (pos 0)
int_of (boolean true) = some (pos 1)
int_of (boolean false) = some (pos 0)
int_of _ = none

abbrev pub uint_of : Doc → Option ℕ
uint_of (number (pos n)) = if leb n 4294967295 then some n else none
uint_of _ = none

-- The elements of an array, whose keys do not count.
abbrev pub values : Members → List Doc
values nil = []
values (entry key v rest) = v ∷ values rest

abbrev pub items : Doc → List Doc
items (array m) = values m
items _ = []

abbrev pub is_array_doc : Doc → Bool
is_array_doc (array m) = true
is_array_doc _ = false

abbrev pub is_null_doc : Doc → Bool
is_null_doc null = true
is_null_doc _ = false

abbrev pub is_boolean_doc : Doc → Bool
is_boolean_doc (boolean b) = true
is_boolean_doc _ = false

abbrev pub is_text_doc : Doc → Bool
is_text_doc (text s) = true
is_text_doc _ = false

abbrev pub is_number_doc : Doc → Bool
is_number_doc (number n) = true
is_number_doc _ = false

abbrev pub is_int_doc : Doc → Bool
is_int_doc (number (pos n)) = leb n 2147483647
is_int_doc (number (negsuc n)) = leb n 2147483647
is_int_doc _ = false

abbrev pub is_object_doc : Doc → Bool
is_object_doc (object m) = true
is_object_doc _ = false

abbrev pub success_doc : Doc
success_doc = object (entry "result" (boolean true) nil)

abbrev pub lease_doc : Doc
lease_doc = object (
    entry "result" (boolean true) (
      entry "params"
        (object (entry "controller" (text "c1") (entry "leaseTimeout" (number (pos 9000)) nil)))
        nil))

abbrev pub motor_doc : ℕ → Doc
motor_doc n = object (
    entry "limbNo" (number (pos 0))
      (entry "jointNo" (number (pos n)) (entry "name" (text "hip") nil)))

-- Two motors of which the second repeats a key.
abbrev pub layout_doc : Doc
layout_doc = array (entry "" (motor_doc 0) (entry "" (motor_doc 0) (entry "" (motor_doc 1) nil)))

abbrev pub taken_doc : Doc
taken_doc = object (entry "controlled" (boolean true) (entry "controller" (text "c2") nil))

-- The texts that the service sends.
abbrev pub parse_text : String → Parsed Doc
parse_text s =
    if str_eq s "success"
    then value success_doc
    else if str_eq s "lease"
    then value lease_doc
    else if str_eq s "taken"
    then value taken_doc
    else if str_eq s "layout"
    then value layout_doc
    else if str_eq s "object"
    then value (object nil)
    else malformed

-- Only a text is told apart from the rest.
abbrev pub write_doc : Doc → String
write_doc (text s) = s
write_doc _ = "object"

abbrev pub docs : Json Doc
docs = record {
  null_value = null;
  object_value = object nil;
  of_bool = boolean;
  of_string = text;
  of_int = number;
  put = λ v name x. object (entry name x (members v));
  member = λ v name. found (find (members v) name);
  is_member = λ v name. is_found (find (members v) name);
  is_null = is_null_doc;
  is_bool = is_boolean_doc;
  is_string = is_text_doc;
  is_int = is_int_doc;
  is_numeric = is_number_doc;
  is_object = is_object_doc;
  is_array = is_array_doc;
  as_bool = boolean_of;
  as_string = text_of;
  as_int = int_of;
  as_uint = uint_of;
  elements = items;
  write = write_doc;
  parse = parse_text;
}

-- Control is granted for 9 s; every other request succeeds.
abbrev pub reply_to : Request → Reply
reply_to r = answered (
    some (record {
      code = pos 0;
      payload = if str_eq r.method "takeMotionControl" then "lease" else "success";
    }))

-- Every occasion takes a millisecond.
abbrev pub calm : Env
calm = record {
  elapse = λ k. 1000000;
  system_ms = λ k. suc k;
  service_ready = λ k. true;
  inputs = λ k. [];
  reply = λ k r. reply_to r;
  async_send = λ k. some k;
  reader_failure = λ k. none;
}

abbrev pub start_world : World
start_world = record { time = 1000000000; steps = 0; trace = [] }

abbrev pub idle : Client
idle = record {
  ros_service_name = "robotServer";
  device_id = "SN1";
  client_id = "ros-1";
  event_topic = "/robotServer/Event";
  sensor_observed_topic = "/robot/SN1/sensor/observed";
  motion_observed_topic = "/robot/SN1/motion/observed";
  sensor_observed_source = "sensor_observed";
  cere_motion_topic = "rt/cere/motionState";
  controller = "";
  lease_ms = pos 60000;
  state = disconnected;
  last_error = no_error;
  renew_timer = false;
  pending_renew_request_id = none;
  pending_renew_deadline = none;
  last_control_activity_at = 1000000000;
  renew_sequence = 0;
  event_subscription = false;
  sensor_observed_subscription = false;
  motion_observed_subscription = false;
  cere_sensor_reader = false;
  cere_sensor_enabled = false;
  cere_motion_enabled = false;
  connect_callback = false;
  event_callback = false;
  sensor_observed_callback = false;
  motion_observed_callback = false;
  world = start_world;
}

abbrev pub linked : Client
linked = record idle { state = connected; event_subscription = true }

abbrev pub driving : Client
driving = record linked {
  state = controlled;
  controller = "c1";
  lease_ms = pos 9000;
  renew_timer = true;
}

-- In control, with the first renewal in flight.
abbrev pub renewing : Client
renewing = record driving {
  renew_sequence = 1;
  pending_renew_request_id = some 5;
  pending_renew_deadline = some 4000000000;
}
