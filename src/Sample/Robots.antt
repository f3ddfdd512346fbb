-- ===== src/Sample/Robots.antt =====
-- A sample robot: the theorems on the node of the bridge at one input each.
use uniubi_ros.Prelude.{
  ◌≤◌, ◌^◌, Bytes, strip, ◌++◌, ℕ, pos, String, true, false, none, some, List, [], ◌∷◌, ◌≡◌, refl,
  arith, map, is_nil, is_some, ltb,
}
use uniubi_ros.Json.{value}
use uniubi_ros.Client.{Exit, returned, no_error}
use uniubi_ros.Bridge.{Bridge, CommandResult, Numbers}
use uniubi_ros.Bridge.Layout.{
  fill_expected, expected_names, fill_limbs, fill_limb, MotorLayoutEntry, MotorObserved,
  JointSample, parse_motor_layout, read_layout, layout_of, find_motors, collect, add_motor,
  read_motor, read_uint_field, read_string_field, filled, past_end, configure_fallback_motor_layout,
  first_motors, publish_joint_states, joint_samples, observed,
}
use uniubi_ros.Bridge.Layout.Keys.{IsLayout, Covers, Reads, parse_motor_layout-IsLayout}
use uniubi_ros.Bridge.Layout.Fallback.{total, name_of, configure_fallback_motor_layout-names}
use uniubi_ros.Bridge.Layout.Joints.{Follows, publish_joint_states-Follows}
use uniubi_ros.Bridge.Commands.{stop_action, emergency_stop}
use uniubi_ros.Bridge.Commands.Connection.{ConnectionConfig, failed}
use uniubi_ros.Bridge.Commands.Actions.{start_action, settle_action, failed_message}
use uniubi_ros.Bridge.Velocity.{VelocityConfig}
use uniubi_ros.Bridge.Frames.{prefixed_frame_id, prefixed_frame_id-inj}
use uniubi_ros.Bridge.Rollback.{RolledBack, settle_action-RolledBack}
use uniubi_ros.Client.Guards.{Sends}
use uniubi_ros.Bridge.Commands.Ready.{start_action_ends}
use uniubi_ros.Bridge.Results.{Reported, stops-Reported}
use uniubi_ros.Sample.{Doc, docs, calm, linked, driving}

abbrev hip : ℕ → String → MotorLayoutEntry
hip n name = record { key = record { limb_no = 0; joint_no = n }; name = name }

abbrev hips : List MotorLayoutEntry
hips = hip 0 "hip" ∷ hip 1 "hip" ∷ []

parse_motor_layout-IsLayout_example :
    (root motors : Doc) × (docs.parse "layout" ≡ value root)
    × (find_motors docs root ≡ some motors)
    × IsLayout hips
    × (false ≡ false)
    × Covers docs (docs.elements motors) hips
    × Reads docs (docs.elements motors) hips
unfolding parse_motor_layout read_layout layout_of find_motors collect add_motor read_motor
    read_uint_field read_string_field
parse_motor_layout-IsLayout_example = parse_motor_layout-IsLayout docs "layout" hips refl

configure_fallback_motor_layout-names_example :
    ((layout : List MotorLayoutEntry)
      → configure_fallback_motor_layout (pos 2 ∷ []) ("left" ∷ "right" ∷ []) ≡ filled layout
      → (map name_of layout ≡ "left" ∷ "right" ∷ []) × (total (pos 2 ∷ []) ≡ 2))
    × (configure_fallback_motor_layout (pos 2 ∷ []) ("left" ∷ "right" ∷ []) ≡ past_end
        → 2 ^ 64 ≤ total (pos 2 ∷ []))
configure_fallback_motor_layout-names_example =
    configure_fallback_motor_layout-names (pos 2 ∷ []) ("left" ∷ "right" ∷ [])

-- Three limbs with 2^64 + 1 joints in all, and one name: the sum wraps to 1 and passes the test.
wrapped_sizes-past_end :
    configure_fallback_motor_layout
      (pos 9223372036854775807 ∷ pos 9223372036854775807 ∷ pos 3 ∷ [])
      ("left" ∷ [])
    ≡ past_end
unfolding configure_fallback_motor_layout fill_expected expected_names fill_limbs fill_limb
wrapped_sizes-past_end = refl

abbrev motor : ℕ → ℕ → MotorObserved ℕ
motor n at = record {
  header = record { limb_no = 0; joint_no = n };
  position = at;
  velocity = 0;
  torque = 0;
}

abbrev motors : List (MotorObserved ℕ)
motors = motor 1 7 ∷ motor 5 8 ∷ motor 1 9 ∷ []

abbrev joints : List (JointSample ℕ)
joints = record { name = "hip"; position = 9; velocity = 0; effort = 0 } ∷ []

publish_joint_states-Follows_example :
    (true ≡ true) × (is_nil joints ≡ false) × Follows joints hips (first_motors 3 motors)
unfolding publish_joint_states joint_samples observed
publish_joint_states-Follows_example =
    publish_joint_states-Follows true hips (pos 3) motors joints refl

-- The numbers of the sample are natural.
abbrev pub naturals : Numbers ℕ
naturals = record { zero_value = 0; is_finite = λ n. true; is_nonzero = λ n. ltb 0 n }

abbrev pub walking : Bridge ℕ
walking = record {
  client = driving;
  rpc_ready = true;
  current_action = "walk";
  current_linear_x = 1;
  current_linear_y = 0;
  current_angular_z = 0;
  last_error_code = no_error;
  last_error_message = "";
  last_error_from_query = false;
  pending_velocity = none;
  last_velocity_received_at = 0;
  next_velocity_dispatch_at = 0;
  velocity_command_active = true;
  velocity_watchdog_fired = false;
  motion_status_query_sequence = 0;
  motion_status_response_at = none;
  pending_motion_status_query = none;
  motion_status_answer = none;
  motion_status_query_deadline = 0;
  next_motion_status_query_at = 0;
  battery_status_query_sequence = 0;
  battery_status_response_at = none;
  pending_battery_status_query = none;
  battery_status_answer = none;
  battery_status_query_deadline = 0;
  next_battery_publish_at = 0;
  motor_layout = [];
  motion_observed_enabled = true;
  published = [];
  batteries = [];
}

stops-Reported_example :
    Reported (stop_action docs naturals calm "test" walking)
    × Reported (emergency_stop docs naturals calm walking)
stops-Reported_example = stops-Reported docs naturals calm "test" walking refl

abbrev pub node : ConnectionConfig
node = record {
  lease_ms = pos 60000;
  publish_joint_states = true;
  fallback_limb_sizes = [];
  fallback_joint_names = [];
}

start_action_ends_example :
    is_some (start_action docs naturals calm node "walk" "" (record walking { client = linked }))
    ≡ true
start_action_ends_example =
    start_action_ends docs naturals calm node "walk" "" (record walking { client = linked })
      (λ k. omega arith)

abbrev rolled : Exit CommandResult × Bridge ℕ
rolled = settle_action docs naturals calm node "walk" true false walking

settle_action-RolledBack_example :
    (true ≡ true → Sends docs calm "releaseMotionControl" driving rolled.1.client)
    × RolledBack docs naturals calm node "walk" no_error rolled
    × (true ≡ false
        → rolled.0
          ≡ returned (failed no_error (failed_message docs naturals calm node "walk" (some false))))
settle_action-RolledBack_example = settle_action-RolledBack docs naturals calm node "walk" walking

-- The last velocity came a second ago.
abbrev idling : Bridge ℕ
idling = record walking { last_velocity_received_at = 1000000 }

abbrev pub dispatching : VelocityConfig
dispatching = record { cmd_vel_timeout_ms = 500; velocity_dispatch_period = 33000000 }

-- "/r1", "/r2" and "odom".
abbrev prefix_of : ℕ → Bytes
prefix_of n = 47 ∷ 114 ∷ n ∷ []

abbrev odom : Bytes
odom = 111 ∷ 100 ∷ 111 ∷ 109 ∷ []

prefixed_frame_id-inj_example :
    (prefixed_frame_id (prefix_of 49) odom ≡ prefixed_frame_id (prefix_of 50) odom
      → strip (prefix_of 49) ≡ strip (prefix_of 50))
    × (prefixed_frame_id (prefix_of 49 ++ (47 ∷ [])) odom ≡ prefixed_frame_id (prefix_of 49) odom)
prefixed_frame_id-inj_example = prefixed_frame_id-inj (prefix_of 49) (prefix_of 50) odom
