-- ===== src/Sample/Readers.antt =====
-- Sample observations of a robot, on the on-board reader and in the bridge.
use uniubi_ros.Prelude.{
  suc, ◌+◌, ◌*◌, ◌/◌, ◌≤◌, length, ltb, ℕ, pos, true, false, ◌≡◌, refl, List, [], ◌∷◌, arith,
}
use uniubi_ros.Bridge.{Bridge}
use uniubi_ros.Bridge.Observed.{
  Doubles, FrameConfig, MotionMessage, Outputs, publish_motion_observed,
}
use uniubi_ros.Bridge.Observed.Paced.{
  BatteryEvent, observes, elapses, battery_events, battery_events-IsPaced,
}
use uniubi_ros.Bridge.Queries.{StatusConfig}
use uniubi_ros.Sample.{docs, calm}
use uniubi_ros.Sample.Nodes.{floats, polling}
use uniubi_ros.Sample.Robots.{walking}
use uniubi_ros.Client.{read_clock}
use uniubi_ros.Client.Reader.{Reader, sample, poll}
use uniubi_ros.Client.Samples.{Vector3, ImuState, Motor, BrainMotionState}
use uniubi_ros.Client.Reader.Polled.{Polled, poll-Polled}

abbrev upward : ℕ → Vector3 ℕ
upward n = record { error = pos 0; x = 0; y = 0; z = n }

abbrev pub posture : ImuState ℕ
posture = record {
  temp = 30;
  accel = upward 10;
  gyro = upward 1;
  mag = upward 2;
  euler = upward 3;
  quaternion = record { error = pos 0; w = 1; x = 0; y = 0; z = 0 };
}

abbrev pub motor_at : ℕ → ℕ → Motor ℕ
motor_at joint angle = record {
  enable = true;
  online = true;
  error = pos 0;
  position = angle;
  velocity = 0;
  torque = 0;
  temp = 30;
  voltage = 24;
  loss_rate = 0;
  max_torque = 9;
  limbs_no = 0;
  joint_no = joint;
}

-- Two of three motors are counted.
abbrev pub observed_state : BrainMotionState ℕ
observed_state = record {
  timestamp = 123456;
  has_sensor = true;
  has_motion = true;
  gps = record { valid = true; speed = 2; level = pos 2; rssi = pos 1; lat = 30; lng = 120 };
  uwb = record {
    valid = false;
    pair_state = pos 0;
    rssi = pos 0;
    pitch = pos 0;
    azimuth = pos 0;
    distance = pos 0;
    beacon_id = pos 0;
  };
  odom = record {
    valid = true;
    epoch = pos 7;
    yaw = 1;
    yaw_speed = 0;
    position = 1 ∷ 2 ∷ 3 ∷ [];
    velocity = 0 ∷ 0 ∷ 0 ∷ [];
  };
  imu = posture;
  motor_num = pos 2;
  motor = motor_at 0 5 ∷ motor_at 1 6 ∷ motor_at 2 7 ∷ [];
}

abbrev blank_motors : List (Motor ℕ)
blank_motors = motor_at 0 0 ∷ motor_at 0 0 ∷ motor_at 0 0 ∷ []

abbrev reader : Reader ℕ
reader = record {
  participant = pos 1;
  sensor_callback = true;
  motion_callback = true;
  loans = 0;
  calls = [];
}

poll-Polled_example :
    Polled blank_motors
      (sample observed_state)
      reader
      (poll blank_motors (sample observed_state) reader)
poll-Polled_example = poll-Polled blank_motors (sample observed_state) reader (omega arith)

-- Double precision is natural here too.
abbrev doubles : Doubles ℕ ℕ
doubles = record {
  widen = λ n. n;
  zero_value = 0;
  half = 1;
  minus_one = 999;
  tiny = 0;
  plus = ◌+◌;
  times = ◌*◌;
  divide = λ a b. a / b;
  sqrt = λ n. n;
  sin = λ n. n;
  cos = λ n. n;
  is_finite = λ n. true;
  less = ltb;
}

abbrev frames : FrameConfig
frames = record {
  odom_frame_id = "odom";
  base_frame_id = "base_link";
  imu_frame_id = "imu_link";
  publish_joints = true;
}

abbrev message : MotionMessage ℕ
message = record {
  observed = record {
    timestamp = 123456000;
    motor_num = pos 2;
    imu = posture;
    motor = motor_at 0 5 ∷ motor_at 1 6 ∷ [];
  };
  power = record { charge_voltage = 48; charge_current = 1; temper = 30; power = 90 };
}

abbrev observing : StatusConfig
observing = record polling { battery_from_status = false }

abbrev watched : Bridge ℕ
watched = record walking { motion_observed_enabled = true }

abbrev silent : Outputs ℕ ℕ
silent = record { odometries = []; positions = []; beacons = []; joints = []; imus = [] }

abbrev stream : List (BatteryEvent ℕ)
stream = observes message ∷ observes message ∷ elapses 1000000000 ∷ observes message ∷ []

battery_events-IsPaced_example :
    let t = (battery_events docs floats calm observing doubles frames stream (watched, silent)).0 in
    length t.batteries * observing.battery_publish_period + watched.client.time
    ≤ suc (length watched.batteries) * observing.battery_publish_period + t.client.time
battery_events-IsPaced_example =
    battery_events-IsPaced docs floats calm observing doubles frames stream watched silent
      (λ k. absurd (ground arith))

-- Two of the three observations publish a battery message.
two_batteries :
    length
      (battery_events docs floats calm observing doubles frames stream
        (watched, silent)).0.batteries
    ≡ 2
unfolding publish_motion_observed read_clock
two_batteries = refl
