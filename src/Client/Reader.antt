-- ===== src/Client/Reader.antt =====
-- uniubi_motion_client/src/cere_sensor_reader.cpp: the reader of the robot's own samples. DDS is
-- not in the repository: its answers come with each call.
pub mod Polled
use uniubi_ros.Prelude.{
  ℕ, zero, suc, ◌-◌, ◌*◌, ◌/◌, ◌%◌, ◌^◌, ℤ, pos, negsuc, String, Bool, true, false, not, ◌&&◌, ◌||◌,
  ◌++◌, List, [], ◌∷◌, length, leb, str_eq, is_positive, if◌then◌else◌,
}
use uniubi_ros.Client.Samples.{
  Vector3, Quaternion, ImuState, Gps, Uwb, Odometry, Motor, BrainMotionState, SensorObserved,
  MotionObserved,
}
use uniubi_ros.Client.{Client, Exit, returned, threw}

-- A call of a callback.
pub data Observation (N : Type 0) : Type 0 where
  sensor_observed : SensorObserved N → Observation N
  motion_observed : MotionObserved N → Observation N

-- `Impl`, with the samples on loan, and the calls of the callbacks, the newest first.
pub record Reader (N : Type 0) : Type 0 where
  pub participant : ℤ
  pub sensor_callback : Bool
  pub motion_callback : Bool
  pub loans : ℕ
  pub calls : List (Observation N)

-- What `dds_take` finds.
pub data Taken (N : Type 0) : Type 0 where
  nothing : Taken N
  invalid : Taken N
  sample : BrainMotionState N → Taken N

-- The calls of DDS that create an entity, with the answer, or delete one.
pub data DdsCall : Type 0 where
  create_participant create_topic create_reader delete : ℤ → DdsCall

-- `in.timestamp <= max() / 1000`.
abbrev pub timestamp_valid : ℕ → Bool
timestamp_valid t = leb t ((2 ^ 64 - 1) / 1000)

-- `0 <= motorNum && motorNum <= size`.
unfoldable pub motors_valid : ℤ → ℕ → Bool
motors_valid (pos n) size = leb n size
motors_valid (negsuc n) size = false

abbrev pub motors_counted : ℤ → ℕ
motors_counted (pos n) = n
motors_counted (negsuc n) = 0

-- The destructor of `Impl`.
unfoldable pub close : ℤ → List DdsCall
close participant = if is_positive participant then delete participant ∷ [] else []

abbrev pub is_negative : ℤ → Bool
is_negative (pos n) = false
is_negative (negsuc n) = true

module _ {N : Type 0} where
  unfoldable pub copy_vector : Vector3 N → Vector3 N
  copy_vector v = record { error = v.error; x = v.x; y = v.y; z = v.z }

  unfoldable pub copy_imu : ImuState N → ImuState N
  unfolding copy_vector
  copy_imu v = record {
    temp = v.temp;
    accel = copy_vector v.accel;
    gyro = copy_vector v.gyro;
    mag = copy_vector v.mag;
    euler = copy_vector v.euler;
    quaternion = record {
      error = v.quaternion.error;
      w = v.quaternion.w;
      x = v.quaternion.x;
      y = v.quaternion.y;
      z = v.quaternion.z;
    };
  }

  unfoldable pub copy_motor : Motor N → Motor N
  copy_motor m = record {
    enable = m.enable;
    online = m.online;
    error = m.error;
    position = m.position;
    velocity = m.velocity;
    torque = m.torque;
    temp = m.temp;
    voltage = m.voltage;
    loss_rate = m.loss_rate;
    max_torque = m.max_torque;
    limbs_no = m.limbs_no;
    joint_no = m.joint_no;
  }

  -- The loop over the motors: the first elements of the message's array are replaced.
  unfoldable pub copy_motors : ℕ → List (Motor N) → List (Motor N) → List (Motor N)
  unfolding copy_motor
  copy_motors zero ins outs = outs
  copy_motors (suc n) (m ∷ ms) (o ∷ os) = copy_motor m ∷ copy_motors n ms os
  copy_motors (suc n) [] outs = outs
  copy_motors (suc n) (m ∷ ms) [] = []

  unfoldable pub sensor_valid : BrainMotionState N → Reader N → Bool
  sensor_valid input r = timestamp_valid input.timestamp && input.has_sensor && r.sensor_callback

  unfoldable pub motion_valid : BrainMotionState N → Reader N → Bool
  unfolding motors_valid
  motion_valid input r =
      timestamp_valid input.timestamp
      && input.has_motion
      && r.motion_callback
      && motors_valid input.motor_num (length input.motor)

  -- The fields of a part of the sample are those of the message's part.
  unfoldable pub sensor_of : BrainMotionState N → SensorObserved N
  sensor_of input = record {
    timestamp = input.timestamp * 1000 % 2 ^ 64;
    gps = input.gps;
    uwb = input.uwb;
    odom = input.odom;
  }

  -- `blank` is the array of motors of a new message.
  unfoldable pub motion_of : List (Motor N) → BrainMotionState N → MotionObserved N
  unfolding copy_imu copy_motors
  motion_of blank input = record {
    timestamp = input.timestamp * 1000 % 2 ^ 64;
    motor_num = input.motor_num;
    imu = copy_imu input.imu;
    motor = copy_motors (motors_counted input.motor_num) input.motor blank;
  }

  abbrev pub lend : Reader N → Reader N
  lend r = record r { loans = suc r.loans }

  abbrev pub return_loan : Reader N → Reader N
  return_loan r = record r { loans = r.loans - 1 }

  abbrev pub call_if : Bool → Observation N → Reader N → Reader N
  call_if due o r = if due then record r { calls = o ∷ r.calls } else r

  -- The callbacks of the client hand an observation on where it is enabled and has a callback.
  unfoldable pub is_handed_on : Client → Observation N → Bool
  is_handed_on s (sensor_observed o) = s.cere_sensor_enabled && s.sensor_observed_callback
  is_handed_on s (motion_observed o) = s.cere_motion_enabled && s.motion_observed_callback

  -- A tick of the timer.
  unfoldable pub poll : List (Motor N) → Taken N → Reader N → Reader N
  unfolding sensor_valid motion_valid sensor_of motion_of
  poll blank nothing r = r
  poll blank invalid r = return_loan (lend r)
  poll blank (sample input) r =
      call_if (motion_valid input r) (motion_observed (motion_of blank input))
        (call_if (sensor_valid input r) (sensor_observed (sensor_of input)) (return_loan (lend r)))

  -- The constructor, with the answers of DDS for the participant, the topic and the reader. An
  -- exception destroys `impl_`.
  unfoldable pub construct : String → Bool → Bool → ℤ → ℤ → ℤ → Exit (Reader N) × List DdsCall
  unfolding close
  construct topic sensor motion p t r =
      if str_eq topic ""
      then (threw "cere_motion_topic must not be empty", [])
      else if is_negative p
      then (threw "Failed to create cere DDS participant", create_participant p ∷ [])
      else if is_negative t
      then (
        threw "Failed to create cere DDS topic",
        create_participant p ∷ create_topic t ∷ close p,
      )
      else if is_negative r
      then (
        threw "Failed to create cere DDS reader",
        create_participant p ∷ create_topic t ∷ create_reader r ∷ close p,
      )
      else (
        returned (record {
          participant = p;
          sensor_callback = sensor;
          motion_callback = motion;
          loans = 0;
          calls = [];
        }),
        create_participant p ∷ create_topic t ∷ create_reader r ∷ [],
      )
