-- ===== src/Client/Samples.antt =====
-- The samples of DDS that uniubi_motion_client/src/cere_sensor_reader.cpp reads, and the messages of
-- `uniubi::msg` that it makes. Their types are not in the repository: these are the members that it
-- names. Floating-point numbers are of a type `N`, other numbers are integers.
use uniubi_ros.Prelude.{ℕ, ℤ, Bool, List}

pub record Vector3 (N : Type 0) : Type 0 where
  pub error : ℤ
  pub x : N
  pub y : N
  pub z : N

pub record Quaternion (N : Type 0) : Type 0 where
  pub error : ℤ
  pub w : N
  pub x : N
  pub y : N
  pub z : N

pub record ImuState (N : Type 0) : Type 0 where
  pub temp : N
  pub accel : Vector3 N
  pub gyro : Vector3 N
  pub mag : Vector3 N
  pub euler : Vector3 N
  pub quaternion : Quaternion N

pub record Gps (N : Type 0) : Type 0 where
  pub valid : Bool
  pub speed : N
  pub level : ℤ
  pub rssi : ℤ
  pub lat : N
  pub lng : N

pub record Uwb (N : Type 0) : Type 0 where
  pub valid : Bool
  pub pair_state : ℤ
  pub rssi : ℤ
  pub pitch : ℤ
  pub azimuth : ℤ
  pub distance : ℤ
  pub beacon_id : ℤ

-- `position` and `velocity` have three numbers.
pub record Odometry (N : Type 0) : Type 0 where
  pub valid : Bool
  pub epoch : ℤ
  pub yaw : N
  pub yaw_speed : N
  pub position : List N
  pub velocity : List N

-- A motor, in the sample and in the message.
pub record Motor (N : Type 0) : Type 0 where
  pub enable : Bool
  pub online : Bool
  pub error : ℤ
  pub position : N
  pub velocity : N
  pub torque : N
  pub temp : N
  pub voltage : N
  pub loss_rate : N
  pub max_torque : N
  pub limbs_no : ℕ
  pub joint_no : ℕ

-- `uniubi_dds__BrainMotionState`; the timestamp is of 64 bits, and `motor` is an array of fixed size.
pub record BrainMotionState (N : Type 0) : Type 0 where
  pub timestamp : ℕ
  pub has_sensor : Bool
  pub has_motion : Bool
  pub gps : Gps N
  pub uwb : Uwb N
  pub odom : Odometry N
  pub imu : ImuState N
  pub motor_num : ℤ
  pub motor : List (Motor N)

pub record SensorObserved (N : Type 0) : Type 0 where
  pub timestamp : ℕ
  pub gps : Gps N
  pub uwb : Uwb N
  pub odom : Odometry N

-- The message without its `power`, which the reader leaves as it is.
pub record MotionObserved (N : Type 0) : Type 0 where
  pub timestamp : ℕ
  pub motor_num : ℤ
  pub imu : ImuState N
  pub motor : List (Motor N)
