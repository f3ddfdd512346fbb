-- ===== src/Bridge/Observed.antt =====
-- uniubi_motion_bridge_node.cpp: what the node publishes from the observations of the robot.
-- Messages are without their stamps and the members that are never set; their double precision is a
-- type `D`.
pub mod Paced
use uniubi_ros.Prelude.{
  ℕ, ◌+◌, ℤ, String, Bool, true, false, not, ◌&&◌, ◌||◌, ◌++◌, Option, none, some, List, [], ◌∷◌,
  map, leb, is_zero, if◌then◌else◌,
}
use uniubi_ros.Json.{Json}
use uniubi_ros.Client.{Env}
use uniubi_ros.Client.Reader.{Observation, sensor_observed, motion_observed, is_handed_on}
use uniubi_ros.Client.Samples.{
  Vector3, Quaternion, ImuState, Gps, Uwb, Odometry, Motor, SensorObserved, MotionObserved,
}
use uniubi_ros.Bridge.{Bridge}
use uniubi_ros.Bridge.Battery.{Floats, PowerObserved, publish_battery}
use uniubi_ros.Bridge.Layout.{JointSample, publish_joint_states}
use uniubi_ros.Bridge.Layout as Layout
use uniubi_ros.Bridge.Velocity.{bridge_clock}
use uniubi_ros.Bridge.Queries.{StatusConfig}

-- What the code asks of double precision; `tiny` is 1e-6, `minus_one` is -1.
pub record Doubles (N D : Type 0) : Type 0 where
  pub widen : N → D
  pub zero_value : D
  pub half : D
  pub minus_one : D
  pub tiny : D
  pub plus : D → D → D
  pub times : D → D → D
  pub divide : D → D → D
  pub sqrt : D → D
  pub sin : D → D
  pub cos : D → D
  pub is_finite : D → Bool
  pub less : D → D → Bool

pub record FrameConfig : Type 0 where
  pub odom_frame_id : String
  pub base_frame_id : String
  pub imu_frame_id : String
  pub publish_joints : Bool

-- `position` and `linear` have the numbers of x, y and z; the orientation has no x and no y, and both
-- covariances begin with -1.
pub record OdometryMessage (D : Type 0) : Type 0 where
  pub frame_id : String
  pub child_frame_id : String
  pub position : List D
  pub orientation_z : D
  pub orientation_w : D
  pub linear : List D
  pub angular_z : D
  pub pose_covariance : D
  pub twist_covariance : D

-- `orientation` has w, x, y and z, where it is known; else its covariance begins with -1.
pub record ImuMessage (D : Type 0) : Type 0 where
  pub frame_id : String
  pub linear_acceleration : List D
  pub angular_velocity : List D
  pub orientation : List D
  pub orientation_covariance : D

-- `uniubi::msg::MotionObserved`, with the power that the topic has and the reader leaves out.
pub record MotionMessage (N : Type 0) : Type 0 where
  pub observed : MotionObserved N
  pub power : PowerObserved N

-- What was published, the newest first; battery messages are in the node.
pub record Outputs (N D : Type 0) : Type 0 where
  pub odometries : List (OdometryMessage D)
  pub positions : List (ℕ × Gps N)
  pub beacons : List (ℕ × Uwb N)
  pub joints : List (List (JointSample N))
  pub imus : List (ImuMessage D)

abbrev pub push_some {ℓ} : {A : Type ℓ} → Option A → List A → List A
push_some none xs = xs
push_some (some x) xs = x ∷ xs

module _ {N D : Type 0} (doubles : Doubles N D) (frames : FrameConfig) where
  open doubles use {widen, half, minus_one, tiny, plus, times, divide, sqrt, sin, cos, less}

  -- `publish_odometry`: the message, if one is published.
  unfoldable pub publish_odometry : Odometry N → Option (OdometryMessage D)
  publish_odometry input =
      if not input.valid
      then none
      else some (record {
        frame_id = frames.odom_frame_id;
        child_frame_id = frames.base_frame_id;
        position = map widen input.position;
        orientation_z = sin (times (widen input.yaw) half);
        orientation_w = cos (times (widen input.yaw) half);
        linear = map widen input.velocity;
        angular_z = widen input.yaw_speed;
        pose_covariance = minus_one;
        twist_covariance = minus_one;
      })

  abbrev pub square : N → D
  square x = times (widen x) (widen x)

  unfoldable pub norm_of : Quaternion N → D
  norm_of q = sqrt (plus (plus (plus (square q.w) (square q.x)) (square q.y)) (square q.z))

  abbrev pub xyz : Vector3 N → List D
  xyz v = widen v.x ∷ widen v.y ∷ widen v.z ∷ []

  abbrev pub scaled : Quaternion N → D → List D
  scaled q norm =
      divide (widen q.w) norm
      ∷ divide (widen q.x) norm
      ∷ divide (widen q.y) norm
      ∷ divide (widen q.z) norm
      ∷ []

  unfoldable pub is_oriented : Quaternion N → Bool
  unfolding norm_of
  is_oriented q = is_zero q.error && doubles.is_finite (norm_of q) && less tiny (norm_of q)

  unfoldable pub imu_message : ImuState N → ImuMessage D
  unfolding is_oriented norm_of
  imu_message imu = record {
    frame_id = frames.imu_frame_id;
    linear_acceleration = xyz imu.accel;
    angular_velocity = xyz imu.gyro;
    orientation =
        if is_oriented imu.quaternion then scaled imu.quaternion (norm_of imu.quaternion) else [];
    orientation_covariance = if is_oriented imu.quaternion then doubles.zero_value else minus_one;
  }

  abbrev pub all_finite : (N → Bool) → Vector3 N → Bool
  all_finite is_finite v = is_finite v.x && is_finite v.y && is_finite v.z

  -- `publish_imu`: the message, if one is published.
  unfoldable pub publish_imu : (N → Bool) → ImuState N → Option (ImuMessage D)
  unfolding imu_message
  publish_imu is_finite imu =
      if not (is_zero imu.accel.error)
        || not (is_zero imu.gyro.error)
        || not (all_finite is_finite imu.accel)
        || not (all_finite is_finite imu.gyro)
      then none
      else some (imu_message imu)

  -- The callback on the sensors, which the client calls.
  unfoldable pub on_sensor_observed : SensorObserved N → Outputs N D → Outputs N D
  unfolding publish_odometry
  on_sensor_observed sensor out = record out {
    odometries = push_some (publish_odometry sensor.odom) out.odometries;
    positions = (sensor.timestamp, sensor.gps) ∷ out.positions;
    beacons = (sensor.timestamp, sensor.uwb) ∷ out.beacons;
  }

-- The members of a motor that the joint states are made of.
abbrev pub joint_of : {N : Type 0} → Motor N → Layout.MotorObserved N
joint_of m = record {
  header = record { limb_no = m.limbs_no; joint_no = m.joint_no };
  position = m.position;
  velocity = m.velocity;
  torque = m.torque;
}

module _ {V N : Type 0} (json : Json V) (floats : Floats V N) (env : Env)
    (config : StatusConfig) where
  -- The battery message of an observation, unless the batteries come from the status query or the
  -- last message is too recent.
  unfoldable pub publish_due_battery : PowerObserved N → Bridge N → Bridge N
  unfolding bridge_clock
  publish_due_battery power b =
      let (now, t) = bridge_clock env b in
      if not config.battery_from_status && leb t.next_battery_publish_at now
      then record t {
        batteries = publish_battery json floats power ∷ t.batteries;
        next_battery_publish_at = now + config.battery_publish_period;
      }
      else t

module _ {V N D : Type 0} (json : Json V) (floats : Floats V N) (env : Env) (config : StatusConfig)
    (doubles : Doubles N D) (frames : FrameConfig) where
  -- `publish_motion_observed`, the callback on the motion.
  unfoldable pub publish_motion_observed :
      MotionMessage N → Bridge N × Outputs N D → Bridge N × Outputs N D
  unfolding publish_due_battery publish_imu
  publish_motion_observed input (b, out) = if not b.motion_observed_enabled then (b, out) else (
    publish_due_battery json floats env config input.power b,
    record out {
      joints =
          push_some
            (publish_joint_states frames.publish_joints b.motor_layout input.observed.motor_num
              (map joint_of input.observed.motor))
            out.joints;
      imus = push_some (publish_imu doubles frames floats.is_finite input.observed.imu) out.imus;
    },
  )

  unfoldable pub take_observation :
      PowerObserved N → Observation N → Bridge N × Outputs N D → Bridge N × Outputs N D
  unfolding publish_motion_observed on_sensor_observed
  take_observation power (sensor_observed o) (b, out) = (b, on_sensor_observed doubles frames o out)
  take_observation power (motion_observed o) x =
      publish_motion_observed (record { observed = o; power = power }) x

  -- An observation of the on-board reader, through the client's callback; `power` is what a new message
  -- has there.
  unfoldable pub hand_on_observation :
      PowerObserved N → Observation N → Bridge N × Outputs N D → Bridge N × Outputs N D
  unfolding take_observation is_handed_on
  hand_on_observation power o (b, out) =
      if is_handed_on b.client o then take_observation power o (b, out) else (b, out)
