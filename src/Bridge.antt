-- ===== src/Bridge.antt =====
-- uniubi_motion_bridge/src/uniubi_motion_bridge_node.cpp: the state of the ROS node around the
-- motion client, its status, and how it calls the client.
pub mod Layout
pub mod Battery
pub mod Velocity
pub mod Commands
pub mod Results
pub mod Rollback
pub mod ActionParams
pub mod Watchdog
pub mod Services
pub mod Queries
pub mod BatteryQueries
pub mod Observed
pub mod Worker
pub mod Frames
use uniubi_ros.Prelude.{
  ℕ, zero, suc, ◌+◌, ◌-◌, ◌%◌, ◌^◌, String, Bool, true, false, not, ◌&&◌, ◌||◌, ◌++◌, Option, none,
  some, List, [], ◌∷◌, length, if◌then◌else◌,
}
use uniubi_ros.Client.{
  Client, Env, Exit, returned, threw, Response, Effect, connect_called, removed, HighLevelState,
  HighLevelError, no_error, disconnected, connected, controlled, is_disconnected, emit,
  get_last_error, read_clock,
}
use uniubi_ros.Bridge.Layout.{MotorLayoutEntry}
use uniubi_ros.Bridge.Battery.{BatteryState}

pub record CommandResult : Type 0 where
  pub success : Bool
  pub error_code : HighLevelError
  pub message : String

-- The velocities are of a type `N` of floating-point numbers; `received_at` is in nanoseconds of
-- the steady clock, and 0 is its epoch.
pub record VelocityCommand (N : Type 0) : Type 0 where
  pub linear_x : N
  pub linear_y : N
  pub angular_z : N
  pub received_at : ℕ

-- The message `MotionStatus`, without its stamp.
pub record MotionStatus (N : Type 0) : Type 0 where
  pub control_state : HighLevelState
  pub current_action : String
  pub line_velocity_x : N
  pub line_velocity_y : N
  pub angular_velocity : N
  pub last_error_code : HighLevelError
  pub last_error_message : String

-- The members of `MotionBridgeNode` that the commands, the velocity and the status change, the
-- client among them. An answer is what the future of the pending query holds, once it is ready.
-- `published` and `batteries` hold the status and the battery messages, the newest first.
pub record Bridge (N : Type 0) : Type 0 where
  pub client : Client
  pub rpc_ready : Bool
  pub current_action : String
  pub current_linear_x : N
  pub current_linear_y : N
  pub current_angular_z : N
  pub last_error_code : HighLevelError
  pub last_error_message : String
  pub last_error_from_query : Bool
  pub pending_velocity : Option (VelocityCommand N)
  pub last_velocity_received_at : ℕ
  pub next_velocity_dispatch_at : ℕ
  pub velocity_command_active : Bool
  pub velocity_watchdog_fired : Bool
  pub motion_status_query_sequence : ℕ
  pub motion_status_response_at : Option ℕ
  pub pending_motion_status_query : Option ℕ
  pub motion_status_answer : Option (Exit (Option Response))
  pub motion_status_query_deadline : ℕ
  pub next_motion_status_query_at : ℕ
  pub battery_status_query_sequence : ℕ
  pub battery_status_response_at : Option ℕ
  pub pending_battery_status_query : Option ℕ
  pub battery_status_answer : Option (Exit (Option Response))
  pub battery_status_query_deadline : ℕ
  pub next_battery_publish_at : ℕ
  pub motor_layout : List MotorLayoutEntry
  pub motion_observed_enabled : Bool
  pub published : List (MotionStatus N)
  pub batteries : List (BatteryState N)

-- What the code asks of floating-point numbers: 0, `std::isfinite`, and whether the absolute value
-- is more than 1e-6.
pub record Numbers (N : Type 0) : Type 0 where
  pub zero_value : N
  pub is_finite : N → Bool
  pub is_nonzero : N → Bool

abbrev pub is_none : HighLevelError → Bool
is_none no_error = true
is_none _ = false

abbrev pub forget_request : Option ℕ → Client → Client
forget_request none s = s
forget_request (some id) s = emit (removed id) s

module _ {N : Type 0} where
  unfoldable pub set_status_error : HighLevelError → String → Bool → Bridge N → Bridge N
  set_status_error error_code message from_query b = record b {
    last_error_code = error_code;
    last_error_message = message;
    last_error_from_query = from_query;
  }

  unfoldable pub clear_status_error : Bridge N → Bridge N
  clear_status_error b = record b {
    last_error_code = no_error;
    last_error_message = "";
    last_error_from_query = false;
  }

  -- The status with the state that the client has when it is published.
  unfoldable pub publish_in : HighLevelState → Bridge N → Bridge N
  publish_in state b = record b {
    published =
        record {
          control_state = if b.rpc_ready then state else disconnected;
          current_action = b.current_action;
          line_velocity_x = b.current_linear_x;
          line_velocity_y = b.current_linear_y;
          angular_velocity = b.current_angular_z;
          last_error_code = b.last_error_code;
          last_error_message = b.last_error_message;
        }
        ∷ b.published;
  }

  unfoldable pub publish_motion_status : Bridge N → Bridge N
  unfolding publish_in
  publish_motion_status b = publish_in b.client.state b

  unfoldable pub cancel_motion_status_query : Bridge N → Bridge N
  cancel_motion_status_query b = record b {
    client = forget_request b.pending_motion_status_query b.client;
    motion_status_query_sequence = (b.motion_status_query_sequence + 1) % 2 ^ 64;
    motion_status_response_at = none;
    pending_motion_status_query = none;
    motion_status_answer = none;
  }

  unfoldable pub cancel_battery_status_query : Bridge N → Bridge N
  cancel_battery_status_query b = record b {
    client = forget_request b.pending_battery_status_query b.client;
    battery_status_query_sequence = (b.battery_status_query_sequence + 1) % 2 ^ 64;
    battery_status_response_at = none;
    pending_battery_status_query = none;
    battery_status_answer = none;
  }

  unfoldable pub reset_velocity_tracking : Bridge N → Bridge N
  reset_velocity_tracking b = record b {
    pending_velocity = none;
    last_velocity_received_at = 0;
    next_velocity_dispatch_at = 0;
    velocity_command_active = false;
    velocity_watchdog_fired = false;
  }

  -- The velocities of the status set to zero, and the action forgotten.
  unfoldable pub forget_action : Numbers N → Bridge N → Bridge N
  forget_action numbers b = record b {
    current_action = "";
    current_linear_x = numbers.zero_value;
    current_linear_y = numbers.zero_value;
    current_angular_z = numbers.zero_value;
  }

-- The calls of the connection callback among the newest `count` effects, the oldest first.
abbrev pub callbacks : ℕ → List (ℕ × Effect) → List (HighLevelState × HighLevelError)
callbacks zero es = []
callbacks (suc k) [] = []
callbacks (suc k) ((at, connect_called state error) ∷ es) = callbacks k es ++ ((state, error) ∷ [])
callbacks (suc k) ((at, other) ∷ es) = callbacks k es

module _ {N : Type 0} (numbers : Numbers N) where
  -- The callback that the constructor gives to `setConnectCallback`.
  unfoldable pub on_connect : HighLevelState × HighLevelError → Bridge N → Bridge N
  unfolding set_status_error reset_velocity_tracking forget_action cancel_motion_status_query
      cancel_battery_status_query publish_in
  on_connect (state, error) b =
      let t =
        if is_disconnected state
        then reset_velocity_tracking
            (forget_action numbers (cancel_battery_status_query (cancel_motion_status_query b)))
        else b in
      publish_in state (
        if is_none error
        then t
        else set_status_error error "motion control state changed with an error" false t)

  unfoldable pub on_connects : List (HighLevelState × HighLevelError) → Bridge N → Bridge N
  on_connects [] b = b
  on_connects (c ∷ cs) b = on_connects cs (on_connect c b)

  -- A call of the client: the callbacks that it made during the call have run.
  unfoldable pub after_call : Client → Bridge N → Bridge N
  after_call t b =
      on_connects (callbacks (length t.trace - length b.client.trace) t.trace)
        (record b { client = t })

  unfoldable pub call_client : (Client → Exit Bool × Client) → Bridge N → Exit Bool × Bridge N
  call_client call b = let (result, t) = call b.client in (result, after_call t b)

  -- `success ? kNone : motion_client_->getLastError()`.
  unfoldable pub error_of : Bool → Bridge N → HighLevelError × Bridge N
  unfolding get_last_error
  error_of true b = (no_error, b)
  error_of false b = let (error, t) = get_last_error b.client in (error, record b { client = t })

-- What throws ends a command.
abbrev pub and_then :
    {A B N : Type 0} → Exit A × Bridge N → (A → Bridge N → Exit B × Bridge N) → Exit B × Bridge N
and_then (returned a, b) k = k a b
and_then (threw what, b) k = (threw what, b)
