-- ===== src/Client.antt =====
-- uniubi_motion_client/src/motion_high_level_client.cpp: the state of a client and of the world
-- that it talks to. Times are readings of the steady clock, in nanoseconds.
pub mod Renew
pub mod Events
pub mod Calls
pub mod Construct
pub mod Observation
pub mod Samples
pub mod Reader
pub mod Session
pub mod Queries
pub mod Commands
pub mod Stable
pub mod Invariant
pub mod Machine
pub mod Kept
pub mod StateChange
pub mod SessionKept
pub mod ObservedKept
pub mod Preservation
pub mod Lease
pub mod Payload
pub mod Routing
pub mod Verdict
pub mod Trace
pub mod Clock
pub mod Guards
pub mod Acquisition
pub mod Outcome
pub mod Renewal
pub mod Reachable
use uniubi_ros.Prelude.{
  ℕ, suc, ◌+◌, ◌*◌, ℤ, String, Bool, true, false, Option, List, ◌∷◌, if◌then◌else◌, positive_or,
  str_eq,
}
use uniubi_ros.Rpc.{Request}

pub data HighLevelState : Type 0 where
  disconnected connected controlled : HighLevelState

pub data HighLevelError : Type 0 where
  no_error rpc_connect_failed rpc_acquire_rejected rpc_call_failed : HighLevelError
  session_expired session_revoked not_connected not_controlled action_rejected : HighLevelError

abbrev pub is_controlled : HighLevelState → Bool
is_controlled controlled = true
is_controlled _ = false

abbrev pub is_disconnected : HighLevelState → Bool
is_disconnected disconnected = true
is_disconnected _ = false

-- `std::chrono::milliseconds` in nanoseconds.
abbrev pub ms : ℕ → ℕ
ms n = n * 1000000

abbrev pub default_lease_ms : ℕ
default_lease_ms = 60000

-- What the client does to the world.
pub data Effect : Type 0 where
  -- a synchronous request with its timeout, and one that is not waited for with its identifier
  sent : Request → ℕ → Effect
  sent_async : Request → ℕ → Effect
  removed : ℕ → Effect
  removed_future : Effect
  slept : ℕ → Effect
  connect_called : HighLevelState → HighLevelError → Effect
  event_called : String → String → Effect

-- `trace` holds the effects with their times, the newest first. `steps` numbers the occasions on
-- which the world answers.
pub record World : Type 0 where
  pub time : ℕ
  pub steps : ℕ
  pub trace : List (ℕ × Effect)

-- A member that is a timer, a subscription or a callback is a Boolean: whether it is set.
pub record Client : Type 0 where
  pub ros_service_name : String
  pub device_id : String
  pub client_id : String
  pub event_topic : String
  pub sensor_observed_topic : String
  pub motion_observed_topic : String
  pub sensor_observed_source : String
  pub cere_motion_topic : String
  pub controller : String
  pub lease_ms : ℤ
  pub state : HighLevelState
  pub last_error : HighLevelError
  pub renew_timer : Bool
  pub pending_renew_request_id : Option ℕ
  pub pending_renew_deadline : Option ℕ
  pub last_control_activity_at : ℕ
  pub renew_sequence : ℕ
  pub event_subscription : Bool
  pub sensor_observed_subscription : Bool
  pub motion_observed_subscription : Bool
  pub cere_sensor_reader : Bool
  pub cere_sensor_enabled : Bool
  pub cere_motion_enabled : Bool
  pub connect_callback : Bool
  pub event_callback : Bool
  pub sensor_observed_callback : Bool
  pub motion_observed_callback : Bool
  pub world : World
  pub open world use {time, steps, trace}

-- A response of the service `uniubi::srv::System`.
pub record Response : Type 0 where
  pub code : ℤ
  pub payload : String

pub record EventMessage : Type 0 where
  pub magic : ℕ
  pub topic : String
  pub payload : String

-- A call returns, or throws with the text of the exception.
pub data Exit {ℓ} (A : Type ℓ) : Type ℓ where
  returned : A → Exit A
  threw : String → Exit A

-- How a synchronous request ends: sending throws, the future has a response (or a null pointer),
-- the wait times out, or the executor is interrupted.
pub data Reply : Type 0 where
  send_failed : String → Reply
  answered : Option Response → Reply
  timed_out interrupted : Reply

-- What the executor runs while it spins: the renew timer, the response callback of a renewal
-- (with the sequence number and the controller that it captured), an event.
pub data Input : Type 0 where
  renew_tick : Input
  renew_response : ℕ → String → Exit (Option Response) → Input
  event : EventMessage → Input

-- The answers of ROS, of the clocks and of the service, by the number of the occasion.
pub record Env : Type 0 where
  pub elapse : ℕ → ℕ
  pub system_ms : ℕ → ℕ
  pub service_ready : ℕ → Bool
  pub inputs : ℕ → List Input
  pub reply : ℕ → Request → Reply
  pub async_send : ℕ → Option ℕ
  -- the exception with which the constructor of `CereSensorReader` ends, if it does
  pub reader_failure : ℕ → Option String

abbrev pub emit : Effect → Client → Client
emit e s = record s { world = record s.world { trace = (s.time, e) ∷ s.trace } }

-- `set_error`.
unfoldable pub set_error : HighLevelError → Client → Client
set_error error s = record s { last_error = error }

-- `connect_callback_(state, error)` behind its test.
unfoldable pub notify : HighLevelState → HighLevelError → Client → Client
notify state error s = if s.connect_callback then emit (connect_called state error) s else s

-- `timeout_from_ms`, and the same choice for the lease: a value that is not positive is replaced.
unfoldable pub timeout_from_ms : ℤ → ℕ
timeout_from_ms timeout_ms = ms (positive_or 5000 timeout_ms)

unfoldable pub lease_duration_ms : Client → ℕ
lease_duration_ms s = positive_or default_lease_ms s.lease_ms

-- At least `d` passes, and the world answers once.
unfoldable pub pass : Env → ℕ → Client → Client
pass env d s = record s {
  world = record s.world { time = s.time + d + env.elapse s.steps; steps = suc s.steps };
}

-- `steady_clock::now()`: the reading and the client behind it.
unfoldable pub read_clock : Env → Client → ℕ × Client
unfolding pass
read_clock env s = let t = pass env 0 s in (t.time, t)

unfoldable pub sleep_for : Env → ℕ → Client → Client
unfolding pass
sleep_for env d s = pass env d (emit (slept d) s)

-- `mark_control_activity`.
unfoldable pub mark_control_activity : Env → Client → Client
unfolding read_clock
mark_control_activity env s =
    let (now, t) = read_clock env s in record t { last_control_activity_at = now }

-- `ensure_connected`.
unfoldable pub ensure_connected : Client → Bool × Client
unfolding set_error
ensure_connected s =
    if is_disconnected s.state then (false, set_error not_connected s) else (true, s)

-- `ensure_controlled`.
unfoldable pub ensure_controlled : Client → Bool × Client
unfolding set_error
ensure_controlled s =
    if is_controlled s.state then (true, s) else (false, set_error not_controlled s)

-- The client that the calls of a controller or, without one, the client itself name.
unfoldable pub caller : Client → String
caller s = if str_eq s.controller "" then s.client_id else s.controller

-- `getLastError`: reading the error clears it.
unfoldable pub get_last_error : Client → HighLevelError × Client
unfolding set_error
get_last_error s = (s.last_error, set_error no_error s)

-- The four callback setters act only while disconnected; the argument says whether the new
-- callback is callable.
unfoldable pub set_connect_callback : Bool → Client → Client
set_connect_callback cb s =
    if is_disconnected s.state then record s { connect_callback = cb } else s

unfoldable pub set_event_callback : Bool → Client → Client
set_event_callback cb s = if is_disconnected s.state then record s { event_callback = cb } else s

unfoldable pub set_sensor_observed_callback : Bool → Client → Client
set_sensor_observed_callback cb s =
    if is_disconnected s.state then record s { sensor_observed_callback = cb } else s

unfoldable pub set_motion_observed_callback : Bool → Client → Client
set_motion_observed_callback cb s =
    if is_disconnected s.state then record s { motion_observed_callback = cb } else s
