-- ===== src/Bridge/Queries.antt =====
-- uniubi_motion_bridge_node.cpp: `update_motion_status`, the query that the worker sends and reads
-- without waiting, and the callback on its answer.
-- "JSON" stands for the text of an exception of jsoncpp, "RPC" for that of a request that cannot be
-- sent.
pub mod Answers
pub mod Watched
pub mod Timely
use uniubi_ros.Prelude.{
  ℕ, ◌+◌, ◌%◌, ◌^◌, String, Bool, true, false, not, ◌&&◌, ◌||◌, Option, none, some, List, ◌∷◌, ltb,
  leb, ◌==◌, is_zero, if◌then◌else◌,
}
use uniubi_ros.Json.{Json, Parsed, value, malformed, fault}
use uniubi_ros.Rpc.{client_request}
use uniubi_ros.Client.{
  Client, Env, Exit, returned, threw, Response, sent_async, rpc_call_failed, action_rejected,
  is_disconnected, ms, emit,
}
use uniubi_ros.Bridge.{
  Bridge, set_status_error, clear_status_error, publish_motion_status, cancel_motion_status_query,
  cancel_battery_status_query,
}
use uniubi_ros.Bridge.Battery.{Floats, BatteryState, battery_from_system_status, is_true}
use uniubi_ros.Bridge.Velocity.{bridge_clock}

-- The node's own parameters; periods are in nanoseconds.
pub record StatusConfig : Type 0 where
  pub motion_status_publish_period : ℕ
  pub battery_publish_period : ℕ
  pub battery_from_status : Bool

abbrev pub value_or : Option ℕ → ℕ → ℕ
value_or none d = d
value_or (some x) d = x

abbrev pub is_pending : Option ℕ → ℕ → Bool
is_pending none id = false
is_pending (some k) id = k == id

module _ {N : Type 0} (env : Env) where
  -- The executor hands on the answer to the request `id` of a status query: the future has it, and
  -- the callback, which captured `sequence`, notes the time.
  unfoldable pub answer_motion_status : ℕ → ℕ → Exit (Option Response) → Bridge N → Bridge N
  unfolding bridge_clock
  answer_motion_status id sequence future b =
      if not (is_pending b.pending_motion_status_query id)
      then b
      else (let t = record b { motion_status_answer = some future } in
          if sequence == t.motion_status_query_sequence
          then (let (now, u) = bridge_clock env t in
              record u { motion_status_response_at = some now })
          else t)

module _ {V N : Type 0} (json : Json V) (floats : Floats V N) (env : Env)
    (config : StatusConfig) where
  open json use {
    null_value, object_value, member, is_member, is_null, is_bool, is_string, is_numeric, is_object,
    as_bool, as_string, parse,
  }
  open floats use {as_float, zero_value}

  -- The `catch` of `update_motion_status`.
  unfoldable pub motion_status_failed : ℕ → String → Bridge N → Bridge N
  unfolding cancel_motion_status_query set_status_error publish_motion_status
  motion_status_failed now what b = publish_motion_status (
      set_status_error rpc_call_failed what true (record (cancel_motion_status_query b) {
        next_motion_status_query_at = now + config.motion_status_publish_period;
      }))

  abbrev pub float_member : V → String → N
  float_member root name =
      if is_member root name && is_numeric (member root name)
      then as_float (member root name)
      else zero_value

  abbrev pub string_member : V → String → String
  string_member root name =
      if is_member root name && is_string (member root name)
      then as_string (member root name)
      else ""

  -- The motion state that the service named becomes the status.
  unfoldable pub adopt_motion_state : V → Bridge N → Bridge N
  unfolding clear_status_error publish_motion_status
  adopt_motion_state root b =
      let t = record b {
        current_action = string_member root "action";
        current_linear_x = float_member root "lineVelocityX";
        current_linear_y = float_member root "lineVelocityY";
        current_angular_z = float_member root "velocity";
      } in
      publish_motion_status (if t.last_error_from_query then clear_status_error t else t)

  -- `payload["params"]`, or an empty object for null.
  abbrev pub params_of : V → V
  params_of payload =
      if is_null (member payload "params") then object_value else member payload "params"

  unfoldable pub read_motion_state : ℕ → Parsed V → Bridge N → Bridge N
  unfolding motion_status_failed adopt_motion_state set_status_error publish_motion_status
  read_motion_state now fault b = motion_status_failed now "JSON" b
  read_motion_state now malformed b =
      motion_status_failed now "queryMotionState returned invalid response" b
  read_motion_state now (value payload) b =
      if not (is_object payload) || not (is_bool (member payload "result"))
      then motion_status_failed now "queryMotionState returned invalid response" b
      else if not (is_true (as_bool (member payload "result")))
      then publish_motion_status
          (set_status_error action_rejected "queryMotionState rejected" true b)
      else if not (is_object (params_of payload))
      then motion_status_failed now "queryMotionState returned invalid state" b
      else adopt_motion_state (params_of payload) b

  unfoldable pub read_motion_response : ℕ → Option Response → Bridge N → Bridge N
  unfolding read_motion_state motion_status_failed
  read_motion_response now none b = motion_status_failed now "queryMotionState RPC failed" b
  read_motion_response now (some response) b =
      if is_zero response.code
      then read_motion_state now (parse response.payload) b
      else motion_status_failed now "queryMotionState RPC failed" b

  -- The future is read: `get` throws what it holds, or the query is over.
  unfoldable pub settle_motion_status : ℕ → Exit (Option Response) → Bridge N → Bridge N
  unfolding read_motion_response motion_status_failed
  settle_motion_status now (threw what) b = motion_status_failed now what b
  settle_motion_status now (returned response) b = read_motion_response now response (record b {
    pending_motion_status_query = none;
    motion_status_answer = none;
    next_motion_status_query_at = now + config.motion_status_publish_period;
  })

  unfoldable pub record_motion_query : ℕ → Option ℕ → Bridge N → Bridge N
  unfolding motion_status_failed client_request
  record_motion_query now none b = motion_status_failed now "RPC" b
  record_motion_query now (some id) b = record b {
    client =
        emit
          (sent_async
            (client_request json (env.system_ms b.client.steps) b.client.client_id
              b.client.device_id "robotAppService" "queryMotionState" object_value
              b.client.client_id)
            id)
          b.client;
    pending_motion_status_query = some id;
    motion_status_query_deadline = now + ms 1000;
  }

  unfoldable pub send_motion_query : ℕ → Bridge N → Bridge N
  unfolding record_motion_query
  send_motion_query now b = record_motion_query now (env.async_send b.client.steps) (record b {
    motion_status_query_sequence = (b.motion_status_query_sequence + 1) % 2 ^ 64;
    motion_status_response_at = none;
    motion_status_answer = none;
  })

  unfoldable pub poll_answer : ℕ → Option (Exit (Option Response)) → Bridge N → Bridge N
  poll_answer now none b = b
  poll_answer now (some future) b = settle_motion_status now future b

  -- The `try` block of `update_motion_status` with a query in flight, and with none.
  unfoldable pub poll_motion_status : ℕ → Option ℕ → Bridge N → Bridge N
  unfolding poll_answer send_motion_query motion_status_failed
  poll_motion_status now (some id) b =
      if leb b.motion_status_query_deadline (value_or b.motion_status_response_at now)
      then motion_status_failed now "queryMotionState timed out after 1000 ms" b
      else poll_answer now b.motion_status_answer b
  poll_motion_status now none b =
      if ltb now b.next_motion_status_query_at then b else send_motion_query now b

  unfoldable pub update_motion_status : Bridge N → Bridge N
  unfolding bridge_clock cancel_motion_status_query poll_motion_status
  update_motion_status b =
      let (now, t) = bridge_clock env b in
      if not t.rpc_ready || is_disconnected t.client.state
      then cancel_motion_status_query t
      else poll_motion_status now t.pending_motion_status_query t
