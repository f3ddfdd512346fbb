-- ===== src/Bridge/BatteryQueries.antt =====
-- uniubi_motion_bridge_node.cpp: `update_battery_status`, and the callback on the answer to its query.
use uniubi_ros.Prelude.{
  ℕ, ◌+◌, ◌%◌, ◌^◌, not, ◌||◌, Option, none, some, ◌∷◌, ltb, leb, ◌==◌, is_zero, if◌then◌else◌,
}
use uniubi_ros.Json.{Json, Parsed, value, malformed, fault}
use uniubi_ros.Rpc.{client_request}
use uniubi_ros.Client.{Env, Exit, returned, threw, Response, sent_async, ms, emit}
use uniubi_ros.Bridge.{Bridge, cancel_battery_status_query}
use uniubi_ros.Bridge.Battery.{Floats, BatteryState, battery_from_system_status, is_true}
use uniubi_ros.Bridge.Velocity.{bridge_clock}
use uniubi_ros.Bridge.Queries.{StatusConfig, value_or, is_pending}

module _ {N : Type 0} (env : Env) where
  -- As for the motion status.
  unfoldable pub answer_battery_status : ℕ → ℕ → Exit (Option Response) → Bridge N → Bridge N
  unfolding bridge_clock
  answer_battery_status id sequence future b =
      if not (is_pending b.pending_battery_status_query id)
      then b
      else (let t = record b { battery_status_answer = some future } in
          if sequence == t.battery_status_query_sequence
          then (let (now, u) = bridge_clock env t in
              record u { battery_status_response_at = some now })
          else t)

module _ {V N : Type 0} (json : Json V) (floats : Floats V N) (env : Env)
    (config : StatusConfig) where
  open json use {null_value, member, is_bool, is_object, as_bool, parse}

  -- The `catch` of `update_battery_status`.
  unfoldable pub battery_status_failed : ℕ → Bridge N → Bridge N
  unfolding cancel_battery_status_query
  battery_status_failed now b = record (cancel_battery_status_query b) {
    next_battery_publish_at = now + config.battery_publish_period;
  }

  unfoldable pub publish_measured : ℕ → Exit (Option (BatteryState N)) → Bridge N → Bridge N
  unfolding battery_status_failed
  publish_measured now (threw what) b = battery_status_failed now b
  publish_measured now (returned none) b = battery_status_failed now b
  publish_measured now (returned (some battery)) b = record b { batteries = battery ∷ b.batteries }

  unfoldable pub read_system_status : ℕ → Parsed V → Bridge N → Bridge N
  unfolding battery_status_failed publish_measured
  read_system_status now fault b = battery_status_failed now b
  read_system_status now malformed b = battery_status_failed now b
  read_system_status now (value payload) b =
      if not (is_object payload)
        || not (is_bool (member payload "result"))
        || not (is_true (as_bool (member payload "result")))
      then battery_status_failed now b
      else publish_measured now (battery_from_system_status json floats (member payload "params")) b

  unfoldable pub read_battery_response : ℕ → Option Response → Bridge N → Bridge N
  unfolding read_system_status battery_status_failed
  read_battery_response now none b = battery_status_failed now b
  read_battery_response now (some response) b =
      if is_zero response.code
      then read_system_status now (parse response.payload) b
      else battery_status_failed now b

  unfoldable pub settle_battery_status : ℕ → Exit (Option Response) → Bridge N → Bridge N
  unfolding read_battery_response battery_status_failed
  settle_battery_status now (threw what) b = battery_status_failed now b
  settle_battery_status now (returned response) b = read_battery_response now response (record b {
    pending_battery_status_query = none;
    battery_status_answer = none;
    next_battery_publish_at = now + config.battery_publish_period;
  })

  unfoldable pub record_battery_query : ℕ → Option ℕ → Bridge N → Bridge N
  unfolding battery_status_failed client_request
  record_battery_query now none b = battery_status_failed now b
  record_battery_query now (some id) b = record b {
    client =
        emit
          (sent_async
            (client_request json (env.system_ms b.client.steps) b.client.client_id
              b.client.device_id "robotAppService" "getSystemStatus" null_value b.client.client_id)
            id)
          b.client;
    pending_battery_status_query = some id;
    battery_status_query_deadline = now + ms 1000;
  }

  unfoldable pub send_battery_query : ℕ → Bridge N → Bridge N
  unfolding record_battery_query
  send_battery_query now b = record_battery_query now (env.async_send b.client.steps) (record b {
    battery_status_query_sequence = (b.battery_status_query_sequence + 1) % 2 ^ 64;
    battery_status_response_at = none;
    battery_status_answer = none;
  })

  unfoldable pub poll_battery_answer : ℕ → Option (Exit (Option Response)) → Bridge N → Bridge N
  poll_battery_answer now none b = b
  poll_battery_answer now (some future) b = settle_battery_status now future b

  unfoldable pub poll_battery_status : ℕ → Option ℕ → Bridge N → Bridge N
  unfolding poll_battery_answer send_battery_query battery_status_failed
  poll_battery_status now (some id) b =
      if leb b.battery_status_query_deadline (value_or b.battery_status_response_at now)
      then battery_status_failed now b
      else poll_battery_answer now b.battery_status_answer b
  poll_battery_status now none b =
      if ltb now b.next_battery_publish_at then b else send_battery_query now b

  unfoldable pub update_battery_status : Bridge N → Bridge N
  unfolding bridge_clock cancel_battery_status_query poll_battery_status
  update_battery_status b =
      if not config.battery_from_status || not b.motion_observed_enabled
      then cancel_battery_status_query b
      else (let (now, t) = bridge_clock env b in
          poll_battery_status now t.pending_battery_status_query t)
