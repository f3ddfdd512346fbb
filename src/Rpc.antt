-- ===== src/Rpc.antt =====
-- uniubi_motion_client/src/system_rpc_client_base.cpp: requests, calls and their payload.
use uniubi_ros.Prelude.{ℕ, String, str_eq, ◌==◌, if◌then◌else◌}
use uniubi_ros.Json.{Json}

-- `SystemRpcRequest`, and the fields of `uniubi::srv::System::Request`.
pub record SystemRpcRequest : Type 0 where
  pub timestamp : ℕ
  pub service : String
  pub device_id : String
  pub method : String
  pub payload : String

pub record Request : Type 0 where
  pub timestamp : ℕ
  pub service : String
  pub device_id : String
  pub method : String
  pub payload : String

-- `SystemRpcCall`.
pub record SystemRpcCall (V : Type 0) : Type 0 where
  pub service : String
  pub method : String
  pub params : V
  pub client_id : String
  pub device_id : String
  pub timestamp : ℕ

unfoldable pub make_request : SystemRpcRequest → Request
make_request r = record {
  timestamp = r.timestamp;
  service = r.service;
  device_id = r.device_id;
  method = r.method;
  payload = r.payload;
}

module _ {V : Type 0} (json : Json V) where
  open json use {is_null, object_value, of_string, put, member, write}

  unfoldable pub empty_object_if_null : V → V
  empty_object_if_null value = if is_null value then object_value else value

  -- The constructor of `SystemRpcCall` with all its arguments.
  unfoldable pub system_rpc_call : String → String → V → String → String → ℕ → SystemRpcCall V
  unfolding empty_object_if_null
  system_rpc_call service method params client_id device_id timestamp = record {
    service = service;
    method = method;
    params = empty_object_if_null params;
    client_id = client_id;
    device_id = device_id;
    timestamp = timestamp;
  }

  -- `payload["call"]["clientId"] = client_id` makes the member `call` an object of one member.
  unfoldable pub envelope : String → V → V
  unfolding empty_object_if_null
  envelope client_id params =
      put
        (put object_value "call"
          (put (member object_value "call") "clientId" (of_string client_id)))
        "params" (empty_object_if_null params)

  unfoldable pub make_payload : String → V → String
  unfolding envelope
  make_payload client_id params = write (envelope client_id params)

  -- `now_ms` is the reading of the system clock, `own_id` the client's `client_id_`.
  unfoldable pub make_rpc_request : ℕ → String → SystemRpcCall V → SystemRpcRequest
  unfolding make_payload
  make_rpc_request now_ms own_id call = record {
    timestamp = if call.timestamp == 0 then now_ms else call.timestamp;
    service = call.service;
    device_id = call.device_id;
    method = call.method;
    payload =
        make_payload (if str_eq call.client_id "" then own_id else call.client_id) call.params;
  }

  -- `make_call` followed by `make_rpc_request` and `make_request`, as `call` and `async_call` do.
  unfoldable pub client_request : ℕ → String → String → String → String → V → String → Request
  unfolding make_rpc_request make_request system_rpc_call
  client_request now_ms own_id device_id service method params client_id = make_request (
      make_rpc_request now_ms own_id
        (system_rpc_call service method params client_id device_id now_ms))
