-- ===== src/Client/Calls.antt =====
-- Synchronous calls: `send_request` of system_rpc_client_base.cpp, which spins the executor, and
-- `rpc_call` of motion_high_level_client.cpp around it.
use uniubi_ros.Prelude.{
  ℕ, ℤ, String, Bool, true, false, Option, none, some, List, [], ◌∷◌, is_zero, if◌then◌else◌,
}
use uniubi_ros.Json.{Json, Parsed, value, malformed, fault}
use uniubi_ros.Rpc.{Request, client_request}
use uniubi_ros.Client.{
  Client, Env, Exit, returned, threw, Response, Reply, send_failed, answered, timed_out,
  interrupted, Input, renew_tick, renew_response, event, no_error, rpc_call_failed, action_rejected,
  sent, removed_future, emit, set_error, timeout_from_ms, pass,
}
use uniubi_ros.Client.Renew.{tick_renew, handle_renew_response}
use uniubi_ros.Client.Events.{handle_event}

-- What throws ends the run of the callbacks.
abbrev pub resume :
    Exit (Unit {0}) × Client → (Client → Exit (Unit {0}) × Client) → Exit (Unit {0}) × Client
resume (returned _, s) k = k s
resume (threw what, s) k = (threw what, s)

-- How the wait for the future ends.
unfoldable pub finish : Reply → Client → Exit (Option Response) × Client
finish (send_failed what) s = (threw what, s)
finish (answered response) s = (returned response, s)
finish timed_out s = (threw "System RPC request timed out", emit removed_future s)
finish interrupted s = (threw "System RPC request was interrupted", emit removed_future s)

module _ {V : Type 0} (json : Json V) where
  open json use {null_value, is_object, is_member, member, as_bool, parse}

  unfoldable pub verdict : Option Bool → V → Client → Bool × V × Client
  unfolding set_error
  verdict (some true) out s = (true, out, set_error no_error s)
  verdict (some false) out s = (false, out, set_error action_rejected s)
  verdict none out s = (false, out, set_error rpc_call_failed s)

  unfoldable pub response_params : V → V
  response_params payload =
      if is_member payload "params" then member payload "params" else null_value

  unfoldable pub read_payload : Parsed V → V → Client → Bool × V × Client
  unfolding response_params set_error
  read_payload (value payload) out s =
      if is_object payload
      then (if is_member payload "result"
          then verdict (as_bool (member payload "result")) (response_params payload) s
          else (false, response_params payload, set_error action_rejected s))
      else (false, out, set_error rpc_call_failed s)
  read_payload malformed out s = (false, out, set_error rpc_call_failed s)
  read_payload fault out s = (false, out, set_error rpc_call_failed s)

  unfoldable pub conclude : Exit (Option Response) × Client → V → Bool × V × Client
  unfolding set_error
  conclude (returned (some r), s) out =
      if is_zero r.code
      then read_payload (parse r.payload) out s
      else (false, out, set_error rpc_call_failed s)
  conclude (returned none, s) out = (false, out, set_error rpc_call_failed s)
  conclude (threw what, s) out = (false, out, set_error rpc_call_failed s)

module _ {V : Type 0} (json : Json V) (env : Env) where
  -- One callback of the executor. A timer or a subscription that was reset runs no callback.
  unfoldable pub deliver : Input → Client → Exit (Unit {0}) × Client
  deliver renew_tick s = (returned tt, if s.renew_timer then tick_renew json env s else s)
  deliver (renew_response sequence controller future) s =
      (returned tt, handle_renew_response json env sequence controller future s)
  deliver (event message) s =
      if s.event_subscription then handle_event json message s else (returned tt, s)

  unfoldable pub spin : List Input → Client → Exit (Unit {0}) × Client
  spin [] s = (returned tt, s)
  spin (i ∷ is) s = resume (deliver i s) (spin is)

  unfoldable pub after_spin : Reply → Exit (Unit {0}) × Client → Exit (Option Response) × Client
  unfolding pass
  after_spin reply (returned _, s) = finish reply (pass env 0 s)
  after_spin reply (threw what, s) = (threw what, s)

  -- `send_request`: where sending throws, the executor does not spin.
  unfoldable pub await : Request → Reply → List Input → Client → Exit (Option Response) × Client
  await request (send_failed what) is s = (threw what, s)
  await request reply is s = after_spin reply (spin is s)

  unfoldable pub send_request : Request → ℕ → Client → Exit (Option Response) × Client
  send_request request timeout s =
      await request (env.reply s.steps request) (env.inputs s.steps)
        (pass env 0 (emit (sent request timeout) s))

  -- The request that `rpc_call` makes: `make_call` stamps it by the system clock.
  unfoldable pub rpc_request : String → String → V → Client → Request
  unfolding client_request
  rpc_request method rpc_client_id params s =
      client_request json (env.system_ms s.steps) s.client_id s.device_id "robotAppService" method
        params rpc_client_id

  -- `rpc_call`: the result, the reference parameter `out`, the client behind the call.
  unfoldable pub rpc_call : String → String → V → V → ℤ → Client → Bool × V × Client
  unfolding timeout_from_ms
  rpc_call method rpc_client_id params out timeout_ms s =
      conclude json
        (send_request (rpc_request method rpc_client_id params s) (timeout_from_ms timeout_ms) s)
        out
