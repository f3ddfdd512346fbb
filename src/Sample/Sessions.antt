-- ===== src/Sample/Sessions.antt =====
-- A session with the sample service: the theorems on calls at one input each.
use uniubi_ros.Prelude.{
  pos, Bool, true, false, Option, none, List, [], ◌∷◌, ◌≡◌, refl, ◌↔◌, ◌⊎◌, arith, is_some,
}
use uniubi_ros.Client.{
  Client, Response, Exit, returned, disconnected, no_error, not_controlled, not_connected,
  action_rejected, rpc_call_failed, set_error, read_clock, pass, timeout_from_ms, renew_tick,
}
use uniubi_ros.Client.Calls.{
  rpc_call, send_request, rpc_request, conclude, await, after_spin, spin, finish, read_payload,
  verdict,
}
use uniubi_ros.Client.Commands.{
  query_audio_play_list, start_action, if_controlled, with_params, parse_params_json, motion_call,
  mark_success,
}
use uniubi_ros.Client.Construct.{construct, initial, observed_topic}
use uniubi_ros.Client.Session.{start_control, disconnect}
use uniubi_ros.Client.Machine.{
  Call, connects, starts_control, releases_control, delivers, commands, disconnects, action,
  capabilities, light_brightness, run, command, ask,
}
use uniubi_ros.Client.Invariant.{IsConsistent, IsClosed}
use uniubi_ros.Client.Reachable.{construct-run-IsConsistent}
use uniubi_ros.Client.Outcome.{Outcome, start_control-Outcome, disconnect_closes}
use uniubi_ros.Client.Acquisition.{start_control_ends}
use uniubi_ros.Client.Verdict.{Accepted, Refused, rpc_call_report}
use uniubi_ros.Client.Guards.{Sends, command_needs_control, command-Sends, query_needs_connection}
use uniubi_ros.Sample.{Doc, null, docs, calm, start_world, idle, linked, driving}

abbrev calls : List Call
calls =
    connects (pos 60000)
    ∷ starts_control (pos 5000)
    ∷ commands (action "walk" "") (pos 5000)
    ∷ delivers renew_tick
    ∷ releases_control
    ∷ disconnects
    ∷ []

construct-run-IsConsistent_example : IsConsistent (run docs calm calls idle)
unfolding construct initial observed_topic
construct-run-IsConsistent_example =
    construct-run-IsConsistent docs calm "robotServer" "ros-1" "SN1" "/robotServer/Event" "" ""
      "sensor_observed" "rt/cere/motionState" start_world idle calls refl

start_control-Outcome_example :
    Outcome 1001000000 6001000000 (start_control docs calm (pos 5000) linked)
unfolding read_clock pass timeout_from_ms
start_control-Outcome_example = start_control-Outcome docs calm (pos 5000) linked refl

start_control_ends_example : is_some (start_control docs calm (pos 5000) linked).0 ≡ true
start_control_ends_example = start_control_ends docs calm (pos 5000) linked (λ k. omega arith)

disconnect_closes_example :
    ((disconnect docs calm driving).state ≡ disconnected)
    × IsClosed (disconnect docs calm driving)
    × ((disconnect docs calm driving).renew_timer ≡ false)
    × ((disconnect docs calm driving).pending_renew_request_id ≡ none)
disconnect_closes_example = disconnect_closes docs calm driving

abbrev ended : Exit (Option Response)
ended =
    (send_request docs calm (rpc_request docs calm "queryMotionState" "ros-1" null linked)
      5000000000 linked).0

abbrev reported : Bool × Doc × Client
reported = rpc_call docs calm "queryMotionState" "ros-1" null null (pos 5000) linked

rpc_call_report_example :
    ((reported.0 ≡ true) ↔ Accepted docs ended reported.1)
    × ((reported.2.last_error ≡ action_rejected) ↔ Refused docs ended)
    × (((reported.0 ≡ true) × (reported.2.last_error ≡ no_error))
        ⊎ ((reported.0 ≡ false) × (reported.2.last_error ≡ action_rejected))
        ⊎ ((reported.0 ≡ false) × (reported.2.last_error ≡ rpc_call_failed)))
unfolding timeout_from_ms
rpc_call_report_example =
    rpc_call_report docs calm "queryMotionState" "ros-1" null null (pos 5000) linked

command_needs_control_example :
    command docs calm (action "walk" "") (pos 5000) linked
    ≡ (returned false, set_error not_controlled linked)
command_needs_control_example =
    command_needs_control docs calm (action "walk" "") (pos 5000) linked refl

command-Sends_example :
    Sends docs calm "startMotionAction" driving
      (command docs calm (action "walk" "") (pos 5000) driving).1
unfolding command start_action if_controlled with_params parse_params_json motion_call mark_success
    rpc_call conclude send_request await after_spin spin finish read_payload rpc_request verdict
command-Sends_example = command-Sends docs calm (action "walk" "") (pos 5000) driving refl

query_needs_connection_example :
    (true ≡ true
      → ask docs calm capabilities (pos 5000) idle ≡ (false, none, set_error not_connected idle))
    × (false ≡ false
        → ask docs calm light_brightness (pos 5000) idle
          ≡ (false, none, set_error not_controlled idle))
    × (true ≡ true
        → query_audio_play_list docs calm "" (pos 5000) idle
          ≡ (returned false, none, set_error not_connected idle))
query_needs_connection_example = query_needs_connection docs calm capabilities "" (pos 5000) idle
