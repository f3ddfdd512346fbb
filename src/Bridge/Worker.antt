-- ===== src/Bridge/Worker.antt =====
-- uniubi_motion_bridge_node.cpp: the queue of commands, `worker_loop` and what it does when the node
-- stops.
pub mod Queue
pub mod Order
use uniubi_ros.Prelude.{
  ℕ, suc, ◌+◌, ℤ, pos, String, Bool, true, false, not, ◌&&◌, ◌||◌, ◌++◌, Option, none, some, List,
  [], ◌∷◌, is_nil, str_eq, if◌then◌else◌,
}
use uniubi_ros.Json.{Json}
use uniubi_ros.Client.{
  Client, Env, Exit, returned, threw, Response, Input, no_error, rpc_call_failed, is_controlled,
}
use uniubi_ros.Client.Calls.{deliver}
use uniubi_ros.Client.Session.{disconnect as client_disconnect}
use uniubi_ros.Client.Observation.{set_motion_observed_enable}
use uniubi_ros.Bridge.{
  Bridge, CommandResult, Numbers, publish_motion_status, cancel_motion_status_query,
  cancel_battery_status_query, forget_action, after_call, call_client, and_then,
}
use uniubi_ros.Bridge.Battery.{Floats}
use uniubi_ros.Bridge.Velocity.{
  VelocityConfig, on_cmd_vel, dispatch_pending_velocity, enforce_cmd_vel_watchdog,
}
use uniubi_ros.Bridge.Commands.{stop_action, emergency_stop, release_control}
use uniubi_ros.Bridge.Commands.Connection.{ConnectionConfig, failed, connect_client}
use uniubi_ros.Bridge.Commands.Actions.{go_on, acquire_control, start_action, query_capabilities}
use uniubi_ros.Bridge.Services.{Operation, Answer, plain, serve_json}
use uniubi_ros.Bridge.Queries.{StatusConfig, answer_motion_status, update_motion_status}
use uniubi_ros.Bridge.BatteryQueries.{answer_battery_status, update_battery_status}

-- The commands that the constructor and the services put into the queue.
pub data Command : Type 0 where
  connects acquires releases queries_capabilities emergency : Command
  stops : String → Command
  starts : String → String → Command
  serves : Operation → String → Command

-- A command with the promise of its result, which is known by its number.
pub record QueuedCommand : Type 0 where
  pub promise : ℕ
  pub command : Command

-- What `spin_some` hands on: callbacks of the client, and answers to the status queries.
pub data Delivery : Type 0 where
  to_client : Input → Delivery
  motion_status_answered battery_status_answered : ℕ → ℕ → Exit (Option Response) → Delivery

-- `results` holds the promises that were set, in order; `promises` is how many there are.
-- `crashed` says that an exception left the thread, which ends the program.
pub record Worker (N : Type 0) : Type 0 where
  pub bridge : Bridge N
  pub commands : List QueuedCommand
  pub promises : ℕ
  pub results : List (ℕ × Answer)
  pub stop : Bool
  pub crashed : Bool

-- `enqueue`.
unfoldable pub enqueue : {N : Type 0} → Command → Worker N → Worker N
enqueue command w = record w {
  commands = w.commands ++ (record { promise = w.promises; command = command } ∷ []);
  promises = suc w.promises;
}

pub record NodeConfig : Type 0 where
  pub connection : ConnectionConfig
  pub velocity : VelocityConfig
  pub status : StatusConfig

module _ {N : Type 0} where
  abbrev pub answered_by : Exit CommandResult × Bridge N → Option (Exit Answer × Bridge N)
  answered_by (returned r, b) = some (returned (plain r), b)
  answered_by (threw what, b) = some (threw what, b)

  abbrev pub finished_by : Option (Exit CommandResult × Bridge N) → Option (Exit Answer × Bridge N)
  finished_by none = none
  finished_by (some r) = answered_by r

  abbrev pub acquired_by :
      Option (Exit (CommandResult × Bool) × Bridge N) → Option (Exit Answer × Bridge N)
  acquired_by none = none
  acquired_by (some (returned (r, acquired_now), b)) = some (returned (plain r), b)
  acquired_by (some (threw what, b)) = some (threw what, b)

  -- The promise is set, also where the command throws.
  unfoldable pub keep_promise : ℕ → Option (Exit Answer × Bridge N) → Worker N → Worker N
  keep_promise promise none w = w
  keep_promise promise (some (returned answer, b)) w = record w {
    bridge = b;
    results = w.results ++ ((promise, answer) ∷ []);
  }
  keep_promise promise (some (threw what, b)) w = record w {
    bridge = b;
    results = w.results ++ ((promise, plain (failed rpc_call_failed what)) ∷ []);
  }

  -- What is not inside a `try` block.
  unfoldable pub unguarded : Exit (Unit {0}) × Bridge N → Worker N → Worker N
  unguarded (returned _, b) w = record w { bridge = b }
  unguarded (threw what, b) w = record w { bridge = b; crashed = true }

  abbrev pub unless_crashed : (Worker N → Worker N) → Worker N → Worker N
  unless_crashed g w = elim w.crashed [ true ↦ w | false ↦ g w ]

module _ {V N : Type 0} (json : Json V) (numbers : Numbers N) (floats : Floats V N)
    (of_number : N → V) (env : Env) (config : NodeConfig) where
  -- `queued.command()`; `none` where the fuel of a wait runs out.
  unfoldable pub run_command : Command → Bridge N → Option (Exit Answer × Bridge N)
  run_command connects b = finished_by (connect_client json numbers env config.connection b)
  run_command acquires b = acquired_by (acquire_control json numbers env config.connection b)
  run_command releases b = answered_by (release_control json numbers env b)
  run_command queries_capabilities b =
      finished_by (query_capabilities json numbers env config.connection b)
  run_command emergency b = answered_by (emergency_stop json numbers env b)
  run_command (stops reason) b = answered_by (stop_action json numbers env reason b)
  run_command (starts action params_json) b =
      finished_by (start_action json numbers env config.connection action params_json b)
  run_command (serves op params_json) b =
      serve_json json numbers env config.connection op params_json b

  -- The first part of a round: the next command, or the pending velocity.
  unfoldable pub take_command : List QueuedCommand → Worker N → Worker N
  unfolding keep_promise unguarded
  take_command [] w =
      unguarded (dispatch_pending_velocity json numbers of_number env config.velocity w.bridge) w
  take_command (queued ∷ rest) w =
      keep_promise queued.promise (run_command queued.command w.bridge)
        (record w { commands = rest })

  unfoldable pub watch_velocity : Worker N → Worker N
  unfolding unguarded
  watch_velocity w =
      unguarded (enforce_cmd_vel_watchdog json numbers of_number env config.velocity w.bridge) w

  unfoldable pub hand_on : Delivery → Bridge N → Exit (Unit {0}) × Bridge N
  hand_on (to_client i) b =
      let (result, s) = deliver json env i b.client in (result, after_call numbers s b)
  hand_on (motion_status_answered id sequence future) b =
      (returned tt, answer_motion_status env id sequence future b)
  hand_on (battery_status_answered id sequence future) b =
      (returned tt, answer_battery_status env id sequence future b)

  -- `spin_some`.
  unfoldable pub spin_some : List Delivery → Worker N → Worker N
  unfolding unguarded
  spin_some [] w = w
  spin_some (d ∷ ds) w = unless_crashed (λ v. spin_some ds (unguarded (hand_on d v.bridge) v)) w

  unfoldable pub update_statuses : Worker N → Worker N
  update_statuses w =
      if w.bridge.rpc_ready
      then record w {
        bridge =
            update_battery_status json floats env config.status
              (update_motion_status json floats env config.status w.bridge);
      }
      else w

  -- A round of the loop; the list is what `spin_some` finds ready.
  unfoldable pub round : List Delivery → Worker N → Worker N
  unfolding take_command watch_velocity spin_some update_statuses
  round deliveries w = unless_crashed update_statuses (
      unless_crashed (spin_some deliveries)
        (unless_crashed watch_velocity (take_command w.commands w)))

  unfoldable pub disable_motion_observed : Bridge N → Exit (Unit {0}) × Bridge N
  unfolding cancel_battery_status_query
  disable_motion_observed b =
      if not b.motion_observed_enabled
      then (returned tt, b)
      else and_then
          (call_client numbers (set_motion_observed_enable json env false false (pos 3000))
            (cancel_battery_status_query b))
          (λ _ t. (returned tt, record t { motion_observed_enabled = false }))

  unfoldable pub leave : Bridge N → Bridge N
  unfolding forget_action publish_motion_status
  leave b =
      let t = after_call numbers (client_disconnect json env b.client) b in
      publish_motion_status (forget_action numbers (record t { rpc_ready = false }))

  -- What the thread does behind its loop.
  unfoldable pub shut_down : Bridge N → Exit (Unit {0}) × Bridge N
  unfolding disable_motion_observed leave cancel_motion_status_query cancel_battery_status_query
  shut_down b =
      let t = cancel_battery_status_query (cancel_motion_status_query b) in
      and_then
        (if is_controlled t.client.state && not (str_eq t.current_action "")
          then and_then (stop_action json numbers env "node shutdown" t) (λ _ u. (returned tt, u))
          else (returned tt, t))
        (λ _ u. and_then (disable_motion_observed u) (λ _ v. (returned tt, leave v)))

-- What happens to the worker: a command is submitted, a velocity arrives, a round, and the stop.
pub data WorkerEvent (N : Type 0) : Type 0 where
  submits : Command → WorkerEvent N
  moves : N → N → N → WorkerEvent N
  runs : List Delivery → WorkerEvent N
  stopped : WorkerEvent N

module _ {V N : Type 0} (json : Json V) (numbers : Numbers N) (floats : Floats V N)
    (of_number : N → V) (env : Env) (config : NodeConfig) where
  unfoldable pub work : WorkerEvent N → Worker N → Worker N
  unfolding enqueue round unguarded shut_down
  work (submits command) w = enqueue command w
  work (moves x y yaw) w = record w { bridge = on_cmd_vel env numbers x y yaw w.bridge }
  work (runs deliveries) w =
      if w.stop || w.crashed then w else round json numbers floats of_number env config deliveries w
  work stopped w =
      if w.stop || w.crashed
      then w
      else unguarded (shut_down json numbers floats of_number env config w.bridge)
          (record w { stop = true })

  unfoldable pub work_all : List (WorkerEvent N) → Worker N → Worker N
  work_all [] w = w
  work_all (e ∷ es) w = work_all es (work e w)
