-- ===== src/Bridge/Worker/Queue.antt =====
-- The queue of the worker: every command gets its result once, in the order of submission.
use uniubi_ros.Prelude.{
  ℕ, zero, suc, ◌<◌, String, Bool, true, not, ◌&&◌, ◌++◌, Option, none, some, List, [], ◌∷◌, ◌≡◌,
  inl, inr, refl, ◌∙◌, arith, map, is_some, Bool-cases,
}
use uniubi_ros.Json.{Json, Parsed, value, malformed, fault}
use uniubi_ros.Client.{Env, Exit, returned, threw, is_controlled}
use uniubi_ros.Bridge.{Bridge, CommandResult, Numbers}
use uniubi_ros.Bridge.Battery.{Floats}
use uniubi_ros.Bridge.Commands.Connection.{ConnectionConfig, connect_client}
use uniubi_ros.Bridge.Commands.Actions.{query_connected, query_capabilities}
use uniubi_ros.Bridge.Commands.Ready.{
  go_on_answers, connect_client_ends, acquire_control_answers, start_action_ends,
}
use uniubi_ros.Bridge.Services.{
  Operation, Answer, needs_control, operate_connected, serve_parsed, serve_json,
}
use uniubi_ros.Bridge.Worker.{
  Command, connects, acquires, releases, queries_capabilities, emergency, stops, starts, serves,
  QueuedCommand, Worker, NodeConfig, answered_by, finished_by, acquired_by, run_command, unguarded,
  unless_crashed,
}

module _ {N : Type 0} where
  answered_by_answers : (r : Exit CommandResult × Bridge N) → is_some (answered_by r) ≡ true
  answered_by_answers (returned r, b) = refl
  answered_by_answers (threw what, b) = refl

  finished_by_answers :
      (r : Option (Exit CommandResult × Bridge N))
      → is_some r ≡ true
      → is_some (finished_by r) ≡ true
  finished_by_answers none h = cc
  finished_by_answers (some r) h = answered_by_answers r

  acquired_by_answers :
      (r : Option (Exit (CommandResult × Bool) × Bridge N))
      → is_some r ≡ true
      → is_some (acquired_by r) ≡ true
  acquired_by_answers none h = cc
  acquired_by_answers (some (returned (r, now), b)) h = refl
  acquired_by_answers (some (threw what, b)) h = refl

module _ {V N : Type 0} (json : Json V) (numbers : Numbers N) (env : Env)
    (config : ConnectionConfig) (ticks : (k : ℕ) → 0 < env.elapse k) where
  query_connected_answers :
      (link : CommandResult) (b : Bridge N)
      → is_some (query_connected json numbers env config link b) ≡ true
  unfolding query_connected
  query_connected_answers link b = ground arith

  operate_connected_answers :
      (op : Operation) (params : String) (link : CommandResult) (b : Bridge N)
      → is_some (operate_connected json numbers env config op params link b) ≡ true
  unfolding operate_connected
  operate_connected_answers op params link b = ground arith

  serve_parsed_answers :
      (parsed : Parsed V) (op : Operation) (params : String) (b : Bridge N)
      → is_some (serve_parsed json numbers env config parsed op params b) ≡ true
  unfolding serve_parsed
  serve_parsed_answers fault op params b = refl
  serve_parsed_answers malformed op params b = refl
  serve_parsed_answers (value v) op params b = elim (Bool-cases (json.is_object v)) [
    | inr other ↦ rw (other, serve_parsed) refl
    | inl object ↦ elim (Bool-cases (needs_control op && not (is_controlled b.client.state))) [
      | inl refused ↦ rw (object, refused, serve_parsed) refl
      | inr allowed ↦
          rw (object, allowed, serve_parsed)
            (go_on_answers (connect_client json numbers env config b)
              (operate_connected json numbers env config op params)
              (connect_client_ends json numbers env config b ticks)
              (operate_connected_answers op params))
    ]
  ]

module _ {V N : Type 0} (json : Json V) (numbers : Numbers N) (floats : Floats V N)
    (of_number : N → V) (env : Env) (config : NodeConfig) where
  pub run_command_answers :
      (command : Command) (b : Bridge N)
      → ((k : ℕ) → 0 < env.elapse k)
      → is_some (run_command json numbers floats of_number env config command b) ≡ true
  unfolding run_command query_capabilities serve_json
  run_command_answers connects b ticks =
      finished_by_answers _ (connect_client_ends json numbers env config.connection b ticks)
  run_command_answers acquires b ticks =
      acquired_by_answers _ (acquire_control_answers json numbers env config.connection b ticks)
  run_command_answers releases b ticks = answered_by_answers _
  run_command_answers queries_capabilities b ticks = finished_by_answers _ (
      go_on_answers (connect_client json numbers env config.connection b)
        (query_connected json numbers env config.connection)
        (connect_client_ends json numbers env config.connection b ticks)
        (query_connected_answers json numbers env config.connection ticks))
  run_command_answers emergency b ticks = answered_by_answers _
  run_command_answers (stops reason) b ticks = answered_by_answers _
  run_command_answers (starts action params_json) b ticks =
      finished_by_answers _
        (start_action_ends json numbers env config.connection action params_json b ticks)
  run_command_answers (serves op params_json) b ticks =
      serve_parsed_answers json numbers env config.connection ticks _ op _ b

abbrev pub number_of : QueuedCommand → ℕ
number_of q = q.promise

abbrev pub set_number : ℕ × Answer → ℕ
set_number r = r.0

-- The numbers below `n`, in order.
abbrev pub below : ℕ → List ℕ
below zero = []
below (suc n) = below n ++ (n ∷ [])

module _ {N : Type 0} where
  -- The promises that are set, and those that wait.
  abbrev pub numbers_of : Worker N → List ℕ
  numbers_of w = map set_number w.results ++ map number_of w.commands

  -- A part of a round that neither takes nor submits a command.
  pub record Keeps (w t : Worker N) : Type 0 where
    pub commands : t.commands ≡ w.commands
    pub results : t.results ≡ w.results
    pub promises : t.promises ≡ w.promises

  pub Keeps-trans : {u w t : Worker N} → Keeps u w → Keeps w t → Keeps u t
  Keeps-trans h k = record {
    commands = k.commands ∙ h.commands;
    results = k.results ∙ h.results;
    promises = k.promises ∙ h.promises;
  }

  pub unguarded-Keeps : (r : Exit (Unit {0}) × Bridge N) (w : Worker N) → Keeps w (unguarded r w)
  unfolding unguarded
  unguarded-Keeps (returned _, b) w = record { commands = refl; results = refl; promises = refl }
  unguarded-Keeps (threw what, b) w = record { commands = refl; results = refl; promises = refl }

  pub unless_crashed-Keeps :
      (g : Worker N → Worker N) (u w : Worker N)
      → Keeps u w
      → Keeps w (g w)
      → Keeps u (unless_crashed g w)
  unless_crashed-Keeps g u w h k = elim (Bool-cases w.crashed) [
    | inl e ↦ rw (e, unless_crashed) h
    | inr e ↦ rw (e, unless_crashed) (Keeps-trans h k)
  ]
