-- ===== src/Bridge/Watchdog.antt =====
-- What the watchdog of the velocity does.
use uniubi_ros.Prelude.{Bool, true, false, some, ◌≡◌, ◌≢◌, ◌⊎◌}
use uniubi_ros.Json.{Json}
use uniubi_ros.Client.{Client, Env, Exit, returned, threw, no_error}
use uniubi_ros.Client.Commands.{parse_params_json, put_params}
use uniubi_ros.Bridge.{Bridge, Numbers}
use uniubi_ros.Client.Guards.{SendsParams}
use uniubi_ros.Bridge.Velocity.{VelocityConfig, velocity_params, stopped}

module _ {N : Type 0} where
  -- The watchdog has fired, and either the robot accepted that it stops, or the status has an error.
  abbrev pub Fired : Exit (Unit {0}) × Bridge N → Type 0
  Fired (returned _, t) =
      (t.velocity_watchdog_fired ≡ true)
      × (((t.velocity_command_active ≡ false) × (t.last_error_code ≡ no_error))
          ⊎ (t.last_error_code ≢ no_error))
  Fired (threw what, t) = Prim.⊥

  abbrev Applied : Bool → Exit (Unit {0}) × Bridge N → Type 0
  Applied active (returned _, t) =
      ((t.velocity_command_active ≡ active) × (t.last_error_code ≡ no_error))
      ⊎ (t.last_error_code ≢ no_error)
  Applied active (threw what, t) = Prim.⊥

module _ {V N : Type 0} (json : Json V) (numbers : Numbers N) (of_number : N → V) (env : Env)
    (config : VelocityConfig) where
  open json use {parse, write, is_object}

  -- The request for the stop, with the parameters that the client reads from its text, is added to
  -- the trace.
  abbrev pub StopSent : Bridge N → Bridge N → Type 0
  StopSent b t =
      let text = write (
        velocity_params json numbers of_number env config
          (stopped json numbers of_number env config 0)) in
      (x : V) × (parse_params_json json env text b.client ≡ (returned (some x), b.client))
      × SendsParams json env "setMotionActionParams" (put_params json env x json.object_value)
          b.client t.client
