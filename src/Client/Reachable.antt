-- ===== src/Client/Reachable.antt =====
-- What holds of a client from its constructor on.
use uniubi_ros.Prelude.{String, List, ◌≡◌, subst, arith}
use uniubi_ros.Json.{Json}
use uniubi_ros.Client.{Client, World, Env, Exit, returned}
use uniubi_ros.Client.Construct.{construct, initial, initial-IsConsistent}
use uniubi_ros.Client.Invariant.{IsConsistent}
use uniubi_ros.Client.Machine.{Call, run}
use uniubi_ros.Client.Preservation.{run-IsConsistent}

returned-eq : (a b : Client) → ◌≡◌ {A = Exit Client} (returned a) (returned b) → a ≡ b
returned-eq a b e = cc

construct-IsConsistent :
    (service client_id device_id event_topic sensor_topic motion_topic source cere_topic : String)
    (world : World) (s : Client)
    → construct service client_id device_id event_topic sensor_topic motion_topic source cere_topic
        world
      ≡ returned s
    → IsConsistent s
unfolding construct
construct-IsConsistent service client_id device_id event_topic sensor_topic motion_topic source
      cere_topic world s h =
    let i =
      initial service client_id device_id event_topic sensor_topic motion_topic source cere_topic
        world in
    subst IsConsistent (ground arith) (
      initial-IsConsistent service client_id device_id event_topic sensor_topic motion_topic source
        cere_topic world)

module _ {V : Type 0} (json : Json V) (env : Env) where
  -- A client that the constructor made is consistent after any sequence of public calls and
  -- callbacks, whatever the service answers and whatever arrives during the calls: a renewal is
  -- armed or in flight only under control, and a request in flight always has a deadline, less
  -- than 3 s past the lease; with control under a controller's name the timer is armed; a
  -- disconnected client has no controller, subscription or reader; and a reader is open only
  -- for an observation that is enabled.
  pub construct-run-IsConsistent :
      (service client_id device_id event_topic sensor_topic motion_topic source cere_topic : String)
      (world : World) (s : Client) (calls : List Call)
      → construct service client_id device_id event_topic sensor_topic motion_topic source
          cere_topic world
        ≡ returned s
      → IsConsistent (run json env calls s)
  construct-run-IsConsistent service client_id device_id event_topic sensor_topic motion_topic
        source cere_topic world s calls h =
      run-IsConsistent json env calls s (
        construct-IsConsistent service client_id device_id event_topic sensor_topic motion_topic
          source cere_topic world s h)
