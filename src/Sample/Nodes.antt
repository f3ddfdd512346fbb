-- ===== src/Sample/Nodes.antt =====
-- A sample node: the theorems on its worker, its services and its status queries at one input each.
use uniubi_ros.Prelude.{
  ◌+◌, ◌≤◌, none, ℕ, ◌/◌, pos, true, false, not, some, List, [], ◌∷◌, ◌≡◌, ◌↔◌, ◌⊎◌, refl, arith,
  ltb, ◌==◌, str_eq, if◌then◌else◌,
}
use uniubi_ros.Json.{value, fault}
use uniubi_ros.Client.{ms, returned, threw, Response, action_rejected, not_controlled}
use uniubi_ros.Bridge.{Bridge}
use uniubi_ros.Bridge.Battery.{Floats, BatteryState, battery_from_system_status}
use uniubi_ros.Bridge.Battery.Measured.{IsMeasured, battery_from_system_status_iff}
use uniubi_ros.Bridge.Queries.{StatusConfig, update_motion_status, settle_motion_status}
use uniubi_ros.Bridge.Queries.Answers.{Settled, Ends}
use uniubi_ros.Bridge.Queries.Answers.Told.{settle_motion_status-Told}
use uniubi_ros.Bridge.Queries.Watched.{IsTimely}
use uniubi_ros.Bridge.Queries.Timely.{
  StaysInFlight, PollEvent, updates, answers, poll_events, update_motion_status-IsTimely,
}
use uniubi_ros.Bridge.Services.{start_play, serve_json}
use uniubi_ros.Bridge.Services.Guarded.{Untouched, IsNoObject, serve_json-Untouched}
use uniubi_ros.Bridge.Worker.{
  Worker, NodeConfig, QueuedCommand, emergency, submits, runs, enqueue, work, work_all,
}
use uniubi_ros.Bridge.Worker.Queue.{numbers_of, below}
use uniubi_ros.Bridge.Worker.Order.{Takes, work_all-Takes}
use uniubi_ros.Sample.{Doc, docs, calm, linked, number, object, boolean, entry, nil}
use uniubi_ros.Sample.Robots.{walking, naturals, node, dispatching}

-- Single precision is natural; 999 is NaN.
abbrev float_of : Doc → ℕ
float_of (number (pos n)) = n
float_of _ = 0

abbrev pub floats : Floats Doc ℕ
floats = record {
  as_float = float_of;
  nan = 999;
  zero_value = 0;
  one = 1;
  hundred = 100;
  is_finite = λ n. not (n == 999);
  less = ltb;
  divide = λ a b. a / b;
}

abbrev battery_doc : Doc
battery_doc = object (
    entry "online" (boolean true)
      (entry "voltage" (number (pos 48)) (entry "power" (number (pos 100)) nil)))

abbrev battery : BatteryState ℕ
battery = record {
  voltage = 48;
  percentage = 1;
  current = 999;
  temperature = 999;
  charge = 999;
  capacity = 999;
  design_capacity = 999;
  present = true;
}

abbrev status_doc : Doc
status_doc = object (entry "battery" battery_doc nil)

battery_from_system_status_iff_example :
    (battery_from_system_status docs floats status_doc ≡ returned (some battery)) ↔ (
      ((docs.is_null status_doc ≡ true) ⊎ (docs.is_object status_doc ≡ true))
      × IsMeasured docs floats battery_doc battery)
battery_from_system_status_iff_example =
    battery_from_system_status_iff docs floats status_doc battery

abbrev pub polling : StatusConfig
polling = record {
  motion_status_publish_period = 100000000;
  battery_publish_period = 1000000000;
  battery_from_status = true;
}

abbrev good : Response
good = record { code = pos 0; payload = "success" }

settle_motion_status-Told_example :
    Settled docs floats calm polling 5 walking
      (settle_motion_status docs floats calm polling 5 (returned (some good)) walking)
    × Ends docs floats calm polling
        (returned (some good))
        walking
        (settle_motion_status docs floats calm polling 5 (returned (some good)) walking)
settle_motion_status-Told_example =
    settle_motion_status-Told docs floats calm polling 5 (returned (some good)) walking

abbrev polls : List PollEvent
polls = updates ∷ answers 0 1 (returned (some good)) ∷ updates ∷ []

abbrev asked : Bridge ℕ
asked = poll_events docs floats calm polling (updates ∷ []) walking

update_motion_status-IsTimely_example :
    let u =
      update_motion_status docs floats calm polling
        (poll_events docs floats calm polling polls asked) in
    IsTimely u
    × (StaysInFlight docs floats calm polling polls asked
        → asked.client.time + ms 1000 ≤ u.client.time
        → u.pending_motion_status_query ≡ none)
update_motion_status-IsTimely_example =
    update_motion_status-IsTimely docs floats calm polling (updates ∷ []) polls walking refl

abbrev lent : Bridge ℕ
lent = record walking { client = linked }

serve_json-Untouched_example :
    (((v : Doc) × (docs.parse (if str_eq "object" "" then "{}" else "object") ≡ value v)
        × (docs.is_object v ≡ true))
      × Untouched docs naturals calm node not_controlled lent
          (serve_json docs naturals calm node start_play "object" lent))
    ⊎ (IsNoObject docs naturals calm node
          (docs.parse (if str_eq "object" "" then "{}" else "object"))
        × Untouched docs naturals calm node action_rejected lent
            (serve_json docs naturals calm node start_play "object" lent))
    ⊎ ((docs.parse (if str_eq "object" "" then "{}" else "object") ≡ fault)
        × (serve_json docs naturals calm node start_play "object" lent ≡ some (threw "JSON", lent)))
unfolding uniubi_ros.Bridge.Services.needs_control
serve_json-Untouched_example =
    serve_json-Untouched docs naturals calm node start_play "object" lent refl refl

abbrev waiting_worker : Worker ℕ
waiting_worker = record {
  bridge = walking;
  commands = [];
  promises = 0;
  results = [];
  stop = false;
  crashed = false;
}

abbrev config : NodeConfig
config = record { connection = node; velocity = dispatching; status = polling }

abbrev halt : QueuedCommand
halt = record { promise = 0; command = emergency }

abbrev busy_worker : Worker ℕ
busy_worker =
    work_all docs naturals floats (λ n. number (pos n)) calm config (submits emergency ∷ [])
      waiting_worker

work_all-Takes_example :
    (numbers_of busy_worker ≡ below busy_worker.promises)
    × Takes halt [] busy_worker
        (work docs naturals floats (λ n. number (pos n)) calm config (runs []) busy_worker)
unfolding work_all work enqueue
work_all-Takes_example =
    work_all-Takes docs naturals floats (λ n. number (pos n)) calm config (submits emergency ∷ [])
      halt [] [] waiting_worker (λ k. omega arith) refl refl refl
