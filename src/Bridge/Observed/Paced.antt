-- ===== src/Bridge/Observed/Paced.antt =====
-- How often battery messages are published, from both of their sources.
pub mod Steps
pub mod Polls
use native.Mathlib.Nat.{suc-mul, le_refl}
use uniubi_ros.Prelude.{
  ℕ, suc, ◌+◌, ◌*◌, ◌≤◌, Bool, true, false, not, ◌&&◌, ◌||◌, Option, none, some, List, [], ◌∷◌,
  length, leb, ltb, ◌==◌, ◌≡◌, ◌⊎◌, inl, inr, refl, ap, ◌∙◌, arith, is_some, Bool-cases,
  Option-cases, if◌then◌else◌,
}
use uniubi_ros.Json.{Json, Parsed, value, malformed, fault}
use uniubi_ros.Client.{Client, Env, Exit, returned, threw, Response, read_clock, pass}
use uniubi_ros.Bridge.{Bridge, cancel_battery_status_query, forget_request}
use uniubi_ros.Bridge.Battery.{Floats, BatteryState, PowerObserved}
use uniubi_ros.Bridge.Velocity.{bridge_clock}
use uniubi_ros.Bridge.Queries.{StatusConfig, value_or, is_pending}
use uniubi_ros.Bridge.BatteryQueries.{
  answer_battery_status, battery_status_failed, publish_measured, read_system_status,
  read_battery_response, settle_battery_status, record_battery_query, send_battery_query,
  poll_battery_answer, poll_battery_status, update_battery_status,
}
use uniubi_ros.Bridge.Observed.{
  Doubles, FrameConfig, MotionMessage, Outputs, publish_due_battery, publish_motion_observed,
  take_observation, hand_on_observation,
}
use uniubi_ros.Client.Reader.{Observation, sensor_observed, motion_observed, is_handed_on}
use uniubi_ros.Bridge.Observed.Paced.Steps.{
  Adds, forget_request-time, IsDue, Done, Paces, quiet, acts, Paces-behind, Done-Paces, failed-Done,
  settle-Done,
}
use uniubi_ros.Bridge.Observed.Paced.Polls.{update-Paces, observation-Paces, answered-Paces}

-- What happens to the batteries: an observation of the topic or of the on-board reader, an update of the status, the answer to its query, its
-- cancellation, or that time passes.
pub data BatteryEvent (N : Type 0) : Type 0 where
  observes : MotionMessage N → BatteryEvent N
  reads : PowerObserved N → Observation N → BatteryEvent N
  updates cancels : BatteryEvent N
  answers : ℕ → ℕ → Exit (Option Response) → BatteryEvent N
  elapses : ℕ → BatteryEvent N

module _ {V N D : Type 0} (json : Json V) (floats : Floats V N) (env : Env) (config : StatusConfig)
    (doubles : Doubles N D) (frames : FrameConfig) where
  abbrev pub battery_event : BatteryEvent N → Bridge N × Outputs N D → Bridge N × Outputs N D
  battery_event (observes input) (b, out) =
      publish_motion_observed json floats env config doubles frames input (b, out)
  battery_event (reads power o) (b, out) =
      hand_on_observation json floats env config doubles frames power o (b, out)
  battery_event updates (b, out) = (update_battery_status json floats env config b, out)
  battery_event cancels (b, out) = (cancel_battery_status_query b, out)
  battery_event (answers id sequence future) (b, out) =
      (answer_battery_status env id sequence future b, out)
  battery_event (elapses d) (b, out) = (record b { client = pass env d b.client }, out)

  abbrev pub battery_events :
      List (BatteryEvent N) → Bridge N × Outputs N D → Bridge N × Outputs N D
  battery_events [] x = x
  battery_events (e ∷ es) x = battery_events es (battery_event e x)

  observed-Paces :
      (input : MotionMessage N) (b : Bridge N) (out : Outputs N D)
      → IsDue config.battery_from_status b
      → let t = (publish_motion_observed json floats env config doubles frames input (b, out)).0 in
        Paces config.battery_publish_period b t × IsDue config.battery_from_status t
  unfolding publish_motion_observed
  observed-Paces input b out d = elim (Bool-cases (not b.motion_observed_enabled)) [
    | inl off ↦ rw (off) (quiet refl refl (omega arith), d)
    | inr on ↦ rw (on) (observation-Paces json floats env config input.power b d)
  ]

  reads-Paces :
      (power : PowerObserved N) (o : Observation N) (b : Bridge N) (out : Outputs N D)
      → IsDue config.battery_from_status b
      → let t = (take_observation json floats env config doubles frames power o (b, out)).0 in
        Paces config.battery_publish_period b t × IsDue config.battery_from_status t
  unfolding take_observation
  reads-Paces power (sensor_observed o) b out d = (quiet refl refl (omega arith), d)
  reads-Paces power (motion_observed o) b out d =
      observed-Paces (record { observed = o; power = power }) b out d

  event-Paces :
      (e : BatteryEvent N) (b : Bridge N) (out : Outputs N D)
      → IsDue config.battery_from_status b
      → let t = (battery_event e (b, out)).0 in
        Paces config.battery_publish_period b t × IsDue config.battery_from_status t
  unfolding hand_on_observation cancel_battery_status_query pass
  event-Paces (observes input) b out d = observed-Paces input b out d
  event-Paces (reads power o) b out d = elim (Bool-cases (is_handed_on b.client o)) [
    | inl on ↦ rw (on, hand_on_observation) (reads-Paces power o b out d)
    | inr off ↦ rw (off, hand_on_observation) (quiet refl refl (omega arith), d)
  ]
  event-Paces updates b out d = update-Paces json floats env config b d
  event-Paces cancels b out d = (
    quiet refl refl (omega (arith, forget_request-time b.pending_battery_status_query b.client)),
    λ k. absurd (ground arith),
  )
  event-Paces (answers id sequence future) b out d =
      answered-Paces json floats env config id sequence future b d
  event-Paces (elapses n) b out d =
      (quiet refl refl (omega arith), λ k. ((d k).0, omega (arith, (d k).1)))

module _ {N : Type 0} (p : ℕ) where
  weight : Bridge N → ℕ
  weight b = length b.batteries * p

  same-weight : (s t : Bridge N) → length t.batteries ≡ length s.batteries → weight t ≡ weight s
  unfolding weight
  same-weight s t m = ap (λ n. n * p) m

  suc-weight :
      (s t : Bridge N) → length t.batteries ≡ suc (length s.batteries) → weight t ≡ weight s + p
  unfolding weight
  suc-weight s t m = ap (λ n. n * p) m ∙ suc-mul _ p

  -- Since `b` at most one message, or each of them took a period.
  record Spent (b t : Bridge N) : Type 0 where
    later : b.client.time ≤ t.client.time
    spent :
        (weight t ≡ weight b)
        ⊎ ((weight t + b.client.time ≤ weight b + t.next_battery_publish_at)
            × (t.next_battery_publish_at ≤ t.client.time + p))

  Spent-Paces : (b s t : Bridge N) → Spent b s → Paces p s t → Spent b t
  Spent-Paces b s t h (quiet m n k) = record {
    later = omega (arith, h.later, k);
    spent = ground (arith, h.spent, n, k, same-weight s t m);
  }
  Spent-Paces b s t h (acts now (inl m) due after before next) = record {
    later = omega (arith, h.later, after, before);
    spent = ground (arith, h.spent, due, before, next, same-weight s t m);
  }
  Spent-Paces b s t h (acts now (inr m) due after before next) = record {
    later = omega (arith, h.later, after, before);
    spent = inr (
      ground (arith, h.spent, h.later, due, after, next, suc-weight s t m),
      omega (arith, next, before),
    );
  }

module _ {V N D : Type 0} (json : Json V) (floats : Floats V N) (env : Env) (config : StatusConfig)
    (doubles : Doubles N D) (frames : FrameConfig) where
  events-Spent :
      (es : List (BatteryEvent N)) (b s : Bridge N) (out : Outputs N D)
      → IsDue config.battery_from_status s
      → Spent config.battery_publish_period b s
      → Spent config.battery_publish_period b
          (battery_events json floats env config doubles frames es (s, out)).0
  events-Spent [] b s out d h = h
  events-Spent (e ∷ es) b s out d h =
      let next = battery_event json floats env config doubles frames e (s, out) in
      let (paced, due) = event-Paces json floats env config doubles frames e s out d in
      events-Spent es b next.0 next.1 due
        (Spent-Paces config.battery_publish_period b s next.0 h paced)

  -- Where a query for the battery is in flight only if the batteries come from the status and the next
  -- message is due, as where none is in flight, then over any observations, updates of the status,
  -- answers, cancellations and lapses of time, from both sources together, the battery messages
  -- published number at most one more than the periods that passed.
  pub battery_events-IsPaced :
      (es : List (BatteryEvent N)) (b : Bridge N) (out : Outputs N D)
      → IsDue config.battery_from_status b
      → let t = (battery_events json floats env config doubles frames es (b, out)).0 in
        length t.batteries * config.battery_publish_period + b.client.time
        ≤ suc (length b.batteries) * config.battery_publish_period + t.client.time
  unfolding weight
  battery_events-IsPaced es b out d =
      let h = events-Spent es b b out d (record { later = le_refl _; spent = inl refl }) in
      ground (arith, h.spent, h.later, suc-mul (length b.batteries) config.battery_publish_period)
