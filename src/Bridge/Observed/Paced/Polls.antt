-- ===== src/Bridge/Observed/Paced/Polls.antt =====
-- Each source of battery messages publishes only what is due.
use native.Mathlib.Nat.{le_refl}
use uniubi_ros.Prelude.{
  ℕ, ◌≤◌, true, not, ◌&&◌, ◌||◌, Option, none, some, leb, ltb, ◌==◌, ◌≡◌, inl, inr, refl, arith,
  Bool-cases,
}
use uniubi_ros.Json.{Json}
use uniubi_ros.Client.{Env, Exit, Response, read_clock, pass}
use uniubi_ros.Bridge.{Bridge, cancel_battery_status_query}
use uniubi_ros.Bridge.Battery.{Floats, PowerObserved}
use uniubi_ros.Bridge.Velocity.{bridge_clock}
use uniubi_ros.Bridge.Queries.{StatusConfig, value_or, is_pending}
use uniubi_ros.Bridge.BatteryQueries.{
  answer_battery_status, record_battery_query, send_battery_query, poll_battery_answer,
  poll_battery_status, update_battery_status,
}
use uniubi_ros.Bridge.Observed.{publish_due_battery}
use uniubi_ros.Bridge.Observed.Paced.Steps.{
  forget_request-time, IsDue, Paces, quiet, acts, Paces-behind, Done-Paces, failed-Done,
  settle-Done,
}

module _ {V N : Type 0} (json : Json V) (floats : Floats V N) (env : Env)
    (config : StatusConfig) where
  abbrev p : ℕ
  p = config.battery_publish_period

  record-Paces :
      (now : ℕ) (id : Option ℕ) (b : Bridge N)
      → config.battery_from_status ≡ true
      → b.next_battery_publish_at ≤ now
      → b.client.time ≡ now
      → let t = record_battery_query json floats env config now id b in
        Paces p b t × IsDue config.battery_from_status t
  unfolding record_battery_query
  record-Paces now none b on due e = Done-Paces due e (failed-Done json floats env config now b)
  record-Paces now (some id) b on due e =
      (quiet refl refl (omega arith), λ k. (on, omega (arith, due, e)))

  answer-Paces :
      (now : ℕ) (answer : Option (Exit (Option Response))) (b : Bridge N)
      → IsDue config.battery_from_status b
      → b.next_battery_publish_at ≤ now
      → b.client.time ≡ now
      → let t = poll_battery_answer json floats env config now answer b in
        Paces p b t × IsDue config.battery_from_status t
  unfolding poll_battery_answer
  answer-Paces now none b d due e = (quiet refl refl (omega arith), d)
  answer-Paces now (some future) b d due e =
      Done-Paces due e (settle-Done json floats env config now future b)

  poll-Paces :
      (now : ℕ) (query : Option ℕ) (b : Bridge N)
      → config.battery_from_status ≡ true
      → b.client.time ≡ now
      → b.pending_battery_status_query ≡ query
      → IsDue config.battery_from_status b
      → let t = poll_battery_status json floats env config now query b in
        Paces p b t × IsDue config.battery_from_status t
  unfolding poll_battery_status send_battery_query
  poll-Paces now none b on e q d = elim (Bool-cases (ltb now b.next_battery_publish_at)) [
    | inl early ↦ rw (early, poll_battery_status) (quiet refl refl (omega arith), d)
    | inr late ↦
        rw (late, poll_battery_status)
          (let r = record-Paces now _ _ on (ground arith) e in
            (Paces-behind {b = b} refl refl (le_refl _) r.0, r.1))
  ]
  poll-Paces now (some id) b on e q d =
      elim (Bool-cases
        (leb b.battery_status_query_deadline (value_or b.battery_status_response_at now))) [
          | inl late ↦
              rw (late, poll_battery_status)
                (Done-Paces due e (failed-Done json floats env config now b))
          | inr early ↦ rw (early, poll_battery_status) (answer-Paces now _ b d due e)
        ]
    where
      due : b.next_battery_publish_at ≤ now
      due = omega (arith, e, (d (rw q refl)).1)

  pub update-Paces :
      (b : Bridge N)
      → IsDue config.battery_from_status b
      → let t = update_battery_status json floats env config b in
        Paces p b t × IsDue config.battery_from_status t
  unfolding update_battery_status bridge_clock read_clock pass cancel_battery_status_query
  update-Paces b d =
      elim (Bool-cases (not config.battery_from_status || not b.motion_observed_enabled)) [
        | inl off ↦
            rw (off, update_battery_status)
              (
                quiet refl refl
                    (omega (arith, forget_request-time b.pending_battery_status_query b.client)),
                λ k. absurd (ground arith),
              )
        | inr on ↦
            rw (on, update_battery_status)
              (let t = (bridge_clock env b).1 in
                let r =
                  poll-Paces t.client.time t.pending_battery_status_query t (ground arith) refl refl
                    (λ k. ((d k).0, omega (arith, (d k).1))) in
                (Paces-behind {b = b} refl refl (omega arith) r.0, r.1))
      ]

  pub observation-Paces :
      (power : PowerObserved N) (b : Bridge N)
      → IsDue config.battery_from_status b
      → let t = publish_due_battery json floats env config power b in
        Paces p b t × IsDue config.battery_from_status t
  unfolding publish_due_battery bridge_clock read_clock pass
  observation-Paces power b d =
      let t = (bridge_clock env b).1 in
      elim (Bool-cases
        (not config.battery_from_status && leb t.next_battery_publish_at t.client.time)) [
          | inl now ↦
              rw (now, publish_due_battery)
                (
                  acts t.client.time (inr refl) (ground arith) (omega arith) (omega arith) refl,
                  λ k. absurd (grind (arith, now, (d k).0)),
                )
          | inr kept ↦
              rw (kept, publish_due_battery)
                (quiet refl refl (omega arith), λ k. ((d k).0, omega (arith, (d k).1)))
        ]

  pub answered-Paces :
      (id sequence : ℕ) (future : Exit (Option Response)) (b : Bridge N)
      → IsDue config.battery_from_status b
      → let t = answer_battery_status env id sequence future b in
        Paces p b t × IsDue config.battery_from_status t
  unfolding answer_battery_status bridge_clock read_clock pass
  answered-Paces id sequence future b d =
      elim (Bool-cases (is_pending b.pending_battery_status_query id)) [
        | inr other ↦ rw (other, answer_battery_status) (quiet refl refl (omega arith), d)
        | inl mine ↦ elim (Bool-cases (sequence == b.battery_status_query_sequence)) [
          | inl current ↦
              rw (mine, current, answer_battery_status)
                (quiet refl refl (omega arith), λ k. ((d k).0, omega (arith, (d k).1)))
          | inr old ↦ rw (mine, old, answer_battery_status) (quiet refl refl (omega arith), d)
        ]
      ]
