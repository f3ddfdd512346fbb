-- ===== src/Bridge/Queries/Watched.antt =====
-- A status query and its deadline: `update_motion_status` and the callback on the answer.
use uniubi_ros.Prelude.{
  ℕ, ◌+◌, ◌≤◌, ◌<◌, true, Option, none, some, ◌≡◌, ◌⊎◌, inl, inr, refl, arith, is_some, ltb, leb,
  ◌==◌, Bool-cases, Option-cases,
}
use uniubi_ros.Json.{Json}
use uniubi_ros.Client.{Env, Exit, Response, ms, read_clock, pass}
use uniubi_ros.Bridge.{
  Bridge, set_status_error, publish_motion_status, publish_in, cancel_motion_status_query,
}
use uniubi_ros.Bridge.Battery.{Floats}
use uniubi_ros.Bridge.Velocity.{bridge_clock}
use uniubi_ros.Bridge.Queries.{
  StatusConfig, value_or, is_pending, answer_motion_status, motion_status_failed,
  record_motion_query, send_motion_query, poll_answer, poll_motion_status, update_motion_status,
}
use uniubi_ros.Bridge.Queries.Answers.Told.{settle_motion_status-Told}

-- A query in flight whose answer has a time has this answer, and its deadline is at most a second away.
pub record IsWatched {N : Type 0} (b : Bridge N) : Type 0 where
  pub heard :
      is_some b.pending_motion_status_query ≡ true
      → is_some b.motion_status_response_at ≡ true
      → is_some b.motion_status_answer ≡ true
  pub due :
      is_some b.pending_motion_status_query ≡ true
      → b.motion_status_query_deadline ≤ b.client.time + ms 1000

-- No query is in flight, or its deadline is ahead.
abbrev pub IsTimely : {N : Type 0} → Bridge N → Type 0
IsTimely b =
    (b.pending_motion_status_query ≡ none)
    ⊎ ((b.client.time < b.motion_status_query_deadline)
        × (b.motion_status_query_deadline ≤ b.client.time + ms 1000))

pub idle_lem :
    {N : Type 0} (b : Bridge N) → b.pending_motion_status_query ≡ none → IsWatched b × IsTimely b
idle_lem b e =
    (record { heard = λ p. absurd (ground arith); due = λ p. absurd (ground arith) }, inl e)

module _ {N : Type 0} (env : Env) where
  pub answer-IsWatched :
      (id sequence : ℕ) (future : Exit (Option Response)) (b : Bridge N)
      → IsWatched b
      → IsWatched (answer_motion_status env id sequence future b)
  unfolding answer_motion_status bridge_clock read_clock pass
  answer-IsWatched id sequence future b w =
      elim (Bool-cases (is_pending b.pending_motion_status_query id)) [
        | inr other ↦ rw (other, answer_motion_status) w
        | inl mine ↦ elim (Bool-cases (sequence == b.motion_status_query_sequence)) [
          | inl current ↦
              rw (mine, current, answer_motion_status)
                (record { heard = λ p h. refl; due = λ p. omega (arith, w.due p) })
          | inr old ↦
              rw (mine, old, answer_motion_status) (record { heard = λ p h. refl; due = w.due })
        ]
      ]

module _ {V N : Type 0} (json : Json V) (floats : Floats V N) (env : Env)
    (config : StatusConfig) where
  record_motion_query-IsTimely :
      (now : ℕ) (id : Option ℕ) (b : Bridge N)
      → b.client.time ≡ now
      → b.motion_status_response_at ≡ none
      → let t = record_motion_query json floats env config now id b in IsWatched t × IsTimely t
  unfolding record_motion_query motion_status_failed cancel_motion_status_query set_status_error
      publish_motion_status publish_in
  record_motion_query-IsTimely now none b e r = idle_lem _ refl
  record_motion_query-IsTimely now (some id) b e r = (
    record { heard = λ p h. absurd (ground arith); due = λ p. omega arith },
    inr (omega arith, omega arith),
  )

  poll_answer-IsTimely :
      (now id : ℕ) (answer : Option (Exit (Option Response))) (b : Bridge N)
      → b.client.time ≡ now
      → b.pending_motion_status_query ≡ some id
      → b.motion_status_answer ≡ answer
      → value_or b.motion_status_response_at now < b.motion_status_query_deadline
      → IsWatched b
      → let t = poll_answer json floats env config now answer b in IsWatched t × IsTimely t
  unfolding poll_answer
  poll_answer-IsTimely now id none b e q a early w =
      elim (Option-cases b.motion_status_response_at) [
        | inl silent ↦
            let ahead : now < b.motion_status_query_deadline = rw silent at early in
            (w, inr (omega arith, w.due (rw q refl)))
        | inr (r, heard) ↦
            let k : is_some b.motion_status_answer ≡ true = w.heard (rw q refl) (rw heard refl) in
            absurd (cc (a, k))
      ]
  poll_answer-IsTimely now id (some future) b e q a early w =
      idle_lem _ (settle_motion_status-Told json floats env config now future b).0.over

  poll-IsTimely :
      (now : ℕ) (query : Option ℕ) (b : Bridge N)
      → b.client.time ≡ now
      → b.pending_motion_status_query ≡ query
      → IsWatched b
      → let t = poll_motion_status json floats env config now query b in IsWatched t × IsTimely t
  unfolding poll_motion_status send_motion_query motion_status_failed cancel_motion_status_query
      set_status_error publish_motion_status publish_in
  poll-IsTimely now none b e q w = elim (Bool-cases (ltb now b.next_motion_status_query_at)) [
    | inl early ↦ rw (early, poll_motion_status) (w, inl q)
    | inr late ↦ rw (late, poll_motion_status) (record_motion_query-IsTimely now _ _ e refl)
  ]
  poll-IsTimely now (some id) b e q w =
      elim (Bool-cases
        (leb b.motion_status_query_deadline (value_or b.motion_status_response_at now))) [
          | inl late ↦ rw (late, poll_motion_status) (idle_lem _ refl)
          | inr early ↦
              rw (early, poll_motion_status)
                (poll_answer-IsTimely now id b.motion_status_answer b e q refl (ground arith) w)
        ]

  pub update-IsTimely :
      (b : Bridge N)
      → IsWatched b
      → let t = update_motion_status json floats env config b in IsWatched t × IsTimely t
  unfolding update_motion_status bridge_clock read_clock pass cancel_motion_status_query
  update-IsTimely b w =
      let t = (bridge_clock env b).1 in
      let v : IsWatched t = record { heard = w.heard; due = λ p. omega (arith, w.due p) } in
      ground (
        arith,
        poll-IsTimely t.client.time t.pending_motion_status_query t refl refl v,
        idle_lem (cancel_motion_status_query t) refl,
      )
