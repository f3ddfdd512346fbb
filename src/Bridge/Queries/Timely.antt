-- ===== src/Bridge/Queries/Timely.antt =====
-- A status query is not in flight for longer than a second.
use uniubi_ros.Prelude.{
  ℕ, ◌+◌, ◌≤◌, true, Option, none, some, List, [], ◌∷◌, ◌≡◌, ◌∙◌, inl, inr, refl, arith, is_some,
  leb, Bool-cases, Option-cases,
}
use uniubi_ros.Json.{Json}
use uniubi_ros.Client.{Env, Exit, Response, ms, read_clock, pass}
use uniubi_ros.Bridge.{
  Bridge, set_status_error, publish_motion_status, publish_in, cancel_motion_status_query,
}
use uniubi_ros.Bridge.Battery.{Floats}
use uniubi_ros.Bridge.Velocity.{bridge_clock}
use uniubi_ros.Bridge.Queries.{
  StatusConfig, value_or, answer_motion_status, motion_status_failed, poll_answer,
  poll_motion_status, update_motion_status,
}
use uniubi_ros.Bridge.Queries.Watched.{
  IsWatched, IsTimely, idle_lem, answer-IsWatched, update-IsTimely,
}
use uniubi_ros.Bridge.Queries.Answers.Told.{settle_motion_status-Told}

-- What the worker and the executor do to a status query: an update, an answer, a cancellation.
pub data PollEvent : Type 0 where
  updates cancels : PollEvent
  answers : ℕ → ℕ → Exit (Option Response) → PollEvent

module _ {V N : Type 0} (json : Json V) (floats : Floats V N) (env : Env)
    (config : StatusConfig) where
  abbrev pub poll_event : PollEvent → Bridge N → Bridge N
  poll_event updates b = update_motion_status json floats env config b
  poll_event cancels b = cancel_motion_status_query b
  poll_event (answers id sequence future) b = answer_motion_status env id sequence future b

  abbrev pub poll_events : List PollEvent → Bridge N → Bridge N
  poll_events [] b = b
  poll_events (e ∷ es) b = poll_events es (poll_event e b)

  poll_event-IsWatched : (e : PollEvent) (b : Bridge N) → IsWatched b → IsWatched (poll_event e b)
  unfolding cancel_motion_status_query
  poll_event-IsWatched updates b w = (update-IsTimely json floats env config b w).0
  poll_event-IsWatched cancels b w = (idle_lem (cancel_motion_status_query b) refl).0
  poll_event-IsWatched (answers id sequence future) b w =
      answer-IsWatched env id sequence future b w

  poll_events-IsWatched :
      (es : List PollEvent) (b : Bridge N) → IsWatched b → IsWatched (poll_events es b)
  poll_events-IsWatched [] b w = w
  poll_events-IsWatched (e ∷ es) b w =
      poll_events-IsWatched es (poll_event e b) (poll_event-IsWatched e b w)

  -- A query is in flight now and after each of the events.
  abbrev pub StaysInFlight : List PollEvent → Bridge N → Type 0
  StaysInFlight [] b = is_some b.pending_motion_status_query ≡ true
  StaysInFlight (e ∷ es) b =
      (is_some b.pending_motion_status_query ≡ true) × StaysInFlight es (poll_event e b)

  first-InFlight :
      (es : List PollEvent) (b : Bridge N)
      → StaysInFlight es b
      → is_some b.pending_motion_status_query ≡ true
  first-InFlight [] b h = h
  first-InFlight (e ∷ es) b (p, h) = p

  poll_answer-deadline :
      (now : ℕ) (answer : Option (Exit (Option Response))) (b : Bridge N)
      → let t = poll_answer json floats env config now answer b in
        is_some t.pending_motion_status_query ≡ true
        → t.motion_status_query_deadline ≡ b.motion_status_query_deadline
  unfolding poll_answer
  poll_answer-deadline now none b h = refl
  poll_answer-deadline now (some future) b h =
      let over = (settle_motion_status-Told json floats env config now future b).0.over in
      absurd (cc (over, h))

  poll-deadline :
      (now id : ℕ) (b : Bridge N)
      → let t = poll_motion_status json floats env config now (some id) b in
        is_some t.pending_motion_status_query ≡ true
        → t.motion_status_query_deadline ≡ b.motion_status_query_deadline
  unfolding poll_motion_status motion_status_failed cancel_motion_status_query set_status_error
      publish_motion_status publish_in
  poll-deadline now id b h =
      elim (Bool-cases
        (leb b.motion_status_query_deadline (value_or b.motion_status_response_at now))) [
          | inl late ↦ rw (late, poll_motion_status) refl
          | inr early ↦
              rw (early, poll_motion_status)
                (poll_answer-deadline now b.motion_status_answer b
                  (rw (early, poll_motion_status) at h))
        ]

  -- An event after which the same query is in flight leaves its deadline.
  poll_event-deadline :
      (e : PollEvent) (b : Bridge N)
      → is_some b.pending_motion_status_query ≡ true
      → is_some (poll_event e b).pending_motion_status_query ≡ true
      → (poll_event e b).motion_status_query_deadline ≡ b.motion_status_query_deadline
  unfolding update_motion_status bridge_clock read_clock pass cancel_motion_status_query
      answer_motion_status
  poll_event-deadline updates b p q = elim (Option-cases b.pending_motion_status_query) [
    | inl e ↦ absurd (cc (e, p))
    | inr (id, e) ↦ let (now, t) = bridge_clock env b in ground (arith, poll-deadline now id t)
  ]
  poll_event-deadline cancels b p q = absurd (ground arith)
  poll_event-deadline (answers id sequence future) b p q = ground arith

  poll_events-deadline :
      (es : List PollEvent) (b : Bridge N)
      → StaysInFlight es b
      → (is_some (poll_events es b).pending_motion_status_query ≡ true)
        × ((poll_events es b).motion_status_query_deadline ≡ b.motion_status_query_deadline)
  poll_events-deadline [] b h = (h, refl)
  poll_events-deadline (e ∷ es) b (p, h) =
      let (q, same) = poll_events-deadline es (poll_event e b) h in
      (q, same ∙ poll_event-deadline e b p (first-InFlight es (poll_event e b) h))

  -- From a node with no status query in flight, after any updates, cancellations and answers, of
  -- whatever request and with whatever content: behind an update no status query is in flight, or
  -- one whose deadline is ahead, by at most a second. And where a query in flight then stays in
  -- flight through any further events, the first update whose clock reads a second more gives it up
  -- or takes its answer: none is in flight behind it.
  pub update_motion_status-IsTimely :
      (before after : List PollEvent) (b : Bridge N)
      → b.pending_motion_status_query ≡ none
      → let s = poll_events before b in
        let t = poll_events after s in
        let u = update_motion_status json floats env config t in
        IsTimely u
        × (StaysInFlight after s
            → s.client.time + ms 1000 ≤ u.client.time
            → u.pending_motion_status_query ≡ none)
  update_motion_status-IsTimely before after b e =
      let s = poll_events before b in
      let t = poll_events after s in
      let watched = poll_events-IsWatched before b (idle_lem b e).0 in
      let timely =
        (update-IsTimely json floats env config t (poll_events-IsWatched after s watched)).1 in
      (
        timely,
        λ stays late.
            let (p, same) = poll_events-deadline after s stays in
            let due = watched.due (first-InFlight after s stays) in
            elim timely [
              | inl over ↦ over
              | inr (ahead, near) ↦
                  elim (Option-cases
                    (update_motion_status json floats env config t).pending_motion_status_query) [
                      | inl over ↦ over
                      | inr (id, q) ↦
                          let kept = poll_event-deadline updates t p (rw q refl) in
                          absurd (omega (arith, ahead, kept, same, due, late))
                    ]
            ],
      )
