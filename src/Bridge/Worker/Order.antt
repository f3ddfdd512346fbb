-- ===== src/Bridge/Worker/Order.antt =====
-- The worker takes the commands in the order of submission, one in each round.
use mathlib.Core.List.{append_assoc, map-append}
use uniubi_ros.Prelude.{
  ℕ, ◌<◌, true, false, ◌||◌, ◌++◌, Option, none, some, List, [], ◌∷◌, ◌≡◌, refl, subst, ◌∙◌, ap,
  arith, map, is_some, Bool-cases, inl, inr,
}
use uniubi_ros.Json.{Json}
use uniubi_ros.Client.{Env, Exit, returned, threw}
use uniubi_ros.Bridge.{Bridge, Numbers}
use uniubi_ros.Bridge.Battery.{Floats}
use uniubi_ros.Bridge.Velocity.{enforce_cmd_vel_watchdog, dispatch_pending_velocity}
use uniubi_ros.Bridge.Services.{Answer}
use uniubi_ros.Bridge.Worker.{
  QueuedCommand, Delivery, Worker, NodeConfig, WorkerEvent, submits, moves, runs, stopped, enqueue,
  keep_promise, unguarded, take_command, watch_velocity, hand_on, spin_some, update_statuses,
  unless_crashed, round, shut_down, work, work_all,
}
use uniubi_ros.Bridge.Worker.Queue.{
  run_command_answers, number_of, set_number, below, numbers_of, Keeps, Keeps-trans,
  unguarded-Keeps, unless_crashed-Keeps,
}

module _ {N : Type 0} where
  -- The first command is taken, and its promise set.
  pub record Takes (q : QueuedCommand) (rest : List QueuedCommand) (w t : Worker N) : Type 0 where
    pub commands : t.commands ≡ rest
    pub results : map set_number t.results ≡ map set_number w.results ++ (q.promise ∷ [])
    pub promises : t.promises ≡ w.promises

  Takes-Keeps :
      (q : QueuedCommand) (rest : List QueuedCommand) {w t u : Worker N}
      → Takes q rest w t
      → Keeps t u
      → Takes q rest w u
  Takes-Keeps q rest h k = record {
    commands = k.commands ∙ h.commands;
    results = ap (map set_number) k.results ∙ h.results;
    promises = k.promises ∙ h.promises;
  }

  keep_promise-Takes :
      (q : QueuedCommand) (rest : List QueuedCommand) (r : Option (Exit Answer × Bridge N))
      (w : Worker N)
      → is_some r ≡ true
      → Takes q rest w (keep_promise q.promise r (record w { commands = rest }))
  unfolding keep_promise
  keep_promise-Takes q rest none w h = absurd (ground arith)
  keep_promise-Takes q rest (some (returned answer, b)) w h = record {
    commands = refl;
    results = map-append set_number w.results ((q.promise, answer) ∷ []);
    promises = refl;
  }
  keep_promise-Takes q rest (some (threw what, b)) w h = record {
    commands = refl;
    results = map-append set_number w.results _;
    promises = refl;
  }

module _ {V N : Type 0} (json : Json V) (numbers : Numbers N) (floats : Floats V N)
    (of_number : N → V) (env : Env) (config : NodeConfig) where
  abbrev Round : (Worker N → Worker N) → Type 0
  Round g = (w : Worker N) → Keeps w (g w)

  watch_velocity-Keeps : Round (watch_velocity json numbers floats of_number env config)
  unfolding watch_velocity
  watch_velocity-Keeps w =
      unguarded-Keeps (enforce_cmd_vel_watchdog json numbers of_number env config.velocity w.bridge)
        w

  spin_some-Keeps :
      (ds : List Delivery) → Round (spin_some json numbers floats of_number env config ds)
  unfolding spin_some
  spin_some-Keeps [] w = record { commands = refl; results = refl; promises = refl }
  spin_some-Keeps (d ∷ ds) w =
      let r = hand_on json numbers floats of_number env config d w.bridge in
      unless_crashed-Keeps
        (λ v.
          spin_some json numbers floats of_number env config ds
            (unguarded (hand_on json numbers floats of_number env config d v.bridge) v))
        w w (record { commands = refl; results = refl; promises = refl })
        (Keeps-trans (unguarded-Keeps r w) (spin_some-Keeps ds (unguarded r w)))

  update_statuses-Keeps : Round (update_statuses json numbers floats of_number env config)
  unfolding update_statuses
  update_statuses-Keeps w = elim (Bool-cases w.bridge.rpc_ready) [
    | inl e ↦ rw (e, update_statuses) (record { commands = refl; results = refl; promises = refl })
    | inr e ↦ rw (e, update_statuses) (record { commands = refl; results = refl; promises = refl })
  ]

  -- The parts of a round behind the first one.
  round-Keeps :
      (ds : List Delivery) (w : Worker N)
      → Keeps
          (take_command json numbers floats of_number env config w.commands w)
          (round json numbers floats of_number env config ds w)
  unfolding round
  round-Keeps ds w =
      let t = take_command json numbers floats of_number env config w.commands w in
      let watch = watch_velocity json numbers floats of_number env config in
      let spin = spin_some json numbers floats of_number env config ds in
      let update = update_statuses json numbers floats of_number env config in
      let watched = unless_crashed watch t in
      let spun = unless_crashed spin watched in
      let first : Keeps t watched =
        unless_crashed-Keeps watch t t (record { commands = refl; results = refl; promises = refl })
          (watch_velocity-Keeps t) in
      let second : Keeps t spun =
        unless_crashed-Keeps spin t watched first (spin_some-Keeps ds watched) in
      unless_crashed-Keeps update t spun second (update_statuses-Keeps spun)

  take_command-Takes :
      (q : QueuedCommand) (rest : List QueuedCommand) (w : Worker N)
      → ((k : ℕ) → 0 < env.elapse k)
      → Takes q rest w (take_command json numbers floats of_number env config (q ∷ rest) w)
  unfolding take_command
  take_command-Takes q rest w ticks =
      keep_promise-Takes q rest _ w
        (run_command_answers json numbers floats of_number env config q.command w.bridge ticks)

  take_nothing-Keeps :
      (w : Worker N) → Keeps w (take_command json numbers floats of_number env config [] w)
  unfolding take_command
  take_nothing-Keeps w =
      unguarded-Keeps
        (dispatch_pending_velocity json numbers of_number env config.velocity w.bridge) w

  -- The promises in the order of their numbers, of which the first have their results.
  pub record IsQueue (w : Worker N) : Type 0 where
    pub in_order : numbers_of w ≡ below w.promises

  Keeps-IsQueue : {w t : Worker N} → Keeps w t → IsQueue w → IsQueue t
  Keeps-IsQueue k h = record { in_order = rw (k.commands, k.results, k.promises) h.in_order }

  Takes-IsQueue :
      (q : QueuedCommand) (rest : List QueuedCommand) {w t : Worker N}
      → w.commands ≡ q ∷ rest
      → Takes q rest w t
      → IsQueue w
      → IsQueue t
  Takes-IsQueue q rest {w} e k h = record {
    in_order =
        rw (k.commands, k.results, k.promises)
          (append_assoc (map set_number w.results) (q.promise ∷ []) (map number_of rest)
            ∙ (rw e at h.in_order));
  }

  -- A round takes the first command, if there is one.
  round-Takes :
      (q : QueuedCommand) (rest : List QueuedCommand) (ds : List Delivery) (w : Worker N)
      → ((k : ℕ) → 0 < env.elapse k)
      → w.commands ≡ q ∷ rest
      → Takes q rest w (round json numbers floats of_number env config ds w)
  round-Takes q rest ds w ticks e = Takes-Keeps q rest (take_command-Takes q rest w ticks) (
      subst
        (λ (cs : List QueuedCommand).
          Keeps (take_command json numbers floats of_number env config cs w)
            (round json numbers floats of_number env config ds w))
        e (round-Keeps ds w))

  round-IsQueue :
      (cs : List QueuedCommand) (ds : List Delivery) (w : Worker N)
      → ((k : ℕ) → 0 < env.elapse k)
      → w.commands ≡ cs
      → IsQueue w
      → IsQueue (round json numbers floats of_number env config ds w)
  round-IsQueue [] ds w ticks e h =
      Keeps-IsQueue
        (Keeps-trans (take_nothing-Keeps w) (
          subst
            (λ (cs : List QueuedCommand).
              Keeps (take_command json numbers floats of_number env config cs w)
                (round json numbers floats of_number env config ds w))
            e (round-Keeps ds w)))
        h
  round-IsQueue (q ∷ rest) ds w ticks e h =
      Takes-IsQueue q rest e (round-Takes q rest ds w ticks e) h

  -- Nothing is done once the worker has stopped or its thread is gone.
  work-IsQueue :
      (e : WorkerEvent N) (w : Worker N)
      → ((k : ℕ) → 0 < env.elapse k)
      → IsQueue w
      → IsQueue (work json numbers floats of_number env config e w)
  unfolding work enqueue
  work-IsQueue (submits command) w ticks h = record {
    in_order =
        rw
          (
            map-append number_of w.commands
                (record { promise = w.promises; command = command } ∷ []),
            ← append_assoc (map set_number w.results) (map number_of w.commands) (w.promises ∷ []),
            h.in_order,
          )
          refl;
  }
  work-IsQueue (moves x y yaw) w ticks h = record { in_order = h.in_order }
  work-IsQueue (runs ds) w ticks h = elim (Bool-cases (w.stop || w.crashed)) [
    | inl over ↦ rw (over, work) h
    | inr on ↦ rw (on, work) (round-IsQueue w.commands ds w ticks refl h)
  ]
  work-IsQueue stopped w ticks h = elim (Bool-cases (w.stop || w.crashed)) [
    | inl over ↦ rw (over, work) h
    | inr on ↦
        rw (on, work)
          (Keeps-IsQueue
            (unguarded-Keeps (shut_down json numbers floats of_number env config w.bridge)
              (record w { stop = true }))
            (record { in_order = h.in_order }))
  ]

  work_all-IsQueue :
      (es : List (WorkerEvent N)) (w : Worker N)
      → ((k : ℕ) → 0 < env.elapse k)
      → IsQueue w
      → IsQueue (work_all json numbers floats of_number env config es w)
  unfolding work_all
  work_all-IsQueue [] w ticks h = h
  work_all-IsQueue (e ∷ es) w ticks h =
      work_all-IsQueue es (work json numbers floats of_number env config e w) ticks
        (work-IsQueue e w ticks h)

  -- A worker whose promises, those that are set and then those of the waiting commands, are in the
  -- order of submission, as with none at the start, while the clock moves on: after any submissions,
  -- velocities and rounds, whatever the robot answers, they still are all promises in this order, each
  -- once. If a command waits
  -- and the thread runs, the next round takes the first one and sets its promise and no other.
  pub work_all-Takes :
      (es : List (WorkerEvent N)) (q : QueuedCommand) (rest : List QueuedCommand)
      (ds : List Delivery) (w : Worker N)
      → ((k : ℕ) → 0 < env.elapse k)
      → numbers_of w ≡ below w.promises
      → (work_all json numbers floats of_number env config es w).commands ≡ q ∷ rest
      → (work_all json numbers floats of_number env config es w).stop
          || (work_all json numbers floats of_number env config es w).crashed
        ≡ false
      → let t = work_all json numbers floats of_number env config es w in
        (numbers_of t ≡ below t.promises)
        × Takes q rest t (work json numbers floats of_number env config (runs ds) t)
  unfolding work
  work_all-Takes es q rest ds w ticks fresh waits on =
      let t = work_all json numbers floats of_number env config es w in
      (
        (work_all-IsQueue es w ticks (record { in_order = fresh })).in_order,
        rw (on, work) (round-Takes q rest ds t ticks waits),
      )
