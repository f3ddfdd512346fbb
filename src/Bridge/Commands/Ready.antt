-- ===== src/Bridge/Commands/Ready.antt =====
-- The wait of `connect_client` for the service ends.
use uniubi_ros.Prelude.{
  ℕ, zero, suc, ◌+◌, ◌≤◌, ◌<◌, ℤ, pos, String, Bool, true, false, Option, none, some, ◌≡◌, refl,
  arith, inl, inr, leb, Bool-cases, is_some,
}
use uniubi_ros.Json.{Json}
use uniubi_ros.Client.{Client, Env, Exit, returned, threw, ms, read_clock, sleep_for, pass}
use uniubi_ros.Client.Queries.{query_capabilities}
use uniubi_ros.Client.Clock.{time-stable}
use uniubi_ros.Client.Kept.{ask_keeps}
use uniubi_ros.Client.Machine.{capabilities, ask}
use uniubi_ros.Client.Session.{connect as client_connect, start_control}
use uniubi_ros.Client.Acquisition.{start_control_ends}
use uniubi_ros.Bridge.{Bridge, CommandResult, Numbers, after_call}
use uniubi_ros.Bridge.Commands.Actions.{
  go_on, take_control, acquire_connected, acquire_control, act, start_connected, start_action,
}
use uniubi_ros.Bridge.Commands.Connection.{
  Readiness, ready, late, exhausted, ConnectionConfig, retry_ready, ask_ready, round_ready,
  wait_until, wait_for_rpc_ready, settle_ready, await_ready, settle_connect, connect_client,
  connect_readiness_timeout_ms,
}

abbrev pub is_exhausted : Readiness → Bool
is_exhausted exhausted = true
is_exhausted _ = false

pub go_on_answers :
    {A B N : Type 0}
    → (r : Option (Exit A × Bridge N)) (k : A → Bridge N → Option (Exit B × Bridge N))
    → is_some r ≡ true
    → ((a : A) (b : Bridge N) → is_some (k a b) ≡ true)
    → is_some (go_on r k) ≡ true
go_on_answers none k h g = cc
go_on_answers (some (returned a, b)) k h g = g a b
go_on_answers (some (threw what, b)) k h g = refl

module _ {V : Type 0} (json : Json V) (env : Env) where
  abbrev EndsFrom : ℕ → (Client → Readiness × Client) → Type 0
  EndsFrom k again = (t : Client) → k ≤ t.time → is_exhausted (again t).0 ≡ false

  retry_ready_ends :
      (k deadline : ℕ) (again : Client → Readiness × Client) (r : Bool × Option String × Client)
      → EndsFrom k again
      → k ≤ r.2.time
      → is_exhausted (retry_ready json env deadline again r).0 ≡ false
  unfolding retry_ready read_clock sleep_for pass
  retry_ready_ends k deadline again (true, out, s) ends h = refl
  retry_ready_ends k deadline again (false, out, s) ends h =
      elim (Bool-cases (leb deadline (read_clock env s).0)) [
        | inl e ↦ rw (e, retry_ready) refl
        | inr e ↦ rw (e, retry_ready) (ends _ (omega arith))
      ]

  query_capabilities-time :
      (k : ℕ) (timeout_ms : ℤ) (s : Client)
      → k ≤ s.time
      → k ≤ (query_capabilities json env timeout_ms s).2.time
  unfolding ask
  query_capabilities-time k timeout_ms s h =
      ask_keeps json env (λ t. k ≤ t.time) (time-stable json env k) capabilities timeout_ms s h

  round_ready_ends :
      (k deadline : ℕ) (again : Client → Readiness × Client) (s : Client)
      → (s.time < deadline → EndsFrom k again)
      → k ≤ (read_clock env s).1.time
      → is_exhausted (round_ready json env deadline again s).0 ≡ false
  unfolding round_ready ask_ready read_clock pass
  round_ready_ends k deadline again s ends h =
      elim (Bool-cases (leb deadline (read_clock env s).0)) [
        | inl e ↦ rw (e, round_ready) refl
        | inr e ↦
            rw (e, round_ready)
              (retry_ready_ends k deadline again _ (ends (ground arith))
                (query_capabilities-time k _ (read_clock env (read_clock env s).1).1 (omega arith)))
      ]

  wait_until_ends :
      (fuel deadline : ℕ) (s : Client)
      → ((k : ℕ) → 0 < env.elapse k)
      → 0 < fuel
      → deadline < fuel + s.time
      → is_exhausted (wait_until json env fuel deadline s).0 ≡ false
  unfolding wait_until read_clock pass
  wait_until_ends zero deadline s moves h enough = absurd (omega arith)
  wait_until_ends (suc fuel) deadline s moves h enough =
      round_ready_ends (suc s.time) deadline (wait_until json env fuel deadline) s
        (λ early t late. wait_until_ends fuel deadline t moves (omega arith) (omega arith))
        (omega (arith, moves s.steps))

module _ {V N : Type 0} (json : Json V) (numbers : Numbers N) (env : Env)
    (config : ConnectionConfig) where
  settle_ready_answers :
      (r : Readiness × Client) (b : Bridge N)
      → is_exhausted r.0 ≡ false
      → is_some (settle_ready json numbers env config r b) ≡ true
  unfolding settle_ready
  settle_ready_answers (ready, s) b h = refl
  settle_ready_answers (late, s) b h = refl
  settle_ready_answers (exhausted, s) b h = cc

  await_ready_answers :
      (b : Bridge N)
      → ((k : ℕ) → 0 < env.elapse k)
      → is_some (await_ready json numbers env config b) ≡ true
  unfolding await_ready wait_for_rpc_ready read_clock pass
  await_ready_answers b moves = settle_ready_answers _ b (
      wait_until_ends json env (suc (ms connect_readiness_timeout_ms)) _ (read_clock env b.client).1
        moves (omega arith) (omega arith))

  settle_connect_answers :
      (ok : Bool) (b : Bridge N)
      → ((k : ℕ) → 0 < env.elapse k)
      → is_some (settle_connect json numbers env config ok b) ≡ true
  unfolding settle_connect
  settle_connect_answers true b moves = await_ready_answers b moves
  settle_connect_answers false b moves = refl

  pub connect_client_ends :
      (b : Bridge N)
      → ((k : ℕ) → 0 < env.elapse k)
      → is_some (connect_client json numbers env config b) ≡ true
  unfolding connect_client
  connect_client_ends b moves =
      let (ok, s) = client_connect env config.lease_ms b.client in
      ground (
        arith,
        await_ready_answers b moves,
        settle_connect_answers ok (after_call numbers s (record b { rpc_ready = false })) moves,
      )

  take_control_answers :
      (r : Option (Exit Bool) × Client) (b : Bridge N)
      → is_some r.0 ≡ true
      → is_some (take_control json numbers env config r b) ≡ true
  unfolding take_control
  take_control_answers (none, s) b h = cc
  take_control_answers (some (threw what), s) b h = refl
  take_control_answers (some (returned ok), s) b h = refl

  acquire_connected_answers :
      (link : CommandResult) (b : Bridge N)
      → ((k : ℕ) → 0 < env.elapse k)
      → is_some (acquire_connected json numbers env config link b) ≡ true
  unfolding acquire_connected
  acquire_connected_answers link b moves = ground (
    arith,
    take_control_answers (start_control json env (pos 10000) b.client) b
        (start_control_ends json env (pos 10000) b.client moves),
  )

  pub acquire_control_answers :
      (b : Bridge N)
      → ((k : ℕ) → 0 < env.elapse k)
      → is_some (acquire_control json numbers env config b) ≡ true
  unfolding acquire_control
  acquire_control_answers b moves =
      go_on_answers (connect_client json numbers env config b)
        (acquire_connected json numbers env config) (connect_client_ends b moves)
        (λ link t. acquire_connected_answers link t moves)

  act_answers :
      (action params_json : String) (r : CommandResult × Bool) (b : Bridge N)
      → is_some (act json numbers env config action params_json r b) ≡ true
  unfolding act
  act_answers action params_json r b = ground arith

  start_connected_answers :
      (action params_json : String) (link : CommandResult) (b : Bridge N)
      → ((k : ℕ) → 0 < env.elapse k)
      → is_some (start_connected json numbers env config action params_json link b) ≡ true
  unfolding start_connected
  start_connected_answers action params_json link b moves = ground (
    arith,
    go_on_answers (acquire_control json numbers env config b)
        (act json numbers env config action params_json) (acquire_control_answers b moves)
        (act_answers action params_json),
  )

  -- The command `start_action`, which connects, waits for the service, takes control and starts the
  -- action, ends with a result or an exception, whatever the service answers and whatever arrives
  -- meanwhile, if the clock moves on between its readings.
  pub start_action_ends :
      (action params_json : String) (b : Bridge N)
      → ((k : ℕ) → 0 < env.elapse k)
      → is_some (start_action json numbers env config action params_json b) ≡ true
  unfolding start_action
  start_action_ends action params_json b moves = ground (
    arith,
    go_on_answers (connect_client json numbers env config b)
        (start_connected json numbers env config action params_json) (connect_client_ends b moves)
        (λ link t. start_connected_answers action params_json link t moves),
  )
