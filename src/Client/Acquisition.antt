-- ===== src/Client/Acquisition.antt =====
-- `startControl`: that its loop ends.
use uniubi_ros.Prelude.{
  ℕ, zero, suc, ◌+◌, ◌≤◌, ◌<◌, ℤ, Bool, true, false, ◌≡◌, refl, arith, inl, inr, leb, Bool-cases,
  is_some,
}
use uniubi_ros.Json.{Json}
use uniubi_ros.Client.{
  Client, Env, ms, read_clock, sleep_for, pass, timeout_from_ms, ensure_connected,
}
use uniubi_ros.Client.Session.{
  Switch, switched, expired, exhausted, fail_acquire, master_params, retry_switch, after_attempt,
  attempt_switch, switch_master, enter_control, adopt_lease, accept_controller, after_take,
  take_control, settle_switch, after_switch, acquire_until, start_control, master_switch_wait_ms,
}
use uniubi_ros.Client.Stable.{rpc_call_keeps}
use uniubi_ros.Client.Clock.{time-stable}

abbrev pub is_exhausted : Switch → Bool
is_exhausted exhausted = true
is_exhausted _ = false

module _ {V : Type 0} (json : Json V) (env : Env) where
  open json use {null_value}

  -- The rest of the loop ends from any time of `k` on.
  abbrev EndsFrom : ℕ → (Client → Switch × Client) → Type 0
  EndsFrom k again = (t : Client) → k ≤ t.time → is_exhausted (again t).0 ≡ false

  retry_switch-ends :
      (k deadline : ℕ) (again : Client → Switch × Client) (s : Client)
      → EndsFrom k again
      → k ≤ s.time
      → is_exhausted (retry_switch json env deadline again s).0 ≡ false
  unfolding retry_switch read_clock sleep_for pass
  retry_switch-ends k deadline again s ends h =
      elim (Bool-cases (leb deadline (read_clock env s).0)) [
        | inl e ↦ rw (e, retry_switch) refl
        | inr e ↦ rw (e, retry_switch) (ends _ (omega arith))
      ]

  after_attempt-ends :
      (k deadline : ℕ) (again : Client → Switch × Client) (r : Bool × V × Client)
      → EndsFrom k again
      → k ≤ r.2.time
      → is_exhausted (after_attempt json env deadline again r).0 ≡ false
  unfolding after_attempt
  after_attempt-ends k deadline again (true, out, s) ends h = refl
  after_attempt-ends k deadline again (false, out, s) ends h =
      retry_switch-ends k deadline again s ends h

  attempt_switch-ends :
      (k deadline : ℕ) (again : Client → Switch × Client) (s : Client)
      → (s.time < deadline → EndsFrom k again)
      → k ≤ (read_clock env s).1.time
      → is_exhausted (attempt_switch json env deadline again s).0 ≡ false
  unfolding attempt_switch read_clock pass
  attempt_switch-ends k deadline again s ends h =
      let t = (read_clock env s).1 in
      elim (Bool-cases (leb deadline (read_clock env s).0)) [
        | inl e ↦ rw (e, attempt_switch) refl
        | inr e ↦
            rw (e, attempt_switch)
              (after_attempt-ends k deadline again _ (ends (ground arith)) (
                rpc_call_keeps json env (λ u. k ≤ u.time) (time-stable json env k)
                  "setMotionMasterRole" t.client_id (master_params json env) null_value _ t h))
      ]

  switch_master-ends :
      (fuel deadline : ℕ) (s : Client)
      → ((k : ℕ) → 0 < env.elapse k)
      → 0 < fuel
      → deadline < fuel + s.time
      → is_exhausted (switch_master json env fuel deadline s).0 ≡ false
  unfolding switch_master read_clock pass
  switch_master-ends zero deadline s moves h enough = absurd (omega arith)
  switch_master-ends (suc fuel) deadline s moves h enough =
      attempt_switch-ends (suc s.time) deadline (switch_master json env fuel deadline) s
        (λ early t late. switch_master-ends fuel deadline t moves (omega arith) (omega arith))
        (omega (arith, moves s.steps))

  accept_controller-answers :
      (ret : V) (s : Client) → is_some (accept_controller json env ret s).0 ≡ true
  unfolding accept_controller adopt_lease enter_control fail_acquire
  accept_controller-answers ret s = ground arith

  after_take-answers : (r : Bool × V × Client) → is_some (after_take json env r).0 ≡ true
  unfolding after_take fail_acquire
  after_take-answers (true, ret, s) = accept_controller-answers ret s
  after_take-answers (false, ret, s) = refl

  take_control-answers :
      (deadline : ℕ) (s : Client) → is_some (take_control json env deadline s).0 ≡ true
  unfolding take_control fail_acquire
  take_control-answers deadline s = elim (Bool-cases (leb deadline (read_clock env s).0)) [
    | inl e ↦ rw e refl
    | inr e ↦ rw e (after_take-answers _)
  ]

  settle_switch-answers :
      (deadline : ℕ) (s : Client) → is_some (settle_switch json env deadline s).0 ≡ true
  unfolding settle_switch fail_acquire
  settle_switch-answers deadline s =
      elim (Bool-cases (leb deadline ((read_clock env s).0 + ms master_switch_wait_ms))) [
        | inl e ↦ rw e refl
        | inr e ↦ rw e (take_control-answers deadline _)
      ]

  after_switch-answers :
      (deadline : ℕ) (r : Switch × Client)
      → is_exhausted r.0 ≡ false
      → is_some (after_switch json env deadline r).0 ≡ true
  unfolding after_switch fail_acquire
  after_switch-answers deadline (switched, s) h = settle_switch-answers deadline s
  after_switch-answers deadline (expired, s) h = refl
  after_switch-answers deadline (exhausted, s) h = cc

  -- `startControl` ends, with a result or an exception, whatever the service answers and whatever
  -- arrives while it waits, if the clock moves on between its readings: the fuel of its loop, one
  -- more than the nanoseconds of the timeout, is enough.
  pub start_control_ends :
      (timeout_ms : ℤ) (s : Client)
      → ((k : ℕ) → 0 < env.elapse k)
      → is_some (start_control json env timeout_ms s).0 ≡ true
  unfolding start_control ensure_connected acquire_until read_clock pass
  start_control_ends timeout_ms s moves =
      let u = (read_clock env s).1 in
      let deadline = u.time + timeout_from_ms timeout_ms in
      ground (
        arith,
        after_switch-answers deadline
            (switch_master json env (suc (timeout_from_ms timeout_ms)) deadline u)
            (switch_master-ends (suc (timeout_from_ms timeout_ms)) deadline u moves (omega arith)
              (omega arith)),
      )
