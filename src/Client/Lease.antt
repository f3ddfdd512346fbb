-- ===== src/Client/Lease.antt =====
-- The lease of a session: when it is renewed, and that control is given up once it has run out.
use uniubi_ros.Prelude.{
  ◌∷◌, ◌↔◌, subst, sym, ℕ, ◌+◌, ◌*◌, ◌%◌, ◌^◌, ◌≤◌, ◌<◌, true, Option, none, some, ◌≡◌, ◌≢◌, refl,
  ◌⊎◌, inl, arith, eq_iff, is_some,
}
use uniubi_ros.Json.{Json}
use uniubi_ros.Rpc.{client_request}
use uniubi_ros.Client.{
  Client, Env, controlled, emit, sent_async, removed, session_expired, read_clock, ms,
  lease_duration_ms,
}
use uniubi_ros.Client.Renew.{
  stop_renew_timer, lose_control, renew_interval, lease_deadline, check_pending, record_renewal,
  send_renewal, check_lease, check_tick, tick_renew, renew_timeout_ms,
}
use uniubi_ros.Client.Invariant.{IsConsistent, Within, lease_end}
use uniubi_ros.Client.StateChange.{lose_control-state, stop_renew_timer-state}

-- The renewal period lies between 200 ms and 10 s, and is at most a third of a lease of 600 ms or
-- more, so that two renewals fit in such a lease.
pub renew_interval_bounds :
    (s : Client)
    → (ms 200 ≤ renew_interval s)
      × (renew_interval s ≤ ms 10000)
      × (600 ≤ lease_duration_ms s → 3 * renew_interval s ≤ ms (lease_duration_ms s))
unfolding renew_interval
renew_interval_bounds s = omega arith

-- Control at the reading `now` of a tick: within the lease, or less than 3 s past it while a
-- renewal is in flight.
abbrev pub HoldsLease : ℕ → Client → Type 0
HoldsLease now s =
    (now < lease_deadline s)
    ⊎ ((now < lease_deadline s + ms renew_timeout_ms) × (is_some s.pending_renew_request_id ≡ true))

check_pending-HoldsLease :
    (now id deadline : ℕ) (s : Client)
    → s.pending_renew_request_id ≡ some id
    → deadline < lease_end s + ms renew_timeout_ms
    → (check_pending now id (some deadline) s).state ≡ controlled
    → HoldsLease now (check_pending now id (some deadline) s)
unfolding check_pending lease_deadline
check_pending-HoldsLease now id deadline s p w c = ground (
  arith,
  lose_control-state session_expired (record (emit (removed id) s) {
    pending_renew_request_id = none;
    pending_renew_deadline = none;
  }),
)

module _ {V : Type 0} (json : Json V) (env : Env) where
  record_renewal-HoldsLease :
      (now : ℕ) (id : Option ℕ) (s : Client)
      → now < lease_end s
      → (record_renewal json env now id s).state ≡ controlled
      → HoldsLease now (record_renewal json env now id s)
  unfolding record_renewal lease_deadline read_clock
  record_renewal-HoldsLease now (some id) s early c = inl early
  record_renewal-HoldsLease now none s early c =
      ground (arith, lose_control-state session_expired (read_clock env s).1)

  check_lease-HoldsLease :
      (now : ℕ) (s : Client)
      → (check_lease json env now s).state ≡ controlled
      → HoldsLease now (check_lease json env now s)
  unfolding check_lease lease_deadline send_renewal
  check_lease-HoldsLease now s c = ground (
    arith,
    lose_control-state session_expired s,
    record_renewal-HoldsLease now (env.async_send s.steps)
        (record s { renew_sequence = (s.renew_sequence + 1) % 2 ^ 64 }),
  )

  check_tick-HoldsLease :
      (now : ℕ) (id d : Option ℕ) (s : Client)
      → s.pending_renew_request_id ≡ id
      → s.pending_renew_deadline ≡ d
      → is_some id ≡ is_some d
      → Within (lease_end s) d
      → (check_tick json env now id s).state ≡ controlled
      → HoldsLease now (check_tick json env now id s)
  unfolding check_tick
  check_tick-HoldsLease now none d s p q e w c = check_lease-HoldsLease now s c
  check_tick-HoldsLease now (some id) none s p q e w c = cc
  check_tick-HoldsLease now (some id) (some d) s p q e w c =
      subst (λ x. HoldsLease now (check_pending now id x s)) (sym q)
        (check_pending-HoldsLease now id d s p w
          (subst (λ x. (check_pending now id x s).state ≡ controlled) q c))

  -- After a tick a client that still has control under a controller's name is within its lease at
  -- the tick's reading of the clock, or less than 3 s past it with a renewal in flight.
  pub tick_renew-HoldsLease :
      (s : Client)
      → IsConsistent s
      → s.controller ≢ ""
      → (tick_renew json env s).state ≡ controlled
      → HoldsLease (read_clock env s).0 (tick_renew json env s)
  unfolding tick_renew read_clock
  tick_renew-HoldsLease s h named c = ground (
    arith,
    eq_iff s.controller "",
    stop_renew_timer-state s,
    check_tick-HoldsLease (read_clock env s).0 s.pending_renew_request_id s.pending_renew_deadline
        (read_clock env s).1 refl refl h.paired h.timely,
  )

  -- A lease of 200 ms or less is never renewed by the timer: no tick makes the attempt, whatever the
  -- clock reads, and a tick after which the client is still in control under a controller's name has
  -- done nothing but read the clock.
  pub short_lease_not_renewed :
      (s : Client)
      → lease_duration_ms s ≤ 200
      → s.pending_renew_request_id ≡ none
      → let t = tick_renew json env s in
        (t.renew_sequence ≡ s.renew_sequence)
        × (t.pending_renew_request_id ≡ none)
        × (t.state ≡ controlled → t.controller ≢ "" → t ≡ (read_clock env s).1)
  unfolding tick_renew read_clock check_tick check_lease lose_control stop_renew_timer
      renew_interval lease_deadline
  short_lease_not_renewed s short p = ground (arith, eq_iff s.controller "")

  -- In control under a controller's name, after the renewal period and before the end of the lease.
  abbrev pub IsDue : Client → Type 0
  IsDue s =
      (s.state ≡ controlled)
      × (s.controller ≢ "")
      × (s.last_control_activity_at + renew_interval s ≤ (read_clock env s).0)
      × ((read_clock env s).0 < lease_deadline s)

  -- `renewMotionControl` has been sent in the controller's name at the reading of the clock, as the
  -- only effect, under the next sequence number; it is given 3 s.
  abbrev pub Requests : ℕ → Client → Client → Type 0
  Requests id s t =
      let (now, u) = read_clock env s in
      let request =
        client_request json (env.system_ms u.steps) s.client_id s.device_id "robotAppService"
          "renewMotionControl" json.null_value s.controller in
      (t.trace ≡ (now, sent_async request id) ∷ u.trace)
      × (t.pending_renew_deadline ≡ some (now + ms 3000))
      × (t.renew_sequence ≡ (s.renew_sequence + 1) % 2 ^ 64)
      × (t.state ≡ controlled)
      × (t.controller ≡ s.controller)

  -- A tick with no renewal in flight leaves one in flight exactly when the renewal is due and the
  -- bus takes the request. Then `renewMotionControl` has been sent in the controller's name, under the
  -- next sequence number, with 3 s to be answered, and control holds.
  pub renewal_sent :
      (s : Client) (id : ℕ)
      → s.pending_renew_request_id ≡ none
      → let t = tick_renew json env s in
        ((t.pending_renew_request_id ≡ some id)
          ↔ ((IsDue s) × (env.async_send (read_clock env s).1.steps ≡ some id)))
        × (t.pending_renew_request_id ≡ some id → Requests id s t)
  unfolding tick_renew check_tick check_lease send_renewal record_renewal renew_interval
      lease_deadline read_clock lose_control stop_renew_timer
  renewal_sent s id p = (
    (λ h. ground (arith, eq_iff s.controller ""), λ h. ground (arith, eq_iff s.controller "")),
    λ h. ground (arith, eq_iff s.controller ""),
  )
