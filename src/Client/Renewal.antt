-- ===== src/Client/Renewal.antt =====
-- The answer to a renewal: when it keeps control, and when it is not listened to.
use uniubi_ros.Prelude.{
  is_some, ◌≤◌, ℕ, ℤ, String, Bool, true, false, Option, none, some, ◌≡◌, ◌≢◌, refl, ◌↔◌, ◌⊎◌, inl,
  inr, arith, eq_iff, is_zero, Bool-cases, Option-cases,
}
use uniubi_ros.Json.{Json, Parsed, value, malformed, fault}
use uniubi_ros.Client.{
  Client, Env, Exit, returned, threw, Response, controlled, no_error, session_expired, set_error,
  mark_control_activity, read_clock, pass, notify,
}
use uniubi_ros.Client.Renew.{
  tick_renew, check_tick, check_lease, send_renewal, record_renewal, check_pending, lose_control,
  stop_renew_timer, forget_pending, named_lease, keep_lease, judge_renewal, read_renewal,
  settle_renewal, handle_renew_response,
}
use uniubi_ros.Client.StateChange.{lose_control-state}
use uniubi_ros.Client.Verdict.{IsAnswer}

module _ {V : Type 0} (json : Json V) (env : Env) where
  open json use {parse, is_object, is_member, member, as_bool}

  -- The service renewed: code 0, an object with a true `result`, and a lease that can be read,
  -- which is the old one where the answer names none.
  abbrev pub Renews : Exit (Option Response) → ℤ → ℤ → Type 0
  Renews future old lease =
      (response : Response) × (payload : V) × IsAnswer json future response payload
      × (is_member payload "result" ≡ true)
      × (as_bool (member payload "result") ≡ some true)
      × (named_lease json env payload old ≡ some lease)

  judge_renewal-kept :
      (b : Option Bool) (payload : V) (s : Client)
      → (judge_renewal json env b payload s).state ≡ controlled
      → (lease : ℤ) × (b ≡ some true) × (named_lease json env payload s.lease_ms ≡ some lease)
  unfolding judge_renewal keep_lease
  judge_renewal-kept (some true) payload s h =
      elim (Option-cases (named_lease json env payload s.lease_ms)) [
        | inl e ↦ absurd (ground (arith, rw e at h, lose_control-state session_expired s))
        | inr (lease, e) ↦ (lease, refl, e)
      ]
  judge_renewal-kept (some false) payload s h =
      absurd (ground (arith, lose_control-state session_expired s))
  judge_renewal-kept none payload s h =
      absurd (ground (arith, lose_control-state session_expired s))

  read_renewal-kept :
      (p : Parsed V) (s : Client)
      → (read_renewal json env p s).state ≡ controlled
      → (payload : V) × (lease : ℤ) × (p ≡ value payload)
        × (is_object payload ≡ true)
        × (is_member payload "result" ≡ true)
        × (as_bool (member payload "result") ≡ some true)
        × (named_lease json env payload s.lease_ms ≡ some lease)
  unfolding read_renewal
  read_renewal-kept (value payload) s h = elim (Bool-cases (is_object payload)) [
    | inl o ↦ elim (Bool-cases (is_member payload "result")) [
      | inl m ↦
          let (lease, b, e) =
            judge_renewal-kept (as_bool (member payload "result")) payload s (rw (o, m) at h) in
          (payload, lease, refl, o, m, b, e)
      | inr m ↦ absurd (ground (arith, lose_control-state session_expired s))
    ]
    | inr o ↦ absurd (ground (arith, lose_control-state session_expired s))
  ]
  read_renewal-kept malformed s h = absurd (ground (arith, lose_control-state session_expired s))
  read_renewal-kept fault s h = absurd (ground (arith, lose_control-state session_expired s))

  settle_renewal-kept :
      (future : Exit (Option Response)) (s : Client)
      → (settle_renewal json env future s).state ≡ controlled
      → (lease : ℤ) × Renews future s.lease_ms lease
  unfolding settle_renewal
  settle_renewal-kept (returned (some r)) s h = elim (Bool-cases (is_zero r.code)) [
    | inl z ↦
        let (payload, lease, parsed, object, member, accepted, named) =
          read_renewal-kept (parse r.payload) s (rw z at h) in
        (
          lease,
          (
            r,
            payload,
            record { answer = refl; code_zero = z; parsed = parsed; object = object },
            member,
            accepted,
            named,
          ),
        )
    | inr z ↦ absurd (ground (arith, lose_control-state session_expired s))
  ]
  settle_renewal-kept (returned none) s h =
      absurd (ground (arith, lose_control-state session_expired s))
  settle_renewal-kept (threw what) s h =
      absurd (ground (arith, lose_control-state session_expired s))

  settle_renewal-Renews :
      (future : Exit (Option Response)) (s : Client) (lease : ℤ)
      → Renews future s.lease_ms lease
      → settle_renewal json env future s
        ≡ set_error no_error (mark_control_activity env (record s { lease_ms = lease }))
  unfolding settle_renewal read_renewal judge_renewal keep_lease
  settle_renewal-Renews future s lease (response, payload, a, m, b, e) =
      rw
        (
          a.answer, settle_renewal, a.code_zero, a.parsed, read_renewal, a.object, m, b,
          judge_renewal, e,
        )
        refl

  -- The answer to the renewal in flight, under the sequence number and the controller of the client,
  -- keeps control exactly when the service renewed. Then the lease is the one that the answer
  -- names, the activity is the reading of the clock, and there is no error.
  pub renewal_answer :
      (future : Exit (Option Response)) (s : Client) (id : ℕ)
      → s.state ≡ controlled
      → s.pending_renew_request_id ≡ some id
      → let t = handle_renew_response json env s.renew_sequence s.controller future s in
        ((t.state ≡ controlled) ↔ ((lease : ℤ) × Renews future s.lease_ms lease))
        × ((lease : ℤ)
            → Renews future s.lease_ms lease
            → (t.lease_ms ≡ lease)
              × (t.last_control_activity_at ≡ (read_clock env s).0)
              × (t.last_error ≡ no_error)
              × (t.pending_renew_request_id ≡ none)
              × (t.controller ≡ s.controller))
  unfolding handle_renew_response mark_control_activity read_clock pass set_error
  renewal_answer future s id c p =
      let u = record s { pending_renew_request_id = none; pending_renew_deadline = none } in
      let same : handle_renew_response json env s.renew_sequence s.controller future s
          ≡ settle_renewal json env future u =
        ground (arith, eq_iff s.controller s.controller) in
      rw same (
        (
          λ h. settle_renewal-kept future u h,
          λ (lease, r). rw (settle_renewal-Renews future u lease r) c,
        ),
        λ lease r. rw (settle_renewal-Renews future u lease r) (refl, refl, refl, refl, refl),
      )

  -- No renewal is in flight, or the 3 s of the one in flight are over at the tick's reading.
  abbrev pub IsGivenUp : Client → Type 0
  IsGivenUp s =
      (s.pending_renew_request_id ≡ none)
      ⊎ ((deadline : ℕ) × (s.pending_renew_deadline ≡ some deadline)
          × (deadline ≤ (read_clock env s).0))

  check_pending-given_up :
      (now id deadline : ℕ) (d : Option ℕ) (s : Client)
      → d ≡ some deadline
      → deadline ≤ now
      → (check_pending now id d s).pending_renew_request_id ≡ none
  unfolding check_pending lose_control stop_renew_timer forget_pending notify
  check_pending-given_up now id deadline none s e h = absurd cc
  check_pending-given_up now id deadline (some d) s e h = ground arith

  forget_pending-none :
      (id : Option ℕ) (s : Client)
      → s.pending_renew_request_id ≡ id
      → (forget_pending id s).pending_renew_request_id ≡ none
  unfolding forget_pending
  forget_pending-none none s e = e
  forget_pending-none (some id) s e = refl

  tick-given_up :
      (s : Client)
      → IsGivenUp s
      → let t = tick_renew json env s in
        (t.pending_renew_request_id ≡ none) ⊎ (t.renew_sequence ≢ s.renew_sequence)
  unfolding tick_renew check_tick check_lease send_renewal record_renewal check_pending read_clock
      lose_control stop_renew_timer forget_pending
  tick-given_up s g = elim (Option-cases s.pending_renew_request_id) [
    | inl e ↦ ground arith
    | inr (id, e) ↦ elim g [
      | inl n ↦ absurd cc
      | inr (d, q, le) ↦ inl (
          ground (
            arith,
            forget_pending-none s.pending_renew_request_id (record s { renew_timer = false }),
            check_pending-given_up (read_clock env s).0 id d s.pending_renew_deadline
                (read_clock env s).1 q le,
          ))
    ]
  ]

  answer-ignored :
      (sequence : ℕ) (controller : String) (future : Exit (Option Response)) (s : Client)
      → (s.pending_renew_request_id ≡ none) ⊎ (s.renew_sequence ≢ sequence)
      → handle_renew_response json env sequence controller future s ≡ s
  unfolding handle_renew_response
  answer-ignored sequence controller future s h = ground arith

  -- An answer that comes when no renewal is in flight or under a sequence number that is not the
  -- last one changes nothing; the answer to the renewal in flight under another controller's name
  -- changes nothing but that the renewal is no longer in flight. So an answer to a renewal that is
  -- over changes nothing after the next tick, even if that tick has sent another renewal.
  pub late_answer_ignored :
      (sequence : ℕ) (controller : String) (future : Exit (Option Response)) (s : Client)
      → let t = handle_renew_response json env sequence controller future s in
        let u = tick_renew json env s in
        ((s.pending_renew_request_id ≡ none) ⊎ (s.renew_sequence ≢ sequence) → t ≡ s)
        × (is_some s.pending_renew_request_id ≡ true
            → s.renew_sequence ≡ sequence
            → controller ≢ s.controller
            → t ≡ record s { pending_renew_request_id = none; pending_renew_deadline = none })
        × (IsGivenUp s → handle_renew_response json env s.renew_sequence controller future u ≡ u)
  unfolding handle_renew_response
  late_answer_ignored sequence controller future s = (
    answer-ignored sequence controller future s,
    λ p e n. ground (arith, eq_iff controller s.controller),
    λ g.
        answer-ignored s.renew_sequence controller future (tick_renew json env s)
          (tick-given_up s g),
  )
