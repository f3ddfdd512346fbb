-- ===== src/Client/Routing.antt =====
-- Which events a client takes, and when one of them revokes its control.
use Prim.Native.String.{◌++◌, count}
use text.Mathlib.TextLemmas.{append_cancel_right, append_inj, append_assoc, length-append}
use uniubi_ros.Prelude.{
  ap, none, ◌↔◌, inl, inr, Bool, Bool-cases, String, true, false, ◌&&◌, ◌≡◌, ◌≢◌, refl, ◌∙◌, arith,
  eq_iff, str_eq,
}
use uniubi_ros.Json.{Json, value}
use uniubi_ros.Client.{
  Client, returned, EventMessage, controlled, connected, session_revoked, is_controlled,
}
use uniubi_ros.Client.Renew.{lose_control, stop_renew_timer}
use uniubi_ros.Client.Payload.{
  CalledBack, SaysControlled, NamesController, read_controlled_iff, current_controller_iff,
  payload-cases,
}
use uniubi_ros.Client.Events.{
  event_magic, host_source, control_status_topic, host_event_topic, is_addressed, read_controlled,
  current_controller, handle_control_status, handle_payload, handle_event,
}

-- Two texts with ends of one length are equal only if the ends are.
append-end_eq : (a b s t : String) → a ++ s ≡ b ++ t → count s ≡ count t → s ≡ t
append-end_eq a b s t e n =
    (append_inj {s₁ = a} {s₂ = b} e
      (omega (arith, ap count e, length-append a s, length-append b t, n))).1

-- The last 23 characters of the two kinds of topic differ.
status-ne-event :
    (a b : String) → a ++ ".robotServer.control.status" ≢ b ++ ".robotServer.host.event"
status-ne-event a b e =
    let h : ◌≡◌ {A = String} "otServer.control.status" ".robotServer.host.event" =
      append-end_eq (a ++ ".rob") b "otServer.control.status" ".robotServer.host.event"
        (append_assoc a ".rob" "otServer.control.status" ∙ e) refl in
    ground (arith, eq_iff "otServer.control.status" ".robotServer.host.event")

module _ {V : Type 0} (json : Json V) where
  -- An event that is not addressed to the client changes nothing, whatever its payload.
  unaddressed-ignored :
      (message : EventMessage) (s : Client)
      → is_addressed message s ≡ false
      → handle_event json message s ≡ (returned tt, s)
  unfolding handle_event
  unaddressed-ignored message s e = rw e

  -- Two hosts with different serial numbers never share an event: what is addressed to the one
  -- leaves the other as it was, with no call of its callback.
  pub hosts_isolated :
      (message : EventMessage) (a b : Client)
      → host_source a ≡ true
      → host_source b ≡ true
      → a.device_id ≢ b.device_id
      → is_addressed message a ≡ true
      → handle_event json message b ≡ (returned tt, b)
  unfolding is_addressed control_status_topic host_event_topic
  hosts_isolated message a b ha hb ne e =
      let status : String = ".robotServer.control.status" in
      let host : String = ".robotServer.host.event" in
      unaddressed-ignored message b (
        ground (
          arith,
          eq_iff message.topic (a.device_id ++ status),
          eq_iff message.topic (a.device_id ++ host),
          eq_iff message.topic (b.device_id ++ status),
          eq_iff message.topic (b.device_id ++ host),
          append_cancel_right a.device_id b.device_id status,
          append_cancel_right a.device_id b.device_id host,
          status-ne-event a.device_id b.device_id,
          status-ne-event b.device_id a.device_id,
        ))

  -- The event is a control status for the client, with a readable object.
  abbrev pub IsStatus : EventMessage → Client → V → Type 0
  IsStatus message s payload =
      (message.magic ≡ event_magic)
      × (message.topic ≡ control_status_topic s)
      × (json.parse message.payload ≡ value payload)
      × (json.is_object payload ≡ true)

  -- A control status for the client that does not say that the client's controller is in control.
  abbrev pub IsRevocation : EventMessage → Client → Type 0
  IsRevocation message s =
      (payload : V) × (IsStatus message s payload)
      × (¬ ((SaysControlled json payload) × (NamesController json payload s.controller)))

  keeps : V → Client → Bool
  keeps payload s =
      read_controlled json payload && str_eq (current_controller json payload) s.controller

  keeps_iff :
      (payload : V) (s : Client)
      → (keeps payload s ≡ true)
        ↔ ((SaysControlled json payload) × (NamesController json payload s.controller))
  unfolding keeps
  keeps_iff payload s =
      let (a, b) = read_controlled_iff json payload in
      let (c, d) = current_controller_iff json payload s.controller in
      (λ e. (a (ground arith), c (ground arith)), λ (x, y). rw (b x, d y) refl)

  status-addressed :
      (message : EventMessage) (s : Client)
      → message.magic ≡ event_magic
      → message.topic ≡ control_status_topic s
      → is_addressed message s ≡ true
  unfolding is_addressed
  status-addressed message s m t = ground (arith, eq_iff message.topic (control_status_topic s))

  addressed-magic :
      (message : EventMessage) (s : Client)
      → is_addressed message s ≡ true
      → message.magic ≡ event_magic
  unfolding is_addressed
  addressed-magic message s e = ground arith

  -- A client in control loses it by an event exactly when the event is a control status for it whose
  -- readable object does not say that somebody is in control and that it is the client's controller:
  -- then control, controller, timer and renewal in flight are gone and the error is
  -- `session_revoked`. By any other event the client stays as it was, but for at most one call of its
  -- event callback.
  pub control_status_revokes :
      (message : EventMessage) (s : Client)
      → s.state ≡ controlled
      → let t = (handle_event json message s).1 in
        (IsRevocation message s
          → (t.state ≡ connected)
            × (t.controller ≡ "")
            × (t.renew_timer ≡ false)
            × (t.pending_renew_request_id ≡ none)
            × (t.last_error ≡ session_revoked))
        × ((¬ (IsRevocation message s)) → CalledBack s t)
  unfolding handle_event handle_payload handle_control_status lose_control stop_renew_timer keeps
      is_addressed
  control_status_revokes message s c = (
    λ (payload, (magic, topic, parsed, object), lost). elim (Bool-cases (keeps payload s)) [
      | inl k ↦ absurd (lost ((keeps_iff payload s).0 k))
      | inr k ↦ ground (
        arith,
        status-addressed message s magic topic,
        eq_iff message.topic (control_status_topic s),
      )
    ],
    λ other. elim (Bool-cases (is_addressed message s)) [
      | inr e ↦ inl (rw e refl)
      | inl e ↦ elim (payload-cases json (json.parse message.payload) message s) [
        | inr r ↦ rw e r
        | inl (payload, parsed, object, topic, same) ↦ elim (Bool-cases (keeps payload s)) [
          | inl k ↦ inl (rw (e, same) (ground arith))
          | inr k ↦ absurd (
              other (
                payload,
                (addressed-magic message s e, topic, parsed, object),
                λ h. ground (arith, (keeps_iff payload s).1 h),
              ))
        ]
      ]
    ],
  )

  -- Without control an event leaves the client as it was, but for at most one call of its event
  -- callback.
  pub events_need_control :
      (message : EventMessage) (s : Client)
      → is_controlled s.state ≡ false
      → CalledBack s (handle_event json message s).1
  unfolding handle_event handle_control_status
  events_need_control message s c = elim (Bool-cases (is_addressed message s)) [
    | inr e ↦ inl (rw e refl)
    | inl e ↦ elim (payload-cases json (json.parse message.payload) message s) [
      | inr r ↦ rw e r
      | inl (payload, parsed, object, topic, same) ↦ inl (rw (e, same, c) refl)
    ]
  ]
