-- ===== src/Client/Payload.antt =====
-- What a client reads of an event, and what it does with it: `read_controlled` and the branches of
-- `handle_event` behind the parser.
use uniubi_ros.Prelude.{
  some, ◌↔◌, ◌⊎◌, inl, inr, Bool-cases, String, true, false, ◌&&◌, ◌≡◌, ◌≢◌, refl, arith, eq_iff,
  str_eq,
}
use uniubi_ros.Json.{Json, Parsed, value, malformed, fault}
use uniubi_ros.Client.{Client, EventMessage, emit, event_called}
use uniubi_ros.Client.Events.{
  control_status_topic, host_event_topic, read_controlled, current_controller,
  handle_control_status, forward_event, call_event_callback, handle_payload,
}

-- The client is as it was, but for one call of its event callback at most.
abbrev pub CalledBack : Client → Client → Type 0
CalledBack s t =
    (t ≡ s)
    ⊎ ((s.event_callback ≡ true)
        × ((topic payload : String) × (t ≡ emit (event_called topic payload) s)))

module _ {V : Type 0} (json : Json V) where
  -- The status says that somebody is in control: a true Boolean, or a text other than "0".
  abbrev pub SaysControlled : V → Type 0
  SaysControlled payload =
      (json.is_member payload "controlled" ≡ true)
      × (((json.is_bool (json.member payload "controlled") ≡ true)
            × (json.as_bool (json.member payload "controlled") ≡ some true))
          ⊎ ((json.is_bool (json.member payload "controlled") ≡ false)
              × (json.is_string (json.member payload "controlled") ≡ true)
              × (json.as_string (json.member payload "controlled") ≢ "0")))

  -- The controller that the status names; the empty text where it names none.
  abbrev pub NamesController : V → String → Type 0
  NamesController payload controller =
      ((json.is_member payload "controller" ≡ true)
        × (json.is_string (json.member payload "controller") ≡ true)
        × (json.as_string (json.member payload "controller") ≡ controller))
      ⊎ (((json.is_member payload "controller" ≡ false)
            ⊎ (json.is_string (json.member payload "controller") ≡ false))
          × (controller ≡ ""))

  pub read_controlled_iff :
      (payload : V) → (read_controlled json payload ≡ true) ↔ SaysControlled payload
  unfolding read_controlled
  read_controlled_iff payload =
      let text = json.as_string (json.member payload "controlled") in
      (λ e. ground (arith, eq_iff text "0"), λ h. ground (arith, eq_iff text "0"))

  pub current_controller_iff :
      (payload : V) (controller : String)
      → (str_eq (current_controller json payload) controller ≡ true)
        ↔ NamesController payload controller
  unfolding current_controller
  current_controller_iff payload controller =
      let text = json.as_string (json.member payload "controller") in
      (
        λ e. ground (arith, eq_iff text controller, eq_iff "" controller),
        λ h. ground (arith, eq_iff text controller, eq_iff "" controller),
      )

  call-CalledBack :
      (topic payload : String) (s : Client) → CalledBack s (call_event_callback topic payload s)
  unfolding call_event_callback
  call-CalledBack topic payload s = elim (Bool-cases s.event_callback) [
    | inl on ↦ inr (on, (topic, payload, rw on refl))
    | inr off ↦ inl (rw off refl)
  ]

  forward-CalledBack :
      (payload : V) (message : EventMessage) (s : Client)
      → CalledBack s (forward_event json payload message s)
  unfolding forward_event
  forward-CalledBack payload message s =
      elim (Bool-cases (
        str_eq message.topic (host_event_topic s)
        && json.is_member payload "event"
        && json.is_string (json.member payload "event")
        && json.is_member payload "detail")) [
          | inl host ↦ rw (host) (call-CalledBack _ _ s)
          | inr other ↦ rw (other) (call-CalledBack _ _ s)
        ]

  pub payload-cases :
      (parsed : Parsed V) (message : EventMessage) (s : Client)
      → let t = (handle_payload json parsed message s).1 in
        ((payload : V) × (parsed ≡ value payload)
          × (json.is_object payload ≡ true)
          × (message.topic ≡ control_status_topic s)
          × (t ≡ handle_control_status json payload s))
        ⊎ CalledBack s t
  unfolding handle_payload
  payload-cases fault message s = inr (inl refl)
  payload-cases malformed message s = inr (call-CalledBack _ _ s)
  payload-cases (value payload) message s = elim (Bool-cases (json.is_object payload)) [
    | inr other ↦ inr (rw (other) (call-CalledBack message.topic message.payload s))
    | inl object ↦ elim (Bool-cases (str_eq message.topic (control_status_topic s))) [
      | inl status ↦ inl (
        payload,
        refl,
        object,
        (eq_iff message.topic (control_status_topic s)).0 status,
        rw (object, status) refl,
      )
      | inr host ↦ inr (rw (object, host) (forward-CalledBack payload message s))
    ]
  ]
