-- ===== src/Client/Verdict.antt =====
-- What `rpc_call` reports, against the answer of the service.
use uniubi_ros.Prelude.{
  ap, ℤ, String, true, false, Option, none, some, ◌≡◌, refl, ◌⊎◌, inl, inr, ◌↔◌, arith, is_zero,
  Bool-cases,
}
use uniubi_ros.Json.{Json, Parsed, value, malformed, fault}
use uniubi_ros.Client.{
  Client, Env, Exit, returned, threw, Response, no_error, rpc_call_failed, action_rejected,
  set_error, timeout_from_ms,
}
use uniubi_ros.Client.Calls.{
  verdict, response_params, read_payload, conclude, rpc_request, send_request, rpc_call,
}

module _ {V : Type 0} (json : Json V) where
  open json use {parse, is_object, is_member, member, as_bool}

  -- The service answered with code 0 and an object.
  pub record IsAnswer (r : Exit (Option Response)) (response : Response) (payload : V)
      : Type 0 where
    pub answer : r ≡ returned (some response)
    pub code_zero : is_zero response.code ≡ true
    pub parsed : parse response.payload ≡ value payload
    pub object : is_object payload ≡ true

  -- Its member `result` reads as true; `params` is what the call hands out.
  abbrev pub Accepted : Exit (Option Response) → V → Type 0
  Accepted r params =
      (response : Response) × (payload : V) × IsAnswer r response payload
      × (is_member payload "result" ≡ true)
      × (as_bool (member payload "result") ≡ some true)
      × (params ≡ response_params json payload)

  -- Its member `result` is missing or reads as false.
  abbrev pub Refused : Exit (Option Response) → Type 0
  Refused r =
      (response : Response) × (payload : V) × IsAnswer r response payload
      × ((is_member payload "result" ≡ false) ⊎ (as_bool (member payload "result") ≡ some false))

  read_payload_sound :
      (p : Parsed V) (out : V) (s : Client)
      → (read_payload json p out s).0 ≡ true
      → (payload : V) × (p ≡ value payload)
        × (is_object payload ≡ true)
        × (is_member payload "result" ≡ true)
        × (as_bool (member payload "result") ≡ some true)
        × ((read_payload json p out s).1 ≡ response_params json payload)
  unfolding read_payload verdict
  read_payload_sound (value payload) out s h =
      (payload, refl, ground arith, ground arith, ground arith, ground arith)
  read_payload_sound malformed out s h = cc
  read_payload_sound fault out s h = cc

  read_payload_refused :
      (p : Parsed V) (out : V) (s : Client)
      → (read_payload json p out s).2.last_error ≡ action_rejected
      → (payload : V) × (p ≡ value payload)
        × (is_object payload ≡ true)
        × ((is_member payload "result" ≡ false) ⊎ (as_bool (member payload "result") ≡ some false))
  unfolding read_payload verdict set_error
  read_payload_refused (value payload) out s h = (payload, refl, ground arith, ground arith)
  read_payload_refused malformed out s h = cc
  read_payload_refused fault out s h = cc

  conclude_sound :
      (r : Exit (Option Response) × Client) (out : V)
      → (conclude json r out).0 ≡ true
      → Accepted r.0 (conclude json r out).1
  unfolding conclude
  conclude_sound (returned (some r), s) out h = elim (Bool-cases (is_zero r.code)) [
    | inl z ↦
        let (payload, parsed, object, member, accepted, params) =
          read_payload_sound (parse r.payload) out s (rw z at h) in
        (
          r,
          payload,
          record { answer = refl; code_zero = z; parsed = parsed; object = object },
          member,
          accepted,
          rw z params,
        )
    | inr z ↦ absurd (ground arith)
  ]
  conclude_sound (returned none, s) out h = cc
  conclude_sound (threw what, s) out h = cc

  conclude-Refused :
      (r : Exit (Option Response) × Client) (out : V)
      → (conclude json r out).2.last_error ≡ action_rejected
      → Refused r.0
  unfolding conclude set_error
  conclude-Refused (returned (some r), s) out h = elim (Bool-cases (is_zero r.code)) [
    | inl z ↦
        let (payload, parsed, object, refused) =
          read_payload_refused (parse r.payload) out s (rw z at h) in
        (
          r,
          payload,
          record { answer = refl; code_zero = z; parsed = parsed; object = object },
          refused,
        )
    | inr z ↦ absurd (ground arith)
  ]
  conclude-Refused (returned none, s) out h = cc
  conclude-Refused (threw what, s) out h = cc

  -- The answer decides all of the report.
  conclude-accepts :
      (r : Exit (Option Response)) (s : Client) (out params : V)
      → Accepted r params
      → conclude json (r, s) out ≡ (true, params, set_error no_error s)
  unfolding conclude read_payload verdict
  conclude-accepts r s out params (response, payload, a, m, b, e) =
      rw (a.answer, conclude, a.code_zero, a.parsed, read_payload, a.object, m, b, verdict, e)

  conclude-refuses :
      (r : Exit (Option Response)) (s : Client) (out : V)
      → Refused r
      → ((conclude json (r, s) out).0 ≡ false)
        × ((conclude json (r, s) out).2.last_error ≡ action_rejected)
  unfolding conclude read_payload verdict set_error
  conclude-refuses r s out (response, payload, a, inl m) =
      rw (a.answer, conclude, a.code_zero, a.parsed, read_payload, a.object, m) (refl, refl)
  conclude-refuses r s out (response, payload, a, inr b) =
      elim (Bool-cases (is_member payload "result")) [
        | inl m ↦
            rw (a.answer, conclude, a.code_zero, a.parsed, read_payload, a.object, m, b, verdict)
              (refl, refl)
        | inr m ↦
            rw (a.answer, conclude, a.code_zero, a.parsed, read_payload, a.object, m) (refl, refl)
      ]

  read_payload-error :
      (p : Parsed V) (out : V) (s : Client)
      → let (ok, params, t) = read_payload json p out s in
        ((ok ≡ true) × (t.last_error ≡ no_error))
        ⊎ ((ok ≡ false) × (t.last_error ≡ action_rejected))
        ⊎ ((ok ≡ false) × (t.last_error ≡ rpc_call_failed))
  unfolding read_payload verdict set_error
  read_payload-error (value payload) out s = ground arith
  read_payload-error malformed out s = ground arith
  read_payload-error fault out s = ground arith

  conclude-error :
      (r : Exit (Option Response) × Client) (out : V)
      → let (ok, params, t) = conclude json r out in
        ((ok ≡ true) × (t.last_error ≡ no_error))
        ⊎ ((ok ≡ false) × (t.last_error ≡ action_rejected))
        ⊎ ((ok ≡ false) × (t.last_error ≡ rpc_call_failed))
  unfolding conclude set_error
  conclude-error (returned (some r), s) out =
      ground (arith, read_payload-error (parse r.payload) out s)
  conclude-error (returned none, s) out = ground arith
  conclude-error (threw what, s) out = ground arith

module _ {V : Type 0} (json : Json V) (env : Env) where
  -- `rpc_call` never throws, and the answer that the service gives decides its report: the result
  -- is true, with the parameters of the answer and no error, exactly when the service answered with
  -- code 0 and an object whose `result` reads as true; it is false with `action_rejected` exactly
  -- when such an object has no `result` or a false one; in every other case (a null response, a
  -- code, a malformed payload, a timeout, an exception) it is false with `rpc_call_failed`.
  pub rpc_call_report :
      (method id : String) (params out : V) (timeout_ms : ℤ) (s : Client)
      → let r =
          (send_request json env
            (rpc_request json env method id params s)
            (timeout_from_ms timeout_ms)
            s).0 in
        let (ok, ret, t) = rpc_call json env method id params out timeout_ms s in
        ((ok ≡ true) ↔ Accepted json r ret)
        × ((t.last_error ≡ action_rejected) ↔ Refused json r)
        × (((ok ≡ true) × (t.last_error ≡ no_error))
            ⊎ ((ok ≡ false) × (t.last_error ≡ action_rejected))
            ⊎ ((ok ≡ false) × (t.last_error ≡ rpc_call_failed)))
  unfolding rpc_call
  rpc_call_report method id params out timeout_ms s =
      let r =
        send_request json env (rpc_request json env method id params s) (timeout_from_ms timeout_ms)
          s in
      (
        (conclude_sound json r out, λ a. ap (λ x. x.0) (conclude-accepts json r.0 r.1 out _ a)),
        (conclude-Refused json r out, λ a. (conclude-refuses json r.0 r.1 out a).1),
        conclude-error json r out,
      )
