-- ===== src/Client/Stable.antt =====
-- What a synchronous call keeps: a predicate that the callbacks of the executor keep, and the
-- bookkeeping of the call itself, holds of the client behind `rpc_call`.
use uniubi_ros.Prelude.{
  ℕ, ℤ, String, Bool, true, false, Option, none, some, List, [], ◌∷◌, is_zero, inl, inr, Bool-cases,
}
use uniubi_ros.Json.{Json, Parsed, value, malformed, fault}
use uniubi_ros.Rpc.{Request}
use uniubi_ros.Client.{
  Client, Env, Exit, returned, threw, Response, Reply, send_failed, answered, timed_out,
  interrupted, Input, HighLevelError, sent, removed_future, no_error, rpc_call_failed,
  action_rejected, emit, set_error, pass, timeout_from_ms, mark_control_activity,
}
use uniubi_ros.Client.Calls.{
  resume, deliver, spin, finish, after_spin, await, send_request, verdict, read_payload, conclude,
  rpc_request, rpc_call,
}

module _ {V : Type 0} (json : Json V) (env : Env) where
  pub record IsStable (P : Client → Type 0) : Type 0 where
    pub on_deliver : (i : Input) (s : Client) → P s → P (deliver json env i s).1
    pub on_sent : (r : Request) (timeout : ℕ) (s : Client) → P s → P (emit (sent r timeout) s)
    pub on_removed : (s : Client) → P s → P (emit removed_future s)
    pub on_pass : (s : Client) → P s → P (pass env 0 s)
    pub on_activity : (s : Client) → P s → P (mark_control_activity env s)
    pub on_error : (error : HighLevelError) (s : Client) → P s → P (set_error error s)

module _ {V : Type 0} (json : Json V) (env : Env) (P : Client → Type 0)
    (stable : IsStable json env P) where
  open stable use {on_deliver, on_sent, on_removed, on_pass, on_error}
  open json use {parse, is_object, is_member, member, as_bool}

  resume_keeps :
      (r : Exit (Unit {0}) × Client) (k : Client → Exit (Unit {0}) × Client)
      → P r.1
      → ((t : Client) → P t → P (k t).1)
      → P (resume r k).1
  resume_keeps (returned _, s) k h g = g s h
  resume_keeps (threw what, s) k h g = h

  pub spin_keeps : (is : List Input) (s : Client) → P s → P (spin json env is s).1
  unfolding spin
  spin_keeps [] s h = h
  spin_keeps (i ∷ is) s h =
      resume_keeps (deliver json env i s) (spin json env is) (on_deliver i s h) (spin_keeps is)

  finish_keeps : (reply : Reply) (s : Client) → P s → P (finish reply s).1
  unfolding finish
  finish_keeps (send_failed what) s h = h
  finish_keeps (answered response) s h = h
  finish_keeps timed_out s h = on_removed s h
  finish_keeps interrupted s h = on_removed s h

  after_spin_keeps :
      (reply : Reply) (r : Exit (Unit {0}) × Client) → P r.1 → P (after_spin json env reply r).1
  unfolding after_spin
  after_spin_keeps reply (returned _, s) h = finish_keeps reply (pass env 0 s) (on_pass s h)
  after_spin_keeps reply (threw what, s) h = h

  await_keeps :
      (r : Request) (reply : Reply) (is : List Input) (s : Client)
      → P s
      → P (await json env r reply is s).1
  unfolding await
  await_keeps r (send_failed what) is s h = h
  await_keeps r reply is s h = after_spin_keeps reply (spin json env is s) (spin_keeps is s h)

  send_request_keeps :
      (r : Request) (timeout : ℕ) (s : Client)
      → P (emit (sent r timeout) s)
      → P (send_request json env r timeout s).1
  unfolding send_request
  send_request_keeps r timeout s h =
      await_keeps r (env.reply s.steps r) (env.inputs s.steps)
        (pass env 0 (emit (sent r timeout) s)) (on_pass _ h)

  verdict_keeps : (b : Option Bool) (out : V) (s : Client) → P s → P (verdict json b out s).2
  unfolding verdict
  verdict_keeps (some true) out s h = on_error no_error s h
  verdict_keeps (some false) out s h = on_error action_rejected s h
  verdict_keeps none out s h = on_error rpc_call_failed s h

  read_payload_keeps : (p : Parsed V) (out : V) (s : Client) → P s → P (read_payload json p out s).2
  unfolding read_payload
  read_payload_keeps (value payload) out s h = elim (Bool-cases (is_object payload)) [
    | inl o ↦ rw o (elim (Bool-cases (is_member payload "result")) [
      | inl m ↦ rw m (verdict_keeps (as_bool (member payload "result")) _ s h)
      | inr m ↦ rw m (on_error action_rejected s h)
    ])
    | inr o ↦ rw o (on_error rpc_call_failed s h)
  ]
  read_payload_keeps malformed out s h = on_error rpc_call_failed s h
  read_payload_keeps fault out s h = on_error rpc_call_failed s h

  conclude_keeps :
      (r : Exit (Option Response) × Client) (out : V) → P r.1 → P (conclude json r out).2
  unfolding conclude
  conclude_keeps (returned (some r), s) out h = elim (Bool-cases (is_zero r.code)) [
    | inl z ↦ rw z (read_payload_keeps (parse r.payload) out s h)
    | inr z ↦ rw z (on_error rpc_call_failed s h)
  ]
  conclude_keeps (returned none, s) out h = on_error rpc_call_failed s h
  conclude_keeps (threw what, s) out h = on_error rpc_call_failed s h

  -- What holds once the request is handed over holds when the call ends, however it ends.
  pub rpc_call_reaches :
      (method id : String) (params out : V) (timeout_ms : ℤ) (s : Client)
      → P (emit (sent (rpc_request json env method id params s) (timeout_from_ms timeout_ms)) s)
      → P (rpc_call json env method id params out timeout_ms s).2
  unfolding rpc_call
  rpc_call_reaches method id params out timeout_ms s h =
      conclude_keeps
        (send_request json env (rpc_request json env method id params s)
          (timeout_from_ms timeout_ms) s)
        out
        (send_request_keeps (rpc_request json env method id params s) (timeout_from_ms timeout_ms) s
          h)

  pub rpc_call_keeps :
      (method id : String) (params out : V) (timeout_ms : ℤ) (s : Client)
      → P s
      → P (rpc_call json env method id params out timeout_ms s).2
  rpc_call_keeps method id params out timeout_ms s h =
      rpc_call_reaches method id params out timeout_ms s (on_sent _ _ s h)
