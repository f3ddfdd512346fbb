-- ===== src/Bridge/Queries/Answers/Told.antt =====
-- The answer to a status query, on every branch of the code that reads it.
use uniubi_ros.Prelude.{
  ℕ, ◌+◌, String, true, Option, none, some, ◌≡◌, inl, inr, refl, arith, is_zero, Bool-cases,
}
use uniubi_ros.Json.{Json, Parsed, value, malformed, fault}
use uniubi_ros.Client.{Env, Exit, returned, threw, Response, action_rejected}
use uniubi_ros.Bridge.{Bridge, set_status_error, publish_motion_status, publish_in}
use uniubi_ros.Bridge.Battery.{Floats, is_true}
use uniubi_ros.Bridge.Queries.{
  StatusConfig, motion_status_failed, params_of, read_motion_state, read_motion_response,
  settle_motion_status,
}
use uniubi_ros.Bridge.Queries.Answers.{
  Names, Refused, Settled, failed-Settled, Same, failed-Refused, adopt_lem, Ends,
}

module _ {V N : Type 0} (json : Json V) (floats : Floats V N) (env : Env)
    (config : StatusConfig) where
  open json use {is_object, is_bool, member, as_bool, parse}

  record Over (now : ℕ) (b c : Bridge N) : Type 0 where
    same : Same json floats env config b c
    published : c.published ≡ b.published
    over : c.pending_motion_status_query ≡ none
    next : c.next_motion_status_query_at ≡ now + config.motion_status_publish_period
    from_query : c.last_error_from_query ≡ b.last_error_from_query
    error : c.last_error_code ≡ b.last_error_code

  -- What is told of the bridge behind an answer.
  abbrev Told : ℕ → Exit (Option Response) → Bridge N → Bridge N → Type 0
  Told now future b t =
      Settled json floats env config now b t × Ends json floats env config future b t

  failed_lem :
      (now : ℕ) (what : String) (future : Exit (Option Response)) (b c : Bridge N)
      → Same json floats env config b c
      → c.published ≡ b.published
      → ((response : Response) (root : V)
          → future ≡ returned (some response)
          → ¬ Names json floats env config response root)
      → Told now future b (motion_status_failed json floats env config now what c)
  failed_lem now what future b c s p none_named = (
    failed-Settled json floats env config now what b c p,
    inr (none_named, failed-Refused json floats env config now what b c s),
  )

  rejected_lem :
      (now : ℕ) (b c : Bridge N)
      → Over now b c
      → let t =
          publish_motion_status
            (set_status_error action_rejected "queryMotionState rejected" true c) in
        Settled json floats env config now b t × Refused json floats env config b t
  unfolding publish_motion_status publish_in set_status_error
  rejected_lem now b c o = (
    record { over = o.over; next = o.next; shown = ground arith },
    record {
      action = o.same.0;
      along = o.same.1;
      across = o.same.2;
      turn = o.same.3;
      error = inr refl;
      from_query = refl;
    },
  )

  response_eq : {r s : Response} → returned (some r) ≡ returned (some s) → r ≡ s
  response_eq e = cc

  -- A payload with a document: the tests of the code against `Names`.
  document_lem :
      (now : ℕ) (response : Response) (document : V) (b c : Bridge N)
      → Over now b c
      → is_zero response.code ≡ true
      → parse response.payload ≡ value document
      → Told now
          (returned (some response))
          b
          (read_motion_state json floats env config now (value document) c)
  unfolding read_motion_state
  document_lem now response document b c o z e =
      let future : Exit (Option Response) = returned (some response) in
      let doc : (r : Response) (root : V)
          → future ≡ returned (some r)
          → (n : Names json floats env config r root) → n.document ≡ document =
        λ r root q n. cc (response_eq q, n.parsed, e) in
      let invalid : String = "queryMotionState returned invalid response" in
      elim (Bool-cases (is_object document)) [
        | inr no_object ↦
            rw (no_object, read_motion_state)
              (failed_lem now invalid future b c o.same o.published
                (λ r root q n. cc (doc r root q n, n.object, no_object)))
        | inl object ↦ elim (Bool-cases (is_bool (member document "result"))) [
          | inr no_result ↦
              rw (object, no_result, read_motion_state)
                (failed_lem now invalid future b c o.same o.published
                  (λ r root q n. cc (doc r root q n, n.result, no_result)))
          | inl result ↦ elim (Bool-cases (is_true (as_bool (member document "result")))) [
            | inr no_accepted ↦
                let (settled, refused) = rejected_lem now b c o in
                rw (object, result, no_accepted, read_motion_state)
                  (
                    settled,
                    inr (λ r root q n. cc (doc r root q n, n.accepted, no_accepted), refused),
                  )
            | inl accepted ↦
                elim (Bool-cases (is_object (params_of json floats env config document))) [
                  | inr no_state ↦
                      rw (object, result, accepted, no_state, read_motion_state)
                        (failed_lem now "queryMotionState returned invalid state" future b c o.same
                          o.published
                          (λ r root q n. cc (doc r root q n, n.root_is, n.readable, no_state)))
                  | inl readable ↦
                      let root = params_of json floats env config document in
                      let (settled, adopted) =
                        adopt_lem json floats env config now root b c o.same o.published o.over
                          o.next o.from_query o.error in
                      let names : Names json floats env config response root = record {
                        fine = z;
                        document = document;
                        parsed = e;
                        object = object;
                        result = result;
                        accepted = accepted;
                        root_is = refl;
                        readable = readable;
                      } in
                      rw (object, result, accepted, readable, read_motion_state)
                        (settled, inl (response, root, refl, names, adopted))
                ]
          ]
        ]
      ]

  parsed_lem :
      (now : ℕ) (response : Response) (p : Parsed V) (b c : Bridge N)
      → Over now b c
      → is_zero response.code ≡ true
      → parse response.payload ≡ p
      → Told now (returned (some response)) b (read_motion_state json floats env config now p c)
  unfolding read_motion_state
  parsed_lem now response (value document) b c o z e = document_lem now response document b c o z e
  parsed_lem now response malformed b c o z e =
      failed_lem now _ (returned (some response)) b c o.same o.published
        (λ r root q n. cc (response_eq q, n.parsed, e))
  parsed_lem now response fault b c o z e =
      failed_lem now _ (returned (some response)) b c o.same o.published
        (λ r root q n. cc (response_eq q, n.parsed, e))

  abbrev query_over : ℕ → Bridge N → Bridge N
  query_over now b = record b {
    pending_motion_status_query = none;
    motion_status_answer = none;
    next_motion_status_query_at = now + config.motion_status_publish_period;
  }

  -- The answer to a status query that is in time ends the query, sets the next one a period later
  -- and publishes one status. Where its response names a motion state, the status has the action and
  -- the velocities of this state, and an error is gone exactly if a query had left it; for any
  -- other answer, or an exception, action and velocities stay and the status has an error.
  pub settle_motion_status-Told :
      (now : ℕ) (future : Exit (Option Response)) (b : Bridge N)
      → let t = settle_motion_status json floats env config now future b in
        Settled json floats env config now b t × Ends json floats env config future b t
  unfolding settle_motion_status read_motion_response
  settle_motion_status-Told now (threw what) b =
      failed_lem now what (threw what) b b (refl, refl, refl, refl) refl (λ r root q n. cc)
  settle_motion_status-Told now (returned none) b =
      failed_lem now _ (returned none) b (query_over now b) (refl, refl, refl, refl) refl
        (λ r root q n. cc)
  settle_motion_status-Told now (returned (some response)) b =
      let c = query_over now b in
      elim (Bool-cases (is_zero response.code)) [
        | inl z ↦
            rw (z, read_motion_response)
              (parsed_lem now response (parse response.payload) b c
                (record {
                  same = (refl, refl, refl, refl);
                  published = refl;
                  over = refl;
                  next = refl;
                  from_query = refl;
                  error = refl;
                })
                z refl)
        | inr z ↦
            rw (z, read_motion_response)
              (failed_lem now _ (returned (some response)) b c (refl, refl, refl, refl) refl
                (λ r root q n. cc (response_eq q, n.fine, z)))
      ]
