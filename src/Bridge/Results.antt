-- ===== src/Bridge/Results.antt =====
-- What the commands of the node report, against what the client did.
use uniubi_ros.Prelude.{
  ℕ, String, Bool, true, false, Option, none, some, List, [], ◌∷◌, ◌≡◌, ◌≢◌, refl, sym, ◌∙◌, ◌⊎◌,
  inl, inr, arith, pos,
}
use uniubi_ros.Json.{Json}
use uniubi_ros.Client.{
  Client, Env, Exit, returned, threw, HighLevelState, HighLevelError, no_error, action_rejected,
  rpc_call_failed, is_controlled, get_last_error,
}
use uniubi_ros.Client.Calls.{rpc_call}
use uniubi_ros.Client.Verdict.{rpc_call_report}
use uniubi_ros.Client.Commands.{
  stop_action as client_stop_action, emergency_stop as client_emergency_stop, if_controlled,
  motion_call, mark_success,
}
use uniubi_ros.Client.{ensure_controlled}
use uniubi_ros.Bridge.{
  Bridge, CommandResult, Numbers, set_status_error, clear_status_error, publish_motion_status,
  cancel_motion_status_query, cancel_battery_status_query, reset_velocity_tracking, forget_action,
  publish_in, on_connect, on_connects, after_call, call_client, error_of, and_then, forget_request,
}
use uniubi_ros.Bridge.Commands.{settle_stop, stop_action, emergency_stop}

forget_request-error : (r : Option ℕ) (s : Client) → (forget_request r s).last_error ≡ s.last_error
forget_request-error none s = refl
forget_request-error (some id) s = refl

module _ {N : Type 0} (numbers : Numbers N) where
  on_connect-error :
      (state : HighLevelState) (error : HighLevelError) (b : Bridge N)
      → (on_connect numbers (state, error) b).client.last_error ≡ b.client.last_error
  unfolding on_connect publish_in set_status_error reset_velocity_tracking forget_action
      cancel_battery_status_query cancel_motion_status_query
  on_connect-error state error b = ground (
    arith,
    forget_request-error b.pending_motion_status_query b.client,
    forget_request-error b.pending_battery_status_query
        (forget_request b.pending_motion_status_query b.client),
  )

  on_connects-error :
      (cs : List (HighLevelState × HighLevelError)) (b : Bridge N)
      → (on_connects numbers cs b).client.last_error ≡ b.client.last_error
  unfolding on_connects
  on_connects-error [] b = refl
  on_connects-error ((state, error) ∷ cs) b =
      on_connects-error cs _ ∙ on_connect-error state error b

  pub after_call-error :
      (t : Client) (b : Bridge N) → (after_call numbers t b).client.last_error ≡ t.last_error
  unfolding after_call
  after_call-error t b = on_connects-error _ (record b { client = t })

module _ {V : Type 0} (json : Json V) (env : Env) where
  mark_success-error :
      (r : Bool × V × Client)
      → (r.0 ≡ true) ⊎ (r.2.last_error ≢ no_error)
      → ((mark_success json env r).0 ≡ returned true)
        ⊎ (((mark_success json env r).0 ≡ returned false)
            × ((mark_success json env r).1.last_error ≢ no_error))
  unfolding mark_success
  mark_success-error (true, out, s) h = inl refl
  mark_success-error (false, out, s) (inl e) = absurd cc
  mark_success-error (false, out, s) (inr e) = inr (refl, e)

  rpc_call-error :
      (r : Bool × V × Client)
      → ((r.0 ≡ true) × (r.2.last_error ≡ no_error))
        ⊎ ((r.0 ≡ false) × (r.2.last_error ≡ action_rejected))
        ⊎ ((r.0 ≡ false) × (r.2.last_error ≡ rpc_call_failed))
      → (r.0 ≡ true) ⊎ (r.2.last_error ≢ no_error)
  rpc_call-error r (inl h) = inl h.0
  rpc_call-error r (inr (inl h)) = inr (λ e. absurd cc)
  rpc_call-error r (inr (inr h)) = inr (λ e. absurd cc)

  -- A motion call that fails leaves an error.
  pub motion_call-error :
      (method : String) (params : V) (s : Client)
      → ((motion_call json env method params (pos 5000) s).0 ≡ returned true)
        ⊎ (((motion_call json env method params (pos 5000) s).0 ≡ returned false)
            × ((motion_call json env method params (pos 5000) s).1.last_error ≢ no_error))
  unfolding motion_call
  motion_call-error method params s =
      let r = rpc_call json env method s.controller params json.null_value (pos 5000) s in
      mark_success-error r (
        rpc_call-error r
          (rpc_call_report json env method s.controller params json.null_value (pos 5000) s).2)

module _ {N : Type 0} where
  -- A stop that succeeded reports no error, and leaves no velocity that is active or waits, no status
  -- query in flight and no error in the status; one that failed reports an error, which is also
  -- that of the status.
  abbrev pub Reported : Exit CommandResult × Bridge N → Type 0
  Reported (returned r, t) =
      ((r.success ≡ true)
        × (r.error_code ≡ no_error)
        × (t.velocity_command_active ≡ false)
        × (t.pending_velocity ≡ none)
        × (t.pending_motion_status_query ≡ none)
        × (t.last_error_code ≡ no_error))
      ⊎ ((r.success ≡ false) × (r.error_code ≢ no_error) × (t.last_error_code ≡ r.error_code))
  Reported (threw what, t) = Prim.⊥

module _ {V N : Type 0} (json : Json V) (numbers : Numbers N) (env : Env) where
  settle_stop-Reported :
      (done failed : String) (ok : Bool) (b : Bridge N)
      → (ok ≡ true) ⊎ (b.client.last_error ≢ no_error)
      → Reported (settle_stop json numbers env done failed ok b)
  unfolding settle_stop reset_velocity_tracking clear_status_error cancel_motion_status_query
      set_status_error publish_motion_status error_of publish_in get_last_error
  settle_stop-Reported done failed true b h = inl (refl, refl, refl, refl, refl, refl)
  settle_stop-Reported done failed false b (inl h) = absurd cc
  settle_stop-Reported done failed false b (inr h) = inr (refl, h, refl)

  called-Reported :
      (done failed : String) (r : Exit Bool × Client) (b : Bridge N)
      → (r.0 ≡ returned true) ⊎ ((r.0 ≡ returned false) × (r.1.last_error ≢ no_error))
      → Reported
          (and_then (r.0, after_call numbers r.1 b) (settle_stop json numbers env done failed))
  called-Reported done failed (returned true, t) b h =
      settle_stop-Reported done failed true (after_call numbers t b) (inl refl)
  called-Reported done failed (returned false, t) b (inl h) = absurd cc
  called-Reported done failed (returned false, t) b (inr h) =
      settle_stop-Reported done failed false (after_call numbers t b)
        (inr (λ e. h.1 (sym (after_call-error numbers t b) ∙ e)))
  called-Reported done failed (threw what, t) b (inl h) = absurd cc
  called-Reported done failed (threw what, t) b (inr h) = absurd cc

  -- Under control, `stop_action` and `emergency_stop` never throw: one that succeeds reports no error
  -- and leaves no velocity that is active or waits, no status query in flight and no error in the
  -- status; one that fails reports an error, which the status repeats.
  pub stops-Reported :
      (reason : String) (b : Bridge N)
      → is_controlled b.client.state ≡ true
      → Reported (stop_action json numbers env reason b)
        × Reported (emergency_stop json numbers env b)
  unfolding stop_action emergency_stop call_client client_stop_action client_emergency_stop
      ensure_controlled if_controlled
  stops-Reported reason b c =
      rw (c, if_controlled)
        (
          called-Reported _ _
              (motion_call json env "stopMotionAction" json.null_value (pos 5000) b.client) b
              (motion_call-error json env "stopMotionAction" json.null_value b.client),
          called-Reported _ _
              (motion_call json env "emergencyStopMotion" json.null_value (pos 5000) b.client) b
              (motion_call-error json env "emergencyStopMotion" json.null_value b.client),
        )
