-- ===== src/Bridge/Rollback.antt =====
-- An action that fails gives back the control that was taken for it.
use uniubi_ros.Prelude.{
  ℕ, ◌≤◌, String, Bool, Bool-cases, true, false, Option, none, some, List, [], ◌∷◌, ◌≡◌, ◌⊎◌, refl,
  ◌∙◌, inl, inr, arith, pos,
}
use uniubi_ros.Json.{Json}
use uniubi_ros.Client.{
  Client, Env, Exit, returned, HighLevelState, HighLevelError, Effect, connected, no_error,
  is_controlled, set_error, get_last_error, caller,
}
use uniubi_ros.Rpc.{make_payload, empty_object_if_null}
use uniubi_ros.Client.Calls.{rpc_call}
use uniubi_ros.Client.Renew.{stop_renew_timer}
use uniubi_ros.Client.Session.{finish_release, release_control as client_release_control}
use uniubi_ros.Client.Trace.{tally}
use uniubi_ros.Client.Guards.{Sends, is_request, rpc_call-Sends}
use uniubi_ros.Bridge.{
  Bridge, CommandResult, Numbers, set_status_error, publish_motion_status, publish_in,
  cancel_motion_status_query, cancel_battery_status_query, reset_velocity_tracking, forget_action,
  on_connect, on_connects, after_call, call_client, error_of, forget_request,
}
use uniubi_ros.Bridge.Commands.Connection.{ConnectionConfig, failed}
use Prim.Native.String.{◌++◌}
use uniubi_ros.Bridge.Commands.Actions.{settle_rollback, roll_back, settle_action, failed_message}

module _ {N : Type 0} (numbers : Numbers N) (kind : Effect → Bool) where
  forget_request-tally :
      (r : Option ℕ) (s : Client) → tally kind s.trace ≤ tally kind (forget_request r s).trace
  forget_request-tally none s = omega arith
  forget_request-tally (some id) s = ground arith

  -- What the callbacks of a call leave of the client.
  abbrev pub Grown : Client → Client → Type 0
  Grown s t = (t.state ≡ s.state) × (tally kind s.trace ≤ tally kind t.trace)

  forget_request-state : (r : Option ℕ) (s : Client) → (forget_request r s).state ≡ s.state
  forget_request-state none s = refl
  forget_request-state (some id) s = refl

  on_connect-Grown :
      (state : HighLevelState) (error : HighLevelError) (b : Bridge N)
      → Grown b.client (on_connect numbers (state, error) b).client
  unfolding on_connect publish_in set_status_error reset_velocity_tracking forget_action
      cancel_battery_status_query cancel_motion_status_query
  on_connect-Grown state error b =
      let s = forget_request b.pending_motion_status_query b.client in
      ground (
        arith,
        forget_request-tally b.pending_motion_status_query b.client,
        forget_request-tally b.pending_battery_status_query s,
        forget_request-state b.pending_motion_status_query b.client,
        forget_request-state b.pending_battery_status_query s,
      )

  on_connects-Grown :
      (cs : List (HighLevelState × HighLevelError)) (b : Bridge N)
      → Grown b.client (on_connects numbers cs b).client
  unfolding on_connects
  on_connects-Grown [] b = (refl, omega arith)
  on_connects-Grown ((state, error) ∷ cs) b =
      let (same, more) = on_connect-Grown state error b in
      let (same', more') = on_connects-Grown cs (on_connect numbers (state, error) b) in
      (same' ∙ same, omega arith)

  pub after_call-Grown : (t : Client) (b : Bridge N) → Grown t (after_call numbers t b).client
  unfolding after_call
  after_call-Grown t b = on_connects-Grown _ (record b { client = t })

module _ {V : Type 0} (json : Json V) (env : Env) where
  finish_release-tally :
      (kind : Effect → Bool) (r : Bool × V × Client)
      → (tally kind r.2.trace ≤ tally kind (finish_release json env r).1.trace)
        × ((finish_release json env r).0 ≡ true → (finish_release json env r).1.state ≡ connected)
  unfolding finish_release stop_renew_timer
  finish_release-tally kind (true, out, s) = ground arith
  finish_release-tally kind (false, out, s) = ground arith

  client_release-Sends :
      (s : Client)
      → is_controlled s.state ≡ true
      → Sends json env "releaseMotionControl" s (client_release_control json env s).1
  unfolding client_release_control
  client_release-Sends s c =
      let null = json.null_value in
      let (params, sends) = rpc_call-Sends json env "releaseMotionControl" null null (pos 5000) s in
      let kind =
        is_request "releaseMotionControl"
          (make_payload json (caller s) (empty_object_if_null json params)) in
      let (more, linked) =
        finish_release-tally kind
          (rpc_call json env "releaseMotionControl" s.controller null null (pos 5000) s) in
      rw c (params, omega (arith, sends, more))

  client_release-lost :
      (s : Client) → is_controlled s.state ≡ false → (client_release_control json env s).0 ≡ false
  unfolding client_release_control
  client_release-lost s c = rw c refl

  client_release-connected :
      (s : Client)
      → (client_release_control json env s).0 ≡ true
      → (client_release_control json env s).1.state ≡ connected
  unfolding client_release_control
  client_release-connected s h = elim (Bool-cases (is_controlled s.state)) [
    | inr lost ↦ absurd (ground arith)
    | inl c ↦
        let null = json.null_value in
        rw c (
          (finish_release-tally (λ e. true)
              (rpc_call json env "releaseMotionControl" s.controller null null (pos 5000) s)).1
            (rw c at h))
  ]

module _ {V N : Type 0} (json : Json V) (numbers : Numbers N) (env : Env)
    (config : ConnectionConfig) where
  -- The result names the outcome of the rollback, and control is given back where it says so.
  abbrev pub RolledBack : String → HighLevelError → Exit CommandResult × Bridge N → Type 0
  RolledBack action error (r, t) =
      ((r ≡ returned (failed error (failed_message json numbers env config action (some true))))
        × (t.client.state ≡ connected))
      ⊎ (r ≡ returned (failed error (failed_message json numbers env config action (some false))))

  settle-RolledBack :
      (action : String) (error : HighLevelError) (ok : Bool) (t : Client) (b : Bridge N)
      → (ok ≡ true → t.state ≡ connected)
      → let (released, u) = settle_rollback json numbers env config ok (after_call numbers t b) in
        RolledBack action error (
          returned (failed error (failed_message json numbers env config action (some released))),
          publish_motion_status u,
        )
        × ((kind : Effect → Bool) → tally kind t.trace ≤ tally kind u.client.trace)
  unfolding settle_rollback publish_motion_status publish_in error_of get_last_error
  settle-RolledBack action error true t b h = (
    inl (refl, (after_call-Grown numbers (λ e. true) t b).0 ∙ h refl),
    λ kind. (after_call-Grown numbers kind t b).1,
  )
  settle-RolledBack action error false t b h =
      (inr refl, λ kind. (after_call-Grown numbers kind t b).1)

  -- When the client refuses an action for which control was newly acquired, the node asks the
  -- service to release it, if the client is still in control. In control or not, it never throws and
  -- reports the failure of the action: the message says that control was released only if the
  -- client is back in the state `connected`, and otherwise that it could not be released. It says the
  -- second where control was lost before the release.
  pub settle_action-RolledBack :
      (action : String) (b : Bridge N)
      → let r = settle_action json numbers env config action true false b in
        (is_controlled b.client.state ≡ true
          → Sends json env "releaseMotionControl" b.client r.1.client)
        × RolledBack action b.client.last_error r
        × (is_controlled b.client.state ≡ false
            → r.0
              ≡ returned (
                  failed b.client.last_error
                    (failed_message json numbers env config action (some false))))
  unfolding settle_action roll_back call_client error_of get_last_error set_status_error
      publish_motion_status publish_in caller settle_rollback
  settle_action-RolledBack action b =
      let s = set_error no_error b.client in
      let t =
        set_status_error b.client.last_error (action ++ " failed") false
          (record b { client = s }) in
      let (rolled, more) =
        settle-RolledBack action b.client.last_error (client_release_control json env s).0
          (client_release_control json env s).1 t (client_release-connected json env s) in
      (
        λ c.
            let sends = client_release-Sends json env s c in
            (sends.0, omega (arith, sends.1, more _)),
        rolled,
        λ c. rw (client_release-lost json env s c) refl,
      )
