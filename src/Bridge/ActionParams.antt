-- ===== src/Bridge/ActionParams.antt =====
-- `setActionParams` of the client with parameters that are a readable JSON object.
use uniubi_ros.Prelude.{
  String, true, false, some, ◌≡◌, ◌≢◌, refl, inl, inr, ◌⊎◌, arith, Bool-cases, pos, str_eq,
}
use uniubi_ros.Json.{Json, value}
use uniubi_ros.Client.{Client, Env, returned, no_error, is_controlled, ensure_controlled}
use uniubi_ros.Client.Commands.{
  set_action_params, if_controlled, with_params, parse_params_json, check_params, put_params,
  motion_call,
}
use uniubi_ros.Client.Guards.{SendsParams, motion_call-SendsParams}
use uniubi_ros.Bridge.Results.{motion_call-error}

module _ {V : Type 0} (json : Json V) (env : Env) where
  open json use {parse, is_object, put, object_value}

  pub readable_params :
      (params_json : String) (v : V)
      → parse params_json ≡ value v
      → is_object v ≡ true
      → (x : V) × ((s : Client) → parse_params_json json env params_json s ≡ (returned (some x), s))
  unfolding parse_params_json check_params
  readable_params params_json v e o = elim (Bool-cases (str_eq params_json "")) [
    | inl n ↦ (json.null_value, λ s. rw n refl)
    | inr n ↦ (v, λ s. rw (n, e, check_params, o) (ground arith))
  ]

  pub set_action_params-SendsParams :
      (params_json : String) (x : V) (s : Client)
      → is_controlled s.state ≡ true
      → parse_params_json json env params_json s ≡ (returned (some x), s)
      → SendsParams json env "setMotionActionParams"
          (put_params json env x object_value)
          s
          (set_action_params json env params_json (pos 5000) s).1
  unfolding set_action_params ensure_controlled if_controlled with_params
  set_action_params-SendsParams params_json x s c read =
      rw (c, if_controlled, read, with_params)
        (motion_call-SendsParams json env "setMotionActionParams"
          (put_params json env x object_value) (pos 5000) s)

  pub set_action_params-error :
      (params_json : String) (v : V) (s : Client)
      → is_controlled s.state ≡ true
      → parse params_json ≡ value v
      → is_object v ≡ true
      → ((set_action_params json env params_json (pos 5000) s).0 ≡ returned true)
        ⊎ (((set_action_params json env params_json (pos 5000) s).0 ≡ returned false)
            × ((set_action_params json env params_json (pos 5000) s).1.last_error ≢ no_error))
  unfolding set_action_params ensure_controlled if_controlled with_params motion_call
  set_action_params-error params_json v s c e o =
      let (x, read) = readable_params params_json v e o in
      rw (c, if_controlled, read s, with_params)
        (motion_call-error json env "setMotionActionParams" (put_params json env x object_value) s)
