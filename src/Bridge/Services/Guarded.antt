-- ===== src/Bridge/Services/Guarded.antt =====
-- Services that are refused before they reach the robot.
use uniubi_ros.Prelude.{
  String, true, false, Option, some, ◌≡◌, ◌⊎◌, inl, inr, refl, str_eq, Bool-cases, if◌then◌else◌,
}
use uniubi_ros.Json.{Json, Parsed, value, malformed, fault}
use uniubi_ros.Client.{
  Env, Exit, returned, threw, HighLevelError, action_rejected, not_controlled, is_controlled,
}
use uniubi_ros.Bridge.{Bridge, Numbers}
use uniubi_ros.Bridge.Commands.Connection.{ConnectionConfig}
use uniubi_ros.Bridge.Services.{Operation, Answer, needs_control, serve_parsed, serve_json}

module _ {V N : Type 0} (json : Json V) (numbers : Numbers N) (env : Env)
    (config : ConnectionConfig) where
  -- The node is as it was: no connection, no request, no status.
  abbrev pub Untouched : HighLevelError → Bridge N → Option (Exit Answer × Bridge N) → Type 0
  Untouched error b r =
      (answer : Answer) × (r ≡ some (returned answer, b))
      × (answer.result.success ≡ false)
      × (answer.result.error_code ≡ error)
      × (answer.result_json ≡ "")

  -- The text is no JSON, or JSON of another kind.
  abbrev pub IsNoObject : Parsed V → Type 0
  IsNoObject parsed =
      (parsed ≡ malformed) ⊎ ((v : V) × (parsed ≡ value v) × (json.is_object v ≡ false))

  serve_parsed-Untouched :
      (parsed : Parsed V) (op : Operation) (params : String) (b : Bridge N)
      → needs_control op ≡ true
      → is_controlled b.client.state ≡ false
      → let r = serve_parsed json numbers env config parsed op params b in
        (((v : V) × (parsed ≡ value v) × (json.is_object v ≡ true)) × Untouched not_controlled b r)
        ⊎ (IsNoObject parsed × Untouched action_rejected b r)
        ⊎ ((parsed ≡ fault) × (r ≡ some (threw "JSON", b)))
  unfolding serve_parsed
  serve_parsed-Untouched fault op params b n c = inr (inr (refl, refl))
  serve_parsed-Untouched malformed op params b n c =
      inr (inl (inl refl, (_, refl, refl, refl, refl)))
  serve_parsed-Untouched (value v) op params b n c = elim (Bool-cases (json.is_object v)) [
    | inr other ↦
        rw (other, serve_parsed) (inr (inl (inr (v, refl, other), (_, refl, refl, refl, refl))))
    | inl object ↦
        rw (object, n, c, serve_parsed) (inl ((v, refl, object), (_, refl, refl, refl, refl)))
  ]

  -- A service that needs control, asked while the client is not in control, leaves the node exactly
  -- as it was, so it neither connects nor sends anything: parameters that are a JSON object (an
  -- empty text stands for one) are answered with "not controlled", and only these; a text that is no
  -- JSON or JSON of another kind is answered with "action rejected", and only such a one; a text on
  -- which the parser throws makes it throw.
  pub serve_json-Untouched :
      (op : Operation) (params_json : String) (b : Bridge N)
      → needs_control op ≡ true
      → is_controlled b.client.state ≡ false
      → let parsed = json.parse (if str_eq params_json "" then "{}" else params_json) in
        let r = serve_json json numbers env config op params_json b in
        (((v : V) × (parsed ≡ value v) × (json.is_object v ≡ true)) × Untouched not_controlled b r)
        ⊎ (IsNoObject parsed × Untouched action_rejected b r)
        ⊎ ((parsed ≡ fault) × (r ≡ some (threw "JSON", b)))
  unfolding serve_json
  serve_json-Untouched op params_json b n c =
      serve_parsed-Untouched (json.parse (if str_eq params_json "" then "{}" else params_json)) op _
        b n c
