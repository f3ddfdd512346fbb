-- ===== src/Client/Queries.antt =====
-- motion_high_level_client.cpp: the read-only queries. Each returns its result, what it writes to
-- its reference parameter `out`, if it does, and the client.
use uniubi_ros.Prelude.{ℤ, String, Bool, true, false, Option, none, some, if◌then◌else◌}
use uniubi_ros.Json.{Json}
use uniubi_ros.Client.{Client, Env, caller, ensure_connected, ensure_controlled}
use uniubi_ros.Client.Calls.{rpc_call}

module _ {V : Type 0} (json : Json V) (env : Env) where
  open json use {null_value, is_null, write}

  unfoldable pub response_to_output : V → String
  response_to_output payload = if is_null payload then "{}" else write payload

  unfoldable pub output : Bool × V × Client → Bool × Option String × Client
  unfolding response_to_output
  output (true, ret, s) = (true, some (response_to_output ret), s)
  output (false, ret, s) = (false, none, s)

  -- What the queries share behind their guards.
  unfoldable pub query : String → String → V → ℤ → Client → Bool × Option String × Client
  query method id params timeout_ms s =
      output (rpc_call json env method id params null_value timeout_ms s)

  unfoldable pub guarded :
      Bool × Client → (Client → Bool × Option String × Client) → Bool × Option String × Client
  guarded (true, s) go = go s
  guarded (false, s) go = (false, none, s)

  unfoldable pub query_capabilities : ℤ → Client → Bool × Option String × Client
  unfolding ensure_connected
  query_capabilities timeout_ms s =
      guarded (ensure_connected s)
        (λ t. query "getMotionCapabilities" t.client_id null_value timeout_ms t)

  unfoldable pub query_system_status : ℤ → Client → Bool × Option String × Client
  unfolding ensure_connected caller
  query_system_status timeout_ms s =
      guarded (ensure_connected s) (λ t. query "getSystemStatus" (caller t) null_value timeout_ms t)

  unfoldable pub query_motion_state : ℤ → Client → Bool × Option String × Client
  unfolding ensure_connected caller
  query_motion_state timeout_ms s =
      guarded (ensure_connected s)
        (λ t. query "queryMotionState" (caller t) null_value timeout_ms t)

  unfoldable pub query_motor_layout : ℤ → Client → Bool × Option String × Client
  unfolding ensure_connected
  query_motor_layout timeout_ms s =
      guarded (ensure_connected s) (λ t. query "getMotorLayout" t.client_id null_value timeout_ms t)

  unfoldable pub query_audio_play_detail : ℤ → Client → Bool × Option String × Client
  unfolding ensure_connected caller
  query_audio_play_detail timeout_ms s =
      guarded (ensure_connected s)
        (λ t. query "getAudioPlayDetail" (caller t) null_value timeout_ms t)

  -- This query needs control, as in the SDK.
  unfoldable pub get_camera_light_brightness : ℤ → Client → Bool × Option String × Client
  unfolding ensure_controlled
  get_camera_light_brightness timeout_ms s =
      guarded (ensure_controlled s)
        (λ t. query "getCameraLightBrightness" t.controller null_value timeout_ms t)
