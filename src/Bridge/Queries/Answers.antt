-- ===== src/Bridge/Queries/Answers.antt =====
-- What the answer to a status query makes of the status.
pub mod Told
use uniubi_ros.Prelude.{
  ℕ, ◌+◌, String, Bool, true, false, not, ◌&&◌, ◌||◌, Option, none, some, List, ◌∷◌, ◌≡◌, ◌≢◌, ◌⊎◌,
  inl, inr, refl, sym, ◌∙◌, arith, is_zero, Bool-cases, if◌then◌else◌,
}
use uniubi_ros.Json.{Json, Parsed, value, malformed, fault}
use uniubi_ros.Client.{
  Env, Exit, returned, threw, Response, no_error, rpc_call_failed, action_rejected, disconnected,
}
use uniubi_ros.Bridge.{
  Bridge, MotionStatus, set_status_error, clear_status_error, publish_motion_status, publish_in,
  cancel_motion_status_query,
}
use uniubi_ros.Bridge.Battery.{Floats, is_true}
use uniubi_ros.Bridge.Queries.{
  StatusConfig, motion_status_failed, float_member, string_member, adopt_motion_state, params_of,
  read_motion_state, read_motion_response, settle_motion_status,
}

-- The status message that the members make.
abbrev pub current_status : {N : Type 0} → Bridge N → MotionStatus N
current_status b = record {
  control_state = if b.rpc_ready then b.client.state else disconnected;
  current_action = b.current_action;
  line_velocity_x = b.current_linear_x;
  line_velocity_y = b.current_linear_y;
  angular_velocity = b.current_angular_z;
  last_error_code = b.last_error_code;
  last_error_message = b.last_error_message;
}

module _ {V N : Type 0} (json : Json V) (floats : Floats V N) (env : Env)
    (config : StatusConfig) where
  open json use {is_object, is_bool, member, as_bool, parse}

  -- A response that names the motion state `root`: its code is 0, and its payload is an object with
  -- the result true and parameters that are an object or missing.
  pub record Names (response : Response) (root : V) : Type 0 where
    pub fine : is_zero response.code ≡ true
    pub document : V
    pub parsed : parse response.payload ≡ value document
    pub object : is_object document ≡ true
    pub result : is_bool (member document "result") ≡ true
    pub accepted : is_true (as_bool (member document "result")) ≡ true
    pub root_is : params_of json floats env config document ≡ root
    pub readable : is_object root ≡ true

  -- The state becomes the status; an error that a query had left is cleared.
  pub record Adopted (root : V) (b t : Bridge N) : Type 0 where
    pub action : t.current_action ≡ string_member json floats env config root "action"
    pub along : t.current_linear_x ≡ float_member json floats env config root "lineVelocityX"
    pub across : t.current_linear_y ≡ float_member json floats env config root "lineVelocityY"
    pub turn : t.current_angular_z ≡ float_member json floats env config root "velocity"
    pub error :
        ((b.last_error_from_query ≡ true) × (t.last_error_code ≡ no_error))
        ⊎ ((b.last_error_from_query ≡ false) × (t.last_error_code ≡ b.last_error_code))

  -- The action and the velocities of the status stay, with an error that the next state clears.
  pub record Refused (b t : Bridge N) : Type 0 where
    pub action : t.current_action ≡ b.current_action
    pub along : t.current_linear_x ≡ b.current_linear_x
    pub across : t.current_linear_y ≡ b.current_linear_y
    pub turn : t.current_angular_z ≡ b.current_angular_z
    pub error : (t.last_error_code ≡ rpc_call_failed) ⊎ (t.last_error_code ≡ action_rejected)
    pub from_query : t.last_error_from_query ≡ true

  -- The query is over, the next one waits for a period, and one status is published.
  pub record Settled (now : ℕ) (b t : Bridge N) : Type 0 where
    pub over : t.pending_motion_status_query ≡ none
    pub next : t.next_motion_status_query_at ≡ now + config.motion_status_publish_period
    pub shown : t.published ≡ current_status t ∷ b.published

  failed-Settled :
      (now : ℕ) (what : String) (b c : Bridge N)
      → c.published ≡ b.published
      → Settled now b (motion_status_failed json floats env config now what c)
  unfolding motion_status_failed cancel_motion_status_query set_status_error publish_motion_status
      publish_in
  failed-Settled now what b c e = record { over = refl; next = refl; shown = ground arith }

  -- The members that an answer leaves alone.
  abbrev Same : Bridge N → Bridge N → Type 0
  Same b c =
      (c.current_action ≡ b.current_action)
      × (c.current_linear_x ≡ b.current_linear_x)
      × (c.current_linear_y ≡ b.current_linear_y)
      × (c.current_angular_z ≡ b.current_angular_z)

  failed-Refused :
      (now : ℕ) (what : String) (b c : Bridge N)
      → Same b c
      → Refused b (motion_status_failed json floats env config now what c)
  unfolding motion_status_failed cancel_motion_status_query set_status_error publish_motion_status
      publish_in
  failed-Refused now what b c e = record {
    action = e.0;
    along = e.1;
    across = e.2;
    turn = e.3;
    error = inl refl;
    from_query = refl;
  }

  adopt_lem :
      (now : ℕ) (root : V) (b c : Bridge N)
      → Same b c
      → c.published ≡ b.published
      → c.pending_motion_status_query ≡ none
      → c.next_motion_status_query_at ≡ now + config.motion_status_publish_period
      → c.last_error_from_query ≡ b.last_error_from_query
      → c.last_error_code ≡ b.last_error_code
      → let t = adopt_motion_state json floats env config root c in
        Settled now b t × Adopted root b t
  unfolding adopt_motion_state clear_status_error publish_motion_status publish_in
  adopt_lem now root b c s p q n f e = elim (Bool-cases c.last_error_from_query) [
    | inl asked ↦
        rw (asked, adopt_motion_state)
          (
            record { over = q; next = n; shown = ground arith },
            record {
              action = refl;
              along = refl;
              across = refl;
              turn = refl;
              error = inl (sym f ∙ asked, refl);
            },
          )
    | inr free ↦
        rw (free, adopt_motion_state)
          (
            record { over = q; next = n; shown = ground arith },
            record {
              action = refl;
              along = refl;
              across = refl;
              turn = refl;
              error = inr (sym f ∙ free, e);
            },
          )
  ]

  -- How an answer ends: with the state that it names, or with an error.
  abbrev pub Ends : Exit (Option Response) → Bridge N → Bridge N → Type 0
  Ends future b t =
      ((response : Response) × (root : V) × (future ≡ returned (some response))
        × Names response root
        × Adopted root b t)
      ⊎ (((response : Response) (root : V)
            → future ≡ returned (some response)
            → ¬ Names response root)
          × Refused b t)
