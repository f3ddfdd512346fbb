-- ===== src/Client/Renew.antt =====
-- motion_high_level_client.cpp: the lease, its renewal timer, and the loss of control.
use uniubi_ros.Prelude.{
  ℕ, ◌+◌, ◌/◌, ◌%◌, ◌^◌, String, Bool, true, false, not, ◌&&◌, ◌||◌, Option, none, some, ltb, leb,
  ◌==◌, str_eq, if◌then◌else◌, is_some, is_zero, ℤ,
}
use uniubi_ros.Prelude.{min, max}
use uniubi_ros.Json.{Json, Parsed, value, malformed, fault}
use uniubi_ros.Rpc.{client_request}
use uniubi_ros.Client.{
  Client, Env, Exit, returned, threw, Response, HighLevelError, connected, session_expired,
  no_error, is_controlled, ms, sent_async, removed, emit, set_error, notify, lease_duration_ms,
  read_clock, mark_control_activity,
}

abbrev pub renew_timeout_ms : ℕ
renew_timeout_ms = 3000

-- `stop_renew_timer`: the timer is cancelled, a request in flight is forgotten.
unfoldable pub forget_pending : Option ℕ → Client → Client
forget_pending none s = record s { pending_renew_deadline = none }
forget_pending (some id) s = record (emit (removed id) s) {
  pending_renew_request_id = none;
  pending_renew_deadline = none;
}

unfoldable pub stop_renew_timer : Client → Client
unfolding forget_pending
stop_renew_timer s = forget_pending s.pending_renew_request_id (record s { renew_timer = false })

unfoldable pub start_renew_timer : Client → Client
start_renew_timer s = record (stop_renew_timer s) { renew_timer = true }

unfoldable pub lose_control : HighLevelError → Client → Client
unfolding notify set_error
lose_control error s =
    notify connected error
      (set_error error (record (stop_renew_timer s) { controller = ""; state = connected }))

-- The lease divided by three, clamped to the range of 200 ms to 10 s.
unfoldable pub renew_interval : Client → ℕ
unfolding lease_duration_ms
renew_interval s = ms (max 200 (min 10000 (lease_duration_ms s / 3)))

unfoldable pub lease_deadline : Client → ℕ
unfolding lease_duration_ms
lease_deadline s = s.last_control_activity_at + ms (lease_duration_ms s)

-- The branch of `tick_renew` in which a renewal is in flight.
unfoldable pub check_pending : ℕ → ℕ → Option ℕ → Client → Client
unfolding lease_deadline
check_pending now id none s = s
check_pending now id (some deadline) s =
    if leb deadline now
    then (let t = record (emit (removed id) s) {
      pending_renew_request_id = none;
      pending_renew_deadline = none;
    } in
        if leb (lease_deadline s) now then lose_control session_expired t else t)
    else s

module _ {V : Type 0} (json : Json V) (env : Env) where
  open json use {is_object, is_member, is_numeric, member, as_bool, as_int, parse, null_value}

  -- `async_call` of `renewMotionControl` and the `catch` around it.
  unfoldable pub record_renewal : ℕ → Option ℕ → Client → Client
  unfolding lease_deadline read_clock client_request
  record_renewal now (some id) s =
      record (emit
        (sent_async
          (client_request json (env.system_ms s.steps) s.client_id s.device_id "robotAppService"
            "renewMotionControl" null_value s.controller)
          id)
        s) {
          pending_renew_request_id = some id;
          pending_renew_deadline = some (now + ms renew_timeout_ms);
        }
  record_renewal now none s =
      let (later, t) = read_clock env s in
      if leb (lease_deadline s) later then lose_control session_expired t else t

  unfoldable pub send_renewal : ℕ → Client → Client
  send_renewal now s =
      record_renewal now (env.async_send s.steps)
        (record s { renew_sequence = (s.renew_sequence + 1) % 2 ^ 64 })

  -- The branch of `tick_renew` with no renewal in flight.
  unfoldable pub check_lease : ℕ → Client → Client
  unfolding lease_deadline renew_interval
  check_lease now s =
      if leb (lease_deadline s) now
      then lose_control session_expired s
      else if ltb now (s.last_control_activity_at + renew_interval s)
      then s
      else send_renewal now s

  unfoldable pub check_tick : ℕ → Option ℕ → Client → Client
  check_tick now (some id) s = check_pending now id s.pending_renew_deadline s
  check_tick now none s = check_lease now s

  unfoldable pub tick_renew : Client → Client
  unfolding read_clock
  tick_renew s =
      if not (is_controlled s.state) || str_eq s.controller ""
      then stop_renew_timer s
      else (let (now, t) = read_clock env s in check_tick now t.pending_renew_request_id t)

  -- The lease that a response names: `none` where reading it throws.
  unfoldable pub named_lease : V → ℤ → Option ℤ
  named_lease payload old =
      if is_member payload "params"
        && is_object (member payload "params")
        && is_member (member payload "params") "leaseTimeout"
        && is_numeric (member (member payload "params") "leaseTimeout")
      then as_int (member (member payload "params") "leaseTimeout")
      else some old

  unfoldable pub keep_lease : Option ℤ → Client → Client
  unfolding mark_control_activity set_error
  keep_lease none s = lose_control session_expired s
  keep_lease (some lease) s =
      set_error no_error (mark_control_activity env (record s { lease_ms = lease }))

  -- `!payload["result"].asBool()`; `none` where `asBool` throws.
  unfoldable pub judge_renewal : Option Bool → V → Client → Client
  unfolding named_lease
  judge_renewal (some true) payload s = keep_lease (named_lease payload s.lease_ms) s
  judge_renewal (some false) payload s = lose_control session_expired s
  judge_renewal none payload s = lose_control session_expired s

  unfoldable pub read_renewal : Parsed V → Client → Client
  read_renewal (value payload) s =
      if is_object payload && is_member payload "result"
      then judge_renewal (as_bool (member payload "result")) payload s
      else lose_control session_expired s
  read_renewal malformed s = lose_control session_expired s
  read_renewal fault s = lose_control session_expired s

  unfoldable pub settle_renewal : Exit (Option Response) → Client → Client
  settle_renewal (returned (some r)) s =
      if is_zero r.code then read_renewal (parse r.payload) s else lose_control session_expired s
  settle_renewal (returned none) s = lose_control session_expired s
  settle_renewal (threw what) s = lose_control session_expired s

  unfoldable pub handle_renew_response : ℕ → String → Exit (Option Response) → Client → Client
  handle_renew_response sequence controller future s =
      if not (is_some s.pending_renew_request_id) || not (sequence == s.renew_sequence)
      then s
      else (let t = record s { pending_renew_request_id = none; pending_renew_deadline = none } in
          if not (is_controlled s.state) || not (str_eq controller s.controller)
          then t
          else settle_renewal future t)
