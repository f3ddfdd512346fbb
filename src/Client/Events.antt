-- ===== src/Client/Events.antt =====
-- motion_high_level_client.cpp: `handle_event` and `read_controlled`.
use uniubi_ros.Prelude.{ℕ, String, Bool, false, not, ◌&&◌, none, some, ◌==◌, str_eq, if◌then◌else◌}
use Prim.Native.String.{◌++◌}
use uniubi_ros.Json.{Json, Parsed, value, malformed, fault}
use uniubi_ros.Client.{
  Client, Exit, returned, threw, EventMessage, session_revoked, is_controlled, event_called, emit,
}
use uniubi_ros.Client.Renew.{lose_control}

abbrev pub event_magic : ℕ
event_magic = 0x53425645

-- `host_source`.
unfoldable pub host_source : Client → Bool
host_source s = not (str_eq s.sensor_observed_source "cere_motion_state")

unfoldable pub control_status_topic : Client → String
unfolding host_source
control_status_topic s =
    if host_source s
    then s.device_id ++ ".robotServer.control.status"
    else "robotServer.control.status"

unfoldable pub host_event_topic : Client → String
unfolding host_source
host_event_topic s =
    if host_source s then s.device_id ++ ".robotServer.host.event" else "robotServer.host.event"

-- `event_callback_` behind its test.
unfoldable pub call_event_callback : String → String → Client → Client
call_event_callback topic payload s =
    if s.event_callback then emit (event_called topic payload) s else s

-- The magic number, and on a host the topics that are qualified by the serial number.
unfoldable pub is_addressed : EventMessage → Client → Bool
unfolding host_source control_status_topic host_event_topic
is_addressed event s =
    event.magic == event_magic
    && not (
        host_source s
        && not (str_eq event.topic (control_status_topic s))
        && not (str_eq event.topic (host_event_topic s)))

module _ {V : Type 0} (json : Json V) where
  open json use {is_bool, is_string, is_object, is_member, member, as_bool, as_string, parse, write}

  -- `asBool` behind `isBool` does not throw.
  unfoldable pub read_controlled : V → Bool
  read_controlled payload =
      if not (is_member payload "controlled")
      then false
      else if is_bool (member payload "controlled")
      then (elim (as_bool (member payload "controlled")) [ some b ↦ b | none ↦ false ])
      else if is_string (member payload "controlled")
      then not (str_eq (as_string (member payload "controlled")) "0")
      else false

  unfoldable pub current_controller : V → String
  current_controller payload =
      if is_member payload "controller" && is_string (member payload "controller")
      then as_string (member payload "controller")
      else ""

  unfoldable pub handle_control_status : V → Client → Client
  unfolding read_controlled current_controller
  handle_control_status payload s =
      if not (is_controlled s.state)
      then s
      else if read_controlled payload && str_eq (current_controller payload) s.controller
      then s
      else lose_control session_revoked s

  unfoldable pub forward_event : V → EventMessage → Client → Client
  unfolding host_event_topic call_event_callback
  forward_event payload event s =
      if str_eq event.topic (host_event_topic s)
        && is_member payload "event"
        && is_string (member payload "event")
        && is_member payload "detail"
      then call_event_callback (as_string (member payload "event"))
          (write (member payload "detail")) s
      else call_event_callback event.topic event.payload s

  unfoldable pub handle_payload : Parsed V → EventMessage → Client → Exit (Unit {0}) × Client
  unfolding control_status_topic call_event_callback
  handle_payload fault event s = (threw "JSON", s)
  handle_payload malformed event s = (returned tt, call_event_callback event.topic event.payload s)
  handle_payload (value payload) event s = (
    returned tt,
    if not (is_object payload)
        then call_event_callback event.topic event.payload s
        else if str_eq event.topic (control_status_topic s)
        then handle_control_status payload s
        else forward_event payload event s,
  )

  unfoldable pub handle_event : EventMessage → Client → Exit (Unit {0}) × Client
  handle_event event s =
      if is_addressed event s
      then handle_payload (parse event.payload) event s
      else (returned tt, s)
