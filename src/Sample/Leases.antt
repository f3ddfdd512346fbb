-- ===== src/Sample/Leases.antt =====
-- The lease and the events of a sample session: the theorems at one input each.
use uniubi_ros.Prelude.{
  ℕ, ℤ, pos, String, true, false, Option, none, some, ◌≡◌, ◌≢◌, refl, ◌↔◌, ◌⊎◌, arith, eq_iff,
}
use uniubi_ros.Client.{
  Client, EventMessage, Exit, returned, Response, connected, controlled, no_error, session_revoked,
  read_clock, pass, lease_duration_ms,
}
use uniubi_ros.Client.Renew.{
  renew_interval, lease_deadline, tick_renew, check_tick, check_lease, handle_renew_response,
}
use uniubi_ros.Client.Events.{
  handle_event, is_addressed, host_source, control_status_topic, host_event_topic,
}
use uniubi_ros.Client.Invariant.{IsConsistent}
use uniubi_ros.Client.Lease.{
  HoldsLease, IsDue, Requests, tick_renew-HoldsLease, renewal_sent, short_lease_not_renewed,
}
use uniubi_ros.Client.Renewal.{Renews, IsGivenUp, renewal_answer, late_answer_ignored}
use uniubi_ros.Client.Payload.{CalledBack}
use uniubi_ros.Client.Routing.{
  IsRevocation, hosts_isolated, control_status_revokes, events_need_control,
}
use uniubi_ros.Sample.{docs, calm, linked, driving, renewing}

named : ◌≢◌ {A = String} "c1" ""
named e = ground (arith, eq_iff "c1" "")

driving-IsConsistent : IsConsistent driving
driving-IsConsistent = ground arith

tick_renew-HoldsLease_example : HoldsLease 1001000000 (tick_renew docs calm driving)
unfolding tick_renew check_tick check_lease renew_interval lease_deadline lease_duration_ms
    read_clock pass
tick_renew-HoldsLease_example =
    tick_renew-HoldsLease docs calm driving driving-IsConsistent named refl

-- The renewal period has passed.
abbrev due : Client
due = record driving { last_control_activity_at = 0; lease_ms = pos 2000 }

renewal_sent_example :
    (((tick_renew docs calm due).pending_renew_request_id ≡ some 1)
      ↔ ((IsDue docs calm due) × (calm.async_send (read_clock calm due).1.steps ≡ some 1)))
    × ((tick_renew docs calm due).pending_renew_request_id ≡ some 1
        → Requests docs calm 1 due (tick_renew docs calm due))
renewal_sent_example = renewal_sent docs calm due 1 refl

abbrev brief : Client
brief = record driving { lease_ms = pos 150 }

short_lease_not_renewed_example :
    let t = tick_renew docs calm brief in
    (t.renew_sequence ≡ 0)
    × (t.pending_renew_request_id ≡ none)
    × (t.state ≡ controlled → t.controller ≢ "" → t ≡ (read_clock calm brief).1)
unfolding lease_duration_ms
short_lease_not_renewed_example = short_lease_not_renewed docs calm brief (omega arith) refl

abbrev lease_answer : Exit (Option Response)
lease_answer = returned (some (record { code = pos 0; payload = "lease" }))

abbrev answered_client : Client
answered_client = handle_renew_response docs calm 1 "c1" lease_answer renewing

renewal_answer_example :
    ((answered_client.state ≡ controlled)
      ↔ ((lease : ℤ) × Renews docs calm lease_answer (pos 9000) lease))
    × ((lease : ℤ)
        → Renews docs calm lease_answer (pos 9000) lease
        → (answered_client.lease_ms ≡ lease)
          × (answered_client.last_control_activity_at ≡ 1001000000)
          × (answered_client.last_error ≡ no_error)
          × (answered_client.pending_renew_request_id ≡ none)
          × (answered_client.controller ≡ "c1"))
unfolding read_clock pass
renewal_answer_example = renewal_answer docs calm lease_answer renewing 5 refl refl

abbrev late_client : Client
late_client = handle_renew_response docs calm 0 "c0" lease_answer renewing

late_answer_ignored_example :
    let u = tick_renew docs calm renewing in
    ((◌≡◌ {A = Option ℕ} (some 5) none) ⊎ (◌≢◌ {A = ℕ} 1 0) → late_client ≡ renewing)
    × (true ≡ true
        → ◌≡◌ {A = ℕ} 1 0
        → ◌≢◌ {A = String} "c0" "c1"
        → late_client
          ≡ record renewing { pending_renew_request_id = none; pending_renew_deadline = none })
    × (IsGivenUp docs calm renewing → handle_renew_response docs calm 1 "c0" lease_answer u ≡ u)
late_answer_ignored_example = late_answer_ignored docs calm 0 "c0" lease_answer renewing

abbrev status : EventMessage
status = record { magic = 0x53425645; topic = "SN1.robotServer.control.status"; payload = "taken" }

abbrev other : Client
other = record driving { device_id = "SN2" }

serials_differ : ◌≢◌ {A = String} "SN1" "SN2"
serials_differ e = ground (arith, eq_iff "SN1" "SN2")

hosts_isolated_example : handle_event docs status other ≡ (returned tt, other)
unfolding is_addressed host_source control_status_topic host_event_topic
hosts_isolated_example = hosts_isolated docs status driving other refl refl serials_differ refl

abbrev revoked : Client
revoked = (handle_event docs status driving).1

control_status_revokes_example :
    (IsRevocation docs status driving
      → (revoked.state ≡ connected)
        × (revoked.controller ≡ "")
        × (revoked.renew_timer ≡ false)
        × (revoked.pending_renew_request_id ≡ none)
        × (revoked.last_error ≡ session_revoked))
    × ((¬ (IsRevocation docs status driving)) → CalledBack driving revoked)
control_status_revokes_example = control_status_revokes docs status driving refl

abbrev watching : Client
watching = (handle_event docs status linked).1

events_need_control_example : CalledBack linked watching
events_need_control_example = events_need_control docs status linked refl
