-- ===== src/Client/Preservation.antt =====
-- Every public call and every callback keeps the invariant of the client.
use uniubi_ros.Prelude.{arith, List, [], ◌∷◌}
use uniubi_ros.Json.{Json}
use uniubi_ros.Client.{Client, Env, get_last_error}
use uniubi_ros.Client.Invariant.{IsConsistent, IsConsistent-stable, deliver-IsConsistent}
use uniubi_ros.Client.Machine.{
  Call, connects, disconnects, starts_control, releases_control, reads_error, sets_callbacks,
  queries, lists_audio, commands, observes, delivers, step, run,
}
use uniubi_ros.Client.Kept.{ask_keeps, command_keeps, query_audio_play_list_keeps}
use uniubi_ros.Client.SessionKept.{
  connect-IsConsistent, callbacks-IsConsistent, release_control-IsConsistent,
  disconnect-IsConsistent, start_control-IsConsistent,
}
use uniubi_ros.Client.ObservedKept.{set_motion_observed_enable-IsConsistent}

module _ {V : Type 0} (json : Json V) (env : Env) where
  -- Every public call and every callback keeps the invariant.
  pub step-IsConsistent :
      (c : Call) (s : Client) → IsConsistent s → IsConsistent (step json env c s)
  unfolding step
  step-IsConsistent (connects lease_ms) s h = connect-IsConsistent env lease_ms s h
  step-IsConsistent disconnects s h = disconnect-IsConsistent json env s h
  step-IsConsistent (starts_control timeout_ms) s h =
      start_control-IsConsistent json env timeout_ms s h
  step-IsConsistent releases_control s h = release_control-IsConsistent json env s h
  step-IsConsistent reads_error s h = unfold get_last_error in ground arith
  step-IsConsistent (sets_callbacks c e o m) s h = callbacks-IsConsistent c e o m s h
  step-IsConsistent (queries q timeout_ms) s h =
      ask_keeps json env IsConsistent (IsConsistent-stable json env) q timeout_ms s h
  step-IsConsistent (lists_audio params_json timeout_ms) s h =
      query_audio_play_list_keeps json env IsConsistent (IsConsistent-stable json env) params_json
        timeout_ms s h
  step-IsConsistent (commands c timeout_ms) s h =
      command_keeps json env IsConsistent (IsConsistent-stable json env) c timeout_ms s h
  step-IsConsistent (observes motion_enable sensor_enable timeout_ms) s h =
      set_motion_observed_enable-IsConsistent json env motion_enable sensor_enable timeout_ms s h
  step-IsConsistent (delivers i) s h = deliver-IsConsistent json env i s h

  pub run-IsConsistent :
      (cs : List Call) (s : Client) → IsConsistent s → IsConsistent (run json env cs s)
  unfolding run
  run-IsConsistent [] s h = h
  run-IsConsistent (c ∷ cs) s h = run-IsConsistent cs (step json env c s) (step-IsConsistent c s h)
