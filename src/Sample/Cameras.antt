-- ===== src/Sample/Cameras.antt =====
-- Two cameras: the theorems on the configuration and the streams at one input each.
use uniubi_ros.Prelude.{
  ◌++◌, pos, true, false, List, [], ◌∷◌, ◌≡◌, refl, All, map, Bytes, ◌↔◌, strip,
}
use uniubi_ros.Client.{Exit, returned}
use uniubi_ros.Media.Config.{
  validate_config, image_topic, all_names, parts, drop_root, valid_name, check_cameras,
  check_prefix, rtsp,
}
use uniubi_ros.Media.Config.Accepted.{IsConfig, IsDistinct, validate_config_iff}
use uniubi_ros.Media.Config.Topics.{validate_config-topics}
use uniubi_ros.Media.Streams.{
  Parameters, Bus, CameraStream, BusCall, validate_parameters, create_publishers, stop_all,
  check_channels,
}
use uniubi_ros.Media.Streams.Running.{runs, Matches, IsApart, rounds, rounds-Matches}

-- "a" and "b"; "rtsp://a"; "/r".
abbrev pub names : List Bytes
names = (97 ∷ []) ∷ (98 ∷ []) ∷ []

abbrev pub urls : List Bytes
urls = (rtsp ++ (97 ∷ [])) ∷ (rtsp ++ (98 ∷ [])) ∷ []

abbrev pub prefix : Bytes
prefix = 47 ∷ 114 ∷ []

abbrev checked : Exit (Unit {0})
checked = validate_config urls names names prefix (pos 5000) (pos 2000) (pos 1000) (pos 80)

validate_config_iff_example :
    (checked ≡ returned tt)
    ↔ IsConfig urls names names prefix (pos 5000) (pos 2000) (pos 1000) (pos 80)
validate_config_iff_example =
    validate_config_iff urls names names prefix (pos 5000) (pos 2000) (pos 1000) (pos 80)

validate_config-topics_example :
    IsDistinct (map (image_topic prefix) names)
    × All (λ n. all_names (parts (drop_root (image_topic prefix n))) ≡ true) names
unfolding validate_config check_cameras check_prefix valid_name strip
validate_config-topics_example =
    validate_config-topics urls names names prefix (pos 5000) (pos 2000) (pos 1000) (pos 80) refl

abbrev pub parameters : Parameters
parameters = record {
  topic_prefix = prefix;
  camera_names = names;
  camera_channels = pos 0 ∷ pos 1 ∷ [];
  frame_ids = names;
  enable_video = true;
  lazy_subscription = true;
  sdk_init_timeout_ms = pos 30000;
  connect_timeout_ms = pos 5000;
}

-- All are watched, then none.
abbrev pub watched : Bus
watched = record {
  start = λ c. true;
  subscription_count = λ t. 1;
  intra_process_subscription_count = λ t. 0;
}

abbrev unwatched : Bus
unwatched = record watched { subscription_count = λ t. 0 }

abbrev behind : List CameraStream × List BusCall
behind = rounds (watched ∷ unwatched ∷ watched ∷ []) true (create_publishers parameters, [])

rounds-Matches_example :
    IsApart behind.0
    × Matches behind.0 behind.1
    × All (λ s. runs s.channel (stop_all behind.0 behind.1).1 ≡ false) behind.0
unfolding validate_parameters check_channels
rounds-Matches_example = rounds-Matches parameters (watched ∷ unwatched ∷ watched ∷ []) refl
