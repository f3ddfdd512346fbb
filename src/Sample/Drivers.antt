-- ===== src/Sample/Drivers.antt =====
-- A sample media node on a local robot: the theorem on its start at one input.
use uniubi_ros.Prelude.{true, false, some, [], ltb, ◌≡◌, refl, arith}
use uniubi_ros.Client.{Exit}
use uniubi_ros.Media.Audio as Audio
use uniubi_ros.Media.Streams.{create_publishers}
use uniubi_ros.Media.Setup.{MediaSdk, Node, start, destroy}
use uniubi_ros.Media.Setup.Prepared.{Allowed}
use uniubi_ros.Media.Setup.Closed.{Closed, start-destroy-Closed}
use uniubi_ros.Sample.Cameras.{parameters, watched}
use uniubi_ros.Sample.Sounds.{sdk, both, new_audio}

-- Connected at the third occasion, with eight encoders.
abbrev robot : MediaSdk
robot = record {
  initial_service = true;
  is_multi_device = false;
  creates_client = true;
  connects = true;
  connected = λ k. ltb 2 k;
  ok = λ k. true;
  now_us = λ k. k;
  creates_media = true;
  sets_up = true;
  encoders = some 8;
  bus = watched;
  audio_sdk = sdk;
}

abbrev driver : Node
driver = record {
  host = "";
  device_id = "";
  network_interface = "";
  enable_video = true;
  lazy_subscription = true;
  connect_timeout_ms = 100;
  audio = new_audio;
  streams = create_publishers parameters;
  service = false;
  log_callback = false;
  client = false;
  media = false;
  reconcile_timer = false;
  steps = 0;
  services = 0;
  clients = 0;
  buses = 0;
  calls = [];
}

start-destroy-Closed_example :
    (x : Exit (Unit {0}) × Node) × (start robot driver ≡ some x)
    × Closed (destroy x.1)
    × Allowed false (some 8) x
unfolding Audio.construct
start-destroy-Closed_example =
    start-destroy-Closed robot both driver (λ k. omega arith) (λ k. omega arith) refl
      (refl, refl, refl) (refl, refl, refl, refl)
