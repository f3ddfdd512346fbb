-- ===== src/Media/Setup.antt =====
-- uniubi_media_driver_node.cpp: `initialize_media_bus`, `start` and the destructor, around the cameras of
-- Media/Streams and the audio of Media/Audio.
pub mod Prepared
pub mod Closed
use uniubi_ros.Prelude.{
  ℕ, zero, suc, ◌+◌, ◌-◌, ◌*◌, ℤ, pos, negsuc, String, Bool, true, false, not, ◌&&◌, ◌||◌, ◌++◌,
  Option, none, some, List, [], ◌∷◌, leb, ltb, str_eq, if◌then◌else◌,
}
use uniubi_ros.Client.{Exit, returned, threw}
use uniubi_ros.Media.Streams.{CameraStream, Bus, BusCall, reconcile_subscriptions, stop_all}
use uniubi_ros.Media.Audio.{Sdk, Audio}
use uniubi_ros.Media.Audio as Audio

-- What the robot SDK and rclcpp answer. `connected`, `ok` and the clock answer by the number of the
-- occasion; `encoders` is `videoEncoderNum` of the layout, where it can be queried.
pub record MediaSdk : Type 0 where
  pub initial_service : Bool
  pub is_multi_device : Bool
  pub creates_client : Bool
  pub connects : Bool
  pub connected : ℕ → Bool
  pub ok : ℕ → Bool
  pub now_us : ℕ → ℕ
  pub creates_media : Bool
  pub sets_up : Bool
  pub encoders : Option ℕ
  pub bus : Bus
  pub audio_sdk : Sdk

-- The members of `MediaDriverNode` that these functions use, whether a pointer is set, and how many
-- services, clients and media clients the SDK has in use for the node.
pub record Node : Type 0 where
  pub host : String
  pub device_id : String
  pub network_interface : String
  pub enable_video : Bool
  pub lazy_subscription : Bool
  pub connect_timeout_ms : ℕ
  pub audio : Audio
  pub streams : List CameraStream
  pub service : Bool
  pub log_callback : Bool
  pub client : Bool
  pub media : Bool
  pub reconcile_timer : Bool
  pub steps : ℕ
  pub services : ℕ
  pub clients : ℕ
  pub buses : ℕ
  pub calls : List BusCall

-- Which of the parameters do not fit the service, by the text of the exception.
unfoldable pub refused : Bool → Node → Option String
refused remote n =
    if remote && (str_eq n.host "" || str_eq n.device_id "" || str_eq n.network_interface "")
    then some "Remote media requires host, device_id and network_interface"
    else if not remote && (not (str_eq n.host "") || not (str_eq n.device_id ""))
    then some "Local media omits host and device_id"
    else if remote && n.enable_video
    then some "Remote video is unsupported; set enable_video=false"
    else none

abbrev pub is_available : ℕ → ℤ → Bool
is_available encoders (pos c) = ltb c encoders
is_available encoders (negsuc c) = false

unfoldable pub all_available : ℕ → List CameraStream → Bool
all_available encoders [] = true
all_available encoders (s ∷ ss) = is_available encoders s.channel && all_available encoders ss

abbrev pub later : Node → Node
later n = record n { steps = suc n.steps }

unfoldable pub check_layout : Option ℕ → Node → Exit (Unit {0})
unfolding all_available
check_layout none n = threw "failed to query MediaBus layout"
check_layout (some k) n =
    if all_available k n.streams then returned tt else threw "camera channel is unavailable"

module _ (sdk : MediaSdk) where
  open sdk use {
    initial_service, is_multi_device, creates_client, connects, connected, ok, now_us,
    creates_media, sets_up, encoders, bus, audio_sdk,
  }

  -- Behind the connection: the media client and its layout.
  unfoldable pub open_media : Node → Exit (Unit {0}) × Node
  unfolding check_layout
  open_media n =
      if not creates_media
      then (threw "MediaBus setup failed", n)
      else (let t = record n { media = true; buses = suc n.buses } in
          if not sets_up
          then (threw "MediaBus setup failed", t)
          else if not t.enable_video
          then (returned tt, t)
          else (check_layout encoders t, t))

  -- The wait for the connection; `none` where the fuel runs out.
  unfoldable pub wait_connected : ℕ → ℕ → Node → Option (Exit (Unit {0}) × Node)
  unfolding open_media
  wait_connected zero deadline n = none
  wait_connected (suc fuel) deadline n =
      let rest = wait_connected fuel deadline (later n) in
      if connected n.steps
      then some (open_media (later n))
      else if not (ok n.steps) || leb deadline (now_us n.steps)
      then some (threw "timed out waiting for SDK client connection", later n)
      else rest

  -- Behind the checks of the parameters; the fuel is one more than the microseconds of the timeout.
  unfoldable pub open_client : Node → Option (Exit (Unit {0}) × Node)
  unfolding wait_connected
  open_client n =
      if not creates_client
      then some (threw "failed to start SDK client connection", n)
      else (let t = record n { client = true; clients = suc n.clients } in
          if not connects
          then some (threw "failed to start SDK client connection", t)
          else wait_connected (suc (t.connect_timeout_ms * 1000))
              (now_us t.steps + t.connect_timeout_ms * 1000) (later t))

  abbrev pub unless_refused : Option String → Node → Option (Exit (Unit {0}) × Node)
  unless_refused (some what) n = some (threw what, n)
  unless_refused none n = open_client n

  unfoldable pub initialize_media_bus : Node → Option (Exit (Unit {0}) × Node)
  unfolding refused open_client
  initialize_media_bus n =
      let t = record n { service = true; log_callback = true; services = suc n.services } in
      if not initial_service
      then some (threw "Motion SDK initialization failed", t)
      else unless_refused (refused is_multi_device t) t

  -- Behind the media client: the audio, the timer and the first reconciliation.
  abbrev pub with_audio : Node → Option (Exit (Unit {0}) × Audio) → Option (Exit (Unit {0}) × Node)
  with_audio n none = none
  with_audio n (some (threw what, a)) = some (threw what, record n { audio = a })
  with_audio n (some (returned _, a)) =
      let (ss, calls) = reconcile_subscriptions bus n.lazy_subscription n.streams n.calls in
      some
        (returned tt, record n { audio = a; reconcile_timer = true; streams = ss; calls = calls })

  abbrev pub then_audio : Option (Exit (Unit {0}) × Node) → Option (Exit (Unit {0}) × Node)
  then_audio none = none
  then_audio (some (threw what, n)) = some (threw what, n)
  then_audio (some (returned _, n)) =
      with_audio n (Audio.start audio_sdk n.connect_timeout_ms n.audio)

  unfoldable pub start : Node → Option (Exit (Unit {0}) × Node)
  unfolding initialize_media_bus
  start n = then_audio (initialize_media_bus n)

-- The destructor's part for the media client.
unfoldable pub close_media : Node → Node
close_media n =
    if n.media
    then (let (ss, calls) = stop_all n.streams n.calls in
        record n { streams = ss; calls = calls; media = false; buses = n.buses - 1 })
    else n

unfoldable pub destroy : Node → Node
unfolding close_media
destroy n =
    let t = close_media (record n { reconcile_timer = false; audio = Audio.stop n.audio }) in
    record t {
      client = false;
      clients = if t.client then t.clients - 1 else t.clients;
      log_callback = t.log_callback && not t.service;
      service = false;
      services = if t.service then t.services - 1 else t.services;
    }
