-- ===== src/Media/Audio.antt =====
-- uniubi_media_driver/src/audio_bridge.hpp: the constructor, `start`, the capture and `stop`, around
-- the playback of Media/Playback.
pub mod Released
use uniubi_ros.Prelude.{
  ℕ, zero, suc, ◌+◌, ◌-◌, ◌*◌, ℤ, pos, negsuc, String, Bool, true, false, not, ◌&&◌, ◌||◌, ◌++◌,
  Option, none, some, List, [], ◌∷◌, leb, is_zero, length, is_nil, if◌then◌else◌,
}
use uniubi_ros.Client.{Exit, returned, threw}
use uniubi_ros.Media.Playback.{AudioBridge, AudioEvent, Raw, advance, clear, handle, is_volume}

-- The raw stream, and what else the SDK and rclcpp answer: whether a stream is made and set up, whether
-- the program goes on at an occasion, and whether the capture starts.
pub record Sdk : Type 0 where
  pub raw : Raw
  pub creates : Bool
  pub sets_up : Bool
  pub ok : ℕ → Bool
  pub captures : Bool

-- A frame of the microphone.
pub record MicrophoneFrame : Type 0 where
  pub is_valid : Bool
  pub has_data : Bool
  pub timestamp : ℕ
  pub sequence : ℕ
  pub sample_rate : ℕ
  pub sample_format : ℕ
  pub channel_count : ℕ
  pub bytes : List ℕ

-- The message of `audio/capture`, without its stamp.
pub record CapturedFrame : Type 0 where
  pub frame_id : String
  pub device_timestamp_us : ℕ
  pub sequence : ℕ
  pub sample_rate : ℕ
  pub sample_format : ℕ
  pub channel_count : ℕ
  pub channel : ℤ
  pub bytes : List ℕ

-- The members of `AudioBridge`: those of the playback in `bridge`, whose `playback` says that there is
-- a raw stream, `timer` whether it runs. `streams` and `capturing` count what the SDK has open for it.
pub record Audio : Type 0 where
  pub bridge : AudioBridge
  pub capture : Bool
  pub playback : Bool
  pub active : Bool
  pub channel : ℤ
  pub frame_id : String
  pub media : Bool
  pub subscription : Bool
  pub timer : Bool
  pub reset : Bool
  pub parameters : Bool
  pub streams : ℕ
  pub capturing : ℕ
  pub captured : List CapturedFrame

-- The parameters of the constructor.
pub record AudioParameters : Type 0 where
  pub audio_capture : Bool
  pub audio_playback : Bool
  pub audio_channel : ℤ
  pub audio_frame_id : String
  pub audio_volume : ℤ

abbrev pub is_nonnegative : ℤ → Bool
is_nonnegative (pos n) = true
is_nonnegative (negsuc n) = false

unfoldable pub construct : AudioParameters → Exit Audio
construct p =
    if not (is_nonnegative p.audio_channel) || not (is_volume p.audio_volume)
    then threw "audio_channel must be nonnegative; audio_volume must be 0..100"
    else returned (record {
      bridge = record {
        queue = record { frames = [] };
        volume = p.audio_volume;
        playback = false;
        steps = 0;
        taken = [];
        writes = [];
        volumes = [];
      };
      capture = p.audio_capture;
      playback = p.audio_playback;
      active = false;
      channel = p.audio_channel;
      frame_id = p.audio_frame_id;
      media = false;
      subscription = false;
      timer = false;
      reset = false;
      parameters = false;
      streams = 0;
      capturing = 0;
      captured = [];
    })

-- The callback of the capture; the channel is that of the callback.
unfoldable pub on_capture : ℤ → MicrophoneFrame → Audio → Audio
on_capture channel frame a =
    if not frame.is_valid
      || is_nil frame.bytes
      || not (leb (length frame.bytes) 65536)
      || not frame.has_data
    then a
    else record a {
      captured =
          a.captured
          ++ (record {
            frame_id = a.frame_id;
            device_timestamp_us = frame.timestamp;
            sequence = frame.sequence;
            sample_rate = frame.sample_rate;
            sample_format = frame.sample_format;
            channel_count = frame.channel_count;
            channel = channel;
            bytes = frame.bytes;
          }
              ∷ []);
    }

abbrev pub pass_occasion : Audio → Audio
pass_occasion a = record a { bridge = advance a.bridge }

unfoldable pub stop : Audio → Audio
unfolding clear
stop a = record a {
  bridge = record a.bridge { queue = clear a.bridge.queue; playback = false };
  active = a.active && not a.media;
  capturing = if a.media && a.active then a.capturing - 1 else a.capturing;
  streams = if a.bridge.playback then a.streams - 1 else a.streams;
  media = false;
  timer = false;
  subscription = false;
  reset = false;
  parameters = false;
}

module _ (sdk : Sdk) where
  open sdk use {raw, creates, sets_up, ok, captures}

  -- The wait until the raw stream is ready: a round asks it, then whether the program goes on, and the
  -- clock. `none` where the fuel runs out.
  unfoldable pub wait_ready : ℕ → ℕ → Audio → Option (Exit (Unit {0}) × Audio)
  wait_ready zero deadline a = none
  wait_ready (suc fuel) deadline a =
      let rest = wait_ready fuel deadline (pass_occasion a) in
      if raw.ready a.bridge.steps
      then some (returned tt, pass_occasion a)
      else if not (ok a.bridge.steps) || leb deadline (raw.now_us a.bridge.steps)
      then some (threw "RawBack ready timeout", pass_occasion a)
      else rest

  -- The volume, and what plays.
  unfoldable pub open_playback : Audio → Exit (Unit {0}) × Audio
  open_playback a =
      let b = a.bridge in
      let t = record a { bridge = record (advance b) { volumes = b.volumes ++ (b.volume ∷ []) } } in
      if not (raw.set_volume b.steps b.volume)
      then (threw "RawBack volume failed", t)
      else (returned tt, record t { subscription = true; timer = true; reset = true })

  unfoldable pub after_wait : Exit (Unit {0}) × Audio → Exit (Unit {0}) × Audio
  unfolding open_playback
  after_wait (returned _, a) = open_playback a
  after_wait (threw what, a) = (threw what, a)

  abbrev pub settled : Option (Exit (Unit {0}) × Audio) → Option (Exit (Unit {0}) × Audio)
  settled none = none
  settled (some r) = some (after_wait r)

  -- The part of `start` for the playback; the fuel is one more than the microseconds of the timeout.
  unfoldable pub start_playback : ℕ → Audio → Option (Exit (Unit {0}) × Audio)
  unfolding wait_ready after_wait
  start_playback timeout_ms a =
      if not creates
      then some (threw "RawBack setup failed", a)
      else (let t = record a {
        bridge = record a.bridge { playback = true };
        streams = suc a.streams;
      } in
          if not sets_up
          then some (threw "RawBack setup failed", t)
          else settled (
              wait_ready (suc (timeout_ms * 1000)) (raw.now_us t.bridge.steps + timeout_ms * 1000)
                (pass_occasion t)))

  -- The part of `start` behind the playback: the callback on the parameters, and the capture.
  unfoldable pub start_capture : Audio → Exit (Unit {0}) × Audio
  start_capture a =
      let t = record a { parameters = true } in
      if not t.capture
      then (returned tt, t)
      else if captures
      then (returned tt, record t { active = true; capturing = suc t.capturing })
      else (threw "Audio capture start failed", record t { active = false })

  abbrev pub then_capture : Option (Exit (Unit {0}) × Audio) → Option (Exit (Unit {0}) × Audio)
  then_capture none = none
  then_capture (some (threw what, a)) = some (threw what, a)
  then_capture (some (returned _, a)) = some (start_capture a)

  unfoldable pub start : ℕ → Audio → Option (Exit (Unit {0}) × Audio)
  unfolding start_playback start_capture
  start timeout_ms a =
      let t = record a { media = true } in
      if t.playback then then_capture (start_playback timeout_ms t) else some (start_capture t)

-- What happens between `start` and `stop`.
pub data AudioNodeEvent : Type 0 where
  plays : AudioEvent → AudioNodeEvent
  hears : ℤ → MicrophoneFrame → AudioNodeEvent

module _ (sdk : Sdk) where
  unfoldable pub serve : AudioNodeEvent → Audio → Audio
  unfolding on_capture
  serve (plays e) a = record a { bridge = handle sdk.raw e a.bridge }
  serve (hears channel frame) a = on_capture channel frame a

  unfoldable pub serve_all : List AudioNodeEvent → Audio → Audio
  serve_all [] a = a
  serve_all (e ∷ es) a = serve_all es (serve e a)
