-- ===== src/Sample/Sounds.antt =====
-- The playback of audio with a sample stream: the theorems at one input each.
use uniubi_ros.Prelude.{
  Option, none, some, ltb, ℕ, zero, suc, pos, true, false, List, [], ◌∷◌, ◌≡◌, refl, arith, All,
}
use uniubi_ros.Client.{Exit}
use uniubi_ros.Media.Audio.{
  Sdk, Audio, AudioParameters, MicrophoneFrame, construct, start, stop, AudioNodeEvent, plays,
  hears, serve, serve_all,
}
use uniubi_ros.Media.Audio.Released.{IsBounded, Released, start-stop-Released}
use uniubi_ros.Media.Playback.{
  AudioFrame, AudioBridge, AudioEvent, frame_arrived, timer_fired, reset_requested, Raw, Parameter,
  integer, handle_all, on_parameters,
}
use uniubi_ros.Media.Playback.Order.{IsPlayed, handle_all-IsPlayed}
use uniubi_ros.Media.Playback.Volume.{IsAudible, has_invalid, on_parameters-IsAudible}

abbrev zeros : ℕ → List ℕ
zeros zero = []
zeros (suc n) = 0 ∷ zeros n

abbrev pcm : ℕ → AudioFrame
pcm n = record {
  sample_rate = 16000;
  sample_format = 16;
  channel_count = 1;
  sequence = n;
  bytes = zeros 1280;
}

abbrev raw : Raw
raw = record {
  ready = λ k. true;
  write = λ k f. true;
  reset = λ k. true;
  set_volume = λ k v. true;
  now_us = λ k. k;
}

abbrev quiet : AudioBridge
quiet = record {
  queue = record { frames = [] };
  volume = pos 20;
  playback = true;
  steps = 0;
  taken = [];
  writes = [];
  volumes = [];
}

abbrev events : List AudioEvent
events =
    frame_arrived (pcm 1)
    ∷ frame_arrived (pcm 2)
    ∷ timer_fired
    ∷ frame_arrived (pcm 3)
    ∷ reset_requested
    ∷ timer_fired
    ∷ []

quiet-IsPlayed : IsPlayed [] quiet
quiet-IsPlayed = record {
  bounded = omega arith;
  waiting = tt;
  left = tt;
  ordered = tt;
  written = refl;
}

handle_all-IsPlayed_example : IsPlayed (pcm 1 ∷ pcm 2 ∷ pcm 3 ∷ []) (handle_all raw events quiet)
handle_all-IsPlayed_example = handle_all-IsPlayed raw events [] quiet quiet-IsPlayed

abbrev loud : List Parameter
loud = record { name = "audio_volume"; value = integer (pos 101) } ∷ []

on_parameters-IsAudible_example :
    IsAudible (on_parameters raw loud quiet).1
    × ((on_parameters raw loud quiet).0 ≡ false → (on_parameters raw loud quiet).1.volume ≡ pos 20)
    × (has_invalid loud ≡ true
        → ((on_parameters raw loud quiet).0 ≡ false) × ((on_parameters raw loud quiet).1 ≡ quiet))
on_parameters-IsAudible_example =
    on_parameters-IsAudible raw loud quiet (record { current = refl; asked = tt })

-- A stream that is ready at its third occasion.
abbrev pub sdk : Sdk
sdk = record {
  raw = record raw { ready = λ k. ltb 2 k };
  creates = true;
  sets_up = true;
  ok = λ k. true;
  captures = true;
}

abbrev pub both : AudioParameters
both = record {
  audio_capture = true;
  audio_playback = true;
  audio_channel = pos 0;
  audio_frame_id = "microphone";
  audio_volume = pos 20;
}

abbrev sound : MicrophoneFrame
sound = record {
  is_valid = true;
  has_data = true;
  timestamp = 5;
  sequence = 1;
  sample_rate = 16000;
  sample_format = 16;
  channel_count = 1;
  bytes = 1 ∷ 2 ∷ [];
}

abbrev pub new_audio : Audio
new_audio = record {
  bridge = record quiet { playback = false };
  capture = true;
  playback = true;
  active = false;
  channel = pos 0;
  frame_id = "microphone";
  media = false;
  subscription = false;
  timer = false;
  reset = false;
  parameters = false;
  streams = 0;
  capturing = 0;
  captured = [];
}

abbrev served : List AudioNodeEvent
served = plays (frame_arrived (pcm 1)) ∷ hears (pos 0) sound ∷ []

abbrev start_state : Option (Exit (Unit {0}) × Audio) → Audio
start_state none = new_audio
start_state (some (r, t)) = t

start-stop-Released_example :
    (r : Exit (Unit {0})) × (t : Audio) × (start sdk 100 new_audio ≡ some (r, t))
    × Released (stop (serve_all sdk served t))
    × All IsBounded (serve_all sdk served t).captured
unfolding construct
start-stop-Released_example =
    start-stop-Released sdk 100 both new_audio served (λ k. omega arith) refl

-- The start succeeds, and one frame is published.
audio_starts : (serve_all sdk served (start_state (start sdk 100 new_audio))).streams ≡ 1
unfolding start serve_all serve
audio_starts = refl
