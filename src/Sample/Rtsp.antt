-- ===== src/Sample/Rtsp.antt =====
-- Two RTSP cameras: the theorems on the RTSP driver at one input each.
use uniubi_ros.Prelude.{
  ℕ, zero, suc, pos, Bool, true, false, none, some, List, [], ◌∷◌, ◌++◌, ◌≡◌, refl, arith, All,
  strip,
}
use uniubi_ros.Media.Config.{validate_config, check_cameras, check_prefix, valid_name}
use uniubi_ros.Media.Rtsp.{
  Parameters, Image, ended, draining, finished, holding, new_decoder, new_publisher, Camera, Flags,
  construct, new_driver, running,
}
use uniubi_ros.Media.Rtsp.Frames.{Received, bgr8}
use uniubi_ros.Media.Rtsp.Decoder.{DecoderAnswer}
use uniubi_ros.Media.Rtsp.Publisher.{PublisherAnswer}
use uniubi_ros.Media.Rtsp.Workers.{Step, decode, publish, run_node}
use uniubi_ros.Media.Rtsp.Delivery.{IsDelivered}
use uniubi_ros.Media.Rtsp.Delivered.{run_node-Delivers}
use uniubi_ros.Media.Rtsp.Halting.{decode_all, publish_all, stopped_ends, Seen}
use uniubi_ros.Sample.Cameras.{names, urls, prefix}

abbrev cameras : Parameters
cameras = record {
  urls = urls;
  names = names;
  frame_ids = names;
  prefix = prefix;
  open_timeout_ms = pos 5000;
  read_timeout_ms = pos 2000;
  reconnect_delay_ms = pos 1000;
  publish_compressed = true;
  jpeg_quality = pos 80;
}

-- A frame of 2 times 1 pixels.
abbrev received : Received
received = record {
  width = pos 2;
  height = pos 1;
  format = 0;
  context = true;
  stamp = 7;
  byte_at = λ i. i;
  scaled = pos 1;
}

-- FFmpeg answers well at every place.
abbrev well : DecoderAnswer
well = record {
  now = 1;
  format_allocated = true;
  open_result = pos 0;
  format = true;
  best_stream = pos 0;
  codec_known = true;
  stream_info = pos 0;
  analysed_at = 1;
  analysed_stream = pos 0;
  codec_found = true;
  decoder_allocated = true;
  parameters_set = pos 0;
  decoder_opened = pos 0;
  frame_allocated = true;
  packet_allocated = true;
  read_result = pos 0;
  stream_index = pos 0;
  send_result = pos 0;
  received = some received;
}

abbrev encoded : PublisherAnswer
encoded = record {
  packet_allocated = true;
  codec_found = true;
  encoder_allocated = true;
  encoder_opened = pos 0;
  frame_allocated = true;
  buffer_result = pos 0;
  context = true;
  writable = pos 0;
  scaled = pos 1;
  sent = pos 0;
  packet_result = pos 0;
  packet = 1 ∷ 2 ∷ [];
}

abbrev repeat : {A : Type 0} → ℕ → A → List A
repeat zero x = []
repeat (suc n) x = x ∷ repeat n x

-- The second camera gets and publishes a frame.
abbrev steps : List Step
steps = repeat 6 (decode 1 well) ++ repeat 5 (publish 1 encoded)

run_node-Delivers_example :
    All (IsDelivered cameras) (run_node 118 steps (new_driver cameras)).cameras
unfolding construct validate_config check_cameras check_prefix valid_name strip
run_node-Delivers_example = run_node-Delivers 118 cameras steps (new_driver cameras) refl

abbrev frame : Image
frame = record {
  header = record { stamp = 7; frame_id = 97 ∷ [] };
  height = 1;
  width = 2;
  encoding = bgr8;
  is_bigendian = false;
  step = 6;
  bytes = 0 ∷ 1 ∷ 2 ∷ 3 ∷ 4 ∷ 5 ∷ [];
}

-- A camera that drains its decoder, and publishes a frame.
abbrev busy : Camera
busy = record {
  index = 0;
  topic = 97 ∷ [];
  compressed = false;
  latest = none;
  decoder_thread = record new_decoder { place = draining (pos 0) };
  publisher_thread = record new_publisher { stage = holding frame };
  decoded = frame ∷ [];
  published = [];
  published_compressed = [];
}

abbrev stopped : Flags
stopped = record { stop = true; fatal = false; ros_ok = true }

abbrev on : Flags
on = record { stop = false; fatal = false; ros_ok = true }

abbrev drained : DecoderAnswer
drained = record well { received = none }

Seen-repeat :
    {A : Type 0} (seen : Bool) (f : Flags) (a : A) (n : ℕ)
    → running f ≡ seen
    → Seen seen (repeat n (f, a))
Seen-repeat seen f a zero e = tt
Seen-repeat seen f a (suc n) e = (e, Seen-repeat seen f a n e)

stopped_ends_example :
    ((decode_all cameras ((stopped, well) ∷ repeat 5 (stopped, drained)) busy).decoder_thread.place
      ≡ ended)
    × ((publish_all 118 cameras (repeat 3 (stopped, encoded)) busy).publisher_thread.stage
        ≡ finished)
    × ((publish_all 118 cameras (repeat 3 (stopped, encoded)) busy).published ≡ frame ∷ [])
stopped_ends_example =
    stopped_ends 118 cameras ((stopped, well) ∷ repeat 5 (stopped, drained))
      (repeat 3 (stopped, encoded)) busy (refl, Seen-repeat false stopped drained 5 refl)
      (Seen-repeat false stopped encoded 3 refl) (omega arith) (omega arith)
