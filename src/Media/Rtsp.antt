-- ===== src/Media/Rtsp.antt =====
-- uniubi_media_driver/src/uniubi_rtsp_driver_node.cpp: the state of the RTSP driver, its cameras
-- and the places where their threads stand. FFmpeg's answers come with each step of a thread.
pub mod Frames
pub mod Decoder
pub mod Publisher
pub mod Workers
pub mod Delivery
pub mod Published
pub mod Delivered
pub mod Halting
pub mod Reconnect
use uniubi_ros.Prelude.{
  ℕ, suc, ◌+◌, ◌*◌, ℤ, pos, negsuc, Bool, true, false, not, ◌&&◌, ◌++◌, Option, none, some, List,
  [], ◌∷◌, Bytes, slash, if◌then◌else◌,
}
use uniubi_ros.Client.{Exit, returned, threw}
use uniubi_ros.Media.Config.{validate_config, image_topic}

-- The parameters that the constructor declares; all are read-only.
pub record Parameters : Type 0 where
  pub urls : List Bytes
  pub names : List Bytes
  pub frame_ids : List Bytes
  pub prefix : Bytes
  pub open_timeout_ms : ℤ
  pub read_timeout_ms : ℤ
  pub reconnect_delay_ms : ℤ
  pub publish_compressed : Bool
  pub jpeg_quality : ℤ

-- `header.stamp` and `header.frame_id` of a message.
pub record Header : Type 0 where
  pub stamp : ℕ
  pub frame_id : Bytes

-- `encoding` is "bgr8" as bytes; `bytes` is the field `data`.
pub record Image : Type 0 where
  pub header : Header
  pub height : ℕ
  pub width : ℕ
  pub encoding : Bytes
  pub is_bigendian : Bool
  pub step : ℕ
  pub bytes : List ℕ

pub record CompressedImage : Type 0 where
  pub header : Header
  pub format : Bytes
  pub bytes : List ℕ

-- Where the decoder's thread stands: at the beginning of `decode_session`, in
-- `avformat_open_input`, in the search for the stream, at the head of the read loop, in
-- `av_read_frame`, in the loop over the decoded frames, in `wait_reconnect` with the milliseconds
-- that remain, behind its loop. The number is the index of the video stream.
pub data Place : Type 0 where
  closed opening probing ended : Place
  connected reading draining : ℤ → Place
  waiting : ℕ → Place

-- The locals of `decode_loop` and `decode_session`: whether there is a converter and what it was
-- made for, `state.deadline` in nanoseconds, and `next_warning` (`none` is the minimum).
-- `warnings` holds the times of the warnings, the newest first, and `slept` the milliseconds.
pub record DecoderThread : Type 0 where
  pub place : Place
  pub deadline : ℕ
  pub converter : Bool
  pub source_width : ℕ
  pub source_height : ℕ
  pub source_format : ℕ
  pub next_warning : Option ℕ
  pub warnings : List ℕ
  pub slept : ℕ

-- Where the publisher's thread stands: before its loop, at the head of it, in the wait for a frame,
-- with a frame that is not yet compressed, with one that is not yet published, behind its loop.
pub data Stage : Type 0 where
  starting head blocked finished : Stage
  holding showing : Image → Stage

-- The locals of `publish_loop`; a pointer is whether it is set.
pub record PublisherThread : Type 0 where
  pub stage : Stage
  pub jpeg_packet : Bool
  pub encoder : Bool
  pub jpeg_frame : Bool
  pub jpeg_converter : Bool
  pub global_quality : ℤ
  pub jpeg_width : ℕ
  pub jpeg_height : ℕ
  pub jpeg_pts : ℕ

-- `Camera`. `decoded` holds the frames that were put into `latest`, `published` and
-- `published_compressed` what the two publishers were given, each in order.
pub record Camera : Type 0 where
  pub index : ℕ
  pub topic : Bytes
  pub compressed : Bool
  pub latest : Option Image
  pub decoder_thread : DecoderThread
  pub publisher_thread : PublisherThread
  pub decoded : List Image
  pub published : List Image
  pub published_compressed : List CompressedImage

-- `stop_`, `fatal_` and `rclcpp::ok()`.
pub record Flags : Type 0 where
  pub stop : Bool
  pub fatal : Bool
  pub ros_ok : Bool

pub record RtspDriver : Type 0 where
  pub parameters : Parameters
  pub flags : Flags
  pub cameras : List Camera

-- `!stop_.load() && rclcpp::ok()`.
abbrev pub running : Flags → Bool
running f = not f.stop && f.ros_ok

-- `std::chrono::milliseconds` of a parameter, of which only positive ones pass the checks, and the
-- milliseconds of a wait, which is empty where they are not positive.
abbrev pub at_least_zero : ℤ → ℕ
at_least_zero (pos n) = n
at_least_zero (negsuc n) = 0

-- `v[i]`; the index is in range.
abbrev pub entry : List Bytes → ℕ → Bytes
entry [] i = []
entry (x ∷ xs) ℕ.zero = x
entry (x ∷ xs) (suc i) = entry xs i

abbrev pub new_decoder : DecoderThread
new_decoder = record {
  place = closed;
  deadline = 0;
  converter = false;
  source_width = 0;
  source_height = 0;
  source_format = 0;
  next_warning = none;
  warnings = [];
  slept = 0;
}

abbrev pub new_publisher : PublisherThread
new_publisher = record {
  stage = starting;
  jpeg_packet = false;
  encoder = false;
  jpeg_frame = false;
  jpeg_converter = false;
  global_quality = pos 0;
  jpeg_width = 0;
  jpeg_height = 0;
  jpeg_pts = 0;
}

unfoldable pub make_camera : Parameters → ℕ → Camera
make_camera p i = record {
  index = i;
  topic = image_topic p.prefix (entry p.names i);
  compressed = p.publish_compressed;
  latest = none;
  decoder_thread = new_decoder;
  publisher_thread = new_publisher;
  decoded = [];
  published = [];
  published_compressed = [];
}

-- One camera for each of the URLs from the one with index `i`.
unfoldable pub make_cameras : Parameters → ℕ → List Bytes → List Camera
unfolding make_camera
make_cameras p i [] = []
make_cameras p i (url ∷ urls) = make_camera p i ∷ make_cameras p (suc i) urls

abbrev pub new_driver : Parameters → RtspDriver
new_driver p = record {
  parameters = p;
  flags = record { stop = false; fatal = false; ros_ok = true };
  cameras = make_cameras p 0 p.urls;
}

abbrev pub make_driver : Exit (Unit {0}) → Parameters → Exit RtspDriver
make_driver (threw what) p = threw what
make_driver (returned _) p = returned (new_driver p)

-- The constructor, with the threads that `start` gives to each camera at their beginning.
unfoldable pub construct : Parameters → Exit RtspDriver
unfolding make_cameras
construct p =
    make_driver
      (validate_config p.urls p.names p.frame_ids p.prefix p.open_timeout_ms p.read_timeout_ms
        p.reconnect_delay_ms p.jpeg_quality)
      p
