-- ===== src/Media/Streams.antt =====
-- uniubi_media_driver/src/uniubi_media_driver_node.cpp: the topics, the checks of the parameters,
-- and the camera streams. The clients of the robot SDK are parameters.
pub mod Running
use uniubi_ros.Prelude.{
  ℕ, zero, suc, ◌+◌, ◌%◌, ◌^◌, ℤ, pos, negsuc, Bool, true, false, not, ◌&&◌, ◌||◌, ◌++◌, Option,
  none, some, List, [], ◌∷◌, ltb, leb, ◌==◌, length, is_nil, is_positive, Bytes, slash, same, strip,
  if◌then◌else◌,
}
use uniubi_ros.Client.{Exit, returned, threw}

-- "/image_raw/compressed".
abbrev pub image_raw_compressed : Bytes
image_raw_compressed =
    47 ∷ 105 ∷ 109 ∷ 97 ∷ 103 ∷ 101 ∷ 95 ∷ 114 ∷ 97 ∷ 119 ∷ 47 ∷ 99 ∷ 111 ∷ 109 ∷ 112 ∷ 114 ∷ 101
    ∷ 115 ∷ 115 ∷ 101 ∷ 100 ∷ []

-- The loop of `join_topic` never pops the first byte.
abbrev pub strip_tail : Bytes → Bytes
strip_tail [] = []
strip_tail (c ∷ cs) = c ∷ strip cs

unfoldable pub join_topic : Bytes → Bytes → Bytes
join_topic prefix camera_name =
    let normalized = strip_tail prefix in
    if is_nil normalized || same normalized (slash ∷ [])
    then slash ∷ (camera_name ++ image_raw_compressed)
    else normalized ++ (slash ∷ (camera_name ++ image_raw_compressed))

-- The codecs of `Uface::Media`, as far as `is_jpeg` tells them apart; `none` is the null pointer.
pub data Codec : Type 0 where
  video_jpeg video_mjpeg other_codec : Codec

abbrev pub is_jpeg : Option Codec → Bool
is_jpeg (some video_jpeg) = true
is_jpeg (some video_mjpeg) = true
is_jpeg _ = false

pub record EncodedVideoFrame : Type 0 where
  pub info : Option Codec
  pub size : ℤ
  pub buffer : Option Bytes

pub record CompressedImage : Type 0 where
  pub frame_id : Bytes
  pub format : Bytes
  pub bytes : Bytes

pub record CameraStream : Type 0 where
  pub channel : ℤ
  pub name : Bytes
  pub frame_id : Bytes
  pub topic : Bytes
  pub active : Bool
  pub frames : ℕ

pub record Parameters : Type 0 where
  pub topic_prefix : Bytes
  pub camera_names : List Bytes
  pub camera_channels : List ℤ
  pub frame_ids : List Bytes
  pub enable_video : Bool
  pub lazy_subscription : Bool
  pub sdk_init_timeout_ms : ℤ
  pub connect_timeout_ms : ℤ

abbrev pub same_channel : ℤ → ℤ → Bool
same_channel (pos a) (pos b) = a == b
same_channel (negsuc a) (negsuc b) = a == b
same_channel _ _ = false

abbrev pub holds : List ℤ → ℤ → Bool
holds [] x = false
holds (y ∷ ys) x = same_channel y x || holds ys x

-- `channel < 0 || channel > INT32_MAX` is false.
abbrev pub is_channel : ℤ → Bool
is_channel (pos n) = ltb n (2 ^ 31)
is_channel (negsuc n) = false

-- `unique` is the vector `unique_channels`, whose order the search does not see.
unfoldable pub check_channels : List ℤ → List ℤ → Exit (Unit {0})
check_channels unique [] = returned tt
check_channels unique (channel ∷ channels) =
    let rest = check_channels (channel ∷ unique) channels in
    if not (is_channel channel)
    then threw "camera_channels contains an invalid channel"
    else if holds unique channel
    then threw "camera_channels must not contain duplicates"
    else rest

unfoldable pub validate_parameters : Parameters → Exit (Unit {0})
validate_parameters p =
    if p.enable_video && is_nil p.camera_names
    then threw "camera_names must not be empty"
    else if not (length p.camera_names == length p.camera_channels)
        || not (length p.camera_names == length p.frame_ids)
    then threw "camera_names, camera_channels, and frame_ids must have the same length"
    else if not (is_positive p.sdk_init_timeout_ms) || not (is_positive p.connect_timeout_ms)
    then threw "SDK and connection timeouts must be positive"
    else check_channels [] p.camera_channels

-- The streams that `create_publishers` makes, without the publishers.
unfoldable pub make_streams : Bytes → List Bytes → List ℤ → List Bytes → List CameraStream
unfolding join_topic
make_streams prefix (name ∷ names) (channel ∷ channels) (frame_id ∷ frame_ids) =
    record {
      channel = channel;
      name = name;
      frame_id = frame_id;
      topic = join_topic prefix name;
      active = false;
      frames = 0;
    }
    ∷ make_streams prefix names channels frame_ids
make_streams prefix _ _ _ = []

unfoldable pub create_publishers : Parameters → List CameraStream
create_publishers p =
    if p.enable_video
    then make_streams p.topic_prefix p.camera_names p.camera_channels p.frame_ids
    else []

abbrev pub take : ℕ → Bytes → Bytes
take zero xs = []
take (suc n) [] = []
take (suc n) (x ∷ xs) = x ∷ take n xs

-- `size <= 0` is false, and the pointer is not null.
abbrev pub content : EncodedVideoFrame → Option Bytes
content frame = elim frame.size [
  | negsuc n ↦ none
  | pos zero ↦ none
  | pos (suc n) ↦ (elim frame.buffer [ none ↦ none | some b ↦ some (take (suc n) b) ])
]

-- The message, if there is one, and the stream with its count of 64 bits. The format is "jpeg".
unfoldable pub publish_content : Option Bytes → CameraStream → Option CompressedImage × CameraStream
publish_content none s = (none, s)
publish_content (some bytes) s = (
  some (record { frame_id = s.frame_id; format = 106 ∷ 112 ∷ 101 ∷ 103 ∷ []; bytes = bytes }),
  record s { frames = (s.frames + 1) % 2 ^ 64 },
)

unfoldable pub publish_to :
    ℤ → EncodedVideoFrame → CameraStream → Option CompressedImage × CameraStream
publish_to callback_channel frame s =
    if not (same_channel callback_channel s.channel)
    then (none, s)
    else if not (is_jpeg frame.info)
    then (none, s)
    else publish_content (content frame) s

-- `publish_frame`; an index past the streams is ignored.
unfoldable pub publish_frame :
    ℕ → ℤ → EncodedVideoFrame → List CameraStream → Option CompressedImage × List CameraStream
unfolding publish_to
publish_frame index callback_channel frame [] = (none, [])
publish_frame zero callback_channel frame (s ∷ ss) =
    let (message, t) = publish_to callback_channel frame s in (message, t ∷ ss)
publish_frame (suc index) callback_channel frame (s ∷ ss) =
    let (message, ts) = publish_frame index callback_channel frame ss in (message, s ∷ ts)

-- What is asked of the media client: to start a channel, with its answer, and to stop one.
pub data BusCall : Type 0 where
  start_encoded_video_frame : ℤ → Bool → BusCall
  stop_encoded_video_frame : ℤ → BusCall

-- The media client's answer to a start, and the subscriptions of a publisher, by the topic.
pub record Bus : Type 0 where
  pub start : ℤ → Bool
  pub subscription_count : Bytes → ℕ
  pub intra_process_subscription_count : Bytes → ℕ

module _ (bus : Bus) where
  open bus use {start, subscription_count, intra_process_subscription_count}

  unfoldable pub wanted : Bool → CameraStream → Bool
  wanted lazy_subscription s =
      not lazy_subscription
      || ltb 0 (subscription_count s.topic)
      || ltb 0 (intra_process_subscription_count s.topic)

  unfoldable pub start_stream : CameraStream → CameraStream × List BusCall
  start_stream s =
      let started = start s.channel in
      (
        if started then record s { active = true } else s,
        start_encoded_video_frame s.channel started ∷ [],
      )

  -- One round of the loop of `reconcile_subscriptions`: the stream, and the calls it made.
  unfoldable pub reconcile_stream : Bool → CameraStream → CameraStream × List BusCall
  unfolding wanted start_stream
  reconcile_stream lazy_subscription s =
      if wanted lazy_subscription s && not s.active
      then start_stream s
      else if not (wanted lazy_subscription s) && s.active
      then (record s { active = false }, stop_encoded_video_frame s.channel ∷ [])
      else (s, [])

  -- The streams behind the loop, and the calls that it added to the ones so far, the newest first.
  unfoldable pub reconcile_subscriptions :
      Bool → List CameraStream → List BusCall → List CameraStream × List BusCall
  reconcile_subscriptions lazy_subscription [] calls = ([], calls)
  reconcile_subscriptions lazy_subscription (s ∷ ss) calls =
      let (t, made) = reconcile_stream lazy_subscription s in
      let (ts, rest) = reconcile_subscriptions lazy_subscription ss (made ++ calls) in
      (t ∷ ts, rest)

-- The loop of the destructor.
unfoldable pub stop_all : List CameraStream → List BusCall → List CameraStream × List BusCall
stop_all [] calls = ([], calls)
stop_all (s ∷ ss) calls =
    let (ts, rest) =
      stop_all ss (if s.active then stop_encoded_video_frame s.channel ∷ calls else calls) in
    (record s { active = false } ∷ ts, rest)
