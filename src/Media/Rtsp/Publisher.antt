-- ===== src/Media/Rtsp/Publisher.antt =====
-- uniubi_rtsp_driver_node.cpp: the publisher's thread, `publish_loop`.
use uniubi_ros.Prelude.{
  ℕ, suc, ◌+◌, ◌-◌, ◌*◌, ◌/◌, ℤ, pos, negsuc, Bool, not, ◌&&◌, ◌||◌, ◌++◌, Option, none, some, List,
  [], ◌∷◌, leb, ◌==◌, Bytes, if◌then◌else◌,
}
use uniubi_ros.Media.Rtsp.{
  Parameters, Image, CompressedImage, Stage, starting, head, blocked, finished, holding, showing,
  PublisherThread, Camera, Flags, running,
}
use uniubi_ros.Media.Rtsp.Frames.{is_negative, same_int}

-- What FFmpeg answers to a step of the thread. A pointer is whether it is set.
pub record PublisherAnswer : Type 0 where
  pub packet_allocated : Bool
  pub codec_found : Bool
  pub encoder_allocated : Bool
  pub encoder_opened : ℤ
  pub frame_allocated : Bool
  pub buffer_result : ℤ
  pub context : Bool
  pub writable : ℤ
  pub scaled : ℤ
  pub sent : ℤ
  pub packet_result : ℤ
  pub packet : List ℕ

-- `a - b` and `a * n` of an int.
abbrev pub minus : ℕ → ℕ → ℤ
minus a b = if leb b a then pos (a - b) else negsuc (b - a - 1)

abbrev pub times : ℤ → ℕ → ℤ
times (pos a) n = pos (a * n)
times (negsuc a) n = minus 0 (suc a * n)

-- `2 + (100 - jpeg_quality_) * 29 / 99`; a division of ints rounds towards 0.
unfoldable pub quality_scale : ℤ → ℤ
quality_scale (pos q) =
    if leb q 100 then pos (2 + (100 - q) * 29 / 99) else minus 2 ((q - 100) * 29 / 99)
quality_scale (negsuc q) = pos (2 + (101 + q) * 29 / 99)

-- "jpeg".
abbrev pub jpeg : Bytes
jpeg = 106 ∷ 112 ∷ 101 ∷ 103 ∷ []

-- `lambda` is FFmpeg's `FF_QP2LAMBDA`.
module _ (lambda : ℕ) (p : Parameters) (a : PublisherAnswer) where
  -- The encoder, its frame and its converter, made anew for the image.
  unfoldable pub new_encoder : Image → PublisherThread → PublisherThread
  unfolding quality_scale
  new_encoder image t =
      let encoder = a.codec_found && a.encoder_allocated && not (is_negative a.encoder_opened) in
      record t {
        encoder = encoder;
        jpeg_frame = encoder && a.frame_allocated && not (is_negative a.buffer_result);
        jpeg_converter = encoder && a.context;
        global_quality =
            if a.codec_found && a.encoder_allocated
            then times (quality_scale p.jpeg_quality) lambda
            else t.global_quality;
        jpeg_width = image.width;
        jpeg_height = image.height;
      }

  unfoldable pub prepare : Image → PublisherThread → PublisherThread
  unfolding new_encoder
  prepare image t =
      if not t.encoder
        || not t.jpeg_frame
        || not t.jpeg_converter
        || not (t.jpeg_width == image.width)
        || not (t.jpeg_height == image.height)
      then new_encoder image t
      else t

  abbrev pub compressed_image : Image → CompressedImage
  compressed_image image = record { header = image.header; format = jpeg; bytes = a.packet }

  -- The encoding with an encoder that is ready.
  unfoldable pub encode : Image → Camera → Camera
  encode image c =
      let t = c.publisher_thread in
      let u = record c { publisher_thread = record t { jpeg_pts = t.jpeg_pts + 1 } } in
      if same_int a.scaled (pos t.jpeg_height)
        && not (is_negative a.sent)
        && same_int a.packet_result (pos 0)
      then record u {
        published_compressed = c.published_compressed ++ (compressed_image image ∷ []);
      }
      else u

  unfoldable pub compress_prepared : Image → Camera → Camera
  unfolding encode
  compress_prepared image c =
      let t = c.publisher_thread in
      if t.encoder && t.jpeg_frame && t.jpeg_converter && not (is_negative a.writable)
      then encode image c
      else c

  unfoldable pub compress : Image → Camera → Camera
  unfolding prepare compress_prepared
  compress image c =
      let t = c.publisher_thread in
      if c.compressed && t.jpeg_packet
      then compress_prepared image (record c { publisher_thread = prepare image t })
      else c

  abbrev pub at_stage : Stage → Camera → Camera
  at_stage stage c = record c { publisher_thread = record c.publisher_thread { stage = stage } }

  -- Behind the wait: the image that `latest` held, if it held one.
  unfoldable pub take_latest : Option Image → Camera → Camera
  take_latest none c = at_stage head c
  take_latest (some image) c = at_stage (holding image) (record c { latest = none })

  unfoldable pub begin_loop : Camera → Camera
  begin_loop c = record c {
    publisher_thread = record c.publisher_thread { stage = head; jpeg_packet = a.packet_allocated };
  }

  unfoldable pub show : Image → Camera → Camera
  show image c = at_stage head (record c { published = c.published ++ (image ∷ []) })

  -- The thread goes on from where it stands.
  unfoldable pub publish_at : Stage → Flags → Camera → Camera
  unfolding begin_loop take_latest compress show
  publish_at starting f c = begin_loop c
  publish_at head f c = at_stage (if running f then blocked else finished) c
  publish_at blocked f c = if running f then take_latest c.latest c else at_stage finished c
  publish_at (holding image) f c = at_stage (showing image) (compress image c)
  publish_at (showing image) f c = show image c
  publish_at finished f c = c

  unfoldable pub publish_step : Flags → Camera → Camera
  unfolding publish_at
  publish_step f c = publish_at c.publisher_thread.stage f c
