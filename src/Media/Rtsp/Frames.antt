-- ===== src/Media/Rtsp/Frames.antt =====
-- uniubi_rtsp_driver_node.cpp: what `decode_session` does with a decoded frame.
use uniubi_ros.Prelude.{
  ℕ, zero, suc, ◌*◌, ◌%◌, ◌^◌, ℤ, pos, negsuc, Bool, true, false, not, ◌&&◌, ◌||◌, ◌++◌, some, List,
  [], ◌∷◌, leb, ◌==◌, Bytes, if◌then◌else◌,
}
use uniubi_ros.Media.Rtsp.{Parameters, Image, DecoderThread, Camera, at_least_zero, entry}

-- A frame that `avcodec_receive_frame` gave, with what follows from it: whether `sws_getContext`
-- finds a converter, the time of the node, the bytes that `sws_scale` writes and its result.
pub record Received : Type 0 where
  pub width : ℤ
  pub height : ℤ
  pub format : ℕ
  pub context : Bool
  pub stamp : ℕ
  pub byte_at : ℕ → ℕ
  pub scaled : ℤ

abbrev pub is_negative : ℤ → Bool
is_negative (pos n) = false
is_negative (negsuc n) = true

abbrev pub same_int : ℤ → ℤ → Bool
same_int (pos a) (pos b) = a == b
same_int (negsuc a) (negsuc b) = a == b
same_int _ _ = false

-- "bgr8".
abbrev pub bgr8 : Bytes
bgr8 = 98 ∷ 103 ∷ 114 ∷ 56 ∷ []

-- The bytes of a buffer of that size, from the one with index `i`.
unfoldable pub fill : (ℕ → ℕ) → ℕ → ℕ → List ℕ
fill byte_at i zero = []
fill byte_at i (suc size) = byte_at i ∷ fill byte_at (suc i) size

-- A side of a frame that is used: of 1 to 8192 pixels.
abbrev pub is_side : ℤ → Bool
is_side (pos n) = leb 1 n && leb n 8192
is_side (negsuc n) = false

module _ (p : Parameters) where
  unfoldable pub make_image : ℕ → ℕ → ℕ → Received → Image
  unfolding fill
  make_image index width height r =
      let step = (width * 3) % 2 ^ 32 in
      record {
        header = record { stamp = r.stamp; frame_id = entry p.frame_ids index };
        height = height % 2 ^ 32;
        width = width % 2 ^ 32;
        encoding = bgr8;
        is_bigendian = false;
        step = step;
        bytes = fill r.byte_at 0 (step * (height % 2 ^ 32));
      }

  -- The converter is made anew for a frame of another size or format.
  unfoldable pub refresh_converter : ℕ → ℕ → Received → DecoderThread → DecoderThread
  refresh_converter width height r d =
      if not d.converter
        || not (width == d.source_width)
        || not (height == d.source_height)
        || not (r.format == d.source_format)
      then record d {
        converter = r.context;
        source_width = width;
        source_height = height;
        source_format = r.format;
      }
      else d

  abbrev pub store : Image → Camera → Camera
  store image c = record c { latest = some image; decoded = c.decoded ++ (image ∷ []) }

  unfoldable pub convert : ℕ → ℕ → Received → Camera → Camera
  unfolding refresh_converter make_image
  convert width height r c =
      let d = refresh_converter width height r c.decoder_thread in
      let t = record c { decoder_thread = d } in
      if d.converter && same_int r.scaled (pos height)
      then store (make_image c.index width height r) t
      else t

  -- The body of the loop over the decoded frames.
  unfoldable pub take_frame : Received → Camera → Camera
  unfolding convert
  take_frame r c =
      if not (is_side r.width) || not (is_side r.height)
      then c
      else convert (at_least_zero r.width) (at_least_zero r.height) r c
