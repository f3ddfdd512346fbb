-- ===== src/Media/Rtsp/Delivery.antt =====
-- uniubi_rtsp_driver_node.cpp: what the cameras publish, against what their decoders gave.
use mathlib.Core.List.{map-append}
use uniubi_ros.Prelude.{
  ℕ, zero, suc, ◌*◌, ◌≤◌, ℤ, pos, true, ◌&&◌, ◌++◌, Option, none, some, List, [], ◌∷◌, ◌≡◌, refl,
  arith, map, length, All, All-append, IsSublist, IsSublist-overwrite, Bool-cases, inl, inr,
}
use uniubi_ros.Media.Config.{image_topic}
use uniubi_ros.Media.Rtsp.{
  Parameters, Header, Image, CompressedImage, Place, ended, draining, Stage, holding, showing,
  Camera, Flags, entry, at_least_zero,
}
use uniubi_ros.Media.Rtsp.Frames.{
  Received, bgr8, fill, is_side, same_int, make_image, refresh_converter, convert, take_frame,
}
use uniubi_ros.Media.Rtsp.Decoder.{DecoderAnswer, receive_frame, decode_at}

abbrev pub header_of : Image → Header
header_of image = image.header

abbrev pub compressed_header : CompressedImage → Header
compressed_header image = image.header

-- The image that the publisher has taken and not yet published, and not yet compressed.
abbrev pub unpublished : Stage → List Image
unpublished (holding image) = image ∷ []
unpublished (showing image) = image ∷ []
unpublished _ = []

abbrev pub uncompressed : Stage → List Image
uncompressed (holding image) = image ∷ []
uncompressed _ = []

abbrev pub listed : Option Image → List Image
listed none = []
listed (some image) = image ∷ []

-- A frame of the camera with that index: of 1 to 8192 pixels a side, packed without padding.
pub record IsFrame (p : Parameters) (index : ℕ) (image : Image) : Type 0 where
  pub wide : (1 ≤ image.width) × (image.width ≤ 8192)
  pub tall : (1 ≤ image.height) × (image.height ≤ 8192)
  pub packed : image.step ≡ image.width * 3
  pub whole : length image.bytes ≡ image.step * image.height
  pub coded : image.encoding ≡ bgr8
  pub framed : image.header.frame_id ≡ entry p.frame_ids index

-- What is published, and what waits to be, are some of the decoded frames, each at most once and in
-- their order; so are the headers of the compressed images.
pub record Delivers (p : Parameters) (index : ℕ) (stage : Stage) (latest : Option Image)
    (decoded published : List Image) (compressed : List CompressedImage) : Type 0 where
  pub frames : All (IsFrame p index) decoded
  pub ordered : IsSublist (published ++ (unpublished stage ++ listed latest)) decoded
  pub headed :
      IsSublist
        (map compressed_header compressed
          ++ (map header_of (uncompressed stage) ++ map header_of (listed latest)))
        (map header_of decoded)

abbrev pub DeliversAt : Parameters → Stage → Option Image → Camera → Type 0
DeliversAt p stage latest c =
    Delivers p c.index stage latest c.decoded c.published c.published_compressed

pub record IsDelivered (p : Parameters) (c : Camera) : Type 0 where
  pub titled : c.topic ≡ image_topic p.prefix (entry p.names c.index)
  pub delivers : DeliversAt p c.publisher_thread.stage c.latest c

length-fill : (byte_at : ℕ → ℕ) (i size : ℕ) → length (fill byte_at i size) ≡ size
unfolding fill
length-fill byte_at i zero = refl
length-fill byte_at i (suc size) = omega (arith, length-fill byte_at (suc i) size)

module _ (p : Parameters) where
  make_image-IsFrame :
      (index width height : ℕ) (r : Received)
      → 1 ≤ width
      → width ≤ 8192
      → 1 ≤ height
      → height ≤ 8192
      → IsFrame p index (make_image p index width height r)
  unfolding make_image
  make_image-IsFrame index width height r a b c d = record {
    wide = omega arith;
    tall = omega arith;
    packed = omega arith;
    whole = length-fill r.byte_at 0 _;
    coded = refl;
    framed = refl;
  }

  store-Delivers :
      (index : ℕ) (stage : Stage) (latest : Option Image) (image : Image)
      (decoded published : List Image) (compressed : List CompressedImage)
      → IsFrame p index image
      → Delivers p index stage latest decoded published compressed
      → Delivers p index stage (some image) (decoded ++ (image ∷ [])) published compressed
  store-Delivers index stage latest image decoded published compressed good h = record {
    frames = All-append (IsFrame p index) decoded (image ∷ []) h.frames (good, tt);
    ordered =
        IsSublist-overwrite published (unpublished stage) (listed latest) decoded image h.ordered;
    headed = rw (map-append header_of decoded (image ∷ [])) (
        IsSublist-overwrite (map compressed_header compressed) (map header_of (uncompressed stage))
          (map header_of (listed latest)) (map header_of decoded) image.header h.headed);
  }

  convert-IsDelivered :
      (width height : ℕ) (r : Received) (c : Camera)
      → 1 ≤ width
      → width ≤ 8192
      → 1 ≤ height
      → height ≤ 8192
      → IsDelivered p c
      → IsDelivered p (convert p width height r c)
  unfolding convert
  convert-IsDelivered width height r c a b d e h =
      elim (Bool-cases (
        (refresh_converter p width height r c.decoder_thread).converter
        && same_int r.scaled (pos height))) [
          | inl stored ↦
              rw (stored, convert)
                (record {
                  titled = h.titled;
                  delivers =
                      store-Delivers c.index c.publisher_thread.stage c.latest
                        (make_image p c.index width height r) c.decoded c.published
                        c.published_compressed (make_image-IsFrame c.index width height r a b d e)
                        h.delivers;
                })
          | inr not_stored ↦
              rw (not_stored, convert) (record { titled = h.titled; delivers = h.delivers })
        ]

  side_bounds : (n : ℤ) → is_side n ≡ true → (1 ≤ at_least_zero n) × (at_least_zero n ≤ 8192)
  side_bounds n h = ground arith

  take_frame-IsDelivered :
      (r : Received) (c : Camera) → IsDelivered p c → IsDelivered p (take_frame p r c)
  unfolding take_frame
  take_frame-IsDelivered r c h = elim (Bool-cases (is_side r.width)) [
    | inr wide ↦ rw (wide, take_frame) h
    | inl wide ↦ elim (Bool-cases (is_side r.height)) [
      | inr tall ↦ rw (wide, tall, take_frame) h
      | inl tall ↦
          rw (wide, tall, take_frame)
            (convert-IsDelivered (at_least_zero r.width) (at_least_zero r.height) r c
              (side_bounds r.width wide).0 (side_bounds r.width wide).1
              (side_bounds r.height tall).0 (side_bounds r.height tall).1 h)
    ]
  ]

  receive_frame-IsDelivered :
      (video : ℤ) (r : Option Received) (c : Camera)
      → IsDelivered p c
      → IsDelivered p (receive_frame p video r c)
  unfolding receive_frame
  receive_frame-IsDelivered video none c h = record { titled = h.titled; delivers = h.delivers }
  receive_frame-IsDelivered video (some r) c h = take_frame-IsDelivered r c h

  pub decode_at-IsDelivered :
      (place : Place) (f : Flags) (a : DecoderAnswer) (c : Camera)
      → IsDelivered p c
      → IsDelivered p (decode_at p place f a c)
  unfolding decode_at
  decode_at-IsDelivered (draining video) f a c h = receive_frame-IsDelivered video a.received c h
  decode_at-IsDelivered ended f a c h = h
  decode_at-IsDelivered _ f a c h = record { titled = h.titled; delivers = h.delivers }
