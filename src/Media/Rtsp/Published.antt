-- ===== src/Media/Rtsp/Published.antt =====
-- uniubi_rtsp_driver_node.cpp: what a camera publishes, through its publisher's thread.
use mathlib.Core.List.{append_assoc, map-append}
use uniubi_ros.Prelude.{
  ℕ, not, ◌&&◌, ◌++◌, Option, none, some, List, [], ◌∷◌, ◌≡◌, refl, arith, subst, ap, map,
  IsSublist, IsSublist-drop, pos, Bool-cases, inl, inr,
}
use uniubi_ros.Media.Rtsp.{
  Parameters, Image, CompressedImage, Stage, starting, head, blocked, finished, holding, showing,
  PublisherThread, Camera, Flags, running,
}
use uniubi_ros.Media.Rtsp.Frames.{same_int, is_negative}
use uniubi_ros.Media.Rtsp.Publisher.{
  PublisherAnswer, encode, compress_prepared, compress, compressed_image, take_latest, show,
  begin_loop, publish_at, prepare,
}
use uniubi_ros.Media.Rtsp.Delivery.{
  compressed_header, header_of, unpublished, uncompressed, listed, Delivers, DeliversAt,
  IsDelivered,
}

module _ (p : Parameters) (index : ℕ) (latest : Option Image) (decoded published : List Image)
    (compressed : List CompressedImage) where
  -- The image that is held is not compressed.
  skip-Delivers :
      (image : Image)
      → Delivers p index (holding image) latest decoded published compressed
      → Delivers p index (showing image) latest decoded published compressed
  skip-Delivers image h = record {
    frames = h.frames;
    ordered = h.ordered;
    headed =
        IsSublist-drop (map compressed_header compressed) (image.header ∷ [])
          (map header_of (listed latest)) (map header_of decoded) h.headed;
  }

  encode-Delivers :
      (image : Image) (made : CompressedImage)
      → made.header ≡ image.header
      → Delivers p index (holding image) latest decoded published compressed
      → Delivers p index (showing image) latest decoded published (compressed ++ (made ∷ []))
  encode-Delivers image made same h = record {
    frames = h.frames;
    ordered = h.ordered;
    headed =
        rw
          (
            map-append compressed_header compressed (made ∷ []),
            append_assoc (map compressed_header compressed) (made.header ∷ [])
                (map header_of (listed latest)),
            same,
          )
          h.headed;
  }

  show-Delivers :
      (image : Image)
      → Delivers p index (showing image) latest decoded published compressed
      → Delivers p index head latest decoded (published ++ (image ∷ [])) compressed
  show-Delivers image h = record {
    frames = h.frames;
    ordered = rw (append_assoc published (image ∷ []) (listed latest)) h.ordered;
    headed = h.headed;
  }

  -- A thread that ends with what it took.
  pub lose-Delivers :
      (stage : Stage)
      → Delivers p index stage latest decoded published compressed
      → Delivers p index finished latest decoded published compressed
  lose-Delivers stage h = record {
    frames = h.frames;
    ordered = IsSublist-drop published (unpublished stage) (listed latest) decoded h.ordered;
    headed =
        IsSublist-drop (map compressed_header compressed) (map header_of (uncompressed stage))
          (map header_of (listed latest)) (map header_of decoded) h.headed;
  }

module _ (lambda : ℕ) (p : Parameters) (a : PublisherAnswer) where
  -- `compress` changes the encoder, and puts at most the image that is held behind those that were
  -- compressed.
  abbrev IsCompressed : Image → Camera → Camera → Type 0
  IsCompressed image c t =
      DeliversAt p (holding image) c.latest c → DeliversAt p (showing image) t.latest t

  encode_lem : (image : Image) (c : Camera) → IsCompressed image c (encode lambda p a image c)
  unfolding encode
  encode_lem image c h =
      elim (Bool-cases (
        same_int a.scaled (pos c.publisher_thread.jpeg_height)
        && not (is_negative a.sent)
        && same_int a.packet_result (pos 0))) [
          | inl made ↦
              rw (made, encode)
                (encode-Delivers p c.index c.latest c.decoded c.published c.published_compressed
                  image (compressed_image lambda p a image) refl h)
          | inr not_made ↦
              rw (not_made, encode)
                (skip-Delivers p c.index c.latest c.decoded c.published c.published_compressed image
                  h)
        ]

  compress_prepared_lem :
      (image : Image) (c : Camera) → IsCompressed image c (compress_prepared lambda p a image c)
  unfolding compress_prepared
  compress_prepared_lem image c h =
      elim (Bool-cases (
        c.publisher_thread.encoder
        && c.publisher_thread.jpeg_frame
        && c.publisher_thread.jpeg_converter
        && not (is_negative a.writable))) [
          | inl ready ↦ rw (ready, compress_prepared) (encode_lem image c h)
          | inr not_ready ↦
              rw (not_ready, compress_prepared)
                (skip-Delivers p c.index c.latest c.decoded c.published c.published_compressed image
                  h)
        ]

  compress_lem : (image : Image) (c : Camera) → IsCompressed image c (compress lambda p a image c)
  unfolding compress
  compress_lem image c h = elim (Bool-cases (c.compressed && c.publisher_thread.jpeg_packet)) [
    | inl wanted ↦
        rw (wanted, compress)
          (compress_prepared_lem image
            (record c { publisher_thread = prepare lambda p a image c.publisher_thread }) h)
    | inr unwanted ↦
        rw (unwanted, compress)
          (skip-Delivers p c.index c.latest c.decoded c.published c.published_compressed image h)
  ]

  compress-titled :
      (image : Image) (c : Camera)
      → ((compress lambda p a image c).topic ≡ c.topic)
        × ((compress lambda p a image c).index ≡ c.index)
  unfolding compress compress_prepared encode
  compress-titled image c = ground arith

  -- The publisher goes on with the same images in hand.
  restage-IsDelivered :
      (c : Camera) (t : PublisherThread)
      → unpublished c.publisher_thread.stage ≡ unpublished t.stage
      → uncompressed c.publisher_thread.stage ≡ uncompressed t.stage
      → IsDelivered p c
      → IsDelivered p (record c { publisher_thread = t })
  restage-IsDelivered c t e k h = record {
    titled = h.titled;
    delivers = record {
      frames = h.delivers.frames;
      ordered =
          subst
            (λ (held : List Image). IsSublist (c.published ++ (held ++ listed c.latest)) c.decoded)
            e h.delivers.ordered;
      headed =
          subst
            (λ (held : List Image).
              IsSublist
                (map compressed_header c.published_compressed
                  ++ (map header_of held ++ map header_of (listed c.latest)))
                (map header_of c.decoded))
            k h.delivers.headed;
    };
  }

  take_latest-IsDelivered :
      (latest : Option Image) (c : Camera)
      → c.latest ≡ latest
      → c.publisher_thread.stage ≡ blocked
      → IsDelivered p c
      → IsDelivered p (take_latest lambda p a latest c)
  unfolding take_latest
  take_latest-IsDelivered none c e s h =
      restage-IsDelivered c (record c.publisher_thread { stage = head }) (ap unpublished s)
        (ap uncompressed s) h
  take_latest-IsDelivered (some image) c e s h = record {
    titled = h.titled;
    delivers =
        let j = subst (λ (stage : Stage). DeliversAt p stage c.latest c) s h.delivers in
        let k = subst (λ (latest : Option Image). DeliversAt p blocked latest c) e j in
        record { frames = k.frames; ordered = k.ordered; headed = k.headed };
  }

  pub publish_at-IsDelivered :
      (stage : Stage) (f : Flags) (c : Camera)
      → c.publisher_thread.stage ≡ stage
      → IsDelivered p c
      → IsDelivered p (publish_at lambda p a stage f c)
  unfolding publish_at begin_loop show
  publish_at-IsDelivered starting f c s h =
      restage-IsDelivered c (begin_loop lambda p a c).publisher_thread (ap unpublished s)
        (ap uncompressed s) h
  publish_at-IsDelivered head f c s h = elim (Bool-cases (running f)) [
    | inl on ↦
        rw (on, publish_at)
          (restage-IsDelivered c (record c.publisher_thread { stage = blocked }) (ap unpublished s)
            (ap uncompressed s) h)
    | inr off ↦
        rw (off, publish_at)
          (restage-IsDelivered c (record c.publisher_thread { stage = finished }) (ap unpublished s)
            (ap uncompressed s) h)
  ]
  publish_at-IsDelivered blocked f c s h = elim (Bool-cases (running f)) [
    | inl on ↦ rw (on, publish_at) (take_latest-IsDelivered c.latest c refl s h)
    | inr off ↦
        rw (off, publish_at)
          (restage-IsDelivered c (record c.publisher_thread { stage = finished }) (ap unpublished s)
            (ap uncompressed s) h)
  ]
  publish_at-IsDelivered (holding image) f c s h = record {
    titled = rw ((compress-titled image c).0, (compress-titled image c).1) h.titled;
    delivers =
        compress_lem image c
          (subst (λ (stage : Stage). DeliversAt p stage c.latest c) s h.delivers);
  }
  publish_at-IsDelivered (showing image) f c s h = record {
    titled = h.titled;
    delivers =
        show-Delivers p c.index c.latest c.decoded c.published c.published_compressed image
          (subst (λ (stage : Stage). DeliversAt p stage c.latest c) s h.delivers);
  }
  publish_at-IsDelivered finished f c s h = h
