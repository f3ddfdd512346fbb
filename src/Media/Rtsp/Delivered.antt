-- ===== src/Media/Rtsp/Delivered.antt =====
-- uniubi_rtsp_driver_node.cpp: what the cameras publish, with the threads in any order.
use uniubi_ros.Prelude.{ℕ, zero, suc, List, [], ◌∷◌, ◌≡◌, refl, subst, All, Bytes}
use uniubi_ros.Client.{Exit, returned, threw}
use uniubi_ros.Media.Rtsp.{
  Parameters, Camera, RtspDriver, make_camera, make_cameras, new_driver, make_driver, construct,
}
use uniubi_ros.Media.Rtsp.Decoder.{decode_step}
use uniubi_ros.Media.Rtsp.Publisher.{publish_step}
use uniubi_ros.Media.Rtsp.Workers.{
  Step, decode, publish, decoder_throws, publisher_throws, ros_shutdown, destroyed, update_at,
  end_decoder, end_publisher, node_step, run_node,
}
use uniubi_ros.Media.Rtsp.Delivery.{IsDelivered, decode_at-IsDelivered}
use uniubi_ros.Media.Rtsp.Published.{publish_at-IsDelivered, lose-Delivers}

module _ (lambda : ℕ) (p : Parameters) where
  abbrev AllDelivered : List Camera → Type 0
  AllDelivered cs = All (IsDelivered p) cs

  update_at-AllDelivered :
      (g : Camera → Camera)
      → ((c : Camera) → IsDelivered p c → IsDelivered p (g c))
      → (i : ℕ) (cs : List Camera) → AllDelivered cs
      → AllDelivered (update_at g i cs)
  update_at-AllDelivered g keep i [] h = tt
  update_at-AllDelivered g keep zero (c ∷ cs) h = (keep c h.0, h.1)
  update_at-AllDelivered g keep (suc i) (c ∷ cs) h = (h.0, update_at-AllDelivered g keep i cs h.1)

  end_publisher-IsDelivered : (c : Camera) → IsDelivered p c → IsDelivered p (end_publisher c)
  end_publisher-IsDelivered c h = record {
    titled = h.titled;
    delivers =
        lose-Delivers p c.index c.latest c.decoded c.published c.published_compressed
          c.publisher_thread.stage h.delivers;
  }

  node_step-Delivers :
      (s : Step) (n : RtspDriver)
      → n.parameters ≡ p
      → AllDelivered n.cameras
      → ((node_step lambda s n).parameters ≡ p) × AllDelivered (node_step lambda s n).cameras
  unfolding node_step decode_step publish_step
  node_step-Delivers (decode i a) n e h = (
    e,
    update_at-AllDelivered (decode_step n.parameters n.flags a)
        (λ c d. rw e (decode_at-IsDelivered p c.decoder_thread.place n.flags a c d)) i n.cameras h,
  )
  node_step-Delivers (publish i a) n e h = (
    e,
    update_at-AllDelivered (publish_step lambda n.parameters a n.flags)
        (λ c d. rw e (publish_at-IsDelivered lambda p a c.publisher_thread.stage n.flags c refl d))
        i n.cameras h,
  )
  node_step-Delivers (decoder_throws i) n e h = (
    e,
    update_at-AllDelivered end_decoder (λ c d. record { titled = d.titled; delivers = d.delivers })
        i n.cameras h,
  )
  node_step-Delivers (publisher_throws i) n e h =
      (e, update_at-AllDelivered end_publisher end_publisher-IsDelivered i n.cameras h)
  node_step-Delivers ros_shutdown n e h = (e, h)
  node_step-Delivers destroyed n e h = (e, h)

  run_node-AllDelivered :
      (ss : List Step) (n : RtspDriver)
      → n.parameters ≡ p
      → AllDelivered n.cameras
      → AllDelivered (run_node lambda ss n).cameras
  unfolding run_node
  run_node-AllDelivered [] n e h = h
  run_node-AllDelivered (s ∷ ss) n e h =
      let k = node_step-Delivers s n e h in run_node-AllDelivered ss (node_step lambda s n) k.0 k.1

  make_cameras-AllDelivered : (i : ℕ) (urls : List Bytes) → AllDelivered (make_cameras p i urls)
  unfolding make_cameras make_camera
  make_cameras-AllDelivered i [] = tt
  make_cameras-AllDelivered i (url ∷ urls) = (
    record { titled = refl; delivers = record { frames = tt; ordered = tt; headed = tt } },
    make_cameras-AllDelivered (suc i) urls,
  )

  make_driver-AllDelivered :
      (checked : Exit (Unit {0})) (ss : List Step) {n : RtspDriver}
      → make_driver checked p ≡ returned n
      → AllDelivered (run_node lambda ss n).cameras
  make_driver-AllDelivered (threw what) ss e = cc
  make_driver-AllDelivered (returned _) ss {n} e =
      subst (λ (m : RtspDriver). AllDelivered (run_node lambda ss m).cameras) (cc)
        (run_node-AllDelivered ss (new_driver p) refl (make_cameras-AllDelivered 0 p.urls))

  -- Whatever FFmpeg answers and in whatever order the threads of all cameras run, fail and are
  -- stopped: the images that a camera of the driver publishes are frames that its own decoder gave,
  -- each at most once and in their order, and so are the headers of its compressed images. The
  -- frames have 1 to 8192 pixels a side, three bytes for each and no padding, the encoding bgr8 and
  -- the frame identifier of the camera, whose topic is that of its name.
  pub run_node-Delivers :
      (ss : List Step) (n : RtspDriver)
      → construct p ≡ returned n
      → All (IsDelivered p) (run_node lambda ss n).cameras
  unfolding construct
  run_node-Delivers ss n e = make_driver-AllDelivered _ ss e
