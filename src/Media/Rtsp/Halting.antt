-- ===== src/Media/Rtsp/Halting.antt =====
-- uniubi_rtsp_driver_node.cpp: how the threads of a camera end once the driver is stopped.
use mathlib.Core.List.{append-nil}
use uniubi_ros.Prelude.{
  ℕ, ◌+◌, ◌-◌, ◌≤◌, ℤ, Bool, true, false, ◌++◌, Option, none, some, List, [], ◌∷◌, ◌≡◌, refl, sym,
  ◌∙◌, arith, length, All, is_some,
}
use uniubi_ros.Media.Rtsp.{
  Parameters, Image, Place, closed, opening, probing, ended, connected, reading, draining, waiting,
  Stage, starting, head, blocked, finished, holding, showing, Camera, Flags, running,
}
use uniubi_ros.Media.Rtsp.Frames.{Received, refresh_converter, convert, take_frame}
use uniubi_ros.Media.Rtsp.Decoder.{
  DecoderAnswer, after_session, begin_session, open_input, open_decoder, probe, begin_read,
  read_frame, wait_reconnect, receive_frame, decode_at, decode_step,
}
use uniubi_ros.Media.Rtsp.Publisher.{
  PublisherAnswer, show, begin_loop, publish_at, publish_step, compress, compress_prepared, encode,
}
use uniubi_ros.Media.Rtsp.Delivery.{unpublished}

-- Steps of a thread, each with the flags that it sees.
abbrev pub decode_all : Parameters → List (Flags × DecoderAnswer) → Camera → Camera
decode_all p [] c = c
decode_all p ((f, a) ∷ xs) c = decode_all p xs (decode_step p f a c)

abbrev pub publish_all : ℕ → Parameters → List (Flags × PublisherAnswer) → Camera → Camera
publish_all lambda p [] c = c
publish_all lambda p ((f, a) ∷ xs) c = publish_all lambda p xs (publish_step lambda p a f c)

-- Every step sees that the driver is stopped, or that it is not.
abbrev pub Seen : {A : Type 0} → Bool → List (Flags × A) → Type 0
Seen on xs = All (λ x. running x.0 ≡ on) xs

abbrev pub one_if : Bool → ℕ
one_if true = 1
one_if false = 0

-- The decoded frames that FFmpeg gives in the steps.
abbrev pub frames : List (Flags × DecoderAnswer) → ℕ
frames [] = 0
frames ((f, a) ∷ xs) = one_if (is_some a.received) + frames xs

-- The steps that a stopped thread has before it, without the frames that it still takes.
abbrev pub decoder_rank : Place → ℕ
decoder_rank closed = 5
decoder_rank opening = 4
decoder_rank probing = 3
decoder_rank (connected video) = 2
decoder_rank (reading video) = 4
decoder_rank (draining video) = 3
decoder_rank (waiting remaining) = 1
decoder_rank ended = 0

abbrev pub publisher_rank : Stage → ℕ
publisher_rank starting = 2
publisher_rank head = 1
publisher_rank blocked = 1
publisher_rank (holding image) = 3
publisher_rank (showing image) = 2
publisher_rank finished = 0

take_frame-place :
    (p : Parameters) (r : Received) (c : Camera)
    → (take_frame p r c).decoder_thread.place ≡ c.decoder_thread.place
unfolding take_frame convert refresh_converter
take_frame-place p r c = ground arith

module _ (p : Parameters) (f : Flags) (a : DecoderAnswer) (off : running f ≡ false) where
  receive_frame-rank :
      (video : ℤ) (r : Option Received) (c : Camera)
      → c.decoder_thread.place ≡ draining video
      → (decoder_rank (receive_frame p video r c).decoder_thread.place ≤ 2 + one_if (is_some r))
        × (decoder_rank (receive_frame p video r c).decoder_thread.place ≤ 3)
  unfolding receive_frame
  receive_frame-rank video none c e = omega arith
  receive_frame-rank video (some r) c e = rw (take_frame-place p r c, e) (omega arith)

  decode_at-rank :
      (place : Place) (c : Camera)
      → c.decoder_thread.place ≡ place
      → (decoder_rank (decode_at p place f a c).decoder_thread.place
          ≤ decoder_rank place - 1 + one_if (is_some a.received))
        × (decoder_rank (decode_at p place f a c).decoder_thread.place ≤ decoder_rank place)
  unfolding decode_at begin_session open_input probe open_decoder begin_read read_frame
      wait_reconnect after_session
  decode_at-rank closed c e = ground arith
  decode_at-rank opening c e = ground arith
  decode_at-rank probing c e = ground arith
  decode_at-rank (connected video) c e = ground arith
  decode_at-rank (reading video) c e = ground arith
  decode_at-rank (draining video) c e = receive_frame-rank video a.received c e
  decode_at-rank (waiting remaining) c e = ground arith
  decode_at-rank ended c e = ground arith

rank-ended : (place : Place) → decoder_rank place ≤ 0 → place ≡ ended
rank-ended ended h = refl
rank-ended _ h = absurd (omega arith)

rank-finished : (stage : Stage) → publisher_rank stage ≤ 0 → stage ≡ finished
rank-finished finished h = refl
rank-finished _ h = absurd (omega arith)

frames-le-length : (xs : List (Flags × DecoderAnswer)) → frames xs ≤ length xs
frames-le-length [] = omega arith
frames-le-length ((f, a) ∷ xs) = ground (arith, frames-le-length xs)

decode_all_ends :
    (p : Parameters) (xs : List (Flags × DecoderAnswer)) (c : Camera)
    → Seen false xs
    → decoder_rank c.decoder_thread.place + frames xs ≤ length xs
    → (decode_all p xs c).decoder_thread.place ≡ ended
unfolding decode_step
decode_all_ends p [] c off enough = rank-ended c.decoder_thread.place (omega arith)
decode_all_ends p ((f, a) ∷ xs) c off enough =
    decode_all_ends p xs (decode_step p f a c) off.1
      (omega (arith, decode_at-rank p f a off.0 c.decoder_thread.place c refl, frames-le-length xs))

compress-same :
    (lambda : ℕ) (p : Parameters) (a : PublisherAnswer) (image : Image) (c : Camera)
    → (compress lambda p a image c).published ≡ c.published
unfolding compress compress_prepared encode
compress-same lambda p a image c = ground arith

module _ (lambda : ℕ) (p : Parameters) (f : Flags) (a : PublisherAnswer)
    (off : running f ≡ false) where
  publish_at-rank :
      (stage : Stage) (c : Camera)
      → c.publisher_thread.stage ≡ stage
      → publisher_rank (publish_at lambda p a stage f c).publisher_thread.stage
        ≤ publisher_rank stage - 1
  unfolding publish_at begin_loop show
  publish_at-rank starting c e = omega arith
  publish_at-rank head c e = rw (off, publish_at) (omega arith)
  publish_at-rank blocked c e = rw (off, publish_at) (omega arith)
  publish_at-rank (holding image) c e = omega arith
  publish_at-rank (showing image) c e = omega arith
  publish_at-rank finished c e = rw e (omega arith)

  publish_at-keeps :
      (stage : Stage) (c : Camera)
      → c.publisher_thread.stage ≡ stage
      → (publish_at lambda p a stage f c).published
          ++ unpublished (publish_at lambda p a stage f c).publisher_thread.stage
        ≡ c.published ++ unpublished stage
  unfolding publish_at begin_loop show
  publish_at-keeps starting c e = refl
  publish_at-keeps head c e = rw (off, publish_at)
  publish_at-keeps blocked c e = rw (off, publish_at)
  publish_at-keeps (holding image) c e = rw (compress-same lambda p a image c)
  publish_at-keeps (showing image) c e = append-nil (c.published ++ (image ∷ []))
  publish_at-keeps finished c e = rw e

publish_all_ends :
    (lambda : ℕ) (p : Parameters) (xs : List (Flags × PublisherAnswer)) (c : Camera)
    → Seen false xs
    → publisher_rank c.publisher_thread.stage ≤ length xs
    → ((publish_all lambda p xs c).publisher_thread.stage ≡ finished)
      × ((publish_all lambda p xs c).published
          ≡ c.published ++ unpublished c.publisher_thread.stage)
unfolding publish_step
publish_all_ends lambda p [] c off enough =
    let done = rank-finished c.publisher_thread.stage enough in
    (done, rw done (sym (append-nil c.published)))
publish_all_ends lambda p ((f, a) ∷ xs) c off enough =
    let rest =
      publish_all_ends lambda p xs (publish_step lambda p a f c) off.1
        (omega (arith, publish_at-rank lambda p f a off.0 c.publisher_thread.stage c refl)) in
    (rest.0, rest.1 ∙ publish_at-keeps lambda p f a off.0 c.publisher_thread.stage c refl)

decoder_rank_bound : (place : Place) → decoder_rank place ≤ 5
decoder_rank_bound closed = omega arith
decoder_rank_bound _ = omega arith

publisher_rank_bound : (stage : Stage) → publisher_rank stage ≤ 3
publisher_rank_bound starting = omega arith
publisher_rank_bound _ = omega arith

-- A camera whose threads see that the driver is stopped, or that ROS is: from wherever they stand
-- the decoder's thread ends within five steps and one for each frame that FFmpeg still gives, and
-- the publisher's thread within three, which publishes exactly the image that it had already taken.
pub stopped_ends :
    (lambda : ℕ) (p : Parameters) (ds : List (Flags × DecoderAnswer))
    (ps : List (Flags × PublisherAnswer)) (c : Camera)
    → Seen false ds
    → Seen false ps
    → 5 + frames ds ≤ length ds
    → 3 ≤ length ps
    → ((decode_all p ds c).decoder_thread.place ≡ ended)
      × ((publish_all lambda p ps c).publisher_thread.stage ≡ finished)
      × ((publish_all lambda p ps c).published
          ≡ c.published ++ unpublished c.publisher_thread.stage)
stopped_ends lambda p ds ps c d_off p_off d_enough p_enough =
    let shown =
      publish_all_ends lambda p ps c p_off
        (omega (arith, publisher_rank_bound c.publisher_thread.stage)) in
    (
      decode_all_ends p ds c d_off (omega (arith, decoder_rank_bound c.decoder_thread.place)),
      shown.0,
      shown.1,
    )
