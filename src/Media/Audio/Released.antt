-- ===== src/Media/Audio/Released.antt =====
-- The audio of the media driver starts or fails in time, and gives back what it took.
use uniubi_ros.Prelude.{
  ℕ, zero, suc, is_nil, subst, ℤ, ◌+◌, ◌*◌, ◌≤◌, ◌<◌, Bool, true, false, not, ◌||◌, Option, none,
  some, List, [], ◌∷◌, length, leb, ◌≡◌, refl, ap, arith, All, All-append, Bool-cases, inl, inr,
  if◌then◌else◌,
}
use uniubi_ros.Client.{Exit, returned, threw}
use uniubi_ros.Media.Playback.{
  AudioBridge, AudioFrame, AudioPlaybackQueue, AudioEvent, is_volume, Raw, advance, clear, handle,
  frame_arrived, timer_fired, reset_requested, parameters_set, on_frame, on_timer, on_reset,
  on_parameters, apply_volume, play, write_frame, pop,
}
use uniubi_ros.Media.Audio.{
  Sdk, Audio, AudioParameters, CapturedFrame, construct, is_nonnegative, on_capture, pass_occasion,
  stop, wait_ready, open_playback, after_wait, settled, start_playback, start_capture, then_capture,
  start, AudioNodeEvent, plays, hears, serve, serve_all,
}

abbrev pub count : Bool → ℕ
count true = 1
count false = 0

-- Of 1 to 65536 bytes.
abbrev pub IsBounded : CapturedFrame → Type 0
IsBounded f = (0 < length f.bytes) × (length f.bytes ≤ 65536)

-- What the SDK has open is what the members say.
pub record Sound (a : Audio) : Type 0 where
  pub streams : a.streams ≡ count a.bridge.playback
  pub capturing : a.capturing ≡ count a.active
  pub media : a.media ≡ true
  bounded : All IsBounded a.captured

-- Before the capture. The record is over the members themselves, so that a state with the same ones
-- has it too.
pub record Unheard (stream_count capture_count : ℕ) (has_stream is_active has_media : Bool)
    (frames : List CapturedFrame) : Type 0 where
  pub streams : stream_count ≡ count has_stream
  pub capturing : capture_count ≡ 0
  pub active : is_active ≡ false
  pub media : has_media ≡ true
  pub captured : frames ≡ []

abbrev pub Starting : Audio → Type 0
Starting a = Unheard a.streams a.capturing a.bridge.playback a.active a.media a.captured

-- Nothing is open, and nothing is called any more.
pub record Released (a : Audio) : Type 0 where
  pub streams : a.streams ≡ 0
  pub capturing : a.capturing ≡ 0
  pub callbacks :
      (a.subscription ≡ false) × (a.timer ≡ false) × (a.reset ≡ false) × (a.parameters ≡ false)
  pub members : (a.media ≡ false) × (a.active ≡ false) × (a.bridge.playback ≡ false)
  pub queue : a.bridge.queue.frames ≡ []

play-playback :
    (raw : Raw) (r : Option AudioFrame × AudioPlaybackQueue) (b : AudioBridge)
    → (play raw r b).playback ≡ b.playback
unfolding play write_frame
play-playback raw (none, q) b = refl
play-playback raw (some f, q) b = ground arith

apply_volume-playback :
    (raw : Raw) (o : Option ℤ) (b : AudioBridge) → (apply_volume raw o b).1.playback ≡ b.playback
unfolding apply_volume
apply_volume-playback raw none b = refl
apply_volume-playback raw (some v) b = ground arith

handle-playback :
    (raw : Raw) (e : AudioEvent) (b : AudioBridge) → (handle raw e b).playback ≡ b.playback
unfolding handle on_frame on_timer on_reset on_parameters
handle-playback raw (frame_arrived f) b = ground arith
handle-playback raw timer_fired b = ground (arith, play-playback raw (pop b.queue) (advance b))
handle-playback raw reset_requested b = refl
handle-playback raw (parameters_set ps) b = apply_volume-playback raw _ b

Starting-Sound : (a : Audio) → Starting a → Sound a
Starting-Sound a h = record {
  streams = h.streams;
  capturing = ground (arith, h.capturing, h.active);
  media = h.media;
  bounded = rw h.captured tt;
}

pub stop-Released : (a : Audio) → Sound a → Released (stop a)
unfolding stop clear
stop-Released a h = record {
  streams = ground (arith, h.streams);
  capturing = ground (arith, h.capturing, h.media);
  callbacks = (refl, refl, refl, refl);
  members = (refl, ground (arith, h.media), refl);
  queue = refl;
}

-- There is a result, and `P` holds for its state.
abbrev pub Ends : (Audio → Type 0) → Option (Exit (Unit {0}) × Audio) → Type 0
Ends P none = ⊥
Ends P (some (r, t)) = P t

Ends-result :
    (P : Audio → Type 0) (o : Option (Exit (Unit {0}) × Audio))
    → Ends P o
    → (r : Exit (Unit {0})) × (t : Audio) × (o ≡ some (r, t)) × P t
Ends-result P none h = elim h [ ]
Ends-result P (some (r, t)) h = (r, t, refl, h)

abbrev pub IsNew : Exit Audio → Type 0
IsNew (threw what) = Unit {0}
IsNew (returned a) = (a.bridge.playback ≡ false) × Starting (record a { media = true })

pub construct-IsNew : (p : AudioParameters) → IsNew (construct p)
unfolding construct
construct-IsNew p =
    elim (Bool-cases (not (is_nonnegative p.audio_channel) || not (is_volume p.audio_volume))) [
      | inl bad ↦ rw (bad) tt
      | inr good ↦ rw (good) (
        refl,
        record { streams = refl; capturing = refl; active = refl; media = refl; captured = refl },
      )
    ]

module _ (sdk : Sdk) where
  wait_ready-Starting :
      ((k : ℕ) → sdk.raw.now_us k < sdk.raw.now_us (suc k))
      → (fuel deadline : ℕ) (a : Audio) → deadline ≤ sdk.raw.now_us a.bridge.steps + fuel
      → Starting a
      → Ends Starting (wait_ready sdk (suc fuel) deadline a)
  unfolding wait_ready
  wait_ready-Starting ticks zero deadline a near h =
      let late : leb deadline (sdk.raw.now_us a.bridge.steps) ≡ true = ground (arith, near) in
      ground (arith, late, h)
  wait_ready-Starting ticks (suc fuel) deadline a near h =
      elim (Bool-cases (sdk.raw.ready a.bridge.steps)) [
        | inl ready ↦ rw (ready) h
        | inr busy ↦
            elim (Bool-cases
              (not (sdk.ok a.bridge.steps) || leb deadline (sdk.raw.now_us a.bridge.steps))) [
                | inl over ↦ rw (busy, over) h
                | inr on ↦
                    rw (busy, on)
                      (wait_ready-Starting ticks fuel deadline (pass_occasion a)
                        (omega (arith, near, ticks a.bridge.steps)) h)
              ]
      ]

  open_playback-Starting : (a : Audio) → Starting a → Starting (open_playback sdk a).1
  unfolding open_playback
  open_playback-Starting a h =
      elim (Bool-cases (not (sdk.raw.set_volume a.bridge.steps a.bridge.volume))) [
        | inl failed ↦ rw (failed) h
        | inr fine ↦ rw (fine) h
      ]

  settled-Starting :
      (o : Option (Exit (Unit {0}) × Audio)) → Ends Starting o → Ends Starting (settled sdk o)
  unfolding after_wait
  settled-Starting none h = elim h [ ]
  settled-Starting (some (returned x, a)) h = open_playback-Starting a h
  settled-Starting (some (threw what, a)) h = h

  start_playback-Starting :
      ((k : ℕ) → sdk.raw.now_us k < sdk.raw.now_us (suc k))
      → (timeout_ms : ℕ) (a : Audio) → Starting a
      → a.bridge.playback ≡ false
      → Ends Starting (start_playback sdk timeout_ms a)
  unfolding start_playback
  start_playback-Starting ticks timeout_ms a h none_yet = elim (Bool-cases sdk.creates) [
    | inr no_stream ↦ rw (no_stream) h
    | inl made ↦ elim (Bool-cases sdk.sets_up) [
      | inr failed ↦ rw (made, failed) opened
      | inl fine ↦
          rw (made, fine)
            (settled-Starting _ (
              wait_ready-Starting ticks (timeout_ms * 1000) _ _
                (omega (arith, ticks a.bridge.steps)) opened))
    ]
  ]
    where
      opened :
          Starting
            (record a { bridge = record a.bridge { playback = true }; streams = suc a.streams })
      opened = record {
        streams = ground (arith, h.streams);
        capturing = h.capturing;
        active = h.active;
        media = h.media;
        captured = h.captured;
      }

  start_capture-Sound : (a : Audio) → Starting a → Sound (start_capture sdk a).1
  unfolding start_capture
  start_capture-Sound a h = elim (Bool-cases (not a.capture)) [
    | inl off ↦ rw (off) (Starting-Sound _ h)
    | inr on ↦ elim (Bool-cases sdk.captures) [
      | inl started ↦
          rw (on, started)
            (record {
              streams = h.streams;
              capturing = ap suc h.capturing;
              media = h.media;
              bounded = rw h.captured tt;
            })
      | inr failed ↦
          rw (on, failed)
            (Starting-Sound _ (record {
              streams = h.streams;
              capturing = h.capturing;
              active = refl;
              media = h.media;
              captured = h.captured;
            }))
    ]
  ]

  then_capture-Sound :
      (o : Option (Exit (Unit {0}) × Audio)) → Ends Starting o → Ends Sound (then_capture sdk o)
  then_capture-Sound none h = elim h [ ]
  then_capture-Sound (some (returned x, a)) h = start_capture-Sound a h
  then_capture-Sound (some (threw what, a)) h = Starting-Sound a h

  pub start-Sound :
      ((k : ℕ) → sdk.raw.now_us k < sdk.raw.now_us (suc k))
      → (timeout_ms : ℕ) (p : AudioParameters) (a : Audio) → construct p ≡ returned a
      → Ends Sound (start sdk timeout_ms a)
  unfolding start
  start-Sound ticks timeout_ms p a e = begun a.playback
    where
      new : (a.bridge.playback ≡ false) × Starting (record a { media = true })
      new = subst IsNew e (construct-IsNew p)

      begun :
          (c : Bool)
          → let t = record a { media = true } in
            Ends Sound (
              if c
              then then_capture sdk (start_playback sdk timeout_ms t)
              else some (start_capture sdk t))
      begun true =
          then_capture-Sound _
            (start_playback-Starting ticks timeout_ms (record a { media = true }) new.1 new.0)
      begun false = start_capture-Sound (record a { media = true }) new.1

  serve-Sound : (e : AudioNodeEvent) (a : Audio) → Sound a → Sound (serve sdk e a)
  unfolding serve on_capture
  serve-Sound (plays e) a h = record {
    streams = ground (arith, h.streams, handle-playback sdk.raw e a.bridge);
    capturing = h.capturing;
    media = h.media;
    bounded = h.bounded;
  }
  serve-Sound (hears channel frame) a h =
      elim (Bool-cases (
        not frame.is_valid
        || is_nil frame.bytes
        || not (leb (length frame.bytes) 65536)
        || not frame.has_data)) [
          | inl dropped ↦ rw (dropped) h
          | inr kept ↦ rw (kept) (record {
            streams = h.streams;
            capturing = h.capturing;
            media = h.media;
            bounded =
                All-append IsBounded a.captured _ h.bounded
                  ((ground (arith, kept), ground (arith, kept)), tt);
          })
        ]

  serve_all-Sound : (es : List AudioNodeEvent) (a : Audio) → Sound a → Sound (serve_all sdk es a)
  unfolding serve_all
  serve_all-Sound [] a h = h
  serve_all-Sound (e ∷ es) a h = serve_all-Sound es (serve sdk e a) (serve-Sound e a h)

  -- Where the clock moves on from each occasion to the next, `start` of a new audio bridge returns or
  -- throws, and whatever is played and heard behind that, `stop` gives back what the SDK has open, takes
  -- every callback off and empties the queue; the frames published have 1 to 65536 bytes.
  pub start-stop-Released :
      (timeout_ms : ℕ) (p : AudioParameters) (a : Audio) (es : List AudioNodeEvent)
      → ((k : ℕ) → sdk.raw.now_us k < sdk.raw.now_us (suc k))
      → construct p ≡ returned a
      → (r : Exit (Unit {0})) × (t : Audio) × (start sdk timeout_ms a ≡ some (r, t))
        × Released (stop (serve_all sdk es t))
        × All IsBounded (serve_all sdk es t).captured
  start-stop-Released timeout_ms p a es ticks made =
      let (r, t, e, h) = Ends-result Sound _ (start-Sound ticks timeout_ms p a made) in
      let kept = serve_all-Sound es t h in (r, t, e, stop-Released _ kept, kept.bounded)
