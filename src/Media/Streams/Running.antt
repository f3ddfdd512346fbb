-- ===== src/Media/Streams/Running.antt =====
-- The camera streams against what runs on the media bus.
use uniubi_ros.Prelude.{
  ℤ, pos, negsuc, Bool, true, false, ◌&&◌, ◌||◌, ◌++◌, List, [], ◌∷◌, ◌≡◌, refl, ap, ◌∙◌, inl, inr,
  arith, Bytes, All, Bool-cases, if◌then◌else◌,
}
use uniubi_ros.Client.{returned}
use uniubi_ros.Media.Streams.{
  CameraStream, Parameters, BusCall, start_encoded_video_frame, stop_encoded_video_frame, Bus,
  same_channel, holds, check_channels, validate_parameters, make_streams, create_publishers, wanted,
  start_stream, reconcile_stream, reconcile_subscriptions, stop_all,
}

-- Whether a channel runs behind the calls, the newest first: the last call that did something to
-- it started it.
abbrev pub runs : ℤ → List BusCall → Bool
runs channel [] = false
runs channel (start_encoded_video_frame c started ∷ calls) =
    if same_channel c channel && started then true else runs channel calls
runs channel (stop_encoded_video_frame c ∷ calls) =
    if same_channel c channel then false else runs channel calls

-- Every stream is marked active exactly if its channel runs.
abbrev pub Matches : List CameraStream → List BusCall → Type 0
Matches ss calls = All (λ s. runs s.channel calls ≡ s.active) ss

abbrev pub Apart : ℤ → List CameraStream → Type 0
Apart channel ss = All (λ s. same_channel channel s.channel ≡ false) ss

-- No two streams have one channel.
abbrev pub IsApart : List CameraStream → Type 0
IsApart [] = Unit
IsApart (s ∷ ss) = Apart s.channel ss × IsApart ss

same_refl : (a : ℤ) → same_channel a a ≡ true
same_refl (pos n) = ground arith
same_refl (negsuc n) = ground arith

same_sym : (a b : ℤ) → same_channel a b ≡ same_channel b a
same_sym (pos a) (pos b) = ground arith
same_sym (pos a) (negsuc b) = refl
same_sym (negsuc a) (pos b) = refl
same_sym (negsuc a) (negsuc b) = ground arith

Matches-other :
    (c : ℤ) (ss : List CameraStream) (old new : List BusCall)
    → ((d : ℤ) → same_channel c d ≡ false → runs d new ≡ runs d old)
    → Apart c ss
    → Matches ss old
    → Matches ss new
Matches-other c [] old new f a h = tt
Matches-other c (s ∷ ss) old new f a h =
    (f s.channel a.0 ∙ h.0, Matches-other c ss old new f a.1 h.1)

module _ (bus : Bus) (lazy_subscription : Bool) where
  -- A round settles the stream: behind it the stream is active exactly if it is wanted and was
  -- active or could be started, it has the channel it had, and the bus agrees if it agreed before.
  pub reconcile_stream_settles :
      (s : CameraStream) (calls : List BusCall)
      → runs s.channel calls ≡ s.active
      → let (t, made) = reconcile_stream bus lazy_subscription s in
        (runs s.channel (made ++ calls) ≡ t.active)
        × (t.channel ≡ s.channel)
        × (t.active ≡ (wanted bus lazy_subscription s && (s.active || bus.start s.channel)))
  unfolding reconcile_stream start_stream
  reconcile_stream_settles s calls h = ground (arith, same_refl s.channel)

  stream_channel :
      (s : CameraStream) → (reconcile_stream bus lazy_subscription s).0.channel ≡ s.channel
  unfolding reconcile_stream start_stream
  stream_channel s = ground arith

  stream_others :
      (s : CameraStream) (calls : List BusCall) (d : ℤ)
      → same_channel s.channel d ≡ false
      → runs d ((reconcile_stream bus lazy_subscription s).1 ++ calls) ≡ runs d calls
  unfolding reconcile_stream start_stream
  stream_others s calls d h = ground arith

  -- What a round makes of the streams, and the channels that it leaves alone.
  reconcile_others :
      (ss : List CameraStream) (calls : List BusCall) (d : ℤ)
      → Apart d ss
      → runs d (reconcile_subscriptions bus lazy_subscription ss calls).1 ≡ runs d calls
  unfolding reconcile_subscriptions
  reconcile_others [] calls d a = refl
  reconcile_others (s ∷ ss) calls d a =
      reconcile_others ss _ d a.1 ∙ stream_others s calls d (same_sym s.channel d ∙ a.0)

  reconcile-Matches :
      (ss : List CameraStream) (calls : List BusCall)
      → IsApart ss
      → Matches ss calls
      → let (ts, rest) = reconcile_subscriptions bus lazy_subscription ss calls in Matches ts rest
  unfolding reconcile_subscriptions
  reconcile-Matches [] calls a h = tt
  reconcile-Matches (s ∷ ss) calls a h =
      let (t, made) = reconcile_stream bus lazy_subscription s in
      let (same, channel, active) = reconcile_stream_settles s calls h.0 in
      (
        ap (λ c. runs c (reconcile_subscriptions bus lazy_subscription ss (made ++ calls)).1)
              channel
            ∙ reconcile_others ss (made ++ calls) s.channel a.0
            ∙ same,
        reconcile-Matches ss (made ++ calls) a.1
            (Matches-other s.channel ss calls (made ++ calls) (stream_others s calls) a.0 h.1),
      )

  Apart-reconciled :
      (d : ℤ) (ss : List CameraStream) (calls : List BusCall)
      → Apart d ss
      → Apart d (reconcile_subscriptions bus lazy_subscription ss calls).0
  unfolding reconcile_subscriptions
  Apart-reconciled d [] calls a = tt
  Apart-reconciled d (s ∷ ss) calls a = (rw (stream_channel s) a.0, Apart-reconciled d ss _ a.1)

  IsApart-reconciled :
      (ss : List CameraStream) (calls : List BusCall)
      → IsApart ss
      → IsApart (reconcile_subscriptions bus lazy_subscription ss calls).0
  unfolding reconcile_subscriptions
  IsApart-reconciled [] calls a = tt
  IsApart-reconciled (s ∷ ss) calls a =
      (Apart-reconciled _ ss _ (rw (stream_channel s) a.0), IsApart-reconciled ss _ a.1)

-- Rounds of the timer, each with the answers and the subscriptions of its time.
abbrev pub rounds :
    List Bus → Bool → List CameraStream × List BusCall → List CameraStream × List BusCall
rounds [] lazy_subscription (ss, calls) = (ss, calls)
rounds (bus ∷ buses) lazy_subscription (ss, calls) =
    rounds buses lazy_subscription (reconcile_subscriptions bus lazy_subscription ss calls)

abbrev Sound : List CameraStream × List BusCall → Type 0
Sound (ss, calls) = IsApart ss × Matches ss calls

rounds-Sound :
    (buses : List Bus) (lazy_subscription : Bool) (r : List CameraStream × List BusCall)
    → Sound r
    → Sound (rounds buses lazy_subscription r)
rounds-Sound [] lazy_subscription (ss, calls) h = h
rounds-Sound (bus ∷ buses) lazy_subscription (ss, calls) h =
    rounds-Sound buses lazy_subscription _ (
      IsApart-reconciled bus lazy_subscription ss calls h.0,
      reconcile-Matches bus lazy_subscription ss calls h.0 h.1,
    )

-- The streams of accepted parameters.
abbrev Absent : List ℤ → List ℤ → Type 0
Absent unique channels = All (λ c. holds unique c ≡ false) channels

abbrev IsSpread : List ℤ → Type 0
IsSpread [] = Unit
IsSpread (c ∷ cs) = All (λ d. same_channel c d ≡ false) cs × IsSpread cs

Absent-cons :
    (c : ℤ) (unique channels : List ℤ)
    → Absent (c ∷ unique) channels
    → All (λ d. same_channel c d ≡ false) channels × Absent unique channels
Absent-cons c unique [] h = ground arith
Absent-cons c unique (d ∷ ds) h = ground (arith, Absent-cons c unique ds)

check_channels-IsSpread :
    (unique channels : List ℤ)
    → check_channels unique channels ≡ returned tt
    → Absent unique channels × IsSpread channels
unfolding check_channels
check_channels-IsSpread unique [] h = ground arith
check_channels-IsSpread unique (c ∷ cs) h =
    let (absent, spread) = check_channels-IsSpread (c ∷ unique) cs (ground arith) in
    let (differ, old) = Absent-cons c unique cs absent in ((ground arith, old), (differ, spread))

made-Apart :
    (c : ℤ) (prefix : Bytes) (names : List Bytes) (channels : List ℤ) (frame_ids : List Bytes)
    → All (λ d. same_channel c d ≡ false) channels
    → Apart c (make_streams prefix names channels frame_ids)
unfolding make_streams
made-Apart c prefix (n ∷ ns) (d ∷ ds) (f ∷ fs) h = (h.0, made-Apart c prefix ns ds fs h.1)
made-Apart c prefix [] channels frame_ids h = tt
made-Apart c prefix (n ∷ ns) [] frame_ids h = tt
made-Apart c prefix (n ∷ ns) (d ∷ ds) [] h = tt

made-Sound :
    (prefix : Bytes) (names : List Bytes) (channels : List ℤ) (frame_ids : List Bytes)
    → IsSpread channels
    → Sound (make_streams prefix names channels frame_ids, [])
unfolding make_streams
made-Sound prefix (n ∷ ns) (d ∷ ds) (f ∷ fs) h =
    let (apart, matches) = made-Sound prefix ns ds fs h.1 in
    ((made-Apart d prefix ns ds fs h.0, apart), (refl, matches))
made-Sound prefix [] channels frame_ids h = (tt, tt)
made-Sound prefix (n ∷ ns) [] frame_ids h = (tt, tt)
made-Sound prefix (n ∷ ns) (d ∷ ds) [] h = (tt, tt)

create-Sound :
    (p : Parameters) → validate_parameters p ≡ returned tt → Sound (create_publishers p, [])
unfolding validate_parameters create_publishers
create-Sound p h =
    let k : check_channels [] p.camera_channels ≡ returned tt = ground arith in
    elim (Bool-cases p.enable_video) [
      | inl e ↦ rw e (
          made-Sound p.topic_prefix p.camera_names p.camera_channels p.frame_ids
            (check_channels-IsSpread [] p.camera_channels k).1)
      | inr e ↦ rw e (tt, tt)
    ]

stop_others :
    (ss : List CameraStream) (calls : List BusCall) (d : ℤ)
    → Apart d ss
    → runs d (stop_all ss calls).1 ≡ runs d calls
unfolding stop_all
stop_others [] calls d a = refl
stop_others (s ∷ ss) calls d a =
    let next = if s.active then stop_encoded_video_frame s.channel ∷ calls else calls in
    let same : runs d next ≡ runs d calls = ground (arith, same_sym s.channel d) in
    stop_others ss next d a.1 ∙ same

stop_all-Sound :
    (ss : List CameraStream) (calls : List BusCall)
    → IsApart ss
    → Matches ss calls
    → All (λ s. (runs s.channel (stop_all ss calls).1 ≡ false)) ss
unfolding stop_all
stop_all-Sound [] calls a h = tt
stop_all-Sound (s ∷ ss) calls a h =
    let next = if s.active then stop_encoded_video_frame s.channel ∷ calls else calls in
    let stopped : runs s.channel next ≡ false = ground (arith, same_refl s.channel) in
    (
      stop_others ss next s.channel a.0 ∙ stopped,
      stop_all-Sound ss next a.1
          (Matches-other s.channel ss calls next (same_after s calls) a.0 h.1),
    )
  where
    same_after :
        (s : CameraStream) (calls : List BusCall) (d : ℤ)
        → same_channel s.channel d ≡ false
        → runs d (if s.active then stop_encoded_video_frame s.channel ∷ calls else calls)
          ≡ runs d calls
    same_after s calls d e = ground arith

-- With parameters that `validate_parameters` accepts, after any number of rounds, whatever the
-- subscriptions and the answers of the media bus: no two streams have one channel, a stream is
-- marked active exactly if its channel runs on the bus, and when the destructor has stopped the
-- streams no channel of theirs runs.
pub rounds-Matches :
    (p : Parameters) (buses : List Bus)
    → validate_parameters p ≡ returned tt
    → let (ss, calls) = rounds buses p.lazy_subscription (create_publishers p, []) in
      IsApart ss × Matches ss calls × All (λ s. runs s.channel (stop_all ss calls).1 ≡ false) ss
rounds-Matches p buses h =
    let r = rounds buses p.lazy_subscription (create_publishers p, []) in
    let (apart, matches) =
      rounds-Sound buses p.lazy_subscription (create_publishers p, []) (create-Sound p h) in
    (apart, matches, stop_all-Sound r.0 r.1 apart matches)
