-- ===== src/Media/Setup/Closed.antt =====
-- The media node starts or fails in time, and its destructor closes all that it opened.
use uniubi_ros.Prelude.{
  ℕ, suc, ◌<◌, Bool, false, ◌&&◌, ◌++◌, Option, none, some, List, [], ◌∷◌, ◌≡◌, refl, ap, ◌∙◌,
  subst, arith, Bool-cases, inl, inr,
}
use uniubi_ros.Client.{Exit, returned, threw}
use uniubi_ros.Media.Audio.{Audio, AudioParameters}
use uniubi_ros.Media.Audio as Audio
use uniubi_ros.Media.Audio.Released.{
  Released, Sound, Ends, IsNew, construct-IsNew, start-Sound, stop-Released,
}
use uniubi_ros.Media.Streams.{
  CameraStream, Bus, BusCall, start_stream, reconcile_stream, reconcile_subscriptions,
}
use uniubi_ros.Media.Setup.{
  MediaSdk, Node, is_available, all_available, with_audio, then_audio, start, close_media, destroy,
}
use uniubi_ros.Media.Setup.Prepared.{
  IsBalanced, Results, Results-result, Allowed, Prepared, initialize-Prepared,
}

-- Nothing of the SDK is in use, and nothing calls the node.
pub record Closed (n : Node) : Type 0 where
  pub unused : (n.services ≡ 0) × (n.clients ≡ 0) × (n.buses ≡ 0)
  pub silent : (n.log_callback ≡ false) × (n.reconcile_timer ≡ false)
  pub audio : Released n.audio

reconcile_stream-channel :
    (bus : Bus) (lazy_subscription : Bool) (s : CameraStream)
    → (reconcile_stream bus lazy_subscription s).0.channel ≡ s.channel
unfolding reconcile_stream start_stream
reconcile_stream-channel bus l s = ground arith

reconcile-available :
    (bus : Bus) (lazy_subscription : Bool) (k : ℕ) (ss : List CameraStream) (calls : List BusCall)
    → all_available k (reconcile_subscriptions bus lazy_subscription ss calls).0
      ≡ all_available k ss
unfolding all_available reconcile_subscriptions
reconcile-available bus l k [] calls = refl
reconcile-available bus l k (s ∷ ss) calls =
    ap
      (λ c.
        is_available k c
        && all_available k
            (reconcile_subscriptions bus l ss ((reconcile_stream bus l s).1 ++ calls)).0)
      (reconcile_stream-channel bus l s)
    ∙ ap (λ rest. is_available k s.channel && rest) (reconcile-available bus l k ss _)

destroy-Closed : (n : Node) → IsBalanced n → Released (Audio.stop n.audio) → Closed (destroy n)
unfolding destroy close_media
destroy-Closed n h a = elim (Bool-cases n.media) [
  | inl on ↦
      rw (on, close_media)
        (record {
          unused = (
            ground (arith, h.has_service),
            ground (arith, h.has_client),
            ground (arith, h.has_media, on),
          );
          silent = (ground (arith, h.logs), refl);
          audio = a;
        })
  | inr off ↦
      rw (off, close_media)
        (record {
          unused = (
            ground (arith, h.has_service),
            ground (arith, h.has_client),
            ground (arith, h.has_media, off),
          );
          silent = (ground (arith, h.logs), refl);
          audio = a;
        })
]

unstarted-Released :
    (p : AudioParameters) (a : Audio) → Audio.construct p ≡ returned a → Released (Audio.stop a)
unfolding Audio.stop
unstarted-Released p a made =
    let new : IsNew (returned a) = subst IsNew made (construct-IsNew p) in
    record {
      streams = ground (arith, new.1.streams, new.0);
      capturing = ground (arith, new.1.capturing, new.1.active);
      callbacks = (refl, refl, refl, refl);
      members = (refl, ground (arith, new.1.active), refl);
      queue = refl;
    }

module _ (sdk : MediaSdk) where
  -- What holds of each result of `start`.
  abbrev Started : Exit (Unit {0}) × Node → Type 0
  Started x =
      IsBalanced x.1 × Released (Audio.stop x.1.audio) × Allowed sdk.is_multi_device sdk.encoders x

  with_audio-Started :
      (n : Node) (o : Option (Exit (Unit {0}) × Audio))
      → IsBalanced n
      → Allowed sdk.is_multi_device sdk.encoders (returned tt, n)
      → Ends Sound o
      → Results Started (with_audio sdk n o)
  with_audio-Started n none h ok s = elim s [ ]
  with_audio-Started n (some (threw what, a)) h ok s = (h, stop-Released a s, tt)
  with_audio-Started n (some (returned x, a)) h ok s = (
    h,
    stop-Released a s,
    λ on.
        let (near, (k, e, all)) = ok on in
        (near, (k, e, reconcile-available sdk.bus n.lazy_subscription k n.streams n.calls ∙ all)),
  )

  then_audio-Started :
      ((k : ℕ) → sdk.audio_sdk.raw.now_us k < sdk.audio_sdk.raw.now_us (suc k))
      → (p : AudioParameters) (o : Option (Exit (Unit {0}) × Node))
      → Results (Prepared p sdk.is_multi_device sdk.encoders) o
      → Results Started (then_audio sdk o)
  then_audio-Started ticks p none h = elim h [ ]
  then_audio-Started ticks p (some (threw what, n)) (h, made, ok) =
      (h, unstarted-Released p n.audio made, tt)
  then_audio-Started ticks p (some (returned x, n)) (h, made, ok) =
      with_audio-Started n _ h ok
        (start-Sound sdk.audio_sdk ticks n.connect_timeout_ms p n.audio made)

  -- Where the clocks move on from each occasion to the next, the start of a node that uses nothing of
  -- the SDK yet returns or throws, and its destructor then gives back the service, the client, the media
  -- client and the audio, takes the callbacks off and stops the timer. Where the start returns, a node
  -- with video is local, and each of its cameras is among the encoders that the layout names.
  pub start-destroy-Closed :
      (p : AudioParameters) (n : Node)
      → ((k : ℕ) → sdk.now_us k < sdk.now_us (suc k))
      → ((k : ℕ) → sdk.audio_sdk.raw.now_us k < sdk.audio_sdk.raw.now_us (suc k))
      → Audio.construct p ≡ returned n.audio
      → (n.services ≡ 0) × (n.clients ≡ 0) × (n.buses ≡ 0)
      → (n.service ≡ false) × (n.client ≡ false) × (n.media ≡ false) × (n.log_callback ≡ false)
      → (x : Exit (Unit {0}) × Node) × (start sdk n ≡ some x)
        × Closed (destroy x.1)
        × Allowed sdk.is_multi_device sdk.encoders x
  unfolding start
  start-destroy-Closed p n ticks audio_ticks made unused unset =
      let h : IsBalanced n = record {
        has_service = ground (arith, unused, unset);
        has_client = ground (arith, unused, unset);
        has_media = ground (arith, unused, unset);
        logs = ground (arith, unset);
      } in
      let prepared = initialize-Prepared sdk ticks p n h made (unset.2, unset.1) unset.0 in
      let (x, e, (balanced, released, ok)) =
        Results-result Started _ (then_audio-Started audio_ticks p _ prepared) in
      (x, e, destroy-Closed x.1 balanced released, ok)
