-- ===== src/Media/Setup/Prepared.antt =====
-- What the media node has of the SDK behind `initialize_media_bus`.
use uniubi_ros.Prelude.{
  ℕ, zero, suc, ◌+◌, ◌*◌, ◌≤◌, ◌<◌, Bool, true, false, not, ◌||◌, Option, none, some, String, leb,
  ◌≡◌, refl, arith, Bool-cases, inl, inr, if◌then◌else◌,
}
use uniubi_ros.Client.{Exit, returned, threw}
use uniubi_ros.Media.Audio.{Audio, AudioParameters}
use uniubi_ros.Media.Audio as Audio
use uniubi_ros.Media.Audio.Released.{count}
use uniubi_ros.Media.Setup.{
  MediaSdk, Node, refused, all_available, later, check_layout, open_media, wait_connected,
  open_client, unless_refused, initialize_media_bus,
}

-- The counts of the SDK are those of the pointers.
pub record Balanced (services clients buses : ℕ) (service client media log : Bool) : Type 0 where
  pub has_service : services ≡ count service
  pub has_client : clients ≡ count client
  pub has_media : buses ≡ count media
  pub logs : log ≡ service

abbrev pub IsBalanced : Node → Type 0
IsBalanced n = Balanced n.services n.clients n.buses n.service n.client n.media n.log_callback

-- There is a result with `P`.
abbrev pub Results : (Exit (Unit {0}) × Node → Type 0) → Option (Exit (Unit {0}) × Node) → Type 0
Results P none = ⊥
Results P (some x) = P x

pub Results-result :
    (P : Exit (Unit {0}) × Node → Type 0) (o : Option (Exit (Unit {0}) × Node))
    → Results P o
    → (x : Exit (Unit {0}) × Node) × (o ≡ some x) × P x
Results-result P none h = elim h [ ]
Results-result P (some x) h = (x, refl, h)

-- Video is local, and its cameras are among the encoders.
abbrev pub Allowed : Bool → Option ℕ → Exit (Unit {0}) × Node → Type 0
Allowed remote encoders (threw what, n) = Unit {0}
Allowed remote encoders (returned _, n) =
    n.enable_video ≡ true
    → (remote ≡ false) × ((k : ℕ) × (encoders ≡ some k) × (all_available k n.streams ≡ true))

check_layout-Allowed :
    (remote : Bool) (encoders : Option ℕ) (n : Node)
    → (n.enable_video ≡ true → remote ≡ false)
    → Allowed remote encoders (check_layout encoders n, n)
unfolding check_layout
check_layout-Allowed remote none n local = tt
check_layout-Allowed remote (some k) n local = elim (Bool-cases (all_available k n.streams)) [
  | inl all ↦ rw (all) (λ on. (local on, (k, refl, all)))
  | inr missing ↦ rw (missing) tt
]

-- What holds of each result before the audio starts.
abbrev pub Prepared : AudioParameters → Bool → Option ℕ → Exit (Unit {0}) × Node → Type 0
Prepared p remote encoders x =
    IsBalanced x.1 × (Audio.construct p ≡ returned x.1.audio) × Allowed remote encoders x

module _ (sdk : MediaSdk) where
  open_media-Prepared :
      (p : AudioParameters) (n : Node)
      → IsBalanced n
      → Audio.construct p ≡ returned n.audio
      → n.media ≡ false
      → (n.enable_video ≡ true → sdk.is_multi_device ≡ false)
      → Prepared p sdk.is_multi_device sdk.encoders (open_media sdk n)
  unfolding open_media
  open_media-Prepared p n h made none_yet local = elim (Bool-cases sdk.creates_media) [
    | inr no_client ↦ rw (no_client) (h, made, tt)
    | inl fine ↦ elim (Bool-cases sdk.sets_up) [
      | inr failed ↦ rw (fine, failed) (opened, made, tt)
      | inl up ↦ elim (Bool-cases n.enable_video) [
        | inr blind ↦ rw (fine, up, blind) (opened, made, λ on. absurd (ground (arith, blind, on)))
        | inl video ↦
            rw (fine, up, video)
              (
                opened,
                made,
                check_layout-Allowed sdk.is_multi_device sdk.encoders _ (λ on. local video),
              )
      ]
    ]
  ]
    where
      opened : IsBalanced (record n { media = true; buses = suc n.buses })
      opened = record {
        has_service = h.has_service;
        has_client = h.has_client;
        has_media = ground (arith, h.has_media, none_yet);
        logs = h.logs;
      }

  wait_connected-Prepared :
      ((k : ℕ) → sdk.now_us k < sdk.now_us (suc k))
      → (p : AudioParameters) (fuel deadline : ℕ) (n : Node) → deadline ≤ sdk.now_us n.steps + fuel
      → IsBalanced n
      → Audio.construct p ≡ returned n.audio
      → n.media ≡ false
      → (n.enable_video ≡ true → sdk.is_multi_device ≡ false)
      → Results
          (Prepared p sdk.is_multi_device sdk.encoders)
          (wait_connected sdk (suc fuel) deadline n)
  unfolding wait_connected
  wait_connected-Prepared ticks p zero deadline n near h made none_yet local =
      elim (Bool-cases (sdk.connected n.steps)) [
        | inl up ↦ rw (up, wait_connected) (open_media-Prepared p (later n) h made none_yet local)
        | inr down ↦ elim (Bool-cases (not (sdk.ok n.steps) || leb deadline (sdk.now_us n.steps))) [
          | inl over ↦ rw (down, over, wait_connected) (h, made, tt)
          | inr on ↦ absurd (ground (arith, near, on))
        ]
      ]
  wait_connected-Prepared ticks p (suc fuel) deadline n near h made none_yet local =
      elim (Bool-cases (sdk.connected n.steps)) [
        | inl up ↦ rw (up, wait_connected) (open_media-Prepared p (later n) h made none_yet local)
        | inr down ↦ elim (Bool-cases (not (sdk.ok n.steps) || leb deadline (sdk.now_us n.steps))) [
          | inl over ↦ rw (down, over, wait_connected) (h, made, tt)
          | inr on ↦
              rw (down, on, wait_connected)
                (wait_connected-Prepared ticks p fuel deadline (later n)
                  (omega (arith, near, ticks n.steps)) h made none_yet local)
        ]
      ]

  open_client-Prepared :
      ((k : ℕ) → sdk.now_us k < sdk.now_us (suc k))
      → (p : AudioParameters) (n : Node) → IsBalanced n
      → Audio.construct p ≡ returned n.audio
      → (n.media ≡ false) × (n.client ≡ false)
      → (n.enable_video ≡ true → sdk.is_multi_device ≡ false)
      → Results (Prepared p sdk.is_multi_device sdk.encoders) (open_client sdk n)
  unfolding open_client
  open_client-Prepared ticks p n h made none_yet local = elim (Bool-cases sdk.creates_client) [
    | inr no_client ↦ rw (no_client, open_client) (h, made, tt)
    | inl fine ↦ elim (Bool-cases sdk.connects) [
      | inr failed ↦ rw (fine, failed, open_client) (opened, made, tt)
      | inl linked ↦
          rw (fine, linked, open_client)
            (wait_connected-Prepared ticks p (n.connect_timeout_ms * 1000) _ _
              (omega (arith, ticks n.steps)) opened made none_yet.0 local)
    ]
  ]
    where
      opened : IsBalanced (record n { client = true; clients = suc n.clients })
      opened = record {
        has_service = h.has_service;
        has_client = ground (arith, h.has_client, none_yet);
        has_media = h.has_media;
        logs = h.logs;
      }

  refused-local :
      (remote : Bool) (n : Node) → refused remote n ≡ none → n.enable_video ≡ true → remote ≡ false
  unfolding refused
  refused-local remote n e on = ground (arith, e, on)

  unless_refused-Prepared :
      ((k : ℕ) → sdk.now_us k < sdk.now_us (suc k))
      → (p : AudioParameters) (o : Option String) (n : Node) → refused sdk.is_multi_device n ≡ o
      → IsBalanced n
      → Audio.construct p ≡ returned n.audio
      → (n.media ≡ false) × (n.client ≡ false)
      → Results (Prepared p sdk.is_multi_device sdk.encoders) (unless_refused sdk o n)
  unless_refused-Prepared ticks p (some what) n e h made none_yet = (h, made, tt)
  unless_refused-Prepared ticks p none n e h made none_yet =
      open_client-Prepared ticks p n h made none_yet (refused-local sdk.is_multi_device n e)

  pub initialize-Prepared :
      ((k : ℕ) → sdk.now_us k < sdk.now_us (suc k))
      → (p : AudioParameters) (n : Node) → IsBalanced n
      → Audio.construct p ≡ returned n.audio
      → (n.media ≡ false) × (n.client ≡ false)
      → n.service ≡ false
      → Results (Prepared p sdk.is_multi_device sdk.encoders) (initialize_media_bus sdk n)
  unfolding initialize_media_bus
  initialize-Prepared ticks p n h made none_yet unused = begun sdk.initial_service
    where
      opened :
          IsBalanced (record n { service = true; log_callback = true; services = suc n.services })
      opened = record {
        has_service = ground (arith, h.has_service, unused);
        has_client = h.has_client;
        has_media = h.has_media;
        logs = refl;
      }

      begun :
          (c : Bool)
          → let t = record n { service = true; log_callback = true; services = suc n.services } in
            Results (Prepared p sdk.is_multi_device sdk.encoders) (
              if not c
              then some (threw "Motion SDK initialization failed", t)
              else unless_refused sdk (refused sdk.is_multi_device t) t)
      begun false = (opened, made, tt)
      begun true =
          unless_refused-Prepared ticks p _
            (record n { service = true; log_callback = true; services = suc n.services }) refl
            opened made none_yet
