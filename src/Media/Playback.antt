-- ===== src/Media/Playback.antt =====
-- uniubi_media_driver/src/audio_playback_queue.hpp, and the playback of
-- uniubi_media_driver/src/audio_bridge.hpp: the callbacks that `start` creates.
pub mod Order
pub mod Volume
use uniubi_ros.Prelude.{
  ℕ, suc, ℤ, pos, negsuc, String, Bool, true, false, not, ◌&&◌, ◌||◌, ◌++◌, Option, none, some,
  List, [], ◌∷◌, ltb, leb, ◌==◌, str_eq, length, if◌then◌else◌,
}

-- The message `AudioFrame`; its field `data` is `bytes` here.
pub record AudioFrame : Type 0 where
  pub sample_rate : ℕ
  pub sample_format : ℕ
  pub channel_count : ℕ
  pub sequence : ℕ
  pub bytes : List ℕ

pub record AudioPlaybackQueue : Type 0 where
  pub frames : List AudioFrame

unfoldable pub valid : AudioFrame → Bool
valid f =
    f.sample_rate == 16000
    && f.sample_format == 16
    && f.channel_count == 1
    && length f.bytes == 1280

unfoldable pub push : AudioFrame → AudioPlaybackQueue → Bool × AudioPlaybackQueue
unfolding valid
push f q =
    if not (valid f) || leb 2 (length q.frames)
    then (false, q)
    else (true, record { frames = q.frames ++ (f ∷ []) })

-- The frame that `pop` writes to its reference parameter; `none` for the result `false`.
unfoldable pub pop_front : List AudioFrame → Option AudioFrame × AudioPlaybackQueue
pop_front [] = (none, record { frames = [] })
pop_front (f ∷ fs) = (some f, record { frames = fs })

unfoldable pub pop : AudioPlaybackQueue → Option AudioFrame × AudioPlaybackQueue
pop q = pop_front q.frames

unfoldable pub clear : AudioPlaybackQueue → AudioPlaybackQueue
clear q = record { frames = [] }

-- The frame of the robot SDK, and what its raw stream answers, by the number of the occasion.
pub record SdkFrame : Type 0 where
  pub sample_rate : ℕ
  pub sample_format : ℕ
  pub channel_count : ℕ
  pub data_type : ℕ
  pub sequence : ℕ
  pub timestamp : ℕ
  pub bytes : List ℕ

pub record Raw : Type 0 where
  pub ready : ℕ → Bool
  pub write : ℕ → SdkFrame → Bool
  pub reset : ℕ → Bool
  pub set_volume : ℕ → ℤ → Bool
  -- `steady_clock` in microseconds
  pub now_us : ℕ → ℕ

-- The members of `AudioBridge` that the callbacks change. `writes` and `volumes` are what the raw
-- stream was given so far, `taken` the frames that left the queue for it, each in order; `steps`
-- numbers the occasions.
pub record AudioBridge : Type 0 where
  pub queue : AudioPlaybackQueue
  pub volume : ℤ
  pub playback : Bool
  pub steps : ℕ
  pub taken : List AudioFrame
  pub writes : List SdkFrame
  pub volumes : List ℤ

pub data ParameterValue : Type 0 where
  integer : ℤ → ParameterValue
  other : ParameterValue

pub record Parameter : Type 0 where
  pub name : String
  pub value : ParameterValue

pub data AudioEvent : Type 0 where
  frame_arrived : AudioFrame → AudioEvent
  timer_fired reset_requested : AudioEvent
  parameters_set : List Parameter → AudioEvent

abbrev pub is_volume : ℤ → Bool
is_volume (pos n) = leb n 100
is_volume (negsuc n) = false

abbrev pub same_integer : ℤ → ℤ → Bool
same_integer (pos a) (pos b) = a == b
same_integer (negsuc a) (negsuc b) = a == b
same_integer _ _ = false

-- The next occasion.
abbrev pub advance : AudioBridge → AudioBridge
advance b = record b { steps = suc b.steps }

-- An integer of 0 to 100, and the volume behind one more parameter.
unfoldable pub checked_volume : ParameterValue → Option ℤ
checked_volume (integer v) = if is_volume v then some v else none
checked_volume other = none

unfoldable pub next_volume : Parameter → ℤ → Option ℤ
unfolding checked_volume
next_volume p volume = if str_eq p.name "audio_volume" then checked_volume p.value else some volume

-- The volume that the parameters ask for, from the one so far; `none` for an invalid one.
unfoldable pub requested_volume : List Parameter → ℤ → Option ℤ
requested_volume [] volume = some volume
requested_volume (p ∷ ps) volume = elim (next_volume p volume) [
  | none ↦ none
  | some v ↦ requested_volume ps v
]

module _ (raw : Raw) where
  open raw use {ready, write, reset, set_volume, now_us}

  -- The subscription of `audio/playback`. A stream that is not ready is not offered the frame.
  unfoldable pub on_frame : AudioFrame → AudioBridge → AudioBridge
  on_frame f b =
      let t = advance b in if ready b.steps then record t { queue = (push f t.queue).1 } else t

  unfoldable pub sdk_frame : AudioFrame → ℕ → SdkFrame
  sdk_frame f now = record {
    sample_rate = 16000;
    sample_format = 16;
    channel_count = 1;
    data_type = 0;
    sequence = f.sequence;
    timestamp = now;
    bytes = f.bytes;
  }

  unfoldable pub write_frame : AudioFrame → AudioBridge → AudioBridge
  unfolding sdk_frame clear
  write_frame f b =
      let frame = sdk_frame f (now_us b.steps) in
      let t = record (advance b) {
        taken = b.taken ++ (f ∷ []);
        writes = b.writes ++ (frame ∷ []);
      } in
      if write b.steps frame then t else record t { queue = clear t.queue }

  unfoldable pub play : Option AudioFrame × AudioPlaybackQueue → AudioBridge → AudioBridge
  play (none, q) b = b
  play (some f, q) b = write_frame f (record b { queue = q })

  -- The timer of 40 ms.
  unfoldable pub on_timer : AudioBridge → AudioBridge
  unfolding clear
  on_timer b =
      let t = advance b in
      if ready b.steps then play (pop t.queue) t else record t { queue = clear t.queue }

  -- The service `audio/reset`: the result, and the bridge.
  unfoldable pub on_reset : AudioBridge → Bool × AudioBridge
  unfolding clear
  on_reset b = (reset b.steps, record (advance b) { queue = clear b.queue })

  unfoldable pub apply_volume : Option ℤ → AudioBridge → Bool × AudioBridge
  apply_volume none b = (false, b)
  apply_volume (some volume) b =
      if not (same_integer volume b.volume) && b.playback
      then (let t = record (advance b) { volumes = b.volumes ++ (volume ∷ []) } in
          if set_volume b.steps volume then (true, record t { volume = volume }) else (false, t))
      else (true, record b { volume = volume })

  -- The callback on parameters: whether they are accepted, and the bridge.
  unfoldable pub on_parameters : List Parameter → AudioBridge → Bool × AudioBridge
  on_parameters ps b = apply_volume (requested_volume ps b.volume) b

  unfoldable pub handle : AudioEvent → AudioBridge → AudioBridge
  handle (frame_arrived f) b = on_frame f b
  handle timer_fired b = on_timer b
  handle reset_requested b = (on_reset b).1
  handle (parameters_set ps) b = (on_parameters ps b).1

  unfoldable pub handle_all : List AudioEvent → AudioBridge → AudioBridge
  handle_all [] b = b
  handle_all (e ∷ es) b = handle_all es (handle e b)
