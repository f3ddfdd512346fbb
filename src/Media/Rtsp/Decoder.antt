-- ===== src/Media/Rtsp/Decoder.antt =====
-- uniubi_rtsp_driver_node.cpp: the decoder's thread, `decode_loop`, `decode_session` and
-- `wait_reconnect`, from one call of FFmpeg to the next.
use uniubi_ros.Prelude.{
  ℕ, ◌+◌, ◌-◌, ℤ, Bool, true, false, not, ◌&&◌, ◌||◌, Option, none, some, ◌∷◌, min, ltb, leb,
  if◌then◌else◌,
}
use uniubi_ros.Client.{ms}
use uniubi_ros.Media.Rtsp.Frames.{Received, is_negative, same_int, take_frame}
use uniubi_ros.Media.Rtsp.{
  Parameters, Place, closed, opening, probing, ended, connected, reading, draining, waiting,
  DecoderThread, Camera, Flags, running, at_least_zero,
}

-- What the world answers to a step of the thread: the steady clock, and FFmpeg. A pointer is
-- whether it is set.
pub record DecoderAnswer : Type 0 where
  pub now : ℕ
  pub format_allocated : Bool
  pub open_result : ℤ
  pub format : Bool
  pub best_stream : ℤ
  pub codec_known : Bool
  pub stream_info : ℤ
  pub analysed_at : ℕ
  pub analysed_stream : ℤ
  pub codec_found : Bool
  pub decoder_allocated : Bool
  pub parameters_set : ℤ
  pub decoder_opened : ℤ
  pub frame_allocated : Bool
  pub packet_allocated : Bool
  pub read_result : ℤ
  pub stream_index : ℤ
  pub send_result : ℤ
  pub received : Option Received

-- `interrupt_camera`: whether a call of FFmpeg gives up.
unfoldable pub interrupt_camera : Flags → ℕ → DecoderThread → Bool
interrupt_camera f now d = f.stop || leb d.deadline now

abbrev pub is_due : Option ℕ → ℕ → Bool
is_due none now = true
is_due (some t) now = leb t now

-- The warning of `decode_loop`, and the entry of `wait_reconnect`.
unfoldable pub after_session : Parameters → Flags → ℕ → Bool → DecoderThread → DecoderThread
after_session p f now result d =
    let t = record d { place = waiting (at_least_zero p.reconnect_delay_ms) } in
    if not result && running f && is_due d.next_warning now
    then record t { next_warning = some (now + ms 5000); warnings = now ∷ d.warnings }
    else t

abbrev pub with_deadline : ℕ → ℕ → Place → DecoderThread → DecoderThread
with_deadline now timeout_ms place d = record d { deadline = now + ms timeout_ms; place = place }

-- The converter is a local of the session.
abbrev pub enter_reading : ℤ → DecoderThread → DecoderThread
enter_reading video d = record d {
  place = connected video;
  converter = false;
  source_width = 0;
  source_height = 0;
  source_format = 0;
}

module _ (p : Parameters) (f : Flags) (a : DecoderAnswer) where
  -- `return false`.
  abbrev pub give_up : DecoderThread → DecoderThread
  give_up d = after_session p f a.now false d

  unfoldable pub begin_session : DecoderThread → DecoderThread
  unfolding after_session
  begin_session d =
      let t = with_deadline a.now (at_least_zero p.open_timeout_ms) opening d in
      if not a.format_allocated then give_up t else t

  unfoldable pub open_input : DecoderThread → DecoderThread
  unfolding after_session
  open_input d =
      if is_negative a.open_result || not a.format
      then give_up d
      else with_deadline a.now (at_least_zero p.open_timeout_ms) probing d

  -- The decoder of the stream with index `video`.
  unfoldable pub open_decoder : ℤ → DecoderThread → DecoderThread
  unfolding after_session
  open_decoder video d =
      if is_negative video
        || not a.codec_found
        || not a.decoder_allocated
        || is_negative a.parameters_set
        || is_negative a.decoder_opened
        || not a.frame_allocated
        || not a.packet_allocated
      then give_up d
      else enter_reading video d

  unfoldable pub probe : DecoderThread → DecoderThread
  unfolding after_session open_decoder
  probe d =
      if is_negative a.best_stream || not a.codec_known
      then (if is_negative a.stream_info || leb d.deadline a.analysed_at
          then give_up d
          else open_decoder a.analysed_stream d)
      else open_decoder a.best_stream d

  -- The condition of the read loop; behind it the session returns `stop_.load() || !rclcpp::ok()`.
  unfoldable pub begin_read : ℤ → DecoderThread → DecoderThread
  unfolding after_session
  begin_read video d =
      if running f
      then with_deadline a.now (at_least_zero p.read_timeout_ms) (reading video) d
      else after_session p f a.now (not (running f)) d

  unfoldable pub read_frame : ℤ → DecoderThread → DecoderThread
  unfolding after_session
  read_frame video d =
      if is_negative a.read_result
      then after_session p f a.now (not (running f)) d
      else if not (same_int a.stream_index video) || is_negative a.send_result
      then record d { place = connected video }
      else record d { place = draining video }

  -- A round of `wait_reconnect`, or what follows it.
  unfoldable pub wait_reconnect : ℕ → DecoderThread → DecoderThread
  wait_reconnect remaining d =
      if running f && ltb 0 remaining
      then record d {
        place = waiting (remaining - min remaining 100);
        slept = d.slept + min remaining 100;
      }
      else record d { place = if running f then closed else ended }

module _ (p : Parameters) where
  unfoldable pub receive_frame : ℤ → Option Received → Camera → Camera
  unfolding take_frame
  receive_frame video none c = record c {
    decoder_thread = record c.decoder_thread { place = connected video };
  }
  receive_frame video (some r) c = take_frame p r c

  abbrev pub with_decoder : (DecoderThread → DecoderThread) → Camera → Camera
  with_decoder g c = record c { decoder_thread = g c.decoder_thread }

  -- The thread goes on from where it stands.
  unfoldable pub decode_at : Place → Flags → DecoderAnswer → Camera → Camera
  unfolding begin_session open_input probe begin_read read_frame receive_frame wait_reconnect
  decode_at closed f a c = with_decoder (begin_session p f a) c
  decode_at opening f a c = with_decoder (open_input p f a) c
  decode_at probing f a c = with_decoder (probe p f a) c
  decode_at (connected video) f a c = with_decoder (begin_read p f a video) c
  decode_at (reading video) f a c = with_decoder (read_frame p f a video) c
  decode_at (draining video) f a c = receive_frame video a.received c
  decode_at (waiting remaining) f a c = with_decoder (wait_reconnect p f a remaining) c
  decode_at ended f a c = c

  unfoldable pub decode_step : Flags → DecoderAnswer → Camera → Camera
  unfolding decode_at
  decode_step f a c = decode_at c.decoder_thread.place f a c
