-- ===== src/Media/Rtsp/Reconnect.antt =====
-- uniubi_rtsp_driver_node.cpp: how the decoder's thread comes back from `wait_reconnect`.
use uniubi_ros.Prelude.{
  ℕ, zero, suc, ◌+◌, ◌-◌, ◌/◌, true, List, [], ◌∷◌, ◌≡◌, refl, arith, length, min, ltb,
}
use uniubi_ros.Media.Rtsp.{Parameters, closed, waiting, Camera, Flags, running}
use uniubi_ros.Media.Rtsp.Decoder.{DecoderAnswer, wait_reconnect, decode_at, decode_step}
use uniubi_ros.Media.Rtsp.Halting.{decode_all, Seen}

module _ (p : Parameters) (f : Flags) (a : DecoderAnswer) (on : running f ≡ true) (c : Camera) where
  wait_done :
      c.decoder_thread.place ≡ waiting 0
      → ((decode_step p f a c).decoder_thread.place ≡ closed)
        × ((decode_step p f a c).decoder_thread.slept ≡ c.decoder_thread.slept + 0)
  unfolding decode_step wait_reconnect
  wait_done e = rw (e, on, decode_at, wait_reconnect) (refl, omega arith)

  wait_slice :
      (r : ℕ)
      → c.decoder_thread.place ≡ waiting (suc r)
      → ((decode_step p f a c).decoder_thread.place ≡ waiting (suc r - min (suc r) 100))
        × ((decode_step p f a c).decoder_thread.slept ≡ c.decoder_thread.slept + min (suc r) 100)
  unfolding decode_step wait_reconnect
  wait_slice r e =
      let positive : ltb 0 (suc r) ≡ true = ground arith in
      rw (e, on, positive, decode_at, wait_reconnect) (refl, refl)

-- A decoder's thread that waits to connect again with `remaining` milliseconds, and sees that the
-- driver runs, comes back to the beginning of a session after the slices of 100 ms that they make
-- and one more step, and has slept these milliseconds exactly.
pub wait_reconnect_returns :
    (p : Parameters) (xs : List (Flags × DecoderAnswer)) (c : Camera) (remaining : ℕ)
    → Seen true xs
    → c.decoder_thread.place ≡ waiting remaining
    → length xs ≡ (remaining + 99) / 100 + 1
    → ((decode_all p xs c).decoder_thread.place ≡ closed)
      × ((decode_all p xs c).decoder_thread.slept ≡ c.decoder_thread.slept + remaining)
wait_reconnect_returns p [] c remaining on e rounds = absurd (omega arith)
wait_reconnect_returns p ((f, a) ∷ []) c zero on e rounds = wait_done p f a on.0 c e
wait_reconnect_returns p ((f, a) ∷ x ∷ xs) c zero on e rounds = absurd (omega arith)
wait_reconnect_returns p ((f, a) ∷ xs) c (suc r) on e rounds =
    let slice = wait_slice p f a on.0 c r e in
    let rest =
      wait_reconnect_returns p xs (decode_step p f a c) (suc r - min (suc r) 100) on.1 slice.0
        (omega arith) in
    (rest.0, omega (arith, rest.1, slice.1))
