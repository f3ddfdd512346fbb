-- ===== src/Media/Rtsp/Workers.antt =====
-- uniubi_rtsp_driver_node.cpp: the threads of all cameras in any order, `fail_worker`, the
-- destructor, and the exit code of `main`.
use uniubi_ros.Prelude.{ℕ, zero, suc, true, false, List, [], ◌∷◌, if◌then◌else◌}
use uniubi_ros.Client.{Exit, returned, threw}
use uniubi_ros.Media.Rtsp.{Camera, Flags, RtspDriver, ended, finished}
use uniubi_ros.Media.Rtsp.Decoder.{DecoderAnswer, decode_step}
use uniubi_ros.Media.Rtsp.Publisher.{PublisherAnswer, publish_step}

-- What happens: a step of a thread of the camera with an index, an exception that leaves it, the
-- end of ROS, and the destructor.
pub data Step : Type 0 where
  decode : ℕ → DecoderAnswer → Step
  publish : ℕ → PublisherAnswer → Step
  decoder_throws publisher_throws : ℕ → Step
  ros_shutdown destroyed : Step

unfoldable pub fail_worker : Flags → Flags
fail_worker f = if f.fatal then f else record { stop = true; fatal = true; ros_ok = false }

abbrev pub update_at : (Camera → Camera) → ℕ → List Camera → List Camera
update_at g i [] = []
update_at g zero (c ∷ cs) = g c ∷ cs
update_at g (suc i) (c ∷ cs) = c ∷ update_at g i cs

abbrev pub end_decoder : Camera → Camera
end_decoder c = record c { decoder_thread = record c.decoder_thread { place = ended } }

abbrev pub end_publisher : Camera → Camera
end_publisher c = record c { publisher_thread = record c.publisher_thread { stage = finished } }

module _ (lambda : ℕ) where
  unfoldable pub node_step : Step → RtspDriver → RtspDriver
  unfolding fail_worker
  node_step (decode i a) n = record n {
    cameras = update_at (decode_step n.parameters n.flags a) i n.cameras;
  }
  node_step (publish i a) n = record n {
    cameras = update_at (publish_step lambda n.parameters a n.flags) i n.cameras;
  }
  node_step (decoder_throws i) n = record n {
    cameras = update_at end_decoder i n.cameras;
    flags = fail_worker n.flags;
  }
  node_step (publisher_throws i) n = record n {
    cameras = update_at end_publisher i n.cameras;
    flags = fail_worker n.flags;
  }
  node_step ros_shutdown n = record n { flags = record n.flags { ros_ok = false } }
  node_step destroyed n = record n { flags = record n.flags { stop = true } }

  unfoldable pub run_node : List Step → RtspDriver → RtspDriver
  run_node [] n = n
  run_node (s ∷ ss) n = run_node ss (node_step s n)

  -- `main`: what it returns behind `spin`, or where the constructor throws.
  unfoldable pub exit_code : List Step → Exit RtspDriver → ℕ
  unfolding run_node
  exit_code steps (threw what) = 1
  exit_code steps (returned n) = if (run_node steps n).flags.fatal then 1 else 0
