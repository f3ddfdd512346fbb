-- ===== src/Media/Config/Accepted.antt =====
-- Which parameters `validate_config` accepts.
use uniubi_ros.Prelude.{
  ℤ, Bool, true, false, not, ◌||◌, List, [], ◌∷◌, ◌≡◌, ◌≢◌, refl, ◌↔◌, arith, length, is_nil,
  is_positive, Bytes, same_eq, strip, All, if◌then◌else◌,
}
use uniubi_ros.Client.{Exit, returned, threw}
use uniubi_ros.Media.Config.{
  valid_name, is_rtsp, has_cntrl, contains, check_cameras, check_prefix, after_cameras, all_names,
  parts, drop_root, is_quality, validate_config,
}

-- No text stands twice in the list.
abbrev pub IsDistinct : List Bytes → Type 0
IsDistinct [] = Unit
IsDistinct (x ∷ xs) = All (λ y. x ≢ y) xs × IsDistinct xs

-- One camera: an RTSP address without control characters, a ROS name, a frame that is not empty.
abbrev pub IsCamera : Bytes → Bytes → Bytes → Type 0
IsCamera url name frame =
    (is_rtsp url ≡ true)
    × (has_cntrl url ≡ false)
    × (valid_name name ≡ true)
    × (is_nil frame ≡ false)

abbrev pub AreCameras : List Bytes → List Bytes → List Bytes → Type 0
AreCameras (url ∷ urls) (name ∷ names) (frame ∷ frames) =
    IsCamera url name frame × AreCameras urls names frames
AreCameras _ _ _ = Unit

abbrev Fresh : List Bytes → List Bytes → Type 0
Fresh seen names = All (λ n. contains seen n ≡ false) names

Fresh-cons :
    (x : Bytes) (seen names : List Bytes)
    → Fresh (x ∷ seen) names ↔ (All (λ y. x ≢ y) names × Fresh seen names)
Fresh-cons x seen [] = ground arith
Fresh-cons x seen (n ∷ names) = ground (arith, same_eq x n, Fresh-cons x seen names)

-- The tests on one camera, before the result for the others.
tests_iff :
    (a b c d e : Bool) (r : Exit (Unit {0}))
    → ((if not a
          then threw "every rtsp_urls entry must begin with rtsp:// or rtsps://"
          else if b
          then threw "rtsp_urls contains a control character"
          else if not c || d
          then threw "camera_names must be unique ROS names"
          else if e
          then threw "frame_ids must not contain empty values"
          else r)
        ≡ returned tt)
      ↔ ((a ≡ true) × (b ≡ false) × (c ≡ true) × (d ≡ false) × (e ≡ false) × (r ≡ returned tt))
tests_iff a b c d e r = ground arith

check_cameras_iff :
    (seen urls names frames : List Bytes)
    → length urls ≡ length names
    → length urls ≡ length frames
    → (check_cameras seen urls names frames ≡ returned tt)
      ↔ (AreCameras urls names frames × Fresh seen names × IsDistinct names)
unfolding check_cameras
check_cameras_iff seen [] [] [] e f = ground arith
check_cameras_iff seen [] (n ∷ ns) frames e f = absurd (omega arith)
check_cameras_iff seen [] [] (x ∷ xs) e f = absurd (omega arith)
check_cameras_iff seen (u ∷ us) [] frames e f = absurd (omega arith)
check_cameras_iff seen (u ∷ us) (n ∷ ns) [] e f = absurd (omega arith)
check_cameras_iff seen (u ∷ us) (n ∷ ns) (x ∷ xs) e f =
    let chain =
      tests_iff (is_rtsp u) (has_cntrl u) (valid_name n) (contains seen n) (is_nil x)
        (check_cameras (n ∷ seen) us ns xs) in
    let rest = check_cameras_iff (n ∷ seen) us ns xs (omega arith) (omega arith) in
    let fresh = Fresh-cons n seen ns in
    (
      λ h.
          let (a, b, c, d, k, r) = chain.0 h in
          let (cameras, unseen, distinct) = rest.0 r in
          let (differ, old) = fresh.0 unseen in
          (((a, b, c, k), cameras), (d, old), (differ, distinct)),
      λ (((a, b, c, k), cameras), (d, old), (differ, distinct)).
          chain.1 (a, b, c, d, k, rest.1 (cameras, fresh.1 (differ, old), distinct)),
    )

-- The prefix is empty up to slashes, or its parts are ROS names.
abbrev pub IsPrefix : Bytes → Type 0
IsPrefix prefix =
    is_nil (strip prefix) ≡ false → all_names (parts (drop_root (strip prefix))) ≡ true

pub record IsConfig (urls names frame_ids : List Bytes) (topic_prefix : Bytes)
    (open_timeout_ms read_timeout_ms reconnect_delay_ms jpeg_quality : ℤ) : Type 0 where
  pub some_camera : is_nil urls ≡ false
  pub paired_names : length urls ≡ length names
  pub paired_frames : length urls ≡ length frame_ids
  pub positive_open : is_positive open_timeout_ms ≡ true
  pub positive_read : is_positive read_timeout_ms ≡ true
  pub positive_delay : is_positive reconnect_delay_ms ≡ true
  pub quality : is_quality jpeg_quality ≡ true
  pub cameras : AreCameras urls names frame_ids
  pub distinct : IsDistinct names
  pub rooted : IsPrefix topic_prefix

Fresh-nil : (names : List Bytes) → Fresh [] names
Fresh-nil [] = tt
Fresh-nil (n ∷ ns) = (refl, Fresh-nil ns)

after_cameras_iff :
    (r : Exit (Unit {0})) (prefix : Bytes)
    → (after_cameras r prefix ≡ returned tt) ↔ ((r ≡ returned tt) × IsPrefix prefix)
unfolding check_prefix
after_cameras_iff (returned tt) prefix = ground arith
after_cameras_iff (threw what) prefix = ground arith

-- `validate_config` returns, instead of throwing, exactly for a configuration of one or more
-- cameras with one name and one frame each, positive times, a quality of 1 to 100, RTSP addresses
-- without control characters, ROS names of which no two are equal, frames that are not empty, and a
-- prefix that is empty or made of ROS names.
pub validate_config_iff :
    (urls names frame_ids : List Bytes) (prefix : Bytes)
    (open_timeout_ms read_timeout_ms reconnect_delay_ms jpeg_quality : ℤ)
    → (validate_config urls names frame_ids prefix open_timeout_ms read_timeout_ms
          reconnect_delay_ms jpeg_quality
        ≡ returned tt)
      ↔ IsConfig urls names frame_ids prefix open_timeout_ms read_timeout_ms reconnect_delay_ms
          jpeg_quality
unfolding validate_config
validate_config_iff urls names frame_ids prefix open_timeout_ms read_timeout_ms reconnect_delay_ms
      jpeg_quality =
    ground (
      arith,
      Fresh-nil names,
      check_cameras_iff [] urls names frame_ids,
      after_cameras_iff (check_cameras [] urls names frame_ids) prefix,
    )
