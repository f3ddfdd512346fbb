-- ===== src/Media/Config.antt =====
-- uniubi_media_driver/src/rtsp_config.hpp: the checks of the RTSP driver's parameters.
pub mod Accepted
pub mod Topics
use uniubi_ros.Prelude.{
  ℕ, ℤ, pos, negsuc, Bool, true, false, not, ◌&&◌, ◌||◌, ◌++◌, List, [], ◌∷◌, leb, ◌==◌, length,
  is_nil, is_positive, Bytes, slash, same, starts_with, is_alpha, is_alnum, is_cntrl, strip,
  if◌then◌else◌,
}
use uniubi_ros.Client.{Exit, returned, threw}

-- "rtsp://", "rtsps://" and "/image_raw".
abbrev pub rtsp : Bytes
rtsp = 114 ∷ 116 ∷ 115 ∷ 112 ∷ 58 ∷ 47 ∷ 47 ∷ []

abbrev pub rtsps : Bytes
rtsps = 114 ∷ 116 ∷ 115 ∷ 112 ∷ 115 ∷ 58 ∷ 47 ∷ 47 ∷ []

abbrev pub image_raw : Bytes
image_raw = 105 ∷ 109 ∷ 97 ∷ 103 ∷ 101 ∷ 95 ∷ 114 ∷ 97 ∷ 119 ∷ []

abbrev pub underscore : ℕ
underscore = 95

abbrev pub name_bytes : Bytes → Bool
name_bytes [] = true
name_bytes (c ∷ cs) = (is_alnum c || c == underscore) && name_bytes cs

unfoldable pub valid_name : Bytes → Bool
valid_name [] = false
valid_name (c ∷ cs) = is_alpha c && name_bytes (c ∷ cs)

unfoldable pub image_topic : Bytes → Bytes → Bytes
image_topic prefix camera =
    let result = strip prefix in
    if is_nil result
    then camera ++ (slash ∷ image_raw)
    else result ++ (slash ∷ (camera ++ (slash ∷ image_raw)))

abbrev pub has_cntrl : Bytes → Bool
has_cntrl [] = false
has_cntrl (c ∷ cs) = is_cntrl c || has_cntrl cs

abbrev pub is_rtsp : Bytes → Bool
is_rtsp url = starts_with rtsp url || starts_with rtsps url

abbrev pub contains : List Bytes → Bytes → Bool
contains [] x = false
contains (y ∷ ys) x = same y x || contains ys x

-- The loop over the cameras; `seen` holds the names so far.
unfoldable pub check_cameras : List Bytes → List Bytes → List Bytes → List Bytes → Exit (Unit {0})
unfolding valid_name
check_cameras seen (url ∷ urls) (name ∷ names) (frame ∷ frames) =
    let rest = check_cameras (name ∷ seen) urls names frames in
    if not (is_rtsp url)
    then threw "every rtsp_urls entry must begin with rtsp:// or rtsps://"
    else if has_cntrl url
    then threw "rtsp_urls contains a control character"
    else if not (valid_name name) || contains seen name
    then threw "camera_names must be unique ROS names"
    else if is_nil frame
    then threw "frame_ids must not contain empty values"
    else rest
check_cameras seen _ _ _ = returned tt

-- The parts of a text between its slashes.
abbrev pub grow : ℕ → List Bytes → List Bytes
grow c [] = (c ∷ []) ∷ []
grow c (p ∷ ps) = (c ∷ p) ∷ ps

abbrev pub parts : Bytes → List Bytes
parts [] = [] ∷ []
parts (c ∷ cs) = let rest = parts cs in if c == slash then [] ∷ rest else grow c rest

abbrev pub all_names : List Bytes → Bool
all_names [] = true
all_names (p ∷ ps) = valid_name p && all_names ps

-- A first slash is erased.
abbrev pub drop_root : Bytes → Bytes
drop_root [] = []
drop_root (c ∷ cs) = if c == slash then cs else c ∷ cs

unfoldable pub check_prefix : Bytes → Exit (Unit {0})
check_prefix prefix =
    let normalized = strip prefix in
    if not (is_nil normalized) && not (all_names (parts (drop_root normalized)))
    then threw "topic_prefix contains an invalid ROS name"
    else returned tt

abbrev pub after_cameras : Exit (Unit {0}) → Bytes → Exit (Unit {0})
after_cameras (returned _) prefix = check_prefix prefix
after_cameras (threw what) prefix = threw what

abbrev pub is_quality : ℤ → Bool
is_quality (pos n) = leb 1 n && leb n 100
is_quality (negsuc n) = false

unfoldable pub validate_config :
    List Bytes → List Bytes → List Bytes → Bytes → ℤ → ℤ → ℤ → ℤ → Exit (Unit {0})
validate_config urls names frame_ids topic_prefix open_timeout_ms read_timeout_ms reconnect_delay_ms
      jpeg_quality =
    if is_nil urls || not (length urls == length names) || not (length urls == length frame_ids)
    then threw "rtsp_urls, camera_names, and frame_ids must have the same nonzero length"
    else if not (is_positive open_timeout_ms)
        || not (is_positive read_timeout_ms)
        || not (is_positive reconnect_delay_ms)
    then threw "open_timeout_ms, read_timeout_ms, and reconnect_delay_ms must be positive"
    else if not (is_quality jpeg_quality)
    then threw "jpeg_quality must be between 1 and 100"
    else after_cameras (check_cameras [] urls names frame_ids) topic_prefix
