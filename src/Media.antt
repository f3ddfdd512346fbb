-- ===== src/Media.antt =====
-- uniubi_media_driver: audio playback, the checks of the configuration, and the camera streams.
pub mod Playback
pub mod Audio
pub mod Config
pub mod Streams
pub mod Setup
pub mod Rtsp
