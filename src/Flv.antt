-- ===== src/Flv.antt =====
-- library/container/flv: the tag headers of audio and video, and the muxer.
pub mod TagHeader
pub mod Muxer
pub mod TagRoundTrip
pub mod Demuxer
pub mod FileRoundTrip
mod Runs
