-- ===== src/Rtp.antt =====
-- protocol/rtsp/src/rtp: the headers of RTP and RTCP.
pub mod Flags
pub mod Header
pub mod Report
pub mod Sender
pub mod ReportRoundTrip
pub mod SenderRoundTrip
pub mod Bye
pub mod App
pub mod Packet
pub mod H264
mod Runs
