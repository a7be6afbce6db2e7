-- ===== src/Webrtc.antt =====
-- protocol/webrtc: the queue that puts RTP packets in order.
pub mod RtpQueue
pub mod Order
pub mod Drained
mod Runs
