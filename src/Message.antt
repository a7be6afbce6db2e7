-- ===== src/Message.antt =====
-- protocol/rtmp/src: the messages of RTMP, written and parsed.
pub mod Define
pub mod Control
pub mod Event
pub mod Parser
pub mod Signal
pub mod Delivery
pub mod NetWriter
pub mod NetConnection
pub mod NetStream
pub mod Command
pub mod CommandDelivery
mod Runs
