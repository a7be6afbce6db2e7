-- ===== src/Hub.antt =====
-- library/streamhub: the hub between the sessions that publish and those that subscribe.
pub mod Platform
pub mod Define
pub mod Statistics
pub mod Events
pub mod Transceiver
pub mod Counting
pub mod FanOut
pub mod StreamsHub
pub mod Api
pub mod EventLoop
pub mod Frames
pub mod Handling
pub mod Registry
pub mod Undo
pub mod Waits
pub mod Traffic
mod Runs
