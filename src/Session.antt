-- ===== src/Session.antt =====
-- protocol/rtmp/src/session and protocol/rtmp/src/utils: the session of an RTMP server, from parsed
-- messages to answers on the network and events for the hub.
pub mod Url
pub mod Define
pub mod Common
pub mod Server
pub mod Commands
pub mod Leaves
pub mod Safety
pub mod Steps
pub mod Admission
mod Runs
