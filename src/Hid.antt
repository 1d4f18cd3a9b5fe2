-- ===== src/Hid.antt =====
-- transport/hid: CTAPHID messages, their packets, and the channel that exchanges them.
pub mod Message
pub mod Packets
pub mod Parser
pub mod Channel
mod Tests
