-- ===== src/Exchange.antt =====
-- What arrives: requests and replies, publications and datagrams, from end to end.
pub mod Request
pub mod Reply
pub mod Broadcast
pub mod Session
pub mod Publication
