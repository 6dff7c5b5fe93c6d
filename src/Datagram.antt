-- ===== src/Datagram.antt =====
-- datagram.go.
pub mod Broadcast
pub mod Codec
pub mod Construction
pub mod Control
pub mod Directions
pub mod Peers
pub mod Publisher
pub mod Sockets
pub mod Subscriber
