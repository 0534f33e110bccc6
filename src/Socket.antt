-- ===== src/Socket.antt =====
-- socket/socket.go and socket/units.go: the packets of libvirt's RPC protocol on a connection.
pub mod Packet
pub mod Reader
pub mod Listen
pub mod Send
pub mod Transfer
