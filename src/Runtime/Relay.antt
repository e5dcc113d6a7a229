-- ===== src/Runtime/Relay.antt =====
-- The tasks that carry the data of a tunnel in src/runtime.rs: one task for each tunnel and transport,
-- and for TCP one more for each connection.
pub mod Connection
pub mod Tcp
pub mod Udp
pub mod UdpOrder
pub mod TcpSafety
pub mod Driven
pub mod Draining
pub mod Return
pub mod Handling
pub mod Ending
pub mod Handled
