-- ===== src/Proxy.antt =====
-- src/proxy.rs: the relay to the Docker socket, and the start of the server.
pub mod Headers
pub mod Handler
pub mod Drain
pub mod Router
pub mod Assembly
pub mod Overlap
pub mod Shutdown
pub mod Serve
