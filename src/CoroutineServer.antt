-- ===== src/CoroutineServer.antt =====
-- Network/coroutineServer, the server with a coroutine for each session.
pub mod Nodes
pub mod Reader
pub mod Writer
pub mod Accept
pub mod RoundTrip
mod Tests
