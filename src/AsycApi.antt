-- ===== src/AsycApi.antt =====
-- Network/asycApi: a session on partial writes and reads of a socket.
pub mod Node
pub mod Writes
pub mod Reads
pub mod LastNode
mod Tests
