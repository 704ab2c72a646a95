-- ===== src/AsyncServer.antt =====
-- Network/asyncServer: the TLV frames, the session's reading and sending sides, the logic queue,
-- the pool of io_contexts and the server's table of sessions.
pub mod MsgNode
pub mod Session
pub mod Sending
pub mod HeadFirst
pub mod Logic
pub mod Pool
pub mod Server
