-- ===== src/Callbacks.antt =====
-- The functions that cross the connection, in
-- src/PerfectWSAdvanced/transform/TransformCallbacks.ts: those of this side (Owned), and the calls of
-- the peer's (Calls), the peer's calls of them
-- (Incoming), and the wrappers of the peer's (Received).
pub mod Owned
pub mod Calls
pub mod Incoming
pub mod Received
