-- ===== src/Sending.antt =====
-- The loops around `_sendWithAck` in src/PerfectWS.ts, over reconnections: that of the client's
-- requests (Client) and that of the server's responses (Server).
pub mod Client
pub mod Server
