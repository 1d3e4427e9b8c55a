-- ===== src/Ack.antt =====
-- The acknowledgement system of src/PerfectWS.ts: receivers acknowledge every packet and drop the
-- ones they have seen, senders keep a packet pending until it is acknowledged.
pub mod Dedupe
pub mod Send
