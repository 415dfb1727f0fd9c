-- ===== src/Http.antt =====
-- clinkc/src/cybergarage/http: the headers of HTTP packets.
pub mod Headers
pub mod Packet
