-- ===== src/Discovery.antt =====
-- sqrkal_discovery/sqrkal_discovery.cpp: the discovery of SIP and RTP sessions.
pub mod Checksum
pub mod State
pub mod Firewall
pub mod Sending
pub mod Sip
pub mod Packet
pub mod Queue
pub mod Startup
