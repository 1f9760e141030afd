-- ===== src/Ip.antt =====
-- The IP layer: ip/IpHeader.cpp, ip/Ip.cpp and ip/frag/Defrager.cpp.
pub mod Header
pub mod Tx
pub mod Defrag
pub mod Rx
