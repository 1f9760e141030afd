-- ===== src/Net.antt =====
-- The packet formats and buffers that the layers pass on: ip/IpHeader.h, IpHeaderOverlay.h,
-- tcp/TcpHeader.h, udp/UdpHeader.h, SocketBuffer.h.
pub mod Headers
pub mod RoundTrip
pub mod Buffer
