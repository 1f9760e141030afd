-- ===== src/Net/RoundTrip.antt =====
-- A header that was written is read back, field by field.
use mu_quinet.Prelude.{ℕ, ◌^◌, ◌<◌, ◌≡◌, List, arith}
use mu_quinet.Net.Headers.{
  IpHeader, UdpHeader, TcpHeader, ip_bytes, udp_bytes, tcp_flags, tcp_bytes, ip_header, udp_header,
  tcp_header,
}

-- Every field fits the width that it has in the struct.
pub record IpFits (h : IpHeader) : Type 0 where
  pub version : h.version < 2 ^ 4
  pub ihl : h.ihl < 2 ^ 4
  pub tot_len : h.tot_len < 2 ^ 16
  pub id : h.id < 2 ^ 16
  pub frag_off : h.frag_off < 2 ^ 16
  pub check : h.check < 2 ^ 16
  pub saddr : h.saddr < 2 ^ 32
  pub daddr : h.daddr < 2 ^ 32

pub record UdpFits (h : UdpHeader) : Type 0 where
  pub source : h.source < 2 ^ 16
  pub dest : h.dest < 2 ^ 16
  pub len : h.len < 2 ^ 16
  pub check : h.check < 2 ^ 16

pub record TcpFits (h : TcpHeader) : Type 0 where
  pub source : h.source < 2 ^ 16
  pub dest : h.dest < 2 ^ 16
  pub seq : h.seq < 2 ^ 32
  pub ack_seq : h.ack_seq < 2 ^ 32
  pub res1 : h.res1 < 2 ^ 4
  pub fin : h.fin < 2
  pub syn : h.syn < 2
  pub rst : h.rst < 2
  pub psh : h.psh < 2
  pub ack : h.ack < 2
  pub urg : h.urg < 2
  pub window : h.window < 2 ^ 16
  pub check : h.check < 2 ^ 16
  pub urg_ptr : h.urg_ptr < 2 ^ 16

-- An IP header whose fields fit is read back from its bytes, whatever follows.
pub ip_header-ip_bytes : (h : IpHeader) (rest : List ℕ) → IpFits h → ip_header (ip_bytes h rest) ≡ h
unfolding ip_header ip_bytes
ip_header-ip_bytes h rest f = ground arith

-- So is a UDP header.
pub udp_header-udp_bytes :
    (h : UdpHeader) (rest : List ℕ) → UdpFits h → udp_header (udp_bytes h rest) ≡ h
unfolding udp_header udp_bytes
udp_header-udp_bytes h rest f = ground arith

-- So is a TCP header, its flags one by one.
pub tcp_header-tcp_bytes :
    (h : TcpHeader) (rest : List ℕ) → TcpFits h → tcp_header (tcp_bytes h rest) ≡ h
unfolding tcp_header tcp_bytes tcp_flags
tcp_header-tcp_bytes h rest f = ground arith
