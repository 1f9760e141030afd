-- ===== src/Net/Buffer.antt =====
-- SocketBuffer.h. A buffer that the TUN device filled is `rawBytes` with offsets into it for the
-- pointers, `none` for a null pointer; the list of buffers that hang on one another by `next` is a
-- list. A buffer under construction holds the two headers that stand between `hdrs_begin` and
-- `hdrs_end`, and the user payload, which stands elsewhere.
use mu_quinet.Prelude.{ℕ, ◌-◌, List, ◌++◌, Option, none, some, take, drop, ltb, if◌then◌else◌}
use mu_quinet.Net.Headers.{
  IpHeader, UdpHeader, TcpHeader, ip_bytes, udp_bytes, tcp_bytes, ip_header,
}

-- `hdrs_begin` is `rawBytes` in every received buffer, and `hdrs_end` is not set.
pub record SocketBuffer : Type 0 where
  pub raw : List ℕ
  pub network_hdr : Option ℕ
  pub transport_hdr : Option ℕ
  pub user_payload_begin : Option ℕ
  pub user_payload_end : ℕ

abbrev pub max_raw_bytes_size : ℕ
max_raw_bytes_size = 1518

-- `(IpHeader*)network_hdr`, where that points to `rawBytes`.
abbrev pub ip_hdr : SocketBuffer → IpHeader
ip_hdr b = ip_header b.raw

-- `buf->append(user_payload_begin, end - begin)`: `none` is the exception that a negative length
-- raises, or a null pointer.
unfoldable pub user_payload : SocketBuffer → Option (List ℕ)
user_payload b = elim b.user_payload_begin [
  | none ↦ none
  | some begin ↦
      if ltb b.user_payload_end begin
      then none
      else some (take (b.user_payload_end - begin) (drop begin b.raw))
]

pub data Transport : Type 0 where
  udp : UdpHeader → Transport
  tcp : TcpHeader → Transport

unfoldable pub transport_bytes : Transport → List ℕ → List ℕ
unfolding udp_bytes tcp_bytes
transport_bytes (udp h) rest = udp_bytes h rest
transport_bytes (tcp h) rest = tcp_bytes h rest

pub record TxPacket : Type 0 where
  pub ip : IpHeader
  pub transport : Transport
  pub payload : List ℕ

-- TunDevice::tx: one `writev` of the headers and the payload of the one buffer of the chain.
unfoldable pub wire : TxPacket → List ℕ
unfolding ip_bytes transport_bytes
wire p = ip_bytes p.ip (transport_bytes p.transport p.payload)

-- TunDevice::rx: `read` gave these bytes, at most `max_raw_bytes_size`; `garbage` is what the rest
-- of `rawBytes` held.
unfoldable pub tun_rx : List ℕ → List ℕ → ℕ → SocketBuffer
tun_rx bytes garbage rc = record {
  raw = bytes ++ garbage;
  network_hdr = some 0;
  transport_hdr = none;
  user_payload_begin = none;
  user_payload_end = rc;
}
