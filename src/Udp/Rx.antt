-- ===== src/Udp/Rx.antt =====
-- Udp::rx of udp/Udp.cpp and Tcp::rx of tcp/Tcp.cpp: from a buffer to the block that takes it.
pub mod Loopback
use mu_quinet.Prelude.{ℕ, List, [], ◌∷◌, Option, none, some, drop}
use mu_quinet.Net.Headers.{IpHeader, UdpHeader, udp_header, tcp_header}
use mu_quinet.Net.Buffer.{SocketBuffer, ip_hdr}
use mu_quinet.Pcb.{Pcb, Flow, find}
use mu_quinet.Mux.Rpc.{SockAddr}
use mu_quinet.Udp

pub data Delivery : Type 0 where
  crashed : Delivery
  no_receiver : Delivery
  to_socket : (address : ℕ) → SockAddr → List SocketBuffer → Delivery
  to_tcp_pcb : (address : ℕ) → List SocketBuffer → Delivery

-- The addresses of the IP header, and the ports that the transport header begins with.
unfoldable pub udp_flow : SocketBuffer → ℕ → Flow
unfolding udp_header
udp_flow b hdr =
    let u = udp_header (drop hdr b.raw) in
    record { faddr = (ip_hdr b).saddr; fport = u.source; laddr = (ip_hdr b).daddr; lport = u.dest }

unfoldable pub tcp_flow : SocketBuffer → ℕ → Flow
unfolding tcp_header
tcp_flow b hdr =
    let t = tcp_header (drop hdr b.raw) in
    record { faddr = (ip_hdr b).saddr; fport = t.source; laddr = (ip_hdr b).daddr; lport = t.dest }

-- UdpPcb::recv of the block found: the peer's address and the buffers go to the socket's queue.
unfoldable pub udp_deliver : ℕ → SocketBuffer → List SocketBuffer → Flow → Delivery
unfolding Udp.recv
udp_deliver a b rest k = elim (Udp.recv b) [
  | none ↦ Delivery.crashed
  | some b' ↦
      Delivery.to_socket a (record { family = 2; port = k.fport; addr = k.faddr }) (b' ∷ rest)
]

-- `Udp::rx`, where `lock` and `pcbs` are the blocks' weak pointers.
unfoldable pub udp_rx : (ℕ → Option Pcb) → List ℕ → List SocketBuffer → Delivery
unfolding udp_flow udp_deliver find
udp_rx lock pcbs [] = Delivery.crashed
udp_rx lock pcbs (b ∷ rest) = elim b.transport_hdr [
  | none ↦ Delivery.crashed
  | some hdr ↦
      let k = udp_flow b hdr in
      elim (find lock pcbs k) [ none ↦ Delivery.no_receiver | some a ↦ udp_deliver a b rest k ]
]

-- `Tcp::rx`: the block's own `recv` follows.
unfoldable pub tcp_rx : (ℕ → Option Pcb) → List ℕ → List SocketBuffer → Delivery
unfolding tcp_flow find
tcp_rx lock pcbs [] = Delivery.crashed
tcp_rx lock pcbs (b ∷ rest) = elim b.transport_hdr [
  | none ↦ Delivery.crashed
  | some hdr ↦ elim (find lock pcbs (tcp_flow b hdr)) [
    | none ↦ Delivery.no_receiver
    | some a ↦ Delivery.to_tcp_pcb a (b ∷ rest)
  ]
]
