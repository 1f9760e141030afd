-- ===== src/Udp.antt =====
-- udp/UdpPcb.cpp: the UDP protocol control block, which adds no field to `Pcb`.
pub mod Packets
pub mod Calls
pub mod Rx
use mu_quinet.Prelude.{ℕ, ◌+◌, List, Option, none, some, u16, swap16, length}
use mu_quinet.Pcb
use mu_quinet.Pcb.{Pcb}
use mu_quinet.Net.Headers.{IpHeader, UdpHeader}
use mu_quinet.Net.Buffer.{SocketBuffer, TxPacket, udp}
use mu_quinet.Ip.Tx.{Out, tx}

-- The headers as UdpPcb::send leaves them. `bzero` cleared what it does not set; the
-- `protocol_len` that it sets is 0 again before the packet goes to the IP layer.
unfoldable pub udp_packet : Pcb → List ℕ → TxPacket
unfolding swap16
udp_packet p buf = record {
  ip = record {
    version = 0;
    ihl = 0;
    tos = 0;
    tot_len = swap16 (u16 (length buf + 28));
    id = 0;
    frag_off = 0;
    ttl = 64;
    protocol = 17;
    check = 0;
    saddr = p.laddr;
    daddr = p.faddr;
  };
  transport =
      udp (record {
        source = p.lport;
        dest = p.fport;
        len = swap16 (u16 (length buf + 8));
        check = 0;
      });
  payload = buf;
}

-- The result of `Pcb::send` is not looked at.
unfoldable pub send : Out → Pcb → List ℕ → Out × Pcb × ℕ
unfolding Pcb.send udp_packet tx
send o p buf =
    let (port, q, _) = Pcb.send o.port p in
    (tx (record o { port = port }) (udp_packet q buf), q, length buf)

-- Nor is that of the other `Pcb::send`.
unfoldable pub send_to : Out → Pcb → ℕ → ℕ → List ℕ → Out × Pcb × ℕ
unfolding Pcb.send_to Pcb.connect Pcb.disconnect send
send_to o p faddr fport buf =
    let (port, q, _) = Pcb.send_to o.port p in
    let (port', r) = Pcb.connect port q faddr fport in
    let (o', s, ret) = send (record o { port = port' }) r buf in (o', Pcb.disconnect s, ret)

-- UdpPcb::recv: what it passes to the socket's queue; `none` is the null pointer that a buffer with
-- no transport header would have.
unfoldable pub recv : SocketBuffer → Option SocketBuffer
recv skbuf = elim skbuf.transport_hdr [
  | none ↦ none
  | some hdr ↦ some (record skbuf { user_payload_begin = some (hdr + 8) })
]
