-- ===== src/Examples/Segments.antt =====
-- A TCP connection and two UDP sends at concrete inputs.
use mu_quinet.Prelude.{
  ℕ, ◌+◌, ◌-◌, ◌≡◌, refl, List, [], ◌∷◌, ◌++◌, none, some, arith, length, drop, u32, swap32, true,
  replicate,
}
use mu_quinet.Checksum.Laws.{Verifies}
use mu_quinet.Net.Headers.{TcpHeader, tcp_header, tcp_bytes, tcp_flags}
use mu_quinet.Net.Buffer.{SocketBuffer, TxPacket, wire}
use mu_quinet.Pcb.{Pcb}
use mu_quinet.Pcb.Calls.{IsBound}
use mu_quinet.Ip.Tx.{Out}
use mu_quinet.Udp
use mu_quinet.Udp.{udp_packet}
use mu_quinet.Udp.Packets.{Received}
use mu_quinet.Udp.Calls.{send_to-Received}
use mu_quinet.Tcp.{TcpState, TcpPcb, Handled, connect, send, recv, tcp_check}
use mu_quinet.Tcp.Segments.{pseudo_header, prepare-Verifies}
use mu_quinet.Tcp.Machine.{World, Event, step}
use mu_quinet.Tcp.Machine.Handshake.{Segment, connect_lem, recv_syn_ack_lem}
use mu_quinet.Tcp.Machine.Stream.{IsOpen, payload_at, recv_payload_lem}

abbrev buf2 : List ℕ
buf2 = 1 ∷ 2 ∷ []

abbrev buf3 : List ℕ
buf3 = 1 ∷ 2 ∷ 3 ∷ []

abbrev pub out0 : Out
out0 = record { port = 1024; last = 0; sent = [] }

abbrev pub pcb0 : Pcb
pcb0 = record { faddr = 0; fport = 0; laddr = 0x0100007f; lport = 0 }

abbrev closed0 : TcpPcb
closed0 = record {
  pcb = pcb0;
  conn_state = TcpState.closed;
  has_callback = true;
  send_unack = 0;
  send_next = 0;
  irs = 0;
  recv_next = 0;
}

abbrev waiting0 : TcpPcb
waiting0 = record closed0 { conn_state = TcpState.syn_sent; send_unack = 1; send_next = 2 }

abbrev pub open0 : TcpPcb
open0 = record waiting0 { conn_state = TcpState.established; send_unack = 2; recv_next = 8 }

-- A buffer with a TCP header at byte 20, with its fifth byte the flags that a SYN's answer or a
-- segment of data has, and two bytes after the header.
abbrev arrived : ℕ → SocketBuffer
arrived flags = record {
  raw =
      replicate 20 0
      ++ 0 ∷ 80 ∷ 4 ∷ 1 ∷ 0 ∷ 0 ∷ 0 ∷ 7 ∷ 0 ∷ 0 ∷ 0 ∷ 2 ∷ 0x50 ∷ flags ∷ 0 ∷ 16 ∷ 0 ∷ 0 ∷ 0 ∷ 0
        ∷ 104 ∷ 105 ∷ [];
  network_hdr = some 0;
  transport_hdr = some 20;
  user_payload_begin = none;
  user_payload_end = 42;
}

connect_lem_example :
    let (o', q) = connect out0 closed0 0x0200007f 0x5000 in
    (pk : TxPacket) × (o'.sent ≡ [] ++ pk ∷ [])
    × Segment pk 1 0 1 0 []
    × (q.conn_state ≡ TcpState.syn_sent)
    × (q.send_unack ≡ 1)
    × (q.send_next ≡ 2)
    × (q.pcb.faddr ≡ 0x0200007f)
    × (q.pcb.fport ≡ 0x5000)
connect_lem_example = connect_lem out0 closed0 0x0200007f 0x5000 refl

abbrev irs0 : ℕ
irs0 = swap32 (tcp_header (drop 20 (arrived 0x12).raw)).seq

recv_syn_ack_lem_example :
    (r : Handled) × (pk : TxPacket) × (recv out0 waiting0 (arrived 0x12) ≡ some r)
    × (r.block ≡ record waiting0 {
      conn_state = TcpState.established;
      irs = irs0;
      recv_next = u32 (irs0 + 1);
      send_unack = u32 (1 + 1);
    })
    × (r.out.sent ≡ [] ++ pk ∷ [])
    × Segment pk 2 (u32 (irs0 + 1)) 0 1 []
    × (r.queued ≡ none)
    × (r.called ≡ true)
unfolding tcp_header
recv_syn_ack_lem_example =
    recv_syn_ack_lem out0 waiting0 (arrived 0x12) 20 refl (omega arith) refl refl refl

pub open0-IsOpen : IsOpen open0
open0-IsOpen = record { established = refl; send_next = omega arith; recv_next = omega arith }

abbrev end0 : ℕ
end0 =
    u32 (swap32 (tcp_header (drop 20 (arrived 0x10).raw)).seq + (42 - payload_at 20 (arrived 0x10)))

recv_payload_lem_example :
    (r : Handled) × (pk : TxPacket) × (recv out0 open0 (arrived 0x10) ≡ some r)
    × (r.queued
        ≡ some (record (arrived 0x10) { user_payload_begin = some (payload_at 20 (arrived 0x10)) }))
    × (r.block.recv_next ≡ end0)
    × (r.block.conn_state ≡ TcpState.established)
    × (r.block.send_next ≡ 2)
    × (r.out.sent ≡ [] ++ pk ∷ [])
    × Segment pk 2 end0 0 1 []
unfolding tcp_header
recv_payload_lem_example =
    recv_payload_lem out0 open0 (arrived 0x10) 20 refl (omega arith) refl (omega arith)

abbrev syn_header : TcpHeader
syn_header = record {
  source = 0x0104;
  dest = 0x5000;
  seq = 0x01000000;
  ack_seq = 0;
  res1 = 0;
  doff = 5;
  fin = 0;
  syn = 1;
  rst = 0;
  psh = 0;
  ack = 0;
  urg = 0;
  res2 = 0;
  window = 0x0010;
  check = 0;
  urg_ptr = 0;
}

prepare-Verifies_example :
    Verifies
      (pseudo_header pcb0 (length buf3 + 20)
        ++ tcp_bytes (record syn_header { check = tcp_check pcb0 syn_header buf3 }) buf3)
      0
unfolding tcp_flags
prepare-Verifies_example =
    prepare-Verifies pcb0 syn_header buf3 (ground arith) (ground arith)
      (omega arith, (omega arith, (omega arith, tt))) (omega arith)

abbrev world0 : World
world0 = record { out = out0; block = closed0 }

abbrev world1 : World
world1 = record world0 { block = open0 }

abbrev world_syn : World
world_syn = let (o, p) = connect out0 closed0 0x0200007f 0x5000 in record { out = o; block = p }

abbrev world_sent : World
world_sent = let (o, p, _) = send out0 open0 buf2 in record { out = o; block = p }

connects_example : step world0 (Event.connects 0x0200007f 0x5000) ≡ some world_syn
unfolding step
connects_example = refl

sends_example : step world1 (Event.sends buf2) ≡ some world_sent
unfolding step
sends_example = refl

send_to-Received_example :
    let (o', q, ret) = Udp.send_to out0 pcb0 0x0200007f 0x5000 buf2 in
    (pk : TxPacket) × (sender : Pcb) × (o'.sent ≡ [] ++ pk ∷ [])
    × Received sender buf2 (wire pk)
    × IsBound (record pcb0 { faddr = 0x0200007f; fport = 0x5000 }) sender
    × (q ≡ record sender { faddr = 0; fport = 0 })
    × (ret ≡ length buf2)
send_to-Received_example =
    send_to-Received out0 pcb0 0x0200007f 0x5000 buf2 (ground arith) (omega arith) (omega arith)
      (omega arith)
