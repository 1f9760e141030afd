-- ===== src/Tcp.antt =====
-- tcp/TcpPcb.h and tcp/TcpPcb.cpp: the TCP protocol control block of a client.
pub mod Segments
pub mod Machine
use mu_quinet.Prelude.{
  ℕ, ◌+◌, ◌-◌, ◌*◌, ◌/◌, ◌^◌, Bool, true, false, ◌&&◌, List, [], Option, none, some, ◌==◌, ltb,
  if◌then◌else◌, u16, u32, swap16, swap32, length, take, drop,
}
use mu_quinet.Checksum.{add_words, checksum}
use mu_quinet.Pcb
use mu_quinet.Pcb.{Pcb}
use mu_quinet.Net.Headers.{IpHeader, TcpHeader, ip_bytes, tcp_bytes, tcp_header}
use mu_quinet.Net.Buffer.{SocketBuffer, TxPacket, tcp}
use mu_quinet.Ip.Tx.{Out, tx}

-- TcpHeader.h; the order is that of the enumeration.
pub data TcpState : Type 0 where
  closed listen syn_sent syn_received established : TcpState
  fin_wait_1 fin_wait_2 closing time_wait close_wait last_ack : TcpState

-- `has_callback` says whether `onConnEstabCB` is set. The sequence fields of a new block hold what
-- was in memory.
pub record TcpPcb : Type 0 where
  pub pcb : Pcb
  pub conn_state : TcpState
  pub has_callback : Bool
  pub send_unack : ℕ
  pub send_next : ℕ
  pub irs : ℕ
  pub recv_next : ℕ

abbrev pub iss : ℕ
iss = 1

-- The constructor; `garbage` is a block whose fields stand for the memory's old contents.
unfoldable pub new_tcp_pcb : ℕ → TcpPcb → TcpPcb
unfolding Pcb.new_pcb
new_tcp_pcb stack_addr garbage = record garbage {
  pcb = Pcb.new_pcb stack_addr;
  conn_state = TcpState.closed;
  has_callback = false;
}

unfoldable pub set_on_conn_estab_cb : TcpPcb → TcpPcb
set_on_conn_estab_cb p = record p { has_callback = true }

-- `socketBufferOfTcpTempl`: the header over cleared memory.
unfoldable pub tcp_template : Pcb → TcpHeader
tcp_template p = record {
  source = p.lport;
  dest = p.fport;
  seq = 0;
  ack_seq = 0;
  res1 = 0;
  doff = 20 / 4;
  fin = 0;
  syn = 0;
  rst = 0;
  psh = 0;
  ack = 0;
  urg = 0;
  res2 = 0;
  window = swap16 4096;
  check = 0;
  urg_ptr = 0;
}

-- The IP header when `prepareBeforeIpTx` takes the checksum: only what the pseudo-header has is set.
unfoldable pub pseudo_ip : Pcb → ℕ → IpHeader
pseudo_ip p len = record {
  version = 0;
  ihl = 0;
  tos = 0;
  tot_len = 0;
  id = 0;
  frag_off = 0;
  ttl = 0;
  protocol = 6;
  check = swap16 (u16 (len + 20));
  saddr = p.laddr;
  daddr = p.faddr;
}

-- The check field: the payload's words are summed first, then the two headers.
unfoldable pub tcp_check : Pcb → TcpHeader → List ℕ → ℕ
tcp_check p h buf = u16 (
    checksum (take (h.doff * 4 + 20) (ip_bytes (pseudo_ip p (length buf)) (tcp_bytes h [])))
      (add_words 0 buf))

-- `prepareBeforeIpTx`
unfoldable pub prepare_before_ip_tx : Pcb → TcpHeader → List ℕ → TxPacket
prepare_before_ip_tx p h buf = record {
  ip = record (pseudo_ip p (length buf)) {
    ttl = 64;
    tos = 0;
    tot_len = swap16 (u16 (length buf + 40));
    check = 0;
  };
  transport = tcp (record h { check = tcp_check p h buf });
  payload = buf;
}

-- `ack2peer`
unfoldable pub ack2peer : Out → TcpPcb → ℕ → Out
ack2peer o p value = tx o (
    prepare_before_ip_tx p.pcb
      (record (tcp_template p.pcb) { ack = 1; ack_seq = swap32 value; seq = swap32 p.send_next })
      [])

-- The segment of `send` in the state ESTABLISHED and in the state CLOSED, and the block after it.
unfoldable pub send_established : Out → TcpPcb → List ℕ → Out × TcpPcb × ℕ
send_established o p buf =
    let h = record (tcp_template p.pcb) {
      seq = swap32 p.send_next;
      ack = 1;
      ack_seq = swap32 p.recv_next;
    } in
    (
      tx o (prepare_before_ip_tx p.pcb h buf),
      record p { send_next = u32 (p.send_next + length buf) },
      length buf,
    )

unfoldable pub send_closed : Out → TcpPcb → List ℕ → Out × TcpPcb × ℕ
send_closed o p buf =
    let h = record (tcp_template p.pcb) { seq = swap32 iss; syn = 1 } in
    (
      tx o (prepare_before_ip_tx p.pcb h buf),
      record p { send_unack = iss; send_next = u32 (iss + 1); conn_state = TcpState.syn_sent },
      length buf,
    )

-- The `switch`; the last clause is `default`.
unfoldable pub send_in : TcpState → Out → TcpPcb → List ℕ → Out × TcpPcb × ℕ
send_in TcpState.closed o p buf = send_closed o p buf
send_in TcpState.established o p buf = send_established o p buf
send_in _ o p buf = (o, p, 0)

-- `send`: what Pcb::send returns is not looked at.
unfoldable pub send : Out → TcpPcb → List ℕ → Out × TcpPcb × ℕ
send o p buf =
    let (port, q, _) = Pcb.send o.port p.pcb in
    send_in p.conn_state (record o { port = port }) (record p { pcb = q }) buf

-- `connect` returns 0.
unfoldable pub connect : Out → TcpPcb → ℕ → ℕ → Out × TcpPcb
connect o p faddr fport =
    let (port, q) = Pcb.connect o.port p.pcb faddr fport in
    let (o', p', _) = send (record o { port = port }) (record p { pcb = q }) [] in (o', p')

-- What one received segment does: the block and the output after it, the buffer that goes to the
-- socket's queue, and whether the connection callback runs.
pub record Handled : Type 0 where
  pub out : Out
  pub block : TcpPcb
  pub queued : Option SocketBuffer
  pub called : Bool

abbrev ignored : Out → TcpPcb → Handled
ignored o p = record { out = o; block = p; queued = none; called = false }

-- SYN_SENT: the block after a SYN with an acknowledgement; `none` is the failed assertion.
unfoldable pub establish : TcpPcb → TcpHeader → TcpPcb
establish p h = record p {
  irs = swap32 h.seq;
  recv_next = u32 (swap32 h.seq + 1);
  send_unack = u32 (p.send_unack + 1);
  conn_state = TcpState.established;
}

unfoldable pub recv_syn_sent : Out → TcpPcb → TcpHeader → Option Handled
recv_syn_sent o p h =
    if h.syn == 1 && h.ack == 1
    then some (record {
      out = ack2peer o (establish p h) (establish p h).recv_next;
      block = establish p h;
      queued = none;
      called = p.has_callback;
    })
    else none

-- `send_unack` after the acknowledgement that a segment carries.
unfoldable pub acked : TcpPcb → TcpHeader → TcpPcb
acked p h =
    if h.ack == 1 && ltb p.send_unack (swap32 h.ack_seq)
    then record p { send_unack = swap32 h.ack_seq }
    else p

-- ESTABLISHED: `begin` is `transport_hdr + doff * 4`; a difference of pointers may be negative.
unfoldable pub recv_established : Out → TcpPcb → TcpHeader → SocketBuffer → ℕ → Handled
recv_established o p h skbuf begin =
    let q = acked p h in
    let next : ℕ = u32 (swap32 h.seq + skbuf.user_payload_end + 2 ^ 32 - begin) in
    let r = record q { recv_next = next } in
    if skbuf.user_payload_end == begin then ignored o q else record {
      out = ack2peer o r next;
      block = r;
      queued = some (record skbuf { user_payload_begin = some begin });
      called = false;
    }

unfoldable pub recv_in : TcpState → Out → TcpPcb → TcpHeader → SocketBuffer → ℕ → Option Handled
recv_in TcpState.syn_sent o p h skbuf begin = recv_syn_sent o p h
recv_in TcpState.established o p h skbuf begin = some (recv_established o p h skbuf begin)
recv_in _ o p h skbuf begin = some (ignored o p)

-- `recv`: `none` is a failed assertion or a null transport header.
unfoldable pub recv_from : Option ℕ → Out → TcpPcb → SocketBuffer → Option Handled
recv_from none o p skbuf = none
recv_from (some hdr) o p skbuf =
    let h = tcp_header (drop hdr skbuf.raw) in recv_in p.conn_state o p h skbuf (hdr + h.doff * 4)

unfoldable pub recv : Out → TcpPcb → SocketBuffer → Option Handled
recv o p skbuf = recv_from skbuf.transport_hdr o p skbuf
