-- ===== src/Tcp/Machine/Handshake.antt =====
-- The three segments that open a connection.
use mu_quinet.Prelude.{
  ℕ, ◌+◌, ◌*◌, ◌^◌, ◌<◌, ◌≡◌, refl, ap, ◌∙◌, subst₂, List, [], ◌∷◌, ◌++◌, none, some, arith, drop,
  u32, swap32, swap32-swap32,
}
use mu_quinet.Net.Headers.{TcpHeader, tcp_header}
use mu_quinet.Net.Buffer.{SocketBuffer, TxPacket, tcp}
use mu_quinet.Pcb
use mu_quinet.Pcb.Calls.{send-IsBound, connect-IsBound}
use mu_quinet.Ip.Tx.{Out, tx}
use mu_quinet.Tcp.{
  TcpState, TcpPcb, Handled, connect, recv_from, send, send_in, send_closed, recv, recv_in,
  recv_syn_sent, establish, ack2peer, prepare_before_ip_tx, tcp_template,
}

-- A sent packet is a TCP segment with this much of its header as given, in host order.
pub record Segment (pk : TxPacket) (seq ack_seq syn ack : ℕ) (payload : List ℕ) : Type 0 where
  pub header : TcpHeader
  pub is_tcp : pk.transport ≡ tcp header
  pub seq_is : swap32 header.seq ≡ seq
  pub ack_seq_is : swap32 header.ack_seq ≡ ack_seq
  pub syn_is : header.syn ≡ syn
  pub ack_is : header.ack ≡ ack
  pub payload_is : pk.payload ≡ payload

-- What the IP layer sends for a segment is that segment.
pub tx-Segment :
    (o : Out) (p : Pcb.Pcb) (h : TcpHeader) (buf : List ℕ)
    → (pk : TxPacket) × ((tx o (prepare_before_ip_tx p h buf)).sent ≡ o.sent ++ pk ∷ [])
      × Segment pk (swap32 h.seq) (swap32 h.ack_seq) h.syn h.ack buf
unfolding tx prepare_before_ip_tx
tx-Segment o p h buf = (
  _,
  refl,
  record {
    header = _;
    is_tcp = refl;
    seq_is = refl;
    ack_seq_is = refl;
    syn_is = refl;
    ack_is = refl;
    payload_is = refl;
  },
)

-- `send` on a closed block, after the block has a port.
send_closed_lem :
    (o : Out) (p : TcpPcb) (buf : List ℕ)
    → let (o', q, _) = send_closed o p buf in
      (pk : TxPacket) × (o'.sent ≡ o.sent ++ pk ∷ [])
      × Segment pk 1 0 1 0 buf
      × (q ≡ record p { conn_state = TcpState.syn_sent; send_unack = 1; send_next = 2 })
unfolding send_closed tcp_template swap32
send_closed_lem o p buf =
    let (pk, e, s) =
      tx-Segment o p.pcb (record (tcp_template p.pcb) { seq = swap32 1; syn = 1 }) buf in
    (pk, e, s, refl)

send_in_of_closed :
    (s : TcpState) (o : Out) (p : TcpPcb) (buf : List ℕ)
    → s ≡ TcpState.closed
    → send_in s o p buf ≡ send_closed o p buf
unfolding send_in
send_in_of_closed s o p buf e = rw e

-- `send` on a closed block: the local port first, then the SYN.
send_of_closed :
    (o : Out) (p : TcpPcb) (buf : List ℕ)
    → p.conn_state ≡ TcpState.closed
    → let (o', q, _) = send o p buf in
      (pk : TxPacket) × (o'.sent ≡ o.sent ++ pk ∷ [])
      × Segment pk 1 0 1 0 buf
      × (q ≡ record p {
        pcb = (Pcb.send o.port p.pcb).1;
        conn_state = TcpState.syn_sent;
        send_unack = 1;
        send_next = 2;
      })
unfolding send
send_of_closed o p buf h = rw (send_in_of_closed p.conn_state _ _ buf h) (send_closed_lem _ _ buf)

-- `connect` on a closed block sends one segment, a SYN with sequence number 1 and no payload, and
-- waits for the answer; the block has its peer.
pub connect_lem :
    (o : Out) (p : TcpPcb) (faddr fport : ℕ)
    → p.conn_state ≡ TcpState.closed
    → let (o', q) = connect o p faddr fport in
      (pk : TxPacket) × (o'.sent ≡ o.sent ++ pk ∷ [])
      × Segment pk 1 0 1 0 []
      × (q.conn_state ≡ TcpState.syn_sent)
      × (q.send_unack ≡ 1)
      × (q.send_next ≡ 2)
      × (q.pcb.faddr ≡ faddr)
      × (q.pcb.fport ≡ fport)
unfolding connect
connect_lem o p faddr fport h =
    let (port, q) = Pcb.connect o.port p.pcb faddr fport in
    let (pk, e, s, f) = send_of_closed (record o { port = port }) (record p { pcb = q }) [] h in
    let sent = send-IsBound port q in
    let bound = connect-IsBound o.port p.pcb faddr fport in
    (
      pk,
      e,
      s,
      ap (λ b. b.conn_state) f,
      ap (λ b. b.send_unack) f,
      ap (λ b. b.send_next) f,
      ap (λ b. b.pcb.faddr) f ∙ sent.faddr ∙ bound.faddr,
      ap (λ b. b.pcb.fport) f ∙ sent.fport ∙ bound.fport,
    )

pub ack2peer-Segment :
    (o : Out) (p : TcpPcb) (value : ℕ)
    → p.send_next < 2 ^ 32
    → value < 2 ^ 32
    → (pk : TxPacket) × ((ack2peer o p value).sent ≡ o.sent ++ pk ∷ [])
      × Segment pk p.send_next value 0 1 []
unfolding ack2peer tcp_template
ack2peer-Segment o p value a b =
    let h = record (tcp_template p.pcb) {
      ack = 1;
      ack_seq = swap32 value;
      seq = swap32 p.send_next;
    } in
    let (pk, e, s) = tx-Segment o p.pcb h [] in
    (
      pk,
      e,
      subst₂ (λ n m. Segment pk n m 0 1 []) (swap32-swap32 p.send_next a) (swap32-swap32 value b) s,
    )

-- What `recv` does once the header is found, state by state.
pub recv_at :
    (o : Out) (p : TcpPcb) (skbuf : SocketBuffer) (hdr : ℕ)
    → skbuf.transport_hdr ≡ some hdr
    → let h = tcp_header (drop hdr skbuf.raw) in
      recv o p skbuf ≡ recv_in p.conn_state o p h skbuf (hdr + h.doff * 4)
unfolding recv recv_from
recv_at o p skbuf hdr e = ap (λ t. recv_from t o p skbuf) e

recv_in_of_syn_sent :
    (s : TcpState) (o : Out) (p : TcpPcb) (h : TcpHeader) (skbuf : SocketBuffer) (begin : ℕ)
    → s ≡ TcpState.syn_sent
    → recv_in s o p h skbuf begin ≡ recv_syn_sent o p h
unfolding recv_in
recv_in_of_syn_sent s o p h skbuf begin e = rw e

recv_syn_sent_of_flags :
    (o : Out) (p : TcpPcb) (h : TcpHeader)
    → h.syn ≡ 1
    → h.ack ≡ 1
    → recv_syn_sent o p h
      ≡ some (record {
        out = ack2peer o (establish p h) (establish p h).recv_next;
        block = establish p h;
        queued = none;
        called = p.has_callback;
      })
unfolding recv_syn_sent
recv_syn_sent_of_flags o p h syn ack = rw (syn, ack)

-- A SYN that acknowledges, read from a buffer, establishes a waiting block: it holds the peer's
-- sequence number and expects the next, answers with one acknowledgement of it, delivers nothing,
-- and calls back if a callback is set.
pub recv_syn_ack_lem :
    (o : Out) (p : TcpPcb) (skbuf : SocketBuffer) (hdr : ℕ)
    → p.conn_state ≡ TcpState.syn_sent
    → p.send_next < 2 ^ 32
    → skbuf.transport_hdr ≡ some hdr
    → (tcp_header (drop hdr skbuf.raw)).syn ≡ 1
    → (tcp_header (drop hdr skbuf.raw)).ack ≡ 1
    → let irs : ℕ = swap32 (tcp_header (drop hdr skbuf.raw)).seq in
      (r : Handled) × (pk : TxPacket) × (recv o p skbuf ≡ some r)
      × (r.block ≡ record p {
        conn_state = TcpState.established;
        irs = irs;
        recv_next = u32 (irs + 1);
        send_unack = u32 (p.send_unack + 1);
      })
      × (r.out.sent ≡ o.sent ++ pk ∷ [])
      × Segment pk p.send_next (u32 (irs + 1)) 0 1 []
      × (r.queued ≡ none)
      × (r.called ≡ p.has_callback)
unfolding establish
recv_syn_ack_lem o p skbuf hdr s next e syn ack =
    let h = tcp_header (drop hdr skbuf.raw) in
    let q = establish p h in
    let (pk, sent, segment) = ack2peer-Segment o q q.recv_next next (omega arith) in
    (
      record { out = ack2peer o q q.recv_next; block = q; queued = none; called = p.has_callback },
      pk,
      recv_at o p skbuf hdr e
          ∙ recv_in_of_syn_sent p.conn_state o p h skbuf _ s
          ∙ recv_syn_sent_of_flags o p h syn ack,
      refl,
      sent,
      segment,
      refl,
      refl,
    )
