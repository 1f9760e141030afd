-- ===== src/Tcp/Machine/Stream.antt =====
-- The byte streams of an established connection, in both directions.
use mu_quinet.Prelude.{
  ℕ, ◌+◌, ◌-◌, ◌*◌, ◌^◌, ◌<◌, ◌≡◌, refl, sym, ap, ◌∙◌, subst₂, List, [], ◌∷◌, ◌++◌, some, arith,
  length, drop, u32, swap32, swap32-swap32, ne→==, false, subst,
}
use mathlib.Core.List.{append_assoc, append-nil}
use mu_quinet.Net.Headers.{TcpHeader, tcp_header}
use mu_quinet.Net.Buffer.{SocketBuffer, TxPacket}
use mu_quinet.Pcb
use mu_quinet.Ip.Tx.{Out}
use mu_quinet.Tcp.{
  TcpState, TcpPcb, Handled, send, send_in, send_established, recv, recv_in, recv_established,
  acked, ack2peer, tcp_template,
}
use mu_quinet.Tcp.Machine.Handshake.{Segment, tx-Segment, ack2peer-Segment, recv_at}

-- A block that can send: established, its sequence numbers in range.
pub record IsOpen (p : TcpPcb) : Type 0 where
  pub established : p.conn_state ≡ TcpState.established
  pub send_next : p.send_next < 2 ^ 32
  pub recv_next : p.recv_next < 2 ^ 32

pub send_in_of_established :
    (s : TcpState) (o : Out) (p : TcpPcb) (buf : List ℕ)
    → s ≡ TcpState.established
    → send_in s o p buf ≡ send_established o p buf
unfolding send_in
send_in_of_established s o p buf e = rw e

send_established_lem :
    (o : Out) (p : TcpPcb) (buf : List ℕ)
    → p.send_next < 2 ^ 32
    → p.recv_next < 2 ^ 32
    → let (o', q, ret) = send_established o p buf in
      (pk : TxPacket) × (o'.sent ≡ o.sent ++ pk ∷ [])
      × Segment pk p.send_next p.recv_next 0 1 buf
      × (q ≡ record p { send_next = u32 (p.send_next + length buf) })
      × (ret ≡ length buf)
unfolding send_established tcp_template
send_established_lem o p buf a b =
    let h = record (tcp_template p.pcb) {
      seq = swap32 p.send_next;
      ack = 1;
      ack_seq = swap32 p.recv_next;
    } in
    let (pk, e, s) = tx-Segment o p.pcb h buf in
    (
      pk,
      e,
      subst₂ (λ n m. Segment pk n m 0 1 buf) (swap32-swap32 p.send_next a)
          (swap32-swap32 p.recv_next b) s,
      refl,
      refl,
    )

-- What one send on an open block does, as a relation of the state before and after.
pub record Sent (o : Out) (p : TcpPcb) (buf : List ℕ) (o' : Out) (q : TcpPcb) : Type 0 where
  pub packet : TxPacket
  pub sent : o'.sent ≡ o.sent ++ packet ∷ []
  pub segment : Segment packet p.send_next p.recv_next 0 1 buf
  pub send_next : q.send_next ≡ u32 (p.send_next + length buf)
  pub recv_next : q.recv_next ≡ p.recv_next
  pub is_open : IsOpen q

send_established-Sent :
    (o : Out) (p : TcpPcb) (buf : List ℕ)
    → IsOpen p
    → Sent o p buf (send_established o p buf).0 (send_established o p buf).1
send_established-Sent o p buf w =
    let (pk, e, s, f, _) = send_established_lem o p buf w.send_next w.recv_next in
    record {
      packet = pk;
      sent = e;
      segment = s;
      send_next = ap (λ b. b.send_next) f;
      recv_next = ap (λ b. b.recv_next) f;
      is_open = record {
        established = ap (λ b. b.conn_state) f ∙ w.established;
        send_next = rw (ap (λ b. b.send_next) f) (omega arith);
        recv_next = rw (ap (λ b. b.recv_next) f) w.recv_next;
      };
    }

send-Sent :
    (o : Out) (p : TcpPcb) (buf : List ℕ)
    → IsOpen p
    → Sent o p buf (send o p buf).0 (send o p buf).1
unfolding send
send-Sent o p buf w =
    let (port, q, _) = Pcb.send o.port p.pcb in
    let o' : Out = record o { port = port } in
    let p' : TcpPcb = record p { pcb = q } in
    let v : IsOpen p' = record {
      established = w.established;
      send_next = w.send_next;
      recv_next = w.recv_next;
    } in
    rw (send_in_of_established p.conn_state o' p' buf w.established) (
      let s = send_established-Sent o' p' buf v in
      record {
        packet = s.packet;
        sent = s.sent;
        segment = s.segment;
        send_next = s.send_next;
        recv_next = s.recv_next;
        is_open = s.is_open;
      })

-- A sequence of sends.
unfoldable pub send_all : Out → TcpPcb → List (List ℕ) → Out × TcpPcb
send_all o p [] = (o, p)
send_all o p (buf ∷ bufs) = let (o', q, _) = send o p buf in send_all o' q bufs

-- The packets are segments of an open connection that carry the buffers, each at the sequence
-- number where the one before ends.
abbrev pub Carries : ℕ → ℕ → List TxPacket → List (List ℕ) → Type 0
Carries seq ack [] [] = Unit
Carries seq ack [] (buf ∷ bufs) = ⊥
Carries seq ack (pk ∷ pks) [] = ⊥
Carries seq ack (pk ∷ pks) (buf ∷ bufs) =
    Segment pk seq ack 0 1 buf × Carries (u32 (seq + length buf)) ack pks bufs

abbrev pub total : List (List ℕ) → ℕ
total [] = 0
total (buf ∷ bufs) = length buf + total bufs

-- On an open block any sequence of sends puts the buffers on the wire in order, one segment for
-- each, without a gap or an overlap of sequence numbers modulo 2 ^ 32, each acknowledging what was
-- received; the next sequence number is the first plus all that was sent.
pub send_all-Carries :
    (o : Out) (p : TcpPcb) (bufs : List (List ℕ))
    → IsOpen p
    → let (o', q) = send_all o p bufs in
      (pks : List TxPacket) × (o'.sent ≡ o.sent ++ pks)
      × Carries p.send_next p.recv_next pks bufs
      × (q.send_next ≡ u32 (p.send_next + total bufs))
unfolding send_all
send_all-Carries o p [] w = ([], sym (append-nil o.sent), tt, omega (arith, w.send_next))
send_all-Carries o p (buf ∷ bufs) w =
    let s = send-Sent o p buf w in
    let (pks, e, c, n) = send_all-Carries (send o p buf).0 (send o p buf).1 bufs s.is_open in
    (
      s.packet ∷ pks,
      e ∙ ap (λ l. l ++ pks) s.sent ∙ append_assoc o.sent (s.packet ∷ []) pks,
      (s.segment, subst₂ (λ n m. Carries n m pks bufs) s.send_next s.recv_next c),
      omega (arith, n, s.send_next),
    )

pub recv_in_of_established :
    (s : TcpState) (o : Out) (p : TcpPcb) (h : TcpHeader) (skbuf : SocketBuffer) (begin : ℕ)
    → s ≡ TcpState.established
    → recv_in s o p h skbuf begin ≡ some (recv_established o p h skbuf begin)
unfolding recv_in
recv_in_of_established s o p h skbuf begin e = rw e

-- Where the payload of a segment starts in its buffer.
abbrev pub payload_at : ℕ → SocketBuffer → ℕ
payload_at hdr skbuf = hdr + (tcp_header (drop hdr skbuf.raw)).doff * 4

-- What the acknowledgement of a segment leaves alone.
pub acked_fields :
    (p : TcpPcb) (h : TcpHeader)
    → ((acked p h).send_next ≡ p.send_next)
      × ((acked p h).conn_state ≡ p.conn_state)
      × ((acked p h).pcb ≡ p.pcb)
unfolding acked
acked_fields p h = ground arith

pub recv_established_of_payload :
    (o : Out) (p : TcpPcb) (h : TcpHeader) (skbuf : SocketBuffer) (begin : ℕ)
    → begin < skbuf.user_payload_end
    → let end_seq : ℕ = u32 (swap32 h.seq + (skbuf.user_payload_end - begin)) in
      let r = record (acked p h) { recv_next = end_seq } in
      recv_established o p h skbuf begin ≡ record {
        out = ack2peer o r end_seq;
        block = r;
        queued = some (record skbuf { user_payload_begin = some begin });
        called = false;
      }
unfolding recv_established
recv_established_of_payload o p h skbuf begin lt =
    let same : u32 (swap32 h.seq + skbuf.user_payload_end + 2 ^ 32 - begin)
        ≡ u32 (swap32 h.seq + (skbuf.user_payload_end - begin)) =
      omega arith in
    rw (ne→== skbuf.user_payload_end begin (omega arith), same)

-- A segment with a payload that reaches an established block is put in the socket's queue, whatever
-- sequence number the block expects; the block then expects the number after the segment's last
-- byte, and acknowledges that in one segment.
pub recv_payload_lem :
    (o : Out) (p : TcpPcb) (skbuf : SocketBuffer) (hdr : ℕ)
    → p.conn_state ≡ TcpState.established
    → p.send_next < 2 ^ 32
    → skbuf.transport_hdr ≡ some hdr
    → payload_at hdr skbuf < skbuf.user_payload_end
    → let end_seq : ℕ = u32 (
        swap32 (tcp_header (drop hdr skbuf.raw)).seq
        + (skbuf.user_payload_end - payload_at hdr skbuf)) in
      (r : Handled) × (pk : TxPacket) × (recv o p skbuf ≡ some r)
      × (r.queued ≡ some (record skbuf { user_payload_begin = some (payload_at hdr skbuf) }))
      × (r.block.recv_next ≡ end_seq)
      × (r.block.conn_state ≡ TcpState.established)
      × (r.block.send_next ≡ p.send_next)
      × (r.out.sent ≡ o.sent ++ pk ∷ [])
      × Segment pk p.send_next end_seq 0 1 []
recv_payload_lem o p skbuf hdr s next e lt =
    let h = tcp_header (drop hdr skbuf.raw) in
    let begin = payload_at hdr skbuf in
    let end_seq : ℕ = u32 (swap32 h.seq + (skbuf.user_payload_end - begin)) in
    let q = record (acked p h) { recv_next = end_seq } in
    let (n, c, _) = acked_fields p h in
    let (pk, sent, segment) = ack2peer-Segment o q end_seq (rw n next) (omega arith) in
    (
      record {
        out = ack2peer o q end_seq;
        block = q;
        queued = some (record skbuf { user_payload_begin = some begin });
        called = false;
      },
      pk,
      recv_at o p skbuf hdr e
          ∙ recv_in_of_established p.conn_state o p h skbuf begin s
          ∙ ap some (recv_established_of_payload o p h skbuf begin lt),
      refl,
      refl,
      c ∙ s,
      n,
      sent,
      subst (λ m. Segment pk m end_seq 0 1 []) n segment,
    )
