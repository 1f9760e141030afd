-- ===== src/Node/Datagram.antt =====
-- A datagram from a process on one daemon to a process on another.
use mu_quinet.Prelude.{
  ℕ, ◌+◌, ◌^◌, ◌≤◌, ◌<◌, ◌≡◌, refl, sym, ◌∙◌, List, [], ◌∷◌, ◌++◌, true, Bool-cases, inl, inr, none,
  some, Option-cases, arith, ltb, ◌==◌, length, pos,
}
use mathlib.Core.Option.{some-injective, none-ne-some}
use mu_quinet.Net.Buffer.{SocketBuffer, TxPacket, wire, user_payload}
use mu_quinet.Pcb
use mu_quinet.Pcb.{Pcb, Flow, find}
use mu_quinet.Pcb.Calls.{PcbFits, IsBound, send-PcbFits, send-IsBound}
use mu_quinet.Ip.Header.{next_id}
use mu_quinet.Ip.Tx.{Out, tx, fill_header}
use mu_quinet.Ip.Tx.Header.{next_id-lt}
use mu_quinet.Udp.{udp_packet, send, send_to}
use mu_quinet.Udp.Calls.{addressed, addressed_port, addressed-PcbFits, addressed-IsBound}
use mu_quinet.Udp.Rx.Loopback.{udp_rx-sent}
use mu_quinet.Tcp.{TcpPcb}
use mu_quinet.Mux.Rpc.{SockAddr, Calling, Returning}
use mu_quinet.Mux.Socket.{Socket, RecvQueue, udp_pcb, put_to_recv_q}
use mu_quinet.Mux.Handler
use mu_quinet.Mux.Handler.{Channel, handle_request, sendto_call, udp_send, chain_payload, ok}
use mu_quinet.Mux.Handler.Receiving.{HasPayload, bytes_of, chain_payload-bytes_of}
use mu_quinet.Node.{
  Node, lock, update, update_socket, holds, channel_at, put_channel, deliver, dispatch, arrive, ask,
}

-- The packet that a UDP send makes.
abbrev pub datagram : Pcb → List ℕ → ℕ → TxPacket
datagram p buf id = record (udp_packet p buf) { ip = fill_header (udp_packet p buf).ip id }

-- What a send to an address leaves, in full.
pub record SentTo (o : Out) (p : Pcb) (dest : SockAddr) (buf : List ℕ) (o' : Out) : Type 0 where
  pub sender : Pcb
  pub id : ℕ
  pub sent : o'.sent ≡ o.sent ++ datagram sender buf id ∷ []
  pub fits : PcbFits sender
  pub id_fits : id < 2 ^ 16
  pub bound : IsBound (record p { faddr = dest.addr; fport = dest.port }) sender

pub send_to-SentTo :
    (o : Out) (p : Pcb) (dest : SockAddr) (buf : List ℕ)
    → PcbFits p
    → dest.addr < 2 ^ 32
    → dest.port < 2 ^ 16
    → SentTo o p dest buf (udp_send o p buf (some dest)).0
unfolding udp_send send_to send tx
send_to-SentTo o p dest buf f a b =
    let r : Pcb = addressed o.port p dest.addr dest.port in
    let port : ℕ = addressed_port o.port p dest.addr dest.port in
    record {
      sender = (Pcb.send port r).1;
      id = (next_id o.last).1;
      sent = refl;
      fits = send-PcbFits port r (addressed-PcbFits o.port p dest.addr dest.port f a b);
      id_fits = next_id-lt o.last;
      bound = addressed-IsBound o.port p dest.addr dest.port _ (send-IsBound port r);
    }

-- The bytes of a buffer whose payload is read without an exception.
chain_payload-HasPayload :
    (b : SocketBuffer) (buf : List ℕ) → chain_payload (b ∷ []) ≡ some buf → HasPayload b
unfolding chain_payload user_payload
chain_payload-HasPayload b buf e = elim (Option-cases b.user_payload_begin) [
  | inl n ↦ absurd (none-ne-some buf (ground (arith, e, n)))
  | inr (begin, s) ↦ elim (Bool-cases (ltb b.user_payload_end begin)) [
    | inl q ↦ absurd (none-ne-some buf (ground (arith, e, s, q)))
    | inr q ↦ (begin, s, ground (arith, q))
  ]
]

one-bytes_of :
    (b : SocketBuffer) (buf : List ℕ)
    → chain_payload (b ∷ []) ≡ some buf
    → HasPayload b × (bytes_of (b ∷ []) ≡ buf)
one-bytes_of b buf e =
    let h = chain_payload-HasPayload b buf e in
    (h, some-injective (bytes_of (b ∷ [])) buf (sym (chain_payload-bytes_of (b ∷ []) (h, tt)) ∙ e))

module _ {Q : Type 0} where
  pub channel_at-update :
      (c a : ℕ) (f : Socket Q → Socket Q) (ch : Channel Q) (l : List (ℕ × Channel Q))
      → channel_at c l ≡ some ch
      → holds a ch ≡ true
      → channel_at c (update a f l) ≡ some (update_socket f ch)
  unfolding channel_at update
  channel_at-update c a f ch [] e h = absurd (none-ne-some ch e)
  channel_at-update c a f ch ((d, x) ∷ l) e h = elim (Bool-cases (c == d)) [
    | inl q ↦
        let same : x ≡ ch = some-injective x ch (ground (arith, e, q)) in ground (arith, q, same, h)
    | inr q ↦ ground (arith, q, channel_at-update c a f ch l (ground (arith, e, q)) h)
  ]

  pub channel_at-put_channel :
      (c : ℕ) (ch old : Channel Q) (l : List (ℕ × Channel Q))
      → channel_at c l ≡ some old
      → channel_at c (put_channel c ch l) ≡ some ch
  unfolding channel_at put_channel
  channel_at-put_channel c ch old [] e = absurd (none-ne-some old e)
  channel_at-put_channel c ch old ((d, x) ∷ l) e = elim (Bool-cases (c == d)) [
    | inl q ↦ ground (arith, q)
    | inr q ↦ ground (arith, q, channel_at-put_channel c ch old l (ground (arith, e, q)))
  ]

module _ {Q : Type 0} (ops : RecvQueue Q) (garbage : TcpPcb) where
  -- A UDP send to an address, asked on a channel whose socket holds `p`.
  pub ask-sendto :
      (n : Node Q) (c pid flags : ℕ) (buf : List ℕ) (dest : SockAddr) (ch : Channel Q)
      (so : Socket Q) (a : ℕ) (p : Pcb)
      → channel_at c n.channels ≡ some ch
      → ch.socket ≡ some so
      → so.pcb ≡ udp_pcb a p
      → let (o, q, len) = udp_send (Handler.udp_out n.mux) p buf (some dest) in
        ask ops garbage n c
          (record { pid = pid; calling = Calling.sendto_call buf flags (some dest) })
        ≡ some (
          record n {
            mux = Handler.from_udp n.mux o;
            channels =
                put_channel c
                  (record ch { socket = some (record so { pcb = udp_pcb a q }) })
                  n.channels;
          },
          ok (Returning.sendto_ret (pos len) none),
        )
  unfolding ask handle_request sendto_call
  ask-sendto n c pid flags buf dest ch so a p e s u = ground (arith, e, s, u)

  -- A datagram that arrives for the block at `a`.
  pub arrive-datagram :
      (n : Node Q) (junk : SockAddr) (rest : List ℕ) (p : Pcb) (buf : List ℕ) (id a : ℕ)
      → PcbFits p
      → id < 2 ^ 16
      → length buf + 28 ≤ 1518
      → find
          (lock n.channels)
          n.mux.udp_pcbs
          (record { faddr = p.laddr; fport = p.lport; laddr = p.faddr; lport = p.fport })
        ≡ some a
      → (b : SocketBuffer) × (arrive ops garbage n junk (wire (datagram p buf id)) rest
          ≡ some (record n {
            channels =
                update a
                  (put_to_recv_q ops (record {
                    peer = record { family = 2; port = p.lport; addr = p.laddr };
                    chain = b ∷ [];
                  }))
                  n.channels;
          }))
        × HasPayload b
        × (bytes_of (b ∷ []) ≡ buf)
  unfolding arrive dispatch deliver
  arrive-datagram n junk rest p buf id a f lt fits found =
      let (chain, b, acc, r, u, pay) =
        udp_rx-sent p buf id rest n.defrager (lock n.channels) n.mux.udp_pcbs f lt fits in
      let (h, same) = one-bytes_of b buf pay in (b, ground (arith, acc, r, u, found), h, same)
