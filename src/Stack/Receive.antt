-- ===== src/Stack/Receive.antt =====
-- What one segment of an open connection does to the receiving stack.
use mu_quinet.Prelude.{
  ℕ, ◌+◌, ◌*◌, ◌-◌, ◌^◌, ◌≤◌, ◌<◌, ◌≡◌, refl, ap, ◌∙◌, List, [], ◌∷◌, ◌++◌, true, false, Option,
  some, inl, inr, arith, length, length-append, swap32, swap32-swap32, u32,
}
use mu_quinet.Net.Headers.{TcpHeader}
use mu_quinet.Net.Buffer.{SocketBuffer, wire, tun_rx, user_payload}
use mu_quinet.Pcb.{Pcb, Flow, find}
use mu_quinet.Pcb.Find.{Takes, TakesAt, find-IsLast}
use mu_quinet.Pcb.Calls.{PcbFits}
use mu_quinet.Ip.Rx.{en_rx_que, rx, Verdict}
use mu_quinet.Tcp.{TcpState, TcpPcb, recv, recv_in, acked, ack2peer, tcp_check, tcp_template}
use mu_quinet.Tcp.Machine.Handshake.{recv_at}
use mu_quinet.Tcp.Machine.Stream.{recv_in_of_established, recv_established_of_payload, acked_fields}
use mu_quinet.Udp.Rx.{Delivery, tcp_flow, tcp_rx}
use mathlib.Core.List.{append-nil}
use mu_quinet.Mux.Handler.{chain_payload}
use mu_quinet.Stack.{Host, lock, after_recv, after_tcp_rx, after_rx, receive}
use mu_quinet.Stack.Arrival.{
  data_header, packet, came, tcp_header-came, came-end, payload-came, came-accepted, came-rx, flow,
  came-flow,
}

only-element : (a : ℕ) (before after : List ℕ) → 1 ∷ [] ≡ before ++ a ∷ after → a ≡ 1
only-element a [] after e = ground (arith, e)
only-element a (x ∷ l) after e = absurd (omega (arith, ap length e, length-append l (a ∷ after)))

-- The search in a list of one block.
find-only : (look : ℕ → Option Pcb) (k : Flow) → TakesAt look k 1 → find look (1 ∷ []) k ≡ some 1
find-only look k t = elim (find-IsLast look k (1 ∷ [])) [
  | inl (_, n) ↦ absurd (n.0 t)
  | inr (a, before, after, e, _, _, o) ↦ o ∙ ap some (only-element a before after e)
]

tcp_rx-only :
    (look : ℕ → Option Pcb) (b : SocketBuffer) (hdr : ℕ) (k : Flow)
    → b.transport_hdr ≡ some hdr
    → tcp_flow b hdr ≡ k
    → TakesAt look k 1
    → tcp_rx look (1 ∷ []) (b ∷ []) ≡ Delivery.to_tcp_pcb 1 (b ∷ [])
unfolding tcp_rx
tcp_rx-only look b hdr k e g t = ground (arith, e, g, find-only look k t)

receive-accepted :
    (h : Host) (bytes garbage : List ℕ) (b : SocketBuffer)
    → b ≡ tun_rx bytes garbage (length bytes)
    → en_rx_que b ≡ true
    → receive h bytes garbage ≡ after_rx h (rx h.defrager b)
unfolding receive
receive-accepted h bytes garbage b e a = ground (arith, e, a)

module _ (h : Host) (p : Pcb) (seq ack : ℕ) (buf : List ℕ) (id : ℕ) (garbage : List ℕ)
    (f : PcbFits p) (fits : length buf + 40 < 2 ^ 16) (lt : id < 2 ^ 16)
    (some_bytes : 0 < length buf) (seq_lt : seq < 2 ^ 32)
    (established : h.block.conn_state ≡ TcpState.established)
    (takes : Takes h.block.pcb (flow p seq ack buf id garbage f fits lt)) where
  abbrev b0 : SocketBuffer
  b0 = record (came p seq ack buf id garbage f fits lt) { transport_hdr = some 20 }

  abbrev header : TcpHeader
  header = record (data_header p seq ack) { check = tcp_check p (data_header p seq ack) buf }

  abbrev end_seq : ℕ
  end_seq = u32 (swap32 header.seq + (b0.user_payload_end - 40))

  abbrev queued : SocketBuffer
  queued = record b0 { user_payload_begin = some 40 }

  abbrev block : TcpPcb
  block = record (acked h.block header) { recv_next = end_seq }

  recv-b0 :
      recv h.out h.block b0
      ≡ some (record {
        out = ack2peer h.out block end_seq;
        block = block;
        queued = some queued;
        called = false;
      })
  unfolding tcp_template
  recv-b0 =
      recv_at h.out h.block b0 20 refl
      ∙ ap (λ t. recv_in h.block.conn_state h.out h.block t b0 (20 + t.doff * 4))
          (tcp_header-came p seq ack buf id garbage f fits lt)
      ∙ recv_in_of_established h.block.conn_state h.out h.block header b0 40 established
      ∙ ap some (
          recv_established_of_payload h.out h.block header b0 40
            (omega (arith, came-end p seq ack buf id garbage f fits lt)))

  b0-routed :
      after_rx h (some (h.defrager, Verdict.to_tcp (b0 ∷ [])))
      ≡ some (record h { out = ack2peer h.out block end_seq; block = block }, (queued ∷ []) ∷ [])
  unfolding after_rx after_tcp_rx after_recv
  b0-routed =
      ap (after_tcp_rx h) (
        tcp_rx-only (lock h) b0 20 (flow p seq ack buf id garbage f fits lt) refl
          (came-flow p seq ack buf id garbage f fits lt) (h.block.pcb, refl, takes))
      ∙ ap (after_recv h []) recv-b0

  -- A data segment that comes off the wire at a stack whose established block takes its flow.
  receive-packet :
      receive h (wire (packet p seq ack buf id)) garbage
      ≡ some (record h { out = ack2peer h.out block end_seq; block = block }, (queued ∷ []) ∷ [])
  receive-packet =
      receive-accepted h (wire (packet p seq ack buf id)) garbage
        (came p seq ack buf id garbage f fits lt) refl
        (came-accepted p seq ack buf id garbage f fits lt)
      ∙ ap (after_rx h) (came-rx p seq ack buf id garbage f fits lt h.defrager)
      ∙ b0-routed

  end_seq_lem : end_seq ≡ u32 (seq + length buf)
  unfolding tcp_template
  end_seq_lem = omega (arith, came-end p seq ack buf id garbage f fits lt, swap32-swap32 seq seq_lt)

chain_payload-one :
    (b : SocketBuffer) (buf : List ℕ)
    → user_payload b ≡ some buf
    → chain_payload (b ∷ []) ≡ some buf
unfolding chain_payload
chain_payload-one b buf e = rw (chain_payload, e) (ap some (append-nil buf))

-- A host after one data segment: what is put into the queue, and the block.
pub record Took (h : Host) (seq : ℕ) (buf : List ℕ) (h' : Host) (chain : List SocketBuffer)
    : Type 0 where
  pub payload : chain_payload chain ≡ some buf
  pub recv_next : h'.block.recv_next ≡ u32 (seq + length buf)
  pub established : h'.block.conn_state ≡ TcpState.established
  pub pcb : h'.block.pcb ≡ h.block.pcb

pub receive-Took :
    (h : Host) (p : Pcb) (seq ack : ℕ) (buf : List ℕ) (id : ℕ) (garbage : List ℕ)
    → PcbFits p
    → length buf + 40 ≤ 1518
    → id < 2 ^ 16
    → 0 < length buf
    → seq < 2 ^ 32
    → h.block.conn_state ≡ TcpState.established
    → Takes h.block.pcb
        (record { faddr = p.laddr; fport = p.lport; laddr = p.faddr; lport = p.fport })
    → (h' : Host) × (chain : List SocketBuffer) × (receive h
          (wire (packet p seq ack buf id))
          garbage
        ≡ some (h', chain ∷ []))
      × Took h seq buf h' chain
receive-Took h p seq ack buf id garbage f small lt some_bytes seq_lt e t =
    let fits : length buf + 40 < 2 ^ 16 = omega arith in
    let header = record (data_header p seq ack) {
      check = tcp_check p (data_header p seq ack) buf;
    } in
    let (_, state, pcb) = acked_fields h.block header in
    (
      _,
      _,
      receive-packet h p seq ack buf id garbage f fits lt some_bytes seq_lt e t,
      record {
        payload = chain_payload-one _ buf (payload-came p seq ack buf id garbage f fits lt);
        recv_next = end_seq_lem h p seq ack buf id garbage f fits lt some_bytes seq_lt e t;
        established = state ∙ e;
        pcb = pcb;
      },
    )
