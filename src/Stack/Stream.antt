-- ===== src/Stack/Stream.antt =====
-- A byte stream between two stacks, from the `send` of one block to the queue of the other's socket.
use mu_quinet.Prelude.{
  ℕ, ◌+◌, ◌≤◌, ◌<◌, ◌≡◌, ◌≢◌, refl, ap, ap₂, sym, ◌∙◌, subst, subst₂, List, [], ◌∷◌, ◌++◌, map,
  some, arith, length, length-append, u32, All, ne→==, ◌-◌, suc, zero, take, Bool, Bool-cases, inl,
  inr, ltb, if◌then◌else◌, true,
}
use mathlib.Core.List.{append_assoc, append-nil}
use mu_quinet.Net.Buffer.{SocketBuffer, TxPacket, wire}
use mu_quinet.Mux.Rpc.{SockAddr}
use mu_quinet.Mux.Socket.{
  Socket, Packet, RecvQueue, QueueLaws, recv_q_limit, put_to_recv_q, tcp_pcb,
}
use mu_quinet.Mux.Handler.{chain_payload}
use mu_quinet.Pcb
use mu_quinet.Pcb.{Pcb, Flow, find}
use mu_quinet.Pcb.Find.{Takes}
use mu_quinet.Pcb.Calls.{PcbFits}
use mu_quinet.Ip.Header.{next_id}
use mu_quinet.Ip.Tx.{Out, tx}
use mu_quinet.Ip.Tx.Header.{next_id-lt}
use mu_quinet.Tcp.{TcpState, TcpPcb, send, send_established}
use mu_quinet.Tcp.Machine.Stream.{IsOpen, send_all, send_in_of_established}
use mu_quinet.Stack.{Host, Receiver, put_all, take_in, receive, receive_all}
use mu_quinet.Stack.Arrival.{packet}
use mu_quinet.Stack.Receive.{receive-Took}

-- A send on an open block with a port, exactly.
send-packet :
    (o : Out) (p : TcpPcb) (buf : List ℕ)
    → p.conn_state ≡ TcpState.established
    → p.pcb.lport ≢ 0
    → send o p buf ≡ (
      record o {
        last = (next_id o.last).0;
        sent = o.sent ++ packet p.pcb p.send_next p.recv_next buf (next_id o.last).1 ∷ [];
      },
      record p { send_next = u32 (p.send_next + length buf) },
      length buf,
    )
unfolding send Pcb.send tx send_established
send-packet o p buf e n = rw (ne→== p.pcb.lport 0 n) (send_in_of_established p.conn_state o p buf e)

abbrev none_yet : List (List ℕ)
none_yet = []

take-none : (n : ℕ) → take n none_yet ≡ none_yet
take-none zero = refl
take-none (suc n) = refl

-- The flow of what a block sends, as its peer sees it.
abbrev pub reversed : Pcb → Flow
reversed p = record { faddr = p.laddr; fport = p.lport; laddr = p.faddr; lport = p.fport }

-- What a stream needs of each buffer: it is not empty, and its segment fits a receive buffer.
abbrev pub IsSendable : List ℕ → Type 0
IsSendable buf = (0 < length buf) × (length buf + 40 ≤ 1518)

abbrev pub AreSendable : List (List ℕ) → Type 0
AreSendable bufs = All IsSendable bufs

module _ {Q : Type 0} (ops : RecvQueue Q) (laws : QueueLaws ops) (junk : SockAddr) where
  -- What is in the queue after buffers come: as many of them as it has room for.
  abbrev pub Filled : Q → Q → List (List ℕ) → Type 0
  Filled q q' bufs =
      (new : List Packet) × (laws.contents q' ≡ laws.contents q ++ new)
      × (map (λ pk. chain_payload pk.chain) new
          ≡ map some (take (recv_q_limit + 1 - length (laws.contents q)) bufs))

  Filled-none : (q : Q) → Filled q q []
  Filled-none q = (
    [],
    sym (append-nil (laws.contents q)),
    sym (ap (map some) (take-none (recv_q_limit + 1 - length (laws.contents q)))),
  )

  dropped-Filled :
      (q q' : Q) (buf : List ℕ) (bufs : List (List ℕ))
      → recv_q_limit < length (laws.contents q)
      → Filled q q' bufs
      → Filled q q' (buf ∷ bufs)
  dropped-Filled q q' buf bufs full (new, e, m) =
      let zero : recv_q_limit + 1 - length (laws.contents q) ≡ 0 = omega arith in
      (
        new,
        e,
        m
            ∙ ap (λ n. map some (take n bufs)) zero
            ∙ sym (ap (λ n. map some (take n (buf ∷ bufs))) zero),
      )

  enqueued-Filled :
      (q q' : Q) (pk : Packet) (buf : List ℕ) (bufs : List (List ℕ))
      → length (laws.contents q) ≤ recv_q_limit
      → chain_payload pk.chain ≡ some buf
      → Filled (ops.enqueue pk q) q' bufs
      → Filled q q' (buf ∷ bufs)
  enqueued-Filled q q' pk buf bufs room payload (new, e, m) =
      let more = laws.contents_enqueue pk q in
      let left : ℕ = recv_q_limit + 1 - length (laws.contents (ops.enqueue pk q)) in
      let one : suc left ≡ recv_q_limit + 1 - length (laws.contents q) =
        omega (arith, ap length more, length-append (laws.contents q) (pk ∷ [])) in
      (
        pk ∷ new,
        e ∙ ap (λ l. l ++ new) more ∙ append_assoc (laws.contents q) (pk ∷ []) new,
        ap₂ ◌∷◌ payload m ∙ ap (λ n. map some (take n (buf ∷ bufs))) one,
      )

  put-Filled :
      (so : Socket Q) (q' : Q) (pk : Packet) (buf : List ℕ) (bufs : List (List ℕ))
      → chain_payload pk.chain ≡ some buf
      → Filled (put_to_recv_q ops pk so).recv_q q' bufs
      → Filled so.recv_q q' (buf ∷ bufs)
  unfolding put_to_recv_q
  put-Filled so q' pk buf bufs payload f =
      let full : Bool = ltb recv_q_limit (ops.size_approx so.recv_q) in
      let enqueued : Socket Q = record so { recv_q = ops.enqueue pk so.recv_q; readable = true } in
      let After : Bool → Type 0 = λ b. Filled (if b then so else enqueued).recv_q q' bufs in
      elim (Bool-cases full) [
        | inl t ↦
            dropped-Filled so.recv_q q' buf bufs (ground (arith, t, laws.size so.recv_q))
              (subst After t f)
        | inr t ↦
            enqueued-Filled so.recv_q q' pk buf bufs (ground (arith, t, laws.size so.recv_q))
              payload (subst After t f)
      ]

  -- The receiver after one segment whose chain goes to `putToRecvQ`.
  abbrev after_put : Receiver Q → Host → List SocketBuffer → Receiver Q
  after_put r h chain = record {
    host = h;
    so = record (put_to_recv_q ops (record { peer = junk; chain = chain }) r.so) {
      pcb = tcp_pcb 1 h.block;
    };
  }

  receive_all-cons :
      (r : Receiver Q) (h : Host) (garbage : List ℕ) (pk : TxPacket) (pks : List TxPacket)
      (chain : List SocketBuffer)
      → receive r.host (wire pk) garbage ≡ some (h, chain ∷ [])
      → receive_all ops junk r garbage (pk ∷ pks)
        ≡ receive_all ops junk (after_put r h chain) garbage pks
  unfolding receive_all take_in put_all
  receive_all-cons r h garbage pk pks chain e = rw (receive_all, take_in, e) refl

  -- What a sequence of sends and its arrival come to.
  abbrev pub Streamed : Out → TcpPcb → List (List ℕ) → Receiver Q → List ℕ → Type 0
  Streamed o p bufs r garbage =
      let (o', p') = send_all o p bufs in
      (pks : List TxPacket) × (r' : Receiver Q) × (o'.sent ≡ o.sent ++ pks)
      × (receive_all ops junk r garbage pks ≡ some r')
      × Filled r.so.recv_q r'.so.recv_q bufs
      × (r'.host.block.recv_next ≡ p'.send_next)
      × (r'.host.block.conn_state ≡ TcpState.established)

  -- Between two stacks with an established connection, whose receiving block takes the sender's flow
  -- and expects the sender's next sequence number, any sequence of sends of buffers that are not empty
  -- and fit a packet, received in order while nothing is taken from the receiving socket's queue, puts
  -- into that queue, behind what it holds and in order, exactly the first of those buffers, as many as
  -- bring it to 129 packets. The others are dropped, but are acknowledged: the receiver then expects
  -- what the sender sends next, whatever the queue's size. The sender's fields are in range, and it
  -- has a port.
  pub send_all-Streamed :
      (o : Out) (p : TcpPcb) (bufs : List (List ℕ)) (r : Receiver Q) (garbage : List ℕ)
      → IsOpen p
      → PcbFits p.pcb
      → p.pcb.lport ≢ 0
      → AreSendable bufs
      → r.host.block.conn_state ≡ TcpState.established
      → r.host.block.recv_next ≡ p.send_next
      → Takes r.host.block.pcb (reversed p.pcb)
      → Streamed o p bufs r garbage
  unfolding send_all receive_all
  send_all-Streamed o p [] r garbage w f n a e q t =
      ([], r, sym (append-nil o.sent), refl, Filled-none r.so.recv_q, q, e)
  send_all-Streamed o p (buf ∷ bufs) r garbage w f n (a, rest) e q t =
      let id : ℕ = (next_id o.last).1 in
      let (h1, chain, got, took) =
        receive-Took r.host p.pcb p.send_next p.recv_next buf id garbage f a.1 (next_id-lt o.last)
          a.0 w.send_next e t in
      let s = send-packet o p buf w.established n in
      let o1 : Out = (send o p buf).0 in
      let p1 : TcpPcb = (send o p buf).1 in
      let same : p1.pcb ≡ p.pcb = ap (λ x. x.1.pcb) s in
      let next : p1.send_next ≡ u32 (p.send_next + length buf) = ap (λ x. x.1.send_next) s in
      let (pks, r2, sent, got2, filled, seq, state) =
        send_all-Streamed o1 p1 bufs (after_put r h1 chain) garbage
          (record {
            established = ap (λ x. x.1.conn_state) s ∙ w.established;
            send_next = rw next (omega arith);
            recv_next = rw (ap (λ x. x.1.recv_next) s) w.recv_next;
          })
          (subst PcbFits (sym same) f) (rw same n) rest took.established (took.recv_next ∙ sym next)
          (subst₂ (λ x y. Takes x (reversed y)) (sym took.pcb) (sym same) t) in
      let pk : TxPacket = packet p.pcb p.send_next p.recv_next buf id in
      (
        pk ∷ pks,
        r2,
        sent ∙ ap (λ x. x.0.sent ++ pks) s ∙ append_assoc o.sent (pk ∷ []) pks,
        receive_all-cons r h1 garbage pk pks chain got ∙ got2,
        put-Filled r.so r2.so.recv_q (record { peer = junk; chain = chain }) buf bufs took.payload
            filled,
        seq,
        state,
      )
