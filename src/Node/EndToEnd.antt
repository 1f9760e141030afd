-- ===== src/Node/EndToEnd.antt =====
-- sendto in one process to recvfrom in another, over two daemons.
use mu_quinet.Prelude.{
  ℕ, ◌+◌, ◌^◌, ◌≤◌, ◌<◌, ◌≡◌, ◌≢◌, refl, sym, ap, ◌∙◌, subst, List, [], ◌∷◌, ◌++◌, true, none, some,
  arith, length, pos, All,
}
use mu_quinet.Net.Buffer.{SocketBuffer, TxPacket, wire}
use mu_quinet.Pcb.{Pcb, find}
use mu_quinet.Pcb.Calls.{PcbFits, IsBound}
use mu_quinet.Tcp.{TcpPcb}
use mu_quinet.Mux.Rpc.{SockAddr, Calling, Request, Response, Returning}
use mu_quinet.Mux.Socket.{Socket, Packet, RecvQueue, QueueLaws, udp_pcb, put_to_recv_q}
use mu_quinet.Mux.Handler
use mu_quinet.Udp.{send, send_to}
use mu_quinet.Mux.Handler.{Channel, handle_request, ok, udp_send}
use mu_quinet.Mux.Handler.Receiving.{HasPayload}
use mu_quinet.Interceptor.Recv.{ReadResult}
use mu_quinet.Interceptor.Calls.{Outcome, sendto, recvfrom}
use mu_quinet.Interceptor.Replies.{data_ret, recvfrom-handle_request}
use mu_quinet.Node.{Node, lock, update, channel_at, put_channel, arrive, ask}
use mu_quinet.Node.Datagram.{
  datagram, send_to-SentTo, channel_at-update, ask-sendto, arrive-datagram,
}
use mu_quinet.Node.Calls.{sendto_answered, found-from, data_ret-peer, Process, IsReady}

module _ {Q : Type 0} (ops : RecvQueue Q) (laws : QueueLaws ops) (garbage : TcpPcb) where
  -- A channel of a daemon whose socket holds the UDP block `p` at `a`.
  pub record Serves (n : Node Q) (c a : ℕ) (p : Pcb) : Type 0 where
    pub channel : Channel Q
    pub socket : Socket Q
    pub at : channel_at c n.channels ≡ some channel
    pub has : channel.socket ≡ some socket
    pub block : socket.pcb ≡ udp_pcb a p

  -- What is at the end: the sender's call, the packet on the wire, and the receiver's call.
  abbrev pub Carried :
      Process
      → Node Q
      → ℕ
      → Pcb
      → SockAddr
      → List ℕ
      → ℕ
      → Process
      → Node Q
      → ℕ
      → ℕ
      → ℕ
      → SockAddr
      → List ℕ
      → Type 0
  Carried x n c p dest buf flags y m d len flags' junk rest =
      let req : Request = record {
        pid = x.pid;
        calling = Calling.sendto_call buf flags (some dest);
      } in
      let req' : Request = record {
        pid = y.pid;
        calling = Calling.recvfrom_call len flags' true;
      } in
      (n' : Node Q) × (r : Response) × (sender : Pcb) × (pk : TxPacket) × (m' m'' : Node Q)
      × (r' : Response) × (ask ops garbage n c req ≡ some (n', r))
      × (sendto x.interceptor x.pid x.fd buf flags (some dest) (ReadResult.message r ∷ [])
          ≡ record {
            after = x.interceptor;
            sent = (x.connfd, req) ∷ [];
            outcome =
                Outcome.returned
                  (record { ret = pos (length buf); errno = none; written = []; addr = none });
          })
      × (n'.mux.sent ≡ n.mux.sent ++ pk ∷ [])
      × IsBound (record p { faddr = dest.addr; fport = dest.port }) sender
      × (arrive ops garbage m junk (wire pk) rest ≡ some m')
      × (ask ops garbage m' d req' ≡ some (m'', r'))
      × (recvfrom y.interceptor y.pid y.fd len flags' true (ReadResult.message r' ∷ []) ≡ record {
        after = y.interceptor;
        sent = (y.connfd, req') ∷ [];
        outcome = Outcome.returned (record {
          ret = pos (length buf);
          errno = none;
          written = buf;
          addr = some (record { family = 2; port = sender.lport; addr = p.laddr });
        });
      })

  -- An empty queue takes a packet.
  put-contents :
      (so : Socket Q) (pk : Packet)
      → laws.contents so.recv_q ≡ []
      → laws.contents (put_to_recv_q ops pk so).recv_q ≡ pk ∷ []
  unfolding put_to_recv_q
  put-contents so pk e =
      let z : ops.size_approx so.recv_q ≡ 0 = laws.size so.recv_q ∙ ap length e in
      ground (arith, z, laws.contents_enqueue pk so.recv_q, e)

  -- `recvfrom` on a daemon where a datagram has just come.
  recvfrom-arrived :
      (y : Process) (m : Node Q) (d len flags : ℕ) (ch : Channel Q) (so : Socket Q) (pk : Packet)
      (b : SocketBuffer)
      → IsReady y
      → len ≢ 0
      → channel_at d m.channels ≡ some ch
      → ch.socket ≡ some so
      → laws.contents so.recv_q ≡ pk ∷ []
      → pk.chain ≡ b ∷ []
      → HasPayload b
      → let req : Request = record {
        pid = y.pid;
        calling = Calling.recvfrom_call len flags true;
      } in
        (m' : Node Q) × (r : Response) × (ask ops garbage m d req ≡ some (m', r))
        × (recvfrom y.interceptor y.pid y.fd len flags true (ReadResult.message r ∷ []) ≡ record {
          after = y.interceptor;
          sent = (y.connfd, req) ∷ [];
          outcome = Outcome.returned (data_ret pk true);
        })
  unfolding ask
  recvfrom-arrived y m d len flags ch so pk b ready some_len e s q one h =
      let (c', r, now, out) =
        recvfrom-handle_request ops laws garbage y.interceptor y.pid y.fd y.connfd len flags true
          m.mux ch so pk [] ready.assigned ready.channel some_len s q
          (subst (All HasPayload) (sym one) (h, tt)) in
      (record m { channels = put_channel d c' m.channels }, r, ground (arith, e, now), out)

  -- The sender's daemon.
  asked :
      (n : Node Q) (c a pid flags : ℕ) (p : Pcb) (dest : SockAddr) (buf : List ℕ)
      → Serves n c a p
      → (sender : Pcb) (id : ℕ)
      → (udp_send (Handler.udp_out n.mux) p buf (some dest)).0.sent
        ≡ n.mux.sent ++ datagram sender buf id ∷ []
      → (n' : Node Q) × (ask ops garbage n c
            (record { pid = pid; calling = Calling.sendto_call buf flags (some dest) })
          ≡ some (n', ok (Returning.sendto_ret (pos (length buf)) none)))
        × (n'.mux.sent ≡ n.mux.sent ++ datagram sender buf id ∷ [])
  unfolding udp_send send_to send
  asked n c a pid flags p dest buf here sender id e = (
    _,
    ask-sendto ops garbage n c pid flags buf dest here.channel here.socket a p here.at here.has
        here.block,
    e,
  )

  -- A datagram that a process sends to an address, with the bytes that its daemon puts on the wire
  -- read by another daemon's device, is what a process gets there: all the bytes, their number and
  -- the sender's address. The sender's socket is a UDP socket whose fields fit, the address fits, the
  -- buffer is not empty and fits a packet; the other daemon's search gives, from any port of the
  -- sender's address, the block of the receiver's socket, whose queue is empty.
  pub sendto-Carried :
      (x : Process) (n : Node Q) (c a : ℕ) (p : Pcb) (dest : SockAddr) (buf : List ℕ) (flags : ℕ)
      (y : Process) (m : Node Q) (d b len flags' : ℕ) (q : Pcb) (junk : SockAddr) (rest : List ℕ)
      → IsReady x
      → IsReady y
      → Serves n c a p
      → (there : Serves m d b q) → PcbFits p
      → dest.addr < 2 ^ 32
      → dest.port < 2 ^ 16
      → length buf ≢ 0
      → length buf + 28 ≤ 1518
      → len ≢ 0
      → laws.contents there.socket.recv_q ≡ []
      → ((port : ℕ)
          → find
              (lock m.channels)
              m.mux.udp_pcbs
              (record { faddr = p.laddr; fport = port; laddr = dest.addr; lport = dest.port })
            ≡ some b)
      → Carried x n c p dest buf flags y m d len flags' junk rest
  sendto-Carried x n c a p dest buf flags y m d b len flags' q junk rest rx ry here there f fa fp
        some_bytes fits some_len empty found =
      let s = send_to-SentTo (Handler.udp_out n.mux) p dest buf f fa fp in
      let (n', e1, sent) = asked n c a x.pid flags p dest buf here s.sender s.id s.sent in
      let k =
        found-from p dest s.sender s.bound (find (lock m.channels) m.mux.udp_pcbs) b
          (found s.sender.lport) in
      let (buffer, e2, h, same) =
        arrive-datagram ops garbage m junk rest s.sender buf s.id b s.fits s.id_fits fits k in
      let peer : SockAddr = record { family = 2; port = s.sender.lport; addr = s.sender.laddr } in
      let pk : Packet = record { peer = peer; chain = buffer ∷ [] } in
      let e3 =
        channel_at-update d b (put_to_recv_q ops pk) there.channel m.channels there.at
          (ground (arith, there.has, there.block)) in
      let so' : Socket Q = put_to_recv_q ops pk there.socket in
      let (m'', r', e4, out) =
        recvfrom-arrived y (record m { channels = update b (put_to_recv_q ops pk) m.channels }) d
          len flags' (record there.channel { socket = some so' }) so' pk buffer ry some_len
          (ground (arith, e3, there.has)) refl (put-contents there.socket pk empty) refl h in
      (
        n',
        ok (Returning.sendto_ret (pos (length buf)) none),
        s.sender,
        datagram s.sender buf s.id,
        record m { channels = update b (put_to_recv_q ops pk) m.channels },
        m'',
        r',
        e1,
        sendto_answered x.interceptor x.pid x.fd x.connfd flags (length buf) buf (some dest)
            rx.assigned rx.channel some_bytes,
        sent,
        s.bound,
        e2,
        e4,
        out
            ∙ data_ret-peer y.interceptor _ buf buffer s.sender.lport s.sender.laddr p.laddr same
                s.bound.laddr,
      )
