-- ===== src/Node.antt =====
-- A whole daemon: the channels of Mux with their sockets and blocks, the layers below, and what the
-- device reads. A packet goes from Interface::start through Ip::start and Udp::rx or Tcp::rx to
-- Socket::putToRecvQ; a request goes through RequestHandler.
pub mod Datagram
pub mod Calls
pub mod Isolation
pub mod Kinds
pub mod EndToEnd
use mu_quinet.Prelude.{
  ℕ, List, [], ◌∷◌, ◌++◌, Bool, true, false, Option, none, some, ◌==◌, if◌then◌else◌, length,
}
use mu_quinet.Net.Buffer.{SocketBuffer, tun_rx}
use mu_quinet.Pcb.{Pcb}
use mu_quinet.Ip.Defrag.{Defrager}
use mu_quinet.Ip.Rx.{Verdict, en_rx_que, rx}
use mu_quinet.Tcp.{TcpPcb, Handled, recv}
use mu_quinet.Udp.Rx.{Delivery, udp_rx, tcp_rx}
use mu_quinet.Mux.Rpc.{SockAddr, Request, Response}
use mu_quinet.Mux.Socket.{Socket, Packet, RecvQueue, PcbRef, udp_pcb, tcp_pcb, put_to_recv_q}
use mu_quinet.Mux.Handler
use mu_quinet.Mux.Handler.Blocks.{address_of}
use mu_quinet.Mux.Handler.{Channel, handle_request, on_conn_estab, tcp_out, from_tcp}

-- `channels` is `rrChannels`, each object at its address; `written` is what callbacks wrote on them.
pub record Node (Q : Type 0) : Type 0 where
  pub mux : Handler.Stack
  pub defrager : Defrager
  pub channels : List (ℕ × Channel Q)
  pub written : List (ℕ × Response)

abbrev pub base : PcbRef → Pcb
base (udp_pcb a p) = p
base (tcp_pcb a p) = p.pcb

module _ {Q : Type 0} where
  -- The channel's socket holds the block at `a`.
  abbrev pub holds : ℕ → Channel Q → Bool
  holds a ch = elim ch.socket [ none ↦ false | some so ↦ address_of so.pcb == a ]

  -- The block at an address: it lives as long as a socket holds it.
  unfoldable pub block_at : ℕ → List (ℕ × Channel Q) → Option PcbRef
  block_at a [] = none
  block_at a ((c, ch) ∷ l) =
      let rest = block_at a l in
      elim ch.socket [
        | none ↦ rest
        | some so ↦ if address_of so.pcb == a then some so.pcb else rest
      ]

  -- `lock` of a weak pointer to a block.
  unfoldable pub lock : List (ℕ × Channel Q) → ℕ → Option Pcb
  unfolding block_at
  lock l a = elim (block_at a l) [ none ↦ none | some ref ↦ some (base ref) ]

  abbrev pub update_socket : (Socket Q → Socket Q) → Channel Q → Channel Q
  update_socket f ch = elim ch.socket [ none ↦ ch | some so ↦ record ch { socket = some (f so) } ]

  -- The socket of the block at `a` changes.
  unfoldable pub update : ℕ → (Socket Q → Socket Q) → List (ℕ × Channel Q) → List (ℕ × Channel Q)
  update a f [] = []
  update a f ((c, ch) ∷ l) =
      let rest = update a f l in
      if holds a ch then (c, update_socket f ch) ∷ rest else (c, ch) ∷ rest

  unfoldable pub channel_at : ℕ → List (ℕ × Channel Q) → Option (Channel Q)
  channel_at c [] = none
  channel_at c ((d, ch) ∷ l) = let rest = channel_at c l in if c == d then some ch else rest

  unfoldable pub put_channel : ℕ → Channel Q → List (ℕ × Channel Q) → List (ℕ × Channel Q)
  put_channel c ch [] = []
  put_channel c ch ((d, old) ∷ l) =
      let rest = put_channel c ch l in if c == d then (d, ch) ∷ rest else (d, old) ∷ rest

  -- The channel whose socket holds the block at `a`.
  unfoldable pub owner_of : ℕ → List (ℕ × Channel Q) → Option ℕ
  owner_of a [] = none
  owner_of a ((c, ch) ∷ l) = let rest = owner_of a l in if holds a ch then some c else rest

module _ {Q : Type 0} (ops : RecvQueue Q) (garbage : TcpPcb) where
  -- The buffer that TcpPcb::recv passes on, with those that hang on it; it does not set the peer's
  -- address, `junk`.
  abbrev pub queue_segment :
      SockAddr → List SocketBuffer → Option SocketBuffer → Socket Q → Socket Q
  queue_segment junk rest none so = so
  queue_segment junk rest (some b) so =
      put_to_recv_q ops (record { peer = junk; chain = b ∷ rest }) so

  -- The block's output is that of TCP; the callback for an established connection writes its answer
  -- on the channel.
  unfoldable pub after_segment : Node Q → SockAddr → ℕ → List SocketBuffer → Handled → Node Q
  unfolding update owner_of on_conn_estab put_to_recv_q
  after_segment n junk a rest r =
      let channels' =
        update a (λ so. queue_segment junk rest r.queued (record so { pcb = tcp_pcb a r.block }))
          n.channels in
      let n' : Node Q = record n { mux = from_tcp n.mux r.out; channels = channels' } in
      let (mux', resp) = on_conn_estab ops garbage n'.mux a in
      if r.called
      then elim (owner_of a n.channels) [
        | none ↦ n'
        | some c ↦ record n' { mux = mux'; written = n.written ++ (c, resp) ∷ [] }
      ]
      else n'

  -- `pcb->recv` for the block that was found; a UDP block's is in the delivery already.
  unfoldable pub deliver : Node Q → SockAddr → Delivery → Option (Node Q)
  unfolding update put_to_recv_q after_segment block_at recv
  deliver n junk Delivery.crashed = none
  deliver n junk Delivery.no_receiver = some n
  deliver n junk (Delivery.to_socket a peer chain) = some (record n {
    channels = update a (put_to_recv_q ops (record { peer = peer; chain = chain })) n.channels;
  })
  deliver n junk (Delivery.to_tcp_pcb a []) = none
  deliver n junk (Delivery.to_tcp_pcb a (b ∷ rest)) = elim (block_at a n.channels) [
    | none ↦ none
    | some ref ↦ elim ref [
      | udp_pcb _ p ↦ none
      | tcp_pcb _ p ↦ elim (recv (tcp_out n.mux) p b) [
        | none ↦ none
        | some r ↦ some (after_segment n junk a rest r)
      ]
    ]
  ]

  unfoldable pub dispatch : Node Q → SockAddr → Verdict → Option (Node Q)
  unfolding deliver udp_rx tcp_rx lock
  dispatch n junk Verdict.dropped = some n
  dispatch n junk Verdict.kept = some n
  dispatch n junk Verdict.ignored = some n
  dispatch n junk (Verdict.to_udp chain) =
      deliver n junk (udp_rx (lock n.channels) n.mux.udp_pcbs chain)
  dispatch n junk (Verdict.to_tcp chain) =
      deliver n junk (tcp_rx (lock n.channels) n.mux.tcp_pcbs chain)

  -- The bytes of one packet from the device; `none` is a crash.
  unfoldable pub arrive : Node Q → SockAddr → List ℕ → List ℕ → Option (Node Q)
  unfolding en_rx_que rx dispatch
  arrive n junk bytes rest =
      let b = tun_rx bytes rest (length bytes) in
      if en_rx_que b
      then elim (rx n.defrager b) [
        | none ↦ none
        | some (d, v) ↦ dispatch (record n { defrager = d }) junk v
      ]
      else some n

  -- A request on the channel at `c`, and the answer.
  unfoldable pub ask : Node Q → ℕ → Request → Option (Node Q × Response)
  unfolding channel_at put_channel handle_request
  ask n c req = elim (channel_at c n.channels) [
    | none ↦ none
    | some ch ↦ elim (handle_request ops garbage n.mux ch req) [
      | none ↦ none
      | some (s, ch', resp) ↦
          some (record n { mux = s; channels = put_channel c ch' n.channels }, resp)
    ]
  ]
