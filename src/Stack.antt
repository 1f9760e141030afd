-- ===== src/Stack.antt =====
-- A whole stack with one TCP block: what comes off the wire goes through the device, the IP layer,
-- the search for the block and the block.
pub mod Arrival
pub mod Receive
pub mod Stream
use mu_quinet.Prelude.{ℕ, List, [], ◌∷◌, ◌++◌, Option, none, some, ◌==◌, if◌then◌else◌, length}
use mu_quinet.Net.Buffer.{SocketBuffer, TxPacket, tun_rx, wire}
use mu_quinet.Pcb.{Pcb}
use mu_quinet.Ip.Tx.{Out}
use mu_quinet.Ip.Defrag.{Defrager}
use mu_quinet.Ip.Rx.{Verdict, en_rx_que, rx}
use mu_quinet.Tcp.{TcpPcb, Handled, recv}
use mu_quinet.Mux.Rpc.{SockAddr}
use mu_quinet.Mux.Socket.{Socket, RecvQueue, tcp_pcb, put_to_recv_q}
use mu_quinet.Udp.Rx.{Delivery, tcp_rx}

-- The block stands at address 1, alone in the list of TCP blocks.
pub record Host : Type 0 where
  pub defrager : Defrager
  pub out : Out
  pub block : TcpPcb

abbrev pub lock : Host → ℕ → Option Pcb
lock h a = if a == 1 then some h.block.pcb else none

-- A host after a received packet, and what `putToRecvQ` was called with: a buffer, with those that
-- hang on it.
abbrev pub After : Type 0
After = Option (Host × List (List SocketBuffer))

unfoldable pub after_recv : Host → List SocketBuffer → Option Handled → After
after_recv h rest none = none
after_recv h rest (some r) = some (
  record h { out = r.out; block = r.block },
  elim r.queued [ none ↦ [] | some b ↦ (b ∷ rest) ∷ [] ],
)

unfoldable pub after_tcp_rx : Host → Delivery → After
unfolding after_recv recv
after_tcp_rx h (Delivery.to_tcp_pcb a (b ∷ rest)) = after_recv h rest (recv h.out h.block b)
after_tcp_rx h (Delivery.to_tcp_pcb a []) = none
after_tcp_rx h Delivery.crashed = none
after_tcp_rx h Delivery.no_receiver = some (h, [])
after_tcp_rx h (Delivery.to_socket a peer chain) = some (h, [])

unfoldable pub after_rx : Host → Option (Defrager × Verdict) → After
unfolding after_tcp_rx tcp_rx
after_rx h none = none
after_rx h (some (d, Verdict.to_tcp chain)) =
    after_tcp_rx (record h { defrager = d }) (tcp_rx (lock h) (1 ∷ []) chain)
after_rx h (some (d, v)) = some (record h { defrager = d }, [])

-- The bytes of one packet; `garbage` is what the rest of the buffer held.
unfoldable pub receive : Host → List ℕ → List ℕ → After
unfolding en_rx_que after_rx rx
receive h bytes garbage =
    let b = tun_rx bytes garbage (length bytes) in
    if en_rx_que b then after_rx h (rx h.defrager b) else some (h, [])

-- A host with the socket of its block.
pub record Receiver (Q : Type 0) : Type 0 where
  pub host : Host
  pub so : Socket Q

-- `junk` is the peer's address, which TcpPcb::recv does not set.
module _ {Q : Type 0} (ops : RecvQueue Q) (junk : SockAddr) where
  unfoldable pub put_all : List (List SocketBuffer) → Socket Q → Socket Q
  unfolding put_to_recv_q
  put_all [] so = so
  put_all (chain ∷ chains) so =
      put_all chains (put_to_recv_q ops (record { peer = junk; chain = chain }) so)

  -- The bytes of one packet, with what comes of it put into the socket's queue, if there is room.
  unfoldable pub take_in : Receiver Q → List ℕ → List ℕ → Option (Receiver Q)
  unfolding receive put_all
  take_in r bytes garbage = elim (receive r.host bytes garbage) [
    | none ↦ none
    | some (h, chains) ↦
        some (record { host = h; so = record (put_all chains r.so) { pcb = tcp_pcb 1 h.block } })
  ]

  -- Packets one after another, each over the same old contents of a buffer.
  unfoldable pub receive_all : Receiver Q → List ℕ → List TxPacket → Option (Receiver Q)
  unfolding take_in
  receive_all r garbage [] = some r
  receive_all r garbage (pk ∷ pks) = elim (take_in r (wire pk) garbage) [
    | none ↦ none
    | some r' ↦ receive_all r' garbage pks
  ]
