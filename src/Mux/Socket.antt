-- ===== src/Mux/Socket.antt =====
-- mux/Socket.cpp: a socket, its queue of received packets, and the pipe that tells the event loop of
-- a new one. The queue is third-party code: a type, its operations and their documented laws. No
-- other thread is in a queue operation when one runs.
pub mod Delivery
pub mod Blocking
use mu_quinet.Prelude.{
  ℕ, suc, ◌≡◌, List, [], ◌∷◌, ◌++◌, Bool, true, false, Option, none, some, ltb, if◌then◌else◌,
  length,
}
use mu_quinet.Pcb.{Pcb}
use mu_quinet.Tcp.{TcpPcb}
use mu_quinet.Net.Buffer.{SocketBuffer}
use mu_quinet.Mux.Rpc.{SockAddr}

pub data SocketType : Type 0 where
  udp tcp : SocketType

-- A packet in the queue: the peer's address, and the buffers that hang on one another.
pub record Packet : Type 0 where
  pub peer : SockAddr
  pub chain : List SocketBuffer

pub record RecvQueue (Q : Type 0) : Type 0 where
  pub empty : Q
  pub size_approx : Q → ℕ
  pub enqueue : Packet → Q → Q
  pub try_dequeue : Q → Option (Packet × Q)

-- Packets come out in the order they went in.
pub record QueueLaws {Q : Type 0} (ops : RecvQueue Q) : Type 0 where
  pub contents : Q → List Packet
  pub contents_empty : contents ops.empty ≡ []
  pub contents_enqueue : (p : Packet) (q : Q) → contents (ops.enqueue p q) ≡ contents q ++ p ∷ []
  pub size : (q : Q) → ops.size_approx q ≡ length (contents q)
  pub try_none : (q : Q) → ops.try_dequeue q ≡ none → contents q ≡ []
  pub try_some :
      (q : Q) (p : Packet) (q' : Q)
      → ops.try_dequeue q ≡ some (p, q')
      → contents q ≡ p ∷ contents q'

-- `onAsyncNewPacket`: RequestHandler::onAsyncNewUdpPacket with `require_addr`, or
-- RequestHandler::onAsyncNewTcpPacket.
pub data Callback : Type 0 where
  on_async_udp : (require_addr : Bool) → Callback
  on_async_tcp : Callback

-- `address` is the block's address.
pub data PcbRef : Type 0 where
  udp_pcb : (address : ℕ) → Pcb → PcbRef
  tcp_pcb : (address : ℕ) → TcpPcb → PcbRef

-- `readable`: there is a byte in `new_packet_notify_pipe`.
pub record Socket (Q : Type 0) : Type 0 where
  pub type : SocketType
  pub nonblocking : Bool
  pub readable : Bool
  pub waiting : Bool
  pub on_async_new_packet : Option Callback
  pub recv_q : Q
  pub pcb : PcbRef

abbrev pub recv_q_limit : ℕ
recv_q_limit = 128

module _ {Q : Type 0} (ops : RecvQueue Q) where
  -- The constructor, and `setPcb`.
  unfoldable pub new_socket : SocketType → Bool → PcbRef → Socket Q
  new_socket t nonblocking pcb = record {
    type = t;
    nonblocking = nonblocking;
    readable = false;
    waiting = false;
    on_async_new_packet = none;
    recv_q = ops.empty;
    pcb = pcb;
  }

  -- `putToRecvQ`
  unfoldable pub put_to_recv_q : Packet → Socket Q → Socket Q
  put_to_recv_q p so =
      if ltb recv_q_limit (ops.size_approx so.recv_q)
      then so
      else record so { recv_q = ops.enqueue p so.recv_q; readable = true }

  -- `try_takeFromRecvQ`; `takeFromRecvQ` does the same, and blocks where this returns `none`.
  unfoldable pub try_take_from_recv_q : Socket Q → Option (Packet × Socket Q)
  try_take_from_recv_q so = elim (ops.try_dequeue so.recv_q) [
    | none ↦ none
    | some (p, q) ↦ some (p, record so { recv_q = q })
  ]

  -- `setOnAsyncNewPacketCB` and `setWaiting(true)`.
  unfoldable pub wait_for_packet : Callback → Socket Q → Socket Q
  wait_for_packet cb so = record so { on_async_new_packet = some cb; waiting = true }

  -- `sChannelReadCb`, in three steps: the read of the pipe, the callback (the caller's part, run if
  -- this returns one), the reset of `waiting`.
  unfoldable pub drain_pipe : Socket Q → Socket Q
  drain_pipe so = record so { readable = false }

  unfoldable pub pending_callback : Socket Q → Option Callback
  pending_callback so = if so.waiting then so.on_async_new_packet else none

  unfoldable pub stop_waiting : Socket Q → Socket Q
  stop_waiting so = record so { waiting = false }
