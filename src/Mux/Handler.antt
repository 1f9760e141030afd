-- ===== src/Mux/Handler.antt =====
-- mux/RequestHandler.cpp: what muQuinetd does for each request of an interceptor.
pub mod Answers
pub mod Receiving
pub mod Blocks
use mu_quinet.Prelude.{
  ℕ, suc, ◌+◌, List, [], ◌∷◌, ◌++◌, Bool, true, false, ◌&&◌, ◌||◌, Option, none, some, ◌==◌,
  if◌then◌else◌, ℤ, pos, negsuc, test_bit, length,
}
use mu_quinet.Pcb
use mu_quinet.Pcb.{Pcb}
use mu_quinet.Udp
use mu_quinet.Tcp
use mu_quinet.Tcp.{TcpPcb}
use mu_quinet.Ip.Tx.{Out}
use mu_quinet.Net.Buffer.{SocketBuffer, TxPacket, user_payload}
use mu_quinet.Mux.Rpc.{SockAddr, Calling, Request, RetCode, Returning, Response, empty_response}
use mu_quinet.Mux.Socket.{
  Socket, SocketType, Packet, RecvQueue, Callback, PcbRef, udp_pcb, tcp_pcb, on_async_udp,
  on_async_tcp, new_socket, try_take_from_recv_q, wait_for_packet, drain_pipe, pending_callback,
  stop_waiting,
}

-- The selectable channels that a socket and its block add to the event loop.
pub data Watched : Type 0 where
  new_packet conn_estab : (address : ℕ) → Watched

-- What the calls of the other layers change: the port counters, the identification counter, the
-- packets sent, the lists `pcbs` of Udp and Tcp, the channels of the event loop.
pub record Stack : Type 0 where
  pub stack_addr : ℕ
  pub udp_port : ℕ
  pub tcp_port : ℕ
  pub last : ℕ
  pub sent : List TxPacket
  pub udp_pcbs : List ℕ
  pub tcp_pcbs : List ℕ
  pub next_address : ℕ
  pub watched : List Watched

-- The ReqRespChannel that the request came on.
pub record Channel (Q : Type 0) : Type 0 where
  pub peer : List ℕ
  pub peer_pid : ℕ
  pub socket : Option (Socket Q)

abbrev pub udp_out : Stack → Out
udp_out s = record { port = s.udp_port; last = s.last; sent = s.sent }

abbrev pub tcp_out : Stack → Out
tcp_out s = record { port = s.tcp_port; last = s.last; sent = s.sent }

abbrev pub from_udp : Stack → Out → Stack
from_udp s o = record s { udp_port = o.port; last = o.last; sent = o.sent }

abbrev pub from_tcp : Stack → Out → Stack
from_tcp s o = record s { tcp_port = o.port; last = o.last; sent = o.sent }

abbrev pub ok : Returning → Response
ok r = record { retcode = some RetCode.ok; returning = r }

-- `EAGAIN` and `EINPROGRESS`.
abbrev pub e_again : ℕ
e_again = 11

abbrev pub e_in_progress : ℕ
e_in_progress = 115

-- The loop that appends the payload of each buffer; `none` is an exception.
unfoldable pub chain_payload : List SocketBuffer → Option (List ℕ)
unfolding user_payload
chain_payload [] = some []
chain_payload (b ∷ bs) =
    let rest = chain_payload bs in
    elim (user_payload b) [
      | none ↦ none
      | some bytes ↦ elim rest [ none ↦ none | some more ↦ some (bytes ++ more) ]
    ]

-- The answer with a packet: its `ret` is the length of `buf`.
unfoldable pub recvfrom_answer : Packet → Bool → Option Response
unfolding chain_payload
recvfrom_answer p require_addr = elim (chain_payload p.chain) [
  | none ↦ none
  | some buf ↦ some (
      ok (
        Returning.recvfrom_ret (pos (length buf)) none (some buf)
          (if require_addr then some p.peer else none)))
]

-- `Udp::newPcb` and `Tcp::newPcb`; `garbage` is what memory held where a TCP block goes.
unfoldable pub new_udp_pcb : Stack → Stack × PcbRef
unfolding Pcb.new_pcb
new_udp_pcb s = (
  record s { udp_pcbs = s.udp_pcbs ++ s.next_address ∷ []; next_address = suc s.next_address },
  udp_pcb s.next_address (Pcb.new_pcb s.stack_addr),
)

unfoldable pub new_tcp_pcb : TcpPcb → Stack → Stack × PcbRef
unfolding Tcp.new_tcp_pcb
new_tcp_pcb garbage s = (
  record s { tcp_pcbs = s.tcp_pcbs ++ s.next_address ∷ []; next_address = suc s.next_address },
  tcp_pcb s.next_address (Tcp.new_tcp_pcb s.stack_addr garbage),
)

-- The `send` of a UDP block that the address, if any, picks.
unfoldable pub udp_send : Out → Pcb → List ℕ → Option SockAddr → Out × Pcb × ℕ
unfolding Udp.send Udp.send_to
udp_send o p buf none = Udp.send o p buf
udp_send o p buf (some d) = Udp.send_to o p d.addr d.port buf

module _ {Q : Type 0} (ops : RecvQueue Q) (garbage : TcpPcb) where
  -- What a handler leaves: `none` is a failed assertion, a null pointer or an exception.
  abbrev pub Handled : Type 0
  Handled = Option (Stack × Channel Q × Response)

  abbrev pub with_socket : Channel Q → Socket Q → Channel Q
  with_socket c so = record c { socket = some so }

  -- `socketCall`: AF_INET is 2, SOCK_STREAM 1, SOCK_DGRAM 2 and SOCK_NONBLOCK 2 ^ 11. The address of
  -- a block names the socket's channel too.
  unfoldable pub socket_call : Stack → Channel Q → ℕ → ℕ → Handled
  unfolding new_udp_pcb new_tcp_pcb new_socket
  socket_call s c domain type =
      let answer = ok (Returning.socket_ret (pos 0) none) in
      let nonblocking = test_bit type 11 in
      let (s1, pcb1) = new_tcp_pcb garbage s in
      let (s2, pcb2) = new_udp_pcb s in
      if domain == 2 && (test_bit type 0 || test_bit type 1)
      then if test_bit type 0
        then some (
          record s1 {
            watched =
                s1.watched
                ++ Watched.new_packet s.next_address ∷ Watched.conn_estab s.next_address ∷ [];
          },
          with_socket c (new_socket ops SocketType.tcp nonblocking pcb1),
          answer,
        )
        else some (
          record s2 { watched = s2.watched ++ Watched.new_packet s.next_address ∷ [] },
          with_socket c (new_socket ops SocketType.udp nonblocking pcb2),
          answer,
        )
      else none

  -- `connectCall`: the part at `udp`, where Pcb::connect returns 0, and the parts at
  -- `tcp_in_progress` and `tcp_wait_estab`.
  unfoldable pub connect_call : Stack → Channel Q → Socket Q → SockAddr → Handled
  unfolding Pcb.connect Tcp.set_on_conn_estab_cb
  connect_call s c so dest = elim so.pcb [
    | udp_pcb a p ↦
        let (port, q) = Pcb.connect s.udp_port p dest.addr dest.port in
        some (
          record s { udp_port = port },
          with_socket c (record so { pcb = udp_pcb a q }),
          record empty_response { returning = Returning.connect_ret (pos 0) none },
        )
    | tcp_pcb a p ↦
        let (o, q) = Tcp.connect (tcp_out s) (Tcp.set_on_conn_estab_cb p) dest.addr dest.port in
        if so.nonblocking
        then some (s, c, ok (Returning.recvfrom_ret (pos e_in_progress) none none none))
        else some (
          from_tcp s o,
          with_socket c (record so { pcb = tcp_pcb a q }),
          record { retcode = some RetCode.wait_next; returning = Returning.not_set },
        )
  ]

  -- The lambda that `connectCall` sets as the callback: the block's channel leaves the event loop.
  unfoldable pub on_conn_estab : Stack → ℕ → Stack × Response
  on_conn_estab s a =
      (record s { watched = without s.watched }, ok (Returning.connect_ret (pos 0) none))
    where
      without : List Watched → List Watched
      without [] = []
      without (Watched.conn_estab b ∷ l) =
          let rest = without l in if a == b then rest else Watched.conn_estab b ∷ rest
      without (w ∷ l) = w ∷ without l

  -- `closeCall` only answers.
  unfoldable pub close_call : Stack → Channel Q → Handled
  close_call s c = some (s, c, ok (Returning.close_ret (pos 0) none))

  -- `sendtoCall`. The type of a socket is that of its block.
  unfoldable pub sendto_call : Stack → Channel Q → Socket Q → List ℕ → Option SockAddr → Handled
  unfolding udp_send
  sendto_call s c so buf dest = elim so.pcb [
    | udp_pcb a p ↦
        let (o, q, n) = udp_send (udp_out s) p buf dest in
        some (
          from_udp s o,
          with_socket c (record so { pcb = udp_pcb a q }),
          ok (Returning.sendto_ret (pos n) none),
        )
    | tcp_pcb a p ↦
        let (o, q, n) = Tcp.send (tcp_out s) p buf in
        some (
          from_tcp s o,
          with_socket c (record so { pcb = tcp_pcb a q }),
          ok (Returning.sendto_ret (pos n) none),
        )
  ]

  abbrev pub callback : SocketType → Bool → Callback
  callback SocketType.udp require_addr = on_async_udp require_addr
  callback SocketType.tcp require_addr = on_async_tcp

  -- `recvfromCall`: a packet, or what is at `e_again` and `wait_next`.
  unfoldable pub recvfrom_call : Stack → Channel Q → Socket Q → Bool → Handled
  unfolding try_take_from_recv_q recvfrom_answer wait_for_packet
  recvfrom_call s c so require_addr = elim (try_take_from_recv_q ops so) [
    | some (p, so') ↦ elim (recvfrom_answer p require_addr) [
      | none ↦ none
      | some resp ↦ some (s, with_socket c so', resp)
    ]
    | none ↦
        if so.nonblocking
        then some (s, c, ok (Returning.recvfrom_ret (pos e_again) none none none))
        else some (
          s,
          with_socket c (wait_for_packet ops (callback so.type require_addr) so),
          record { retcode = some RetCode.wait_next; returning = Returning.not_set },
        )
  ]

  abbrev pub pcb_of : Socket Q → Pcb
  pcb_of so = elim so.pcb [ udp_pcb a p ↦ p | tcp_pcb a p ↦ p.pcb ]

  -- `getpeernameCall` and `getsocknameCall`
  unfoldable pub getpeername_call : Stack → Channel Q → Socket Q → Handled
  getpeername_call s c so =
      let p = pcb_of so in
      let peer : SockAddr = record { family = 2; port = p.fport; addr = p.faddr } in
      some (s, c, ok (Returning.getpeername_ret (pos 0) none (some peer)))

  unfoldable pub getsockname_call : Stack → Channel Q → Socket Q → Handled
  getsockname_call s c so =
      let p = pcb_of so in
      let name : SockAddr = record { family = 2; port = p.lport; addr = p.laddr } in
      some (s, c, ok (Returning.getsockname_ret (pos 0) none (some name)))

  -- `atstartAction`
  unfoldable pub atstart_action : Stack → Channel Q → List ℕ → ℕ → Handled
  atstart_action s c progname pid =
      some (s, record c { peer = progname; peer_pid = pid }, ok (Returning.atstart_ret 4096 1024))

  -- A handler that uses the channel's socket, which is null before the first `socketCall`.
  abbrev pub on_socket : Channel Q → (Socket Q → Handled) → Handled
  on_socket c f = elim c.socket [ none ↦ none | some so ↦ f so ]

  -- `handleRequest`
  unfoldable pub handle_request : Stack → Channel Q → Request → Handled
  unfolding socket_call connect_call close_call sendto_call recvfrom_call getpeername_call
      getsockname_call atstart_action
  handle_request s c req = elim req.calling [
    | Calling.socket_call domain type protocol ↦ socket_call s c domain type
    | Calling.connect_call dest ↦ on_socket c (λ so. connect_call s c so dest)
    | Calling.close_call ↦ close_call s c
    | Calling.recvfrom_call len flags require_addr ↦
        on_socket c (λ so. recvfrom_call s c so require_addr)
    | Calling.sendto_call buf flags dest ↦ on_socket c (λ so. sendto_call s c so buf dest)
    | Calling.getpeername_call ↦ on_socket c (λ so. getpeername_call s c so)
    | Calling.getsockname_call ↦ on_socket c (λ so. getsockname_call s c so)
    | Calling.atstart_action progname ↦ atstart_action s c progname req.pid
    | _ ↦ some (s, c, empty_response)
  ]

  -- `onAsyncNewUdpPacket` and `onAsyncNewTcpPacket`, while the channel is alive. `blocked` is
  -- `wait_dequeue` on an empty queue.
  pub data Async : Type 0 where
    blocked : Async
    aborted : Async
    answered : Socket Q → Response → Async

  unfoldable pub on_async_new_packet : Callback → Socket Q → Async
  unfolding try_take_from_recv_q recvfrom_answer
  on_async_new_packet cb so = elim (try_take_from_recv_q ops so) [
    | none ↦ blocked
    | some (p, so') ↦
        elim (recvfrom_answer p (elim cb [ on_async_udp r ↦ r | on_async_tcp ↦ false ])) [
          | none ↦ aborted
          | some resp ↦ answered so' resp
        ]
  ]
