-- ===== src/Mux/Handler/Answers.antt =====
-- Which requests get an answer that can be sent: ReqRespChannel::write asserts that the required
-- fields are set.
use mu_quinet.Prelude.{ℕ, ◌≡◌, ◌↔◌, List, Bool, true, false, Option, none, some, arith}
use mu_quinet.Tcp.{TcpPcb}
use mu_quinet.Mux.Rpc.{SockAddr, Calling, Request, Response, is_initialized}
use mu_quinet.Mux.Socket.{Socket, RecvQueue, udp_pcb, tcp_pcb}
use mu_quinet.Mux.Handler.{
  Stack, Channel, handle_request, socket_call, connect_call, close_call, sendto_call, recvfrom_call,
  getpeername_call, getsockname_call, atstart_action, recvfrom_answer,
}

-- The requests that no handler answers: the calls that are not implemented, the empty request, and
-- `connect` of a UDP socket.
abbrev pub leaves_unset : {Q : Type 0} → Option (Socket Q) → Calling → Bool
leaves_unset so Calling.poll_call = true
leaves_unset so Calling.select_call = true
leaves_unset so Calling.getsockopt_call = true
leaves_unset so Calling.setsockopt_call = true
leaves_unset so Calling.fcntl_call = true
leaves_unset so Calling.calling_not_set = true
leaves_unset none (Calling.connect_call dest) = false
leaves_unset (some so) (Calling.connect_call dest) = elim so.pcb [
  | udp_pcb a p ↦ true
  | tcp_pcb a p ↦ false
]
leaves_unset so _ = false

module _ {Q : Type 0} (ops : RecvQueue Q) (garbage : TcpPcb) where
  abbrev Answers : Stack → Channel Q → ℕ → Calling → Type 0
  Answers s c pid call =
      (s' : Stack) (c' : Channel Q) (resp : Response)
      → handle_request ops garbage s c (record { pid = pid; calling = call }) ≡ some (s', c', resp)
      → (is_initialized resp ≡ true) ↔ (leaves_unset c.socket call ≡ false)

  connect-Answers :
      (s : Stack) (c : Channel Q) (pid : ℕ) (dest : SockAddr)
      → Answers s c pid (Calling.connect_call dest)
  unfolding handle_request connect_call is_initialized
  connect-Answers s c pid dest s' c' resp e = ground arith

  sendto-Answers :
      (s : Stack) (c : Channel Q) (pid : ℕ) (buf : List ℕ) (flags : ℕ) (dest : Option SockAddr)
      → Answers s c pid (Calling.sendto_call buf flags dest)
  unfolding handle_request sendto_call is_initialized
  sendto-Answers s c pid buf flags dest s' c' resp e = ground arith

  recvfrom-Answers :
      (s : Stack) (c : Channel Q) (pid len flags : ℕ) (r : Bool)
      → Answers s c pid (Calling.recvfrom_call len flags r)
  unfolding handle_request recvfrom_call recvfrom_answer is_initialized
  recvfrom-Answers s c pid len flags r s' c' resp e = ground arith

  socket-Answers :
      (s : Stack) (c : Channel Q) (pid domain type protocol : ℕ)
      → Answers s c pid (Calling.socket_call domain type protocol)
  unfolding handle_request socket_call is_initialized
  socket-Answers s c pid domain type protocol s' c' resp e = ground arith

  call-Answers : (s : Stack) (c : Channel Q) (pid : ℕ) (call : Calling) → Answers s c pid call
  unfolding handle_request close_call getpeername_call getsockname_call atstart_action
      is_initialized
  call-Answers s c pid (Calling.connect_call dest) s' c' resp e =
      connect-Answers s c pid dest s' c' resp e
  call-Answers s c pid (Calling.sendto_call buf flags dest) s' c' resp e =
      sendto-Answers s c pid buf flags dest s' c' resp e
  call-Answers s c pid (Calling.recvfrom_call len flags r) s' c' resp e =
      recvfrom-Answers s c pid len flags r s' c' resp e
  call-Answers s c pid (Calling.socket_call d t p) s' c' resp e =
      socket-Answers s c pid d t p s' c' resp e
  call-Answers s c pid Calling.close_call s' c' resp e = ground arith
  call-Answers s c pid Calling.poll_call s' c' resp e = ground arith
  call-Answers s c pid Calling.select_call s' c' resp e = ground arith
  call-Answers s c pid Calling.getpeername_call s' c' resp e = ground arith
  call-Answers s c pid Calling.getsockname_call s' c' resp e = ground arith
  call-Answers s c pid Calling.getsockopt_call s' c' resp e = ground arith
  call-Answers s c pid Calling.setsockopt_call s' c' resp e = ground arith
  call-Answers s c pid Calling.fcntl_call s' c' resp e = ground arith
  call-Answers s c pid (Calling.atstart_action progname) s' c' resp e = ground arith
  call-Answers s c pid Calling.calling_not_set s' c' resp e = ground arith

  -- Every request that does not abort in its handler gets an answer that `write` can send, but for
  -- those that `leaves_unset` names: these get one on which the assertion in `write` fails.
  pub handle_request-is_initialized :
      (s : Stack) (c : Channel Q) (req : Request) (s' : Stack) (c' : Channel Q) (resp : Response)
      → handle_request ops garbage s c req ≡ some (s', c', resp)
      → (is_initialized resp ≡ true) ↔ (leaves_unset c.socket req.calling ≡ false)
  handle_request-is_initialized s c req s' c' resp e =
      call-Answers s c req.pid req.calling s' c' resp e
