-- ===== src/Examples/Requests.antt =====
-- A queue, and the requests of a UDP socket, at concrete inputs.
use mathlib.Core.Option.{some-injective, none-ne-some}
use mu_quinet.Prelude.{
  ◌≡◌, refl, sym, ap, ◌↔◌, List, [], ◌∷◌, ◌++◌, true, false, Option, none, some, arith, length, All,
  pos,
}
use mu_quinet.Tcp.{TcpPcb, TcpState}
use mu_quinet.Mux.Rpc.{SockAddr, Calling, Request, Returning, is_initialized}
use mu_quinet.Mux.Socket.{
  PcbRef, Socket, SocketType, Packet, RecvQueue, QueueLaws, udp_pcb, on_async_udp,
}
use mu_quinet.Mux.Socket.Delivery.{
  World, Phase, Event, step, step_in, here, next, IsValid, Reach-IsValid,
}
use mu_quinet.Mux.Socket.Blocking.{Misses, fresh-Misses}
use mu_quinet.Mux.Handler.{Stack, Channel, Watched, handle_request, ok}
use mu_quinet.Mux.Handler.Answers.{leaves_unset, handle_request-is_initialized}
use mu_quinet.Mux.Handler.Receiving.{HasPayload}

abbrev pub pop : List Packet → Option (Packet × List Packet)
pop [] = none
pop (p ∷ l) = some (p, l)

pub pop-none : (l : List Packet) → pop l ≡ none → l ≡ []
pop-none [] e = refl
pop-none (p ∷ l) e = absurd (none-ne-some _ (sym e))

pub pop-some : (l : List Packet) (p : Packet) (l' : List Packet) → pop l ≡ some (p, l') → l ≡ p ∷ l'
pop-some [] p l' e = absurd (none-ne-some _ e)
pop-some (q ∷ l) p l' e = ap (λ x. x.0 ∷ x.1) (some-injective _ _ e)

abbrev pub list_queue : RecvQueue (List Packet)
list_queue = record {
  empty = [];
  size_approx = length;
  enqueue = λ p l. l ++ p ∷ [];
  try_dequeue = pop;
}

abbrev pub list_laws : QueueLaws list_queue
list_laws = record {
  contents = λ l. l;
  contents_empty = refl;
  contents_enqueue = λ p l. refl;
  size = λ l. refl;
  try_none = pop-none;
  try_some = pop-some;
}

abbrev pub peer0 : SockAddr
peer0 = record { family = 2; port = 0x3500; addr = 0x08080808 }

abbrev pub packet0 : Packet
packet0 = record {
  peer = peer0;
  chain =
      record {
        raw = 1 ∷ 2 ∷ 3 ∷ 104 ∷ 105 ∷ [];
        network_hdr = some 0;
        transport_hdr = some 1;
        user_payload_begin = some 3;
        user_payload_end = 5;
      }
      ∷ [];
}

pub packet0-HasPayload : All HasPayload packet0.chain
packet0-HasPayload = ((3, refl, omega arith), tt)

abbrev pub socket0 : Socket (List Packet)
socket0 = record {
  type = SocketType.udp;
  nonblocking = false;
  readable = false;
  waiting = false;
  on_async_new_packet = none;
  recv_q = [];
  pcb = udp_pcb 1 (record { faddr = 0; fport = 0; laddr = 5; lport = 0 });
}

abbrev pub socket1 : Socket (List Packet)
socket1 = record socket0 { recv_q = packet0 ∷ [] }

abbrev pub garbage0 : TcpPcb
garbage0 = record {
  pcb = record { faddr = 0; fport = 0; laddr = 0; lport = 0 };
  conn_state = TcpState.closed;
  has_callback = false;
  send_unack = 0;
  send_next = 0;
  irs = 0;
  recv_next = 0;
}

abbrev pub stack0 : Stack
stack0 = record {
  stack_addr = 5;
  udp_port = 1024;
  tcp_port = 1024;
  last = 0;
  sent = [];
  udp_pcbs = 1 ∷ [];
  tcp_pcbs = [];
  next_address = 2;
  watched = Watched.new_packet 1 ∷ [];
}

abbrev pub channel_of : Socket (List Packet) → Channel (List Packet)
channel_of so = record { peer = []; peer_pid = 9; socket = some so }

abbrev peer_request : Request
peer_request = record { pid = 9; calling = Calling.getpeername_call }

handle_request-is_initialized_example :
    (is_initialized (
        ok (
          Returning.getpeername_ret
            (pos 0)
            none
            (some (record { family = 2; port = 0; addr = 0 }))))
      ≡ true)
    ↔ (leaves_unset (some socket0) Calling.getpeername_call ≡ false)
unfolding handle_request
handle_request-is_initialized_example =
    handle_request-is_initialized list_queue garbage0 stack0 (channel_of socket0) peer_request
      stack0 (channel_of socket0)
      (ok
        (Returning.getpeername_ret (pos 0) none (some (record { family = 2; port = 0; addr = 0 }))))
      refl

-- A request waits, then a packet comes.
abbrev world0 : World (List Packet)
world0 = record { so = socket0; phase = Phase.idle; accepted = []; delivered = [] }

abbrev world1 : World (List Packet)
world1 = record world0 {
  so = record socket0 { waiting = true; on_async_new_packet = some (on_async_udp true) };
}

abbrev world2 : World (List Packet)
world2 = record {
  so = record socket0 {
    waiting = true;
    on_async_new_packet = some (on_async_udp true);
    readable = true;
    recv_q = packet0 ∷ [];
  };
  phase = Phase.idle;
  accepted = packet0 ∷ [];
  delivered = [];
}

world0-IsValid : IsValid list_queue list_laws world0
world0-IsValid = record { fifo = refl; small = omega arith; wakes = λ _ _ _. refl }

waits : step list_queue world0 (Event.recvfrom (on_async_udp true)) ≡ some world1
unfolding step step_in
waits = refl

comes : step list_queue world1 (Event.put packet0) ≡ some world2
unfolding step step_in
comes = refl

Reach-IsValid_example : IsValid list_queue list_laws world2
Reach-IsValid_example =
    Reach-IsValid list_queue list_laws {start = world0} {w = world2} world0-IsValid
      (next (Event.put packet0) (next (Event.recvfrom (on_async_udp true)) here waits) comes)

abbrev block0 : PcbRef
block0 = udp_pcb 1 (record { faddr = 0; fport = 0; laddr = 5; lport = 0 })

fresh-Misses_example : Misses list_queue list_laws SocketType.udp block0 packet0 (on_async_udp true)
fresh-Misses_example =
    fresh-Misses list_queue list_laws SocketType.udp block0 packet0 (on_async_udp true)
