-- ===== src/Examples/Nodes.antt =====
-- A daemon at concrete inputs.
use mu_quinet.Prelude.{ℕ, ◌≡◌, refl, subst, List, [], ◌∷◌, none, some, arith, length}
use mathlib.Core.Option.{some-injective, none-ne-some}
use mu_quinet.Net.Buffer.{SocketBuffer, tun_rx, wire}
use mu_quinet.Net.Headers.{ip_header}
use mu_quinet.Ip.Tx.{fill_header}
use mu_quinet.Udp.{udp_packet}
use mu_quinet.Pcb.{Pcb, visit, find}
use mu_quinet.Pcb.Calls.{PcbFits}
use mu_quinet.Udp.Rx.{udp_rx, tcp_rx}
use mu_quinet.Mux.Rpc.{SockAddr, Calling, Request, Response, empty_response}
use mu_quinet.Mux.Socket.{Packet, Socket, udp_pcb, tcp_pcb}
use mu_quinet.Interceptor.{is_assigned_by_muquinet, fd2channel}
use mu_quinet.Node.{Node, lock, block_at, arrive, ask, channel_at}
use mu_quinet.Node.Datagram.{datagram}
use mu_quinet.Node.Calls.{Process, IsReady}
use mu_quinet.Node.EndToEnd.{Serves, Carried, sendto-Carried}
use mu_quinet.Node.Isolation.{Isolated, arrive-Isolated}
use mu_quinet.Node.Kinds.{IsValid, contains, Listed}
use mu_quinet.Node.Kinds.Requests.{ask-IsValid}
use mu_quinet.Node.Kinds.Packets.{arrive-IsValid}
use mu_quinet.Node.Kinds.Found.{HasKind, udp_rx-tcp_rx-HasKind}
use mu_quinet.Examples.Requests.{
  list_queue, list_laws, garbage0, peer0, socket0, stack0, channel_of,
}
use mu_quinet.Examples.Process.{process0}
use mu_quinet.Examples.Segments.{open0}

-- A UDP block of 127.0.0.1 with a port.
abbrev local0 : Pcb
local0 = record { faddr = 0; fport = 0; laddr = 0x0100007f; lport = 0x0700 }

abbrev local0-PcbFits : PcbFits local0
local0-PcbFits = record {
  faddr = omega arith;
  fport = omega arith;
  laddr = omega arith;
  lport = omega arith;
}

abbrev udp_socket : Socket (List Packet)
udp_socket = record socket0 { pcb = udp_pcb 1 local0 }

abbrev tcp_socket : Socket (List Packet)
tcp_socket = record socket0 { pcb = tcp_pcb 2 open0 }

-- A UDP socket, a TCP socket, and a channel without a socket.
abbrev node0 : Node (List Packet)
node0 = record {
  mux = record stack0 { tcp_pcbs = 2 ∷ []; next_address = 3 };
  defrager = record { ctxs = []; next_address = 0 };
  channels =
      (5, channel_of udp_socket)
      ∷ (6, channel_of tcp_socket)
      ∷ (7, record { peer = []; peer_pid = 9; socket = none })
      ∷ [];
  written = [];
}

abbrev to_local0 : SockAddr
to_local0 = record { family = 2; port = 0x0700; addr = 0x0100007f }

abbrev sender0 : Process
sender0 = record { interceptor = process0; pid = 9; fd = 4096; connfd = 5 }

sender0-IsReady : IsReady sender0
unfolding is_assigned_by_muquinet fd2channel
sender0-IsReady = record { assigned = refl; channel = refl }

node0-at : channel_at 5 node0.channels ≡ some (channel_of udp_socket)
unfolding channel_at
node0-at = refl

abbrev serves0 : Serves list_queue list_laws garbage0 node0 5 1 local0
serves0 = record {
  channel = channel_of udp_socket;
  socket = udp_socket;
  at = node0-at;
  has = refl;
  block = refl;
}

sendto-Carried_example :
    Carried list_queue list_laws garbage0 sender0 node0 5 local0 to_local0
      (104 ∷ 105 ∷ [])
      0
      sender0
      node0
      5
      10
      0
      peer0
      (9 ∷ [])
unfolding find lock block_at visit
sendto-Carried_example =
    sendto-Carried list_queue list_laws garbage0 sender0 node0 5 1 local0 to_local0 (104 ∷ 105 ∷ [])
      0 sender0 node0 5 1 10 0 local0 peer0 (9 ∷ []) sender0-IsReady sender0-IsReady serves0 serves0
      local0-PcbFits (omega arith) (omega arith) (ground arith) (omega arith) (ground arith) refl
      (λ port. refl)

socket-Listed :
    (so so' : Socket (List Packet))
    → Listed (1 ∷ []) (2 ∷ []) so.pcb
    → some so ≡ some so'
    → Listed (1 ∷ []) (2 ∷ []) so'.pcb
socket-Listed so so' h e = subst (λ x. Listed (1 ∷ []) (2 ∷ []) x.pcb) (some-injective so so' e) h

node0-IsValid : IsValid node0
unfolding contains
node0-IsValid = record {
  listed = (
    (λ so. socket-Listed udp_socket so refl),
    ((λ so. socket-Listed tcp_socket so refl), (λ so e. absurd (none-ne-some so e), tt)),
  );
  disjoint = λ a h. ground (arith, h);
  udp_below = λ a h. ground (arith, h);
  tcp_below = λ a h. ground (arith, h);
}

-- The bytes of a packet from 127.0.0.1 to 127.0.0.1.
abbrev bytes0 : List ℕ
bytes0 = wire (datagram local0 (104 ∷ 105 ∷ []) 0x0100)

abbrev after_packet : Node (List Packet)
unfolding arrive
after_packet = elim (arrive list_queue garbage0 node0 peer0 bytes0 (9 ∷ [])) [
  | none ↦ node0
  | some n ↦ n
]

comes0 : arrive list_queue garbage0 node0 peer0 bytes0 (9 ∷ []) ≡ some after_packet
unfolding arrive ip_header tun_rx wire fill_header udp_packet visit
comes0 = refl

arrive-Isolated_example : Isolated list_queue garbage0 node0 bytes0 (9 ∷ []) after_packet
arrive-Isolated_example =
    arrive-Isolated list_queue garbage0 node0 peer0 bytes0 (9 ∷ []) after_packet comes0

arrive-IsValid_example : IsValid after_packet
arrive-IsValid_example =
    arrive-IsValid list_queue garbage0 node0 peer0 bytes0 (9 ∷ []) after_packet node0-IsValid comes0

-- A request for a new TCP socket.
abbrev socket_request : Request
socket_request = record { pid = 9; calling = Calling.socket_call 2 1 0 }

abbrev after_socket : Node (List Packet) × Response
unfolding ask
after_socket = elim (ask list_queue garbage0 node0 7 socket_request) [
  | none ↦ (node0, empty_response)
  | some x ↦ x
]

asks0 : ask list_queue garbage0 node0 7 socket_request ≡ some (after_socket.0, after_socket.1)
unfolding ask
asks0 = refl

ask-IsValid_example : IsValid after_socket.0
ask-IsValid_example =
    ask-IsValid list_queue garbage0 node0 7 socket_request after_socket.0 after_socket.1
      node0-IsValid asks0

-- The buffers that Ip passes on for these bytes.
abbrev chain0 : List SocketBuffer
chain0 =
    record (tun_rx bytes0 (9 ∷ []) (length bytes0)) {
      network_hdr = some 0;
      transport_hdr = some 20;
    }
    ∷ []

udp_rx-tcp_rx-HasKind_example :
    HasKind node0.channels (udp_rx (lock node0.channels) node0.mux.udp_pcbs chain0)
    × HasKind node0.channels (tcp_rx (lock node0.channels) node0.mux.tcp_pcbs chain0)
udp_rx-tcp_rx-HasKind_example = udp_rx-tcp_rx-HasKind node0 chain0 node0-IsValid
