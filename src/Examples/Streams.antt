-- ===== src/Examples/Streams.antt =====
-- A whole stack at concrete inputs.
use mu_quinet.Prelude.{List, true, refl, inr, [], ◌∷◌, arith}
use mu_quinet.Tcp.{TcpPcb}
use mu_quinet.Stack.{Host}
use mu_quinet.Stack.Stream.{Streamed, send_all-Streamed}
use mu_quinet.Mux.Socket.{Socket, SocketType, Packet, new_socket, tcp_pcb}
use mu_quinet.Examples.Requests.{list_queue, list_laws, peer0, packet0}
use mu_quinet.Examples.Segments.{out0, open0}

abbrev sender0 : TcpPcb
sender0 = record open0 {
  pcb = record { faddr = 0x0200007f; fport = 0x5000; laddr = 0x0100007f; lport = 0x0104 };
}

abbrev host0 : Host
host0 = record {
  defrager = record { ctxs = []; next_address = 0 };
  out = out0;
  block = record open0 {
    pcb = record { faddr = 0x0100007f; fport = 0x0104; laddr = 0x0200007f; lport = 0x5000 };
    recv_next = 2;
  };
}

-- A socket that holds one packet.
abbrev socket0 : Socket (List Packet)
socket0 = record (new_socket list_queue SocketType.tcp true (tcp_pcb 1 host0.block)) {
  recv_q = packet0 ∷ [];
}

send_all-Streamed_example :
    Streamed list_queue list_laws peer0 out0 sender0
      ((1 ∷ 2 ∷ []) ∷ (3 ∷ []) ∷ [])
      (record { host = host0; so = socket0 })
      (0 ∷ 9 ∷ [])
send_all-Streamed_example =
    send_all-Streamed list_queue list_laws peer0 out0 sender0 ((1 ∷ 2 ∷ []) ∷ (3 ∷ []) ∷ [])
      (record { host = host0; so = socket0 }) (0 ∷ 9 ∷ [])
      (record { established = refl; send_next = omega arith; recv_next = omega arith })
      (record {
        faddr = omega arith;
        fport = omega arith;
        laddr = omega arith;
        lport = omega arith;
      })
      (ground arith) ((omega arith, omega arith), ((omega arith, omega arith), tt)) refl refl
      (record { lport = refl; fport = inr refl; faddr = inr refl; laddr = inr refl })
