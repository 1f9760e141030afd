-- ===== src/Examples/Devices.antt =====
-- The device at concrete inputs.
use mu_quinet.Prelude.{map, ℕ, ◌≤◌, ◌≡◌, refl, ◌↔◌, List, [], ◌∷◌, true, false, Option, none, some}
use mu_quinet.Net.Buffer.{TxPacket, wire}
use mu_quinet.Daemon.{Daemon}
use mu_quinet.Net.Buffer.{SocketBuffer}
use mu_quinet.Interface.{tun_tx, tx_buffer}
use mu_quinet.Interface.Gather.{tun_tx-wire}
use mu_quinet.Interface.Receiving.{
  Phase, RxThread, Event, run, count_reads, packets_of, packet_in, run-packets_of, run-stopped,
}
use mu_quinet.Interface.Device.{init, Result, set_up, init_iff}
use mu_quinet.Node.Datagram.{datagram}
use mu_quinet.Examples.Segments.{pcb0}

abbrev sent0 : TxPacket
sent0 = datagram pcb0 (104 ∷ 105 ∷ []) 0x0100

tun_tx-wire_example : tun_tx true (tx_buffer (7 ∷ 7 ∷ []) sent0 ∷ []) ≡ some (wire sent0)
tun_tx-wire_example = tun_tx-wire (7 ∷ 7 ∷ []) sent0

abbrev running0 : Daemon
running0 = record {
  interface_stopped = false;
  ip_stopped = false;
  loop_stopped = false;
  running = true;
  exited = none;
}

abbrev thread0 : RxThread
thread0 = record { daemon = running0; phase = Phase.testing; rx_q = [] }

-- Version 4 and version 6.
abbrev events0 : List Event
events0 =
    Event.tests
    ∷ Event.reads (0x45 ∷ []) []
    ∷ Event.tests
    ∷ Event.reads (0x60 ∷ []) []
    ∷ Event.tests
    ∷ []

abbrev thread1 : RxThread
unfolding run
thread1 = elim (run thread0 events0) [ none ↦ thread0 | some t ↦ t ]

runs0 : run thread0 events0 ≡ some thread1
unfolding run
runs0 = refl

run-packets_of_example :
    (new : List SocketBuffer) × (thread1.rx_q ≡ new) × (map packet_in new ≡ packets_of events0)
run-packets_of_example = run-packets_of thread0 events0 thread1 runs0

-- A stop comes in the third read.
abbrev stopped0 : RxThread
stopped0 = record {
  daemon = record running0 { interface_stopped = true };
  phase = Phase.reading;
  rx_q = [];
}

abbrev late0 : List Event
late0 = Event.reads (0x45 ∷ []) [] ∷ Event.tests ∷ []

abbrev thread2 : RxThread
unfolding run
thread2 = elim (run stopped0 late0) [ none ↦ thread0 | some t ↦ t ]

runs1 : run stopped0 late0 ≡ some thread2
unfolding run
runs1 = refl

run-stopped_example : count_reads late0 ≤ 1
run-stopped_example = run-stopped stopped0 late0 thread2 refl runs1

abbrev fd0 : Option ℕ
fd0 = some 3

abbrev tun0 : List ℕ
tun0 = 116 ∷ []

abbrev allocated0 : Option (List ℕ)
allocated0 = some tun0

abbrev unnamed : List ℕ
unnamed = []

init_iff_example :
    (init fd0 allocated0 unnamed (49 ∷ []) running0 ≡ Result.ready tun0 3 (set_up tun0 (49 ∷ [])))
    ↔ ((fd0 ≡ some 3)
        × (allocated0 ≡ some tun0)
        × (unnamed ≡ [])
        × (set_up tun0 (49 ∷ []) ≡ set_up tun0 (49 ∷ [])))
init_iff_example = init_iff fd0 allocated0 unnamed (49 ∷ []) running0 tun0 3 (set_up tun0 (49 ∷ []))
