-- ===== src/Pcb.antt =====
-- Pcb.h and Pcb.cpp: the base class of the UDP and TCP protocol control blocks, and the search for
-- the block that a packet belongs to. `nextAvailPort` is the function of that name that
-- udp/UdpPcb.cpp and tcp/TcpPcb.cpp each hold, with a static counter of its own.
pub mod Ports
pub mod Find
pub mod Calls
use mu_quinet.Prelude.{
  ℕ, ◌+◌, ◌-◌, ◌<◌, List, [], ◌∷◌, Option, none, some, ◌==◌, ltb, if◌then◌else◌, u16, swap16,
}

-- Addresses and ports are in network byte order, as the host reads them.
pub record Pcb : Type 0 where
  pub faddr : ℕ
  pub fport : ℕ
  pub laddr : ℕ
  pub lport : ℕ

-- The constructor: `stack_addr` is what `inet_pton` makes of the configured address.
unfoldable pub new_pcb : ℕ → Pcb
new_pcb stack_addr = record { faddr = 0; fport = 0; laddr = stack_addr; lport = 0 }

-- The counter is a `uint16_t`. It starts at 1024.
abbrev pub first_port : ℕ
first_port = 1024

unfoldable pub next_avail_port : ℕ → ℕ × ℕ
next_avail_port port = let port' : ℕ = u16 (port + 1) in (port', swap16 port')

-- The methods take the counter, and return it first.
unfoldable pub bind : ℕ → Pcb → ℕ × Pcb
unfolding next_avail_port
bind port p =
    let (port', lport) = next_avail_port port in
    if p.lport == 0 then (port', record p { lport = lport }) else (port, p)

-- `connect` always returns 0.
unfoldable pub connect : ℕ → Pcb → ℕ → ℕ → ℕ × Pcb
unfolding bind
connect port p faddr fport =
    let q = record p { faddr = faddr; fport = fport } in
    if q.lport == 0 then bind port q else (port, q)

unfoldable pub disconnect : Pcb → Pcb
disconnect p = record p { faddr = 0; fport = 0 }

abbrev pub e_not_conn : ℕ
e_not_conn = 107

abbrev pub e_is_conn : ℕ
e_is_conn = 106

-- `send(buf)` and `send(faddr, fport, buf)`, which only bind and report an error number.
unfoldable pub send : ℕ → Pcb → ℕ × Pcb × ℕ
unfolding bind
send port p =
    let (port', q) = if p.lport == 0 then bind port p else (port, p) in
    (port', q, if q.fport == 0 then e_not_conn else 0)

unfoldable pub send_to : ℕ → Pcb → ℕ × Pcb × ℕ
unfolding bind
send_to port p =
    let (port', q) = if p.lport == 0 then bind port p else (port, p) in
    (port', q, if q.fport == 0 then 0 else e_is_conn)

-- `in_addr_match`: `none` is its -1.
unfoldable pub in_addr_match : ℕ → ℕ → Option ℕ
in_addr_match ours theirs = if ours == 0 then some 0 else if ours == theirs then some 1 else none

-- The address and port pairs that a packet came from and went to.
pub record Flow : Type 0 where
  pub faddr : ℕ
  pub fport : ℕ
  pub laddr : ℕ
  pub lport : ℕ

-- What one round of the loop holds at its last `if`: `accum` and `m`; `none` is `continue`. The
-- address tests come second, with the `accum` that the ports gave.
unfoldable pub accumulate_addresses : Pcb → Flow → ℕ → Option (ℕ × ℕ)
unfolding in_addr_match
accumulate_addresses curr k accum = elim (in_addr_match curr.faddr k.faddr) [
  | none ↦ none
  | some m ↦ elim (in_addr_match curr.laddr k.laddr) [
    | none ↦ none
    | some n ↦ some (accum + m + n, n)
  ]
]

unfoldable pub accumulate : Pcb → Flow → Option (ℕ × ℕ)
unfolding accumulate_addresses
accumulate curr k =
    if curr.lport == k.lport
    then (if curr.fport == 0
        then accumulate_addresses curr k 1
        else if curr.fport == k.fport
        then accumulate_addresses curr k 2
        else none)
    else none

-- One round: `pcb` is the best block so far, `lock` what a weak pointer's `lock` gives.
unfoldable pub visit : (ℕ → Option Pcb) → Flow → Option ℕ → ℕ → Option ℕ
unfolding accumulate
visit lock k pcb it = elim (lock it) [
  | none ↦ pcb
  | some curr ↦ elim (accumulate curr k) [
    | none ↦ pcb
    | some (accum, m) ↦ if ltb m accum then some it else pcb
  ]
]

unfoldable pub find_from : (ℕ → Option Pcb) → Flow → Option ℕ → List ℕ → Option ℕ
find_from lock k pcb [] = pcb
find_from lock k pcb (it ∷ rest) = find_from lock k (visit lock k pcb it) rest

-- `Pcbs::find`, over a list of weak pointers.
unfoldable pub find : (ℕ → Option Pcb) → List ℕ → Flow → Option ℕ
unfolding find_from
find lock c k = find_from lock k none c
