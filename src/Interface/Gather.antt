-- ===== src/Interface/Gather.antt =====
-- What TunDevice::tx writes, and when it writes out of its array.
use mu_quinet.Prelude.{
  ℕ, ◌+◌, ◌≡◌, refl, ap, List, [], ◌∷◌, ◌++◌, true, some, arith, replicate, length, take-append,
}
use mathlib.Core.List.{append-nil}
use mu_quinet.Net.Headers.{IpHeader, ip_bytes, udp_bytes, tcp_bytes}
use mu_quinet.Net.Buffer.{Transport, udp, tcp, TxPacket, transport_bytes, wire}
use mu_quinet.Interface.{TxBuffer, Iovec, entries_of, tun_tx, tx_buffer, hdrs_len, between}

-- All four pointers of the buffer are set.
abbrev pub HasPointers : TxBuffer → Type 0
HasPointers b = (e : Iovec × Iovec) × (entries_of b ≡ some e)

payload_entry : (l : List ℕ) → between (l ++ 0 ∷ []) 0 (length l) ≡ some l
payload_entry l = ground (arith, take-append l (0 ∷ []))

hdrs_entry :
    (h : IpHeader) (t : Transport) (rest : List ℕ)
    → between (replicate 40 0 ++ ip_bytes h (transport_bytes t rest)) 40 (40 + hdrs_len t)
      ≡ some (ip_bytes h (transport_bytes t []))
unfolding ip_bytes transport_bytes udp_bytes tcp_bytes
hdrs_entry h (udp u) rest = refl
hdrs_entry h (tcp u) rest = refl

bytes-append :
    (h : IpHeader) (t : Transport) (l : List ℕ)
    → ip_bytes h (transport_bytes t []) ++ (l ++ []) ≡ ip_bytes h (transport_bytes t l)
unfolding ip_bytes transport_bytes udp_bytes tcp_bytes
bytes-append h (udp u) l = rw (append-nil l) refl
bytes-append h (tcp u) l = rw (append-nil l) refl

-- For the one buffer that a UDP or TCP send lays out and the IP layer completes, whatever the rest of
-- it holds, TunDevice::tx writes the packet: IP header, transport header and payload.
pub tun_tx-wire :
    (rest : List ℕ) (p : TxPacket) → tun_tx true (tx_buffer rest p ∷ []) ≡ some (wire p)
unfolding tun_tx tx_buffer wire
tun_tx-wire rest p =
    rw (hdrs_entry p.ip p.transport rest, payload_entry p.payload)
      (ap some (bytes-append p.ip p.transport p.payload))
