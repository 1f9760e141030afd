-- ===== src/Ip/Rx.antt =====
-- Ip::enRxQue and the body of the receive loop of ip/Ip.cpp, for one buffer.
use mu_quinet.Prelude.{
  ℕ, ◌*◌, ◌≤◌, ◌≡◌, List, [], ◌∷◌, Bool, false, not, Option, none, some, arith, ◌==◌, ltb,
  if◌then◌else◌,
}
use mu_quinet.Net.Headers.{IpHeader}
use mu_quinet.Net.Buffer.{SocketBuffer, ip_hdr}
use mu_quinet.Ip.Header.{ProtocolX, protocol, is_frag, checksum_ok}
use mu_quinet.Ip.Defrag.{Defrager, defrag}

-- Whether the buffer goes into `rxQ`.
unfoldable pub en_rx_que : SocketBuffer → Bool
en_rx_que b = (ip_hdr b).version == 4

-- Where a buffer, with those that hang on it, goes.
pub data Verdict : Type 0 where
  dropped : Verdict
  kept : Verdict
  ignored : Verdict
  to_udp to_tcp : List SocketBuffer → Verdict

-- `skbuf->transport_hdr = skbuf->network_hdr + trans_hdr_offset`, at the head of the list.
unfoldable pub set_transport_hdr : ℕ → List SocketBuffer → List SocketBuffer
set_transport_hdr offset [] = []
set_transport_hdr offset (b ∷ bs) = record b { transport_hdr = some offset } ∷ bs

-- Part 3, with the header of the buffer that came last; `none` is a read past the protocol table.
unfoldable pub demultiplex : IpHeader → List SocketBuffer → Option Verdict
unfolding set_transport_hdr protocol
demultiplex h chain =
    let chain' = set_transport_hdr (h.ihl * 4) chain in
    elim (protocol h) [
      | none ↦ none
      | some p ↦ elim p [
        | ProtocolX.ip ↦ some Verdict.ignored
        | ProtocolX.icmp ↦ some Verdict.ignored
        | ProtocolX.igmp ↦ some Verdict.ignored
        | ProtocolX.udp ↦ some (Verdict.to_udp chain')
        | ProtocolX.tcp ↦ some (Verdict.to_tcp chain')
      ]
    ]

-- No buffers is a null `skbuf`.
unfoldable pub demultiplex_any : IpHeader → List SocketBuffer → Option Verdict
unfolding demultiplex
demultiplex_any h [] = some Verdict.kept
demultiplex_any h (b ∷ bs) = demultiplex h (b ∷ bs)

abbrev with_state : Defrager → Option Verdict → Option (Defrager × Verdict)
with_state d none = none
with_state d (some v) = some (d, v)

-- The body of the loop; `hdrs_begin` is the start of the buffer. `none` is a crash.
unfoldable pub rx : Defrager → SocketBuffer → Option (Defrager × Verdict)
unfolding demultiplex_any is_frag defrag
rx d b =
    let h = ip_hdr b in
    if ltb b.user_payload_end 20
    then some (d, Verdict.dropped)
    else if not (checksum_ok h)
    then some (d, Verdict.dropped)
    else if is_frag h
    then elim (defrag d b) [
      | none ↦ none
      | some (d', chain) ↦ with_state d' (demultiplex_any h chain)
    ]
    else with_state d (demultiplex_any h (b ∷ []))

-- An unfragmented UDP packet passes the IP layer alone, with its transport header after the IP
-- header, and reassembly is not touched.
pub rx_whole_udp :
    (d : Defrager) (b : SocketBuffer)
    → 20 ≤ b.user_payload_end
    → is_frag (ip_hdr b) ≡ false
    → (ip_hdr b).protocol ≡ 17
    → rx d b
      ≡ some (d, Verdict.to_udp (record b { transport_hdr = some ((ip_hdr b).ihl * 4) } ∷ []))
unfolding rx demultiplex_any demultiplex protocol set_transport_hdr
rx_whole_udp d b le f p = ground (arith, le, f, p)
