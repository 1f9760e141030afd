-- ===== src/Udp/Packets.antt =====
-- What a UDP send puts on the wire, as a receiver reads it.
use mu_quinet.Prelude.{
  ℕ, ◌+◌, ◌^◌, ◌<◌, ◌≡◌, refl, ap, ◌∙◌, List, [], ◌∷◌, ◌++◌, arith, length, drop, u16, swap16,
  swap16-swap16, swap16-lt,
}
use mu_quinet.Checksum.Laws.{Verifies}
use mu_quinet.Net.Headers.{ip_header, udp_header, ip_bytes}
use mu_quinet.Net.Buffer.{TxPacket, wire, transport_bytes}
use mu_quinet.Net.RoundTrip.{udp_header-udp_bytes}
use mu_quinet.Ip.Tx.{Out, tx, fill_header}
use mu_quinet.Ip.Tx.Header.{IsDraft, fill_header-Verifies, ip_header-fill_header, next_id-lt}
use mu_quinet.Ip.Header.{next_id}
use mu_quinet.Pcb.{Pcb}
use mu_quinet.Pcb
use mu_quinet.Pcb.Calls.{PcbFits, send-PcbFits}
use mu_quinet.Udp.{udp_packet, send}

pub udp_packet-IsDraft : (p : Pcb) (buf : List ℕ) → PcbFits p → IsDraft (udp_packet p buf).ip
unfolding udp_packet
udp_packet-IsDraft p buf f = ground (arith)

-- What a receiver finds in the bytes of a packet that a block sent with payload `buf`.
pub record Received (p : Pcb) (buf bytes : List ℕ) : Type 0 where
  pub header_sum : Verifies (ip_bytes (ip_header bytes) []) 0
  pub version : (ip_header bytes).version ≡ 4
  pub ihl : (ip_header bytes).ihl ≡ 5
  pub protocol : (ip_header bytes).protocol ≡ 17
  pub saddr : (ip_header bytes).saddr ≡ p.laddr
  pub daddr : (ip_header bytes).daddr ≡ p.faddr
  pub tot_len : swap16 (ip_header bytes).tot_len ≡ length bytes
  pub source : (udp_header (drop 20 bytes)).source ≡ p.lport
  pub dest : (udp_header (drop 20 bytes)).dest ≡ p.fport
  pub len : swap16 (udp_header (drop 20 bytes)).len ≡ length (drop 20 bytes)
  pub payload : drop 28 bytes ≡ buf

module _ (p : Pcb) (buf : List ℕ) (id : ℕ) (f : PcbFits p) (fits : length buf + 28 < 2 ^ 16)
    (lt : id < 2 ^ 16) where
  abbrev bytes : List ℕ
  bytes = let pk = udp_packet p buf in wire (record pk { ip = fill_header pk.ip id })

  ip_header-bytes : ip_header bytes ≡ fill_header (udp_packet p buf).ip id
  unfolding wire
  ip_header-bytes = ip_header-fill_header (udp_packet p buf).ip id _ (udp_packet-IsDraft p buf f) lt

  udp_header-bytes :
      udp_header (drop 20 bytes)
      ≡ record { source = p.lport; dest = p.fport; len = swap16 (u16 (length buf + 8)); check = 0 }
  unfolding wire ip_bytes transport_bytes udp_packet
  udp_header-bytes = udp_header-udp_bytes _ buf (ground (arith, swap16-lt (u16 (length buf + 8))))

  length-bytes : length bytes ≡ length buf + 28
  unfolding wire ip_bytes transport_bytes udp_packet
  length-bytes = omega arith

  length-drop-bytes : length (drop 20 bytes) ≡ length buf + 8
  unfolding wire ip_bytes transport_bytes udp_packet
  length-drop-bytes = omega arith

  drop-bytes : drop 28 bytes ≡ buf
  unfolding wire ip_bytes transport_bytes udp_packet
  drop-bytes = refl

  packet-Received : Received p buf bytes
  unfolding fill_header udp_packet
  packet-Received = record {
    header_sum =
        rw ip_header-bytes
          (fill_header-Verifies (udp_packet p buf).ip id (udp_packet-IsDraft p buf f) lt);
    version = ap (λ h. h.version) ip_header-bytes;
    ihl = ap (λ h. h.ihl) ip_header-bytes;
    protocol = ap (λ h. h.protocol) ip_header-bytes;
    saddr = ap (λ h. h.saddr) ip_header-bytes;
    daddr = ap (λ h. h.daddr) ip_header-bytes;
    tot_len =
        ap (λ h. swap16 h.tot_len) ip_header-bytes
        ∙ omega (arith, length-bytes, swap16-swap16 (u16 (length buf + 28)) (omega arith));
    source = ap (λ h. h.source) udp_header-bytes;
    dest = ap (λ h. h.dest) udp_header-bytes;
    len =
        ap (λ h. swap16 h.len) udp_header-bytes
        ∙ omega (arith, length-drop-bytes, swap16-swap16 (u16 (length buf + 8)) (omega arith));
    payload = drop-bytes;
  }

-- A send of up to 65507 bytes on a block with fields in range appends one packet to what was sent,
-- and its bytes are, to a receiver: an IP header with a valid checksum, from the block's own
-- address to its peer's, with the length of the packet; a UDP header with the block's ports and the
-- length of the datagram; and the buffer. The call returns the buffer's length.
pub send-Received :
    (o : Out) (p : Pcb) (buf : List ℕ)
    → PcbFits p
    → length buf + 28 < 2 ^ 16
    → let (o', q, ret) = send o p buf in
      (pk : TxPacket) × (o'.sent ≡ o.sent ++ pk ∷ [])
      × Received q buf (wire pk)
      × (ret ≡ length buf)
unfolding send tx
send-Received o p buf f fits =
    let q : Pcb = (Pcb.send o.port p).1 in
    let pk : TxPacket = udp_packet q buf in
    let id : ℕ = (next_id o.last).1 in
    (
      record pk { ip = fill_header pk.ip id },
      refl,
      packet-Received q buf id (send-PcbFits o.port p f) fits (next_id-lt o.last),
      refl,
    )
