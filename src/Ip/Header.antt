-- ===== src/Ip/Header.antt =====
-- ip/IpHeader.h and ip/IpHeader.cpp.
pub mod Ids
use mu_quinet.Prelude.{
  ℕ, ◌+◌, ◌/◌, ◌%◌, ◌^◌, Bool, true, false, ◌&&◌, not, Option, none, some, ◌==◌, ltb, if◌then◌else◌,
  u16, swap16, low_bits, test_bit,
}
use mu_quinet.Net.Headers.{IpHeader}

pub data ProtocolX : Type 0 where
  ip icmp igmp udp tcp : ProtocolX

-- `frag_off & IP_OFF_MASK` of the host's value, in units of 8 bytes, and `& IP_MF_MASK`.
unfoldable pub frag_offset : IpHeader → ℕ
unfolding swap16
frag_offset h = low_bits (swap16 h.frag_off) 13

unfoldable pub more_frag : IpHeader → Bool
unfolding swap16
more_frag h = test_bit (swap16 h.frag_off) 13

-- `isFrag`
unfoldable pub is_frag : IpHeader → Bool
unfolding frag_offset more_frag
is_frag h = not (frag_offset h == 0 && not (more_frag h))

-- `protocol`: the table has 255 entries, those not set are 0, which is `IP`. `none` is a read past
-- its end.
unfoldable pub protocol : IpHeader → Option ProtocolX
protocol h =
    if h.protocol == 1
    then some ProtocolX.icmp
    else if h.protocol == 2
    then some ProtocolX.igmp
    else if h.protocol == 6
    then some ProtocolX.tcp
    else if h.protocol == 17
    then some ProtocolX.udp
    else if ltb h.protocol 255
    then some ProtocolX.ip
    else none

-- `checksum`
abbrev pub checksum_ok : IpHeader → Bool
checksum_ok h = true

-- `IpIdGenerator::next`: `last` is a `uint16_t`.
unfoldable pub next_id : ℕ → ℕ × ℕ
unfolding swap16
next_id last =
    let last' : ℕ = if last == 0xffff then 0 else last in
    let id : ℕ = u16 (last' + 1) in (id, swap16 id)
