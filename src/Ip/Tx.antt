-- ===== src/Ip/Tx.antt =====
-- Ip::tx of ip/Ip.cpp: the part of the IP header that the IP layer fills in.
pub mod Header
use mu_quinet.Prelude.{ℕ, ◌*◌, ◌/◌, [], ◌∷◌, ◌++◌, u16, List}
use mu_quinet.Checksum.{checksum}
use mu_quinet.Net.Headers.{IpHeader, ip_bytes}
use mu_quinet.Net.Buffer.{TxPacket}
use mu_quinet.Ip.Header.{next_id}

-- The checksum is taken over the header with the check field that the caller left.
unfoldable pub fill_header : IpHeader → ℕ → IpHeader
fill_header h id =
    let filled = record h { version = 4; ihl = 20 / 4; id = id } in
    record filled { check = u16 (checksum (ip_bytes filled []) 0) }

-- What sending touches: the port counter of the protocol, the `last` of the identification
-- generator, and the packets that Interface::tx wrote to the device, oldest first.
pub record Out : Type 0 where
  pub port : ℕ
  pub last : ℕ
  pub sent : List TxPacket

unfoldable pub tx : Out → TxPacket → Out
unfolding fill_header next_id
tx o skbuf =
    let (last, id) = next_id o.last in
    record o { last = last; sent = o.sent ++ record skbuf { ip = fill_header skbuf.ip id } ∷ [] }
