-- ===== src/Interface.antt =====
-- interface/Interface.cpp, interface/TunDevice.cpp and base/CmdRunner.cpp: the thread that reads the
-- TUN device, the gathering write of a chain of buffers, and the creation of the device.
pub mod Gather
pub mod Receiving
pub mod Device
use mu_quinet.Prelude.{
  ℕ, ◌+◌, ◌*◌, ◌-◌, ◌≤◌, List, [], ◌∷◌, ◌++◌, Bool, Option, none, some, ltb, if◌then◌else◌, take,
  drop, replicate, length,
}
use mu_quinet.Net.Headers.{ip_bytes}
use mu_quinet.Net.Buffer.{Transport, udp, tcp, TxPacket, transport_bytes}

-- A SocketBuffer under construction: the header pointers are offsets into `rawBytes`, those of the
-- user payload offsets into the string of the caller.
pub record TxBuffer : Type 0 where
  pub raw : List ℕ
  pub hdrs_begin : Option ℕ
  pub hdrs_end : Option ℕ
  pub user : List ℕ
  pub user_payload_begin : Option ℕ
  pub user_payload_end : Option ℕ

-- One `struct iovec`: `none` has the length that a negative difference makes, which `writev` refuses.
abbrev pub Iovec : Type 0
Iovec = Option (List ℕ)

abbrev pub max_iovecs : ℕ
max_iovecs = 32

abbrev pub between : List ℕ → ℕ → ℕ → Iovec
between l begin end = if ltb end begin then none else some (take (end - begin) (drop begin l))

-- The two entries of a buffer; `none` is the failed assertion.
unfoldable pub entries :
    (raw user : List ℕ) (hdrs_begin hdrs_end user_begin user_end : Option ℕ)
    → Option (Iovec × Iovec)
entries raw user (some a) (some b) (some c) (some d) = some (between raw a b, between user c d)
entries raw user _ _ _ _ = none

abbrev pub entries_of : TxBuffer → Option (Iovec × Iovec)
entries_of b = entries b.raw b.user b.hdrs_begin b.hdrs_end b.user_payload_begin b.user_payload_end

-- The loop over the chain, which fills `buffers` from `idx`; `none` is a failed assertion or a write
-- past the end of `buffers`.
unfoldable pub gather : ℕ → List TxBuffer → Option (List Iovec)
unfolding entries
gather idx [] = some []
gather idx (b ∷ bs) =
    let rest = gather (idx + 2) bs in
    elim (entries_of b) [
      | none ↦ none
      | some (hdrs, payload) ↦
          if ltb (idx + 1) max_iovecs
          then elim rest [ none ↦ none | some l ↦ some (hdrs ∷ payload ∷ l) ]
          else none
    ]

unfoldable pub joined : List Iovec → Option (List ℕ)
joined [] = some []
joined (none ∷ l) = none
joined (some bytes ∷ l) =
    let rest = joined l in elim rest [ none ↦ none | some more ↦ some (bytes ++ more) ]

-- `TunDevice::tx`: the bytes that the device gets, none if `writev` fails, which is only logged.
-- `accepted` is whether the kernel takes a valid write.
unfoldable pub tun_tx : Bool → List TxBuffer → Option (List ℕ)
unfolding gather joined
tun_tx accepted chain = elim (gather 0 chain) [
  | none ↦ none
  | some iovecs ↦
      some (if accepted then elim (joined iovecs) [ none ↦ [] | some bytes ↦ bytes ] else [])
]

abbrev pub hdrs_len : Transport → ℕ
hdrs_len (udp h) = 28
hdrs_len (tcp h) = 40

-- The buffer that UdpPcb::send or TcpPcb::socketBufferOfTcpTempl lays out and Ip::tx completes: 40
-- bytes for options, the headers, `rest`; the payload is a C string.
unfoldable pub tx_buffer : List ℕ → TxPacket → TxBuffer
unfolding ip_bytes transport_bytes
tx_buffer rest p = record {
  raw = replicate 40 0 ++ ip_bytes p.ip (transport_bytes p.transport rest);
  hdrs_begin = some 40;
  hdrs_end = some (40 + hdrs_len p.transport);
  user = p.payload ++ 0 ∷ [];
  user_payload_begin = some 0;
  user_payload_end = some (length p.payload);
}
