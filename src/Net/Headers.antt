-- ===== src/Net/Headers.antt =====
-- The header structs, field by field, and the bytes that a field occupies. A 16- or 32-bit field
-- holds the number that the little-endian host reads from memory, in network byte order or not:
-- the code applies `htons` and `ntohs` where it does.
use mu_quinet.Prelude.{ℕ, ◌+◌, ◌*◌, ◌/◌, ◌%◌, ◌^◌, List, ◌∷◌, get_or}

-- `iphdr`, and on the same bytes the `IpHeaderOverlay`: its `len` is `tot_len`, its
-- `protocol_len` is `check`, its `zeros10` is `version` and `ihl`, its `zeros2` is `id` and
-- `frag_off`.
pub record IpHeader : Type 0 where
  pub version : ℕ
  pub ihl : ℕ
  pub tos : ℕ
  pub tot_len : ℕ
  pub id : ℕ
  pub frag_off : ℕ
  pub ttl : ℕ
  pub protocol : ℕ
  pub check : ℕ
  pub saddr : ℕ
  pub daddr : ℕ

-- `udphdr`
pub record UdpHeader : Type 0 where
  pub source : ℕ
  pub dest : ℕ
  pub len : ℕ
  pub check : ℕ

-- `tcphdr`; the flags are one-bit fields, `res2` the two that follow them.
pub record TcpHeader : Type 0 where
  pub source : ℕ
  pub dest : ℕ
  pub seq : ℕ
  pub ack_seq : ℕ
  pub res1 : ℕ
  pub doff : ℕ
  pub fin : ℕ
  pub syn : ℕ
  pub rst : ℕ
  pub psh : ℕ
  pub ack : ℕ
  pub urg : ℕ
  pub res2 : ℕ
  pub window : ℕ
  pub check : ℕ
  pub urg_ptr : ℕ

-- The bytes of a 16-bit field before the bytes `rest`, lowest first; those of a 32-bit field.
abbrev pub put16 : ℕ → List ℕ → List ℕ
put16 n rest = n % 2 ^ 8 ∷ n / 2 ^ 8 ∷ rest

abbrev pub put32 : ℕ → List ℕ → List ℕ
put32 n rest = n % 2 ^ 8 ∷ n / 2 ^ 8 % 2 ^ 8 ∷ n / 2 ^ 16 % 2 ^ 8 ∷ n / 2 ^ 24 ∷ rest

abbrev pub get16 : List ℕ → ℕ → ℕ → ℕ
get16 bytes i j = get_or bytes i 0 + get_or bytes j 0 * 2 ^ 8

abbrev pub get32 : List ℕ → ℕ → ℕ → ℕ → ℕ → ℕ
get32 bytes i j k l =
    get_or bytes i 0
    + get_or bytes j 0 * 2 ^ 8
    + get_or bytes k 0 * 2 ^ 16
    + get_or bytes l 0 * 2 ^ 24

unfoldable pub ip_bytes : IpHeader → List ℕ → List ℕ
ip_bytes h rest =
    (h.ihl + h.version * 2 ^ 4)
    ∷ h.tos
    ∷ put16 h.tot_len (
        put16 h.id (
          put16 h.frag_off
            (h.ttl ∷ h.protocol ∷ put16 h.check (put32 h.saddr (put32 h.daddr rest)))))

unfoldable pub udp_bytes : UdpHeader → List ℕ → List ℕ
udp_bytes h rest = put16 h.source (put16 h.dest (put16 h.len (put16 h.check rest)))

unfoldable pub tcp_flags : TcpHeader → ℕ
tcp_flags h = h.fin + h.syn * 2 + h.rst * 4 + h.psh * 8 + h.ack * 16 + h.urg * 32 + h.res2 * 64

unfoldable pub tcp_bytes : TcpHeader → List ℕ → List ℕ
tcp_bytes h rest = put16 h.source (
    put16 h.dest (
      put32 h.seq (
        put32 h.ack_seq (
          (h.res1 + h.doff * 2 ^ 4)
          ∷ tcp_flags h
          ∷ put16 h.window (put16 h.check (put16 h.urg_ptr rest))))))

-- A cast of a pointer to a header struct: the fields are read from the bytes that it points to.
unfoldable pub ip_header : List ℕ → IpHeader
ip_header bytes = record {
  version = get_or bytes 0 0 / 2 ^ 4;
  ihl = get_or bytes 0 0 % 2 ^ 4;
  tos = get_or bytes 1 0;
  tot_len = get16 bytes 2 3;
  id = get16 bytes 4 5;
  frag_off = get16 bytes 6 7;
  ttl = get_or bytes 8 0;
  protocol = get_or bytes 9 0;
  check = get16 bytes 10 11;
  saddr = get32 bytes 12 13 14 15;
  daddr = get32 bytes 16 17 18 19;
}

unfoldable pub udp_header : List ℕ → UdpHeader
udp_header bytes = record {
  source = get16 bytes 0 1;
  dest = get16 bytes 2 3;
  len = get16 bytes 4 5;
  check = get16 bytes 6 7;
}

unfoldable pub tcp_header : List ℕ → TcpHeader
tcp_header bytes =
    let flags : ℕ = get_or bytes 13 0 in
    record {
      source = get16 bytes 0 1;
      dest = get16 bytes 2 3;
      seq = get32 bytes 4 5 6 7;
      ack_seq = get32 bytes 8 9 10 11;
      res1 = get_or bytes 12 0 % 2 ^ 4;
      doff = get_or bytes 12 0 / 2 ^ 4;
      fin = flags % 2;
      syn = flags / 2 % 2;
      rst = flags / 4 % 2;
      psh = flags / 8 % 2;
      ack = flags / 16 % 2;
      urg = flags / 32 % 2;
      res2 = flags / 64;
      window = get16 bytes 14 15;
      check = get16 bytes 16 17;
      urg_ptr = get16 bytes 18 19;
    }
