-- ===== src/Tcp/Segments.antt =====
-- The checksum of an outgoing segment, as a receiver computes it (RFC 793): over the pseudo-header,
-- the TCP header and the payload.
use mu_quinet.Prelude.{
  ℕ, ◌+◌, ◌*◌, ◌-◌, ◌%◌, ◌/◌, ◌^◌, ◌<◌, ◌≤◌, ◌≡◌, refl, ap, subst, List, [], ◌∷◌, ◌++◌, All, arith,
  length, u16, swap16, swap16-lt,
}
use mu_quinet.Checksum.{checksum, add_words}
use mu_quinet.Checksum.Laws.{
  word_sum, add_words_lem, Verifies, Verifies-iff, checksum-Verifies, word_sum_field,
}
use mu_quinet.Net.Headers.{TcpHeader, ip_bytes, tcp_bytes, tcp_flags, put16, put32}
use mu_quinet.Pcb.{Pcb}
use mu_quinet.Pcb.Calls.{PcbFits}
use mu_quinet.Tcp.{tcp_check, pseudo_ip}

abbrev pub IsBytes : List ℕ → Type 0
IsBytes = All (λ b. b < 2 ^ 8)

word_sum-le : (xs : List ℕ) → IsBytes xs → word_sum xs * 2 ≤ 0xffff * (length xs + 1)
unfolding word_sum
word_sum-le [] h = omega arith
word_sum-le (b ∷ []) h = omega arith
word_sum-le (b ∷ c ∷ xs) h = omega (arith, word_sum-le xs h.1.1)

-- A run verifies if its total is that of another that does.
Verifies-same :
    (xs ys : List ℕ) (s : ℕ)
    → s + word_sum xs < 2 ^ 32
    → s + word_sum xs ≡ word_sum ys
    → Verifies xs s
    → Verifies ys 0
Verifies-same xs ys s h e v =
    let total = (Verifies-iff xs s h).0 v in (Verifies-iff ys 0 (omega arith)).1 (omega arith)

-- The pseudo-header: addresses, a zero, the protocol number, and the length of the segment.
unfoldable pub pseudo_header : Pcb → ℕ → List ℕ
pseudo_header p len = put32 p.laddr (put32 p.faddr (0 ∷ 6 ∷ put16 (swap16 (u16 len)) []))

-- The fields that the code sets fit, the header has no options, and its check field is 0.
pub record IsDraft (h : TcpHeader) : Type 0 where
  pub source : h.source < 2 ^ 16
  pub dest : h.dest < 2 ^ 16
  pub seq : h.seq < 2 ^ 32
  pub ack_seq : h.ack_seq < 2 ^ 32
  pub res1 : h.res1 < 2 ^ 4
  pub doff : h.doff ≡ 5
  pub flags : tcp_flags h < 2 ^ 8
  pub window : h.window < 2 ^ 16
  pub check : h.check ≡ 0
  pub urg_ptr : h.urg_ptr < 2 ^ 16

module _ (p : Pcb) (h : TcpHeader) (buf : List ℕ) (f : PcbFits p) (d : IsDraft h) (bs : IsBytes buf)
    (fits : length buf + 40 < 2 ^ 16) where
  -- The header with the two fields that `IsDraft` fixes written out.
  abbrev fixed : TcpHeader
  fixed = record h { doff = 5; check = 0 }

  before_check : List ℕ
  before_check =
      0
      ∷ 0
      ∷ put16 0 (
          put16 0 (
            put16 0 (
              0
              ∷ 6
              ∷ put16 (swap16 (u16 (length buf + 20))) (
                  put32 p.laddr (
                    put32 p.faddr (
                      put16 h.source (
                        put16 h.dest (
                          put32 h.seq (
                            put32 h.ack_seq
                              ((h.res1 + 5 * 2 ^ 4) ∷ tcp_flags h ∷ put16 h.window []))))))))))

  after_check : List ℕ
  after_check = put16 h.urg_ptr []

  payload_sum : add_words 0 buf ≡ word_sum buf
  payload_sum = omega (arith, add_words_lem 0 buf (omega arith), word_sum-le buf bs)

  draft_sum : word_sum buf + word_sum (before_check ++ 0 ∷ 0 ∷ after_check) < 2 ^ 32 - 2 ^ 16
  unfolding word_sum before_check after_check
  draft_sum = omega (arith, word_sum-le buf bs, swap16-lt (u16 (length buf + 20)))

  abbrev check : ℕ
  check = tcp_check p fixed buf

  check_lem : check ≡ u16 (checksum (before_check ++ 0 ∷ 0 ∷ after_check) (word_sum buf))
  unfolding tcp_check ip_bytes tcp_bytes before_check after_check tcp_flags pseudo_ip
  check_lem = ap (λ s. u16 (checksum (before_check ++ 0 ∷ 0 ∷ after_check) s)) payload_sum

  stored-Verifies :
      Verifies (before_check ++ check % 2 ^ 8 ∷ check / 2 ^ 8 ∷ after_check) (word_sum buf)
  unfolding before_check
  stored-Verifies =
      rw check_lem (checksum-Verifies before_check after_check (word_sum buf) refl draft_sum)

  segment_sum :
      word_sum buf + word_sum (before_check ++ check % 2 ^ 8 ∷ check / 2 ^ 8 ∷ after_check)
      ≡ word_sum
          (pseudo_header p (length buf + 20) ++ tcp_bytes (record fixed { check = check }) buf)
  unfolding word_sum before_check after_check pseudo_header tcp_bytes tcp_flags
  segment_sum = omega arith

  check-lt : check < 2 ^ 16
  check-lt = rw check_lem (omega arith)

  even : length before_check % 2 ≡ 0
  unfolding before_check
  even = refl

  stored-lt :
      word_sum buf + word_sum (before_check ++ check % 2 ^ 8 ∷ check / 2 ^ 8 ∷ after_check) < 2 ^ 32
  stored-lt = omega (
    arith,
    draft_sum,
    check-lt,
    word_sum_field before_check after_check 0 0 even,
    word_sum_field before_check after_check (check % 2 ^ 8) (check / 2 ^ 8) even,
  )

  fixed-Verifies :
      Verifies
        (pseudo_header p (length buf + 20) ++ tcp_bytes (record fixed { check = check }) buf)
        0
  fixed-Verifies =
      Verifies-same (before_check ++ check % 2 ^ 8 ∷ check / 2 ^ 8 ∷ after_check) _ (word_sum buf)
        stored-lt segment_sum stored-Verifies

-- The segment that `prepareBeforeIpTx` makes verifies at a receiver, for a header with no options,
-- a block with fields in range, and a payload of bytes that fits an IP packet.
pub prepare-Verifies :
    (p : Pcb) (h : TcpHeader) (buf : List ℕ)
    → PcbFits p
    → IsDraft h
    → IsBytes buf
    → length buf + 40 < 2 ^ 16
    → Verifies
        (pseudo_header p (length buf + 20)
          ++ tcp_bytes (record h { check = tcp_check p h buf }) buf)
        0
prepare-Verifies p h buf f d bs fits =
    subst
      (λ k.
        Verifies
          (pseudo_header p (length buf + 20)
            ++ tcp_bytes (record k { check = tcp_check p k buf }) buf)
          0)
      (ground arith) (fixed-Verifies p h buf f d bs fits)
