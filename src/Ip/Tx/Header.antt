-- ===== src/Ip/Tx/Header.antt =====
-- The IP header of an outgoing packet, as a receiver checks it.
use mu_quinet.Prelude.{
  ℕ, ◌+◌, ◌*◌, ◌-◌, ◌^◌, ◌<◌, ◌≡◌, refl, subst, List, [], ◌∷◌, ◌++◌, arith, swap16-lt,
}
use mu_quinet.Checksum.Laws.{word_sum, Verifies, checksum-Verifies}
use mu_quinet.Net.Headers.{IpHeader, ip_header, ip_bytes, put16, put32}
use mu_quinet.Net.RoundTrip.{ip_header-ip_bytes}
use mu_quinet.Ip.Header.{next_id}
use mu_quinet.Ip.Tx.{fill_header}

-- What the transport layer hands over: the fields that it sets fit, and the check field is 0.
pub record IsDraft (h : IpHeader) : Type 0 where
  pub tot_len : h.tot_len < 2 ^ 16
  pub frag_off : h.frag_off < 2 ^ 16
  pub tos : h.tos < 2 ^ 8
  pub ttl : h.ttl < 2 ^ 8
  pub protocol : h.protocol < 2 ^ 8
  pub check : h.check ≡ 0
  pub saddr : h.saddr < 2 ^ 32
  pub daddr : h.daddr < 2 ^ 32

before_check : IpHeader → ℕ → List ℕ
before_check h id =
    (5 + 4 * 2 ^ 4)
    ∷ h.tos
    ∷ put16 h.tot_len (put16 id (put16 h.frag_off (h.ttl ∷ h.protocol ∷ [])))

after_check : IpHeader → List ℕ
after_check h = put32 h.saddr (put32 h.daddr [])

draft_sum :
    (h : IpHeader) (id : ℕ)
    → IsDraft h
    → id < 2 ^ 16
    → 0 + word_sum (before_check h id ++ 0 ∷ 0 ∷ after_check h) < 2 ^ 32 - 2 ^ 16
unfolding word_sum before_check after_check
draft_sum h id d lt = omega arith

fill_zero-Verifies :
    (h : IpHeader) (id : ℕ)
    → IsDraft h
    → id < 2 ^ 16
    → Verifies (ip_bytes (fill_header (record h { check = 0 }) id) []) 0
unfolding fill_header ip_bytes before_check after_check
fill_zero-Verifies h id d lt =
    checksum-Verifies (before_check h id) (after_check h) 0 refl (draft_sum h id d lt)

-- The header that Ip::tx completes passes the checksum test of a receiver.
pub fill_header-Verifies :
    (h : IpHeader) (id : ℕ) → IsDraft h → id < 2 ^ 16 → Verifies (ip_bytes (fill_header h id) []) 0
fill_header-Verifies h id d lt =
    subst (λ k. Verifies (ip_bytes (fill_header k id) []) 0) (ground arith)
      (fill_zero-Verifies h id d lt)

-- The completed header is read back from the front of the packet.
pub ip_header-fill_header :
    (h : IpHeader) (id : ℕ) (rest : List ℕ)
    → IsDraft h
    → id < 2 ^ 16
    → ip_header (ip_bytes (fill_header h id) rest) ≡ fill_header h id
unfolding fill_header
ip_header-fill_header h id rest d lt = ip_header-ip_bytes (fill_header h id) rest (omega arith)

pub next_id-lt : (last : ℕ) → (next_id last).1 < 2 ^ 16
unfolding next_id
next_id-lt last = swap16-lt _
