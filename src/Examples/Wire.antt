-- ===== src/Examples/Wire.antt =====
-- Checksums and headers at concrete inputs.
use mu_quinet.Prelude.{ℕ, ◌+◌, ◌-◌, ◌≡◌, ◌≢◌, refl, [], ◌∷◌, ◌++◌, arith, u16}
use mu_quinet.Checksum.{checksum}
use mu_quinet.Checksum.Laws.{
  word_sum, ones_sum, checksum-ones_sum, Verifies, Verifies-iff, Verifies-detects,
}
use mu_quinet.Net.Headers.{IpHeader, TcpHeader, ip_bytes}
use mu_quinet.Ip.Tx.{fill_header}
use mu_quinet.Ip.Tx.Header.{fill_header-Verifies}
use mu_quinet.Ip.Header.Ids.{id_of_call, id_of_call-ne}

checksum-ones_sum_example :
    u16 (checksum (1 ∷ 2 ∷ 3 ∷ []) 5) ≡ 0xffff - ones_sum (5 + word_sum (1 ∷ 2 ∷ 3 ∷ []))
unfolding word_sum
checksum-ones_sum_example = checksum-ones_sum (1 ∷ 2 ∷ 3 ∷ []) 5 (omega arith)

abbrev stored : ℕ
stored = u16 (checksum ((1 ∷ 2 ∷ []) ++ 0 ∷ 0 ∷ (7 ∷ 8 ∷ [])) 5)

Verifies-detects_example : ¬ Verifies ([] ++ 1 ∷ 2 ∷ []) 0
unfolding word_sum
Verifies-detects_example =
    Verifies-detects [] [] 0xff 0xff 1 2 0 refl (omega arith) (omega arith) (omega arith)
      (omega arith) (omega arith) (omega arith)
      ((Verifies-iff (0xff ∷ 0xff ∷ []) 0 (omega arith)).1 (omega arith, omega arith))

abbrev ip_draft : IpHeader
ip_draft = record {
  version = 0;
  ihl = 0;
  tos = 0;
  tot_len = 0x2000;
  id = 0;
  frag_off = 0;
  ttl = 64;
  protocol = 17;
  check = 0;
  saddr = 0x0100007f;
  daddr = 0x0200007f;
}

fill_header-Verifies_example : Verifies (ip_bytes (fill_header ip_draft 0x0100) []) 0
fill_header-Verifies_example = fill_header-Verifies ip_draft 0x0100 (ground arith) (omega arith)

abbrev tcp_syn : TcpHeader
tcp_syn = record {
  source = 0x0104;
  dest = 0x5000;
  seq = 0x01000000;
  ack_seq = 0;
  res1 = 0;
  doff = 5;
  fin = 0;
  syn = 1;
  rst = 0;
  psh = 0;
  ack = 0;
  urg = 0;
  res2 = 0;
  window = 0x0010;
  check = 0;
  urg_ptr = 0;
}

id_of_call-ne_example : (id_of_call 3 ≢ 0) × (id_of_call 3 ≢ id_of_call 4)
id_of_call-ne_example = id_of_call-ne 3 4 (omega arith) (omega arith)
