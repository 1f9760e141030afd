-- ===== src/Stack/Arrival.antt =====
-- A TCP segment from one stack's wire at another stack's block.
use mu_quinet.Prelude.{
  ℕ, ◌+◌, ◌*◌, ◌^◌, ◌≤◌, ◌<◌, ◌≡◌, refl, ap, ◌∙◌, List, [], ◌∷◌, ◌++◌, true, false, some, arith,
  length, take, drop, swap16, swap16-lt, swap32, swap32-lt, u16,
}
use mu_quinet.Net.Headers.{TcpHeader, ip_bytes, tcp_bytes, tcp_header}
use mu_quinet.Net.Buffer.{
  SocketBuffer, TxPacket, ip_hdr, wire, transport_bytes, tun_rx, user_payload,
}
use mu_quinet.Net.RoundTrip.{TcpFits, tcp_header-tcp_bytes}
use mu_quinet.Pcb.{Pcb, Flow}
use mu_quinet.Pcb.Calls.{PcbFits}
use mu_quinet.Ip.Header.{is_frag, frag_offset, more_frag}
use mu_quinet.Ip.Tx.{fill_header}
use mu_quinet.Ip.Tx.Header.{IsDraft, ip_header-fill_header}
use mu_quinet.Ip.Defrag.{Defrager}
use mu_quinet.Ip.Rx.{en_rx_que, rx, Verdict, demultiplex_any, demultiplex, set_transport_hdr}
use mu_quinet.Ip.Header.{protocol}
use mu_quinet.Tcp.{prepare_before_ip_tx, tcp_check, tcp_template, pseudo_ip}
use mu_quinet.Udp.Rx.{tcp_flow}

take-length : (xs ys : List ℕ) → take (length xs) (xs ++ ys) ≡ xs
take-length [] ys = refl
take-length (x ∷ xs) ys = ap (◌∷◌ x) (take-length xs ys)

-- An unfragmented TCP packet passes the IP layer alone.
rx_whole_tcp :
    (d : Defrager) (b : SocketBuffer)
    → 20 ≤ b.user_payload_end
    → is_frag (ip_hdr b) ≡ false
    → (ip_hdr b).protocol ≡ 6
    → rx d b
      ≡ some (d, Verdict.to_tcp (record b { transport_hdr = some ((ip_hdr b).ihl * 4) } ∷ []))
unfolding rx demultiplex_any demultiplex protocol set_transport_hdr
rx_whole_tcp d b le f p = ground (arith, le, f, p)

-- The header of a segment of an open connection.
abbrev pub data_header : Pcb → ℕ → ℕ → TcpHeader
data_header p seq ack = record (tcp_template p) { seq = swap32 seq; ack = 1; ack_seq = swap32 ack }

-- The packet that goes to the wire for it.
abbrev pub packet : Pcb → ℕ → ℕ → List ℕ → ℕ → TxPacket
packet p seq ack buf id =
    let pk = prepare_before_ip_tx p (data_header p seq ack) buf in
    record pk { ip = fill_header pk.ip id }

module _ (p : Pcb) (seq ack : ℕ) (buf : List ℕ) (id : ℕ) (garbage : List ℕ) (f : PcbFits p)
    (fits : length buf + 40 < 2 ^ 16) (lt : id < 2 ^ 16) where
  abbrev h : TcpHeader
  h = data_header p seq ack

  abbrev pk : TxPacket
  pk = prepare_before_ip_tx p h buf

  ip-IsDraft : IsDraft pk.ip
  unfolding prepare_before_ip_tx pseudo_ip
  ip-IsDraft = ground (arith, swap16-lt (u16 (length buf + 40)))

  -- The buffer that the other stack's device fills.
  abbrev pub came : SocketBuffer
  came = let bytes = wire (packet p seq ack buf id) in tun_rx bytes garbage (length bytes)

  ip_hdr-came : ip_hdr came ≡ fill_header pk.ip id
  unfolding wire tun_rx ip_bytes
  ip_hdr-came = ip_header-fill_header pk.ip id _ ip-IsDraft lt

  abbrev h' : TcpHeader
  h' = record h { check = tcp_check p h buf }

  h-TcpFits : TcpFits h'
  unfolding tcp_template tcp_check
  h-TcpFits = ground (arith, swap32-lt seq, swap32-lt ack, swap16-lt 4096)

  pub tcp_header-came : tcp_header (drop 20 came.raw) ≡ h'
  unfolding wire tun_rx ip_bytes transport_bytes prepare_before_ip_tx tcp_bytes
  tcp_header-came = tcp_header-tcp_bytes h' (buf ++ garbage) h-TcpFits

  pub came-end : came.user_payload_end ≡ length buf + 40
  unfolding wire tun_rx ip_bytes transport_bytes prepare_before_ip_tx tcp_bytes
  came-end = omega arith

  pub payload-came :
      user_payload (record came { transport_hdr = some 20; user_payload_begin = some 40 })
      ≡ some buf
  unfolding user_payload wire tun_rx ip_bytes transport_bytes prepare_before_ip_tx tcp_bytes
  payload-came = ground (arith, take-length buf garbage)

  pub came-accepted : en_rx_que came ≡ true
  unfolding en_rx_que fill_header
  came-accepted = ground (arith, ip_hdr-came)

  came-whole : is_frag (ip_hdr came) ≡ false
  unfolding is_frag frag_offset more_frag fill_header prepare_before_ip_tx pseudo_ip swap16
  came-whole = rw ip_hdr-came refl

  pub came-rx :
      (d : Defrager)
      → rx d came ≡ some (d, Verdict.to_tcp (record came { transport_hdr = some 20 } ∷ []))
  unfolding fill_header prepare_before_ip_tx pseudo_ip
  came-rx d =
      rx_whole_tcp d came (omega (arith, came-end)) came-whole (ap (λ h. h.protocol) ip_hdr-came)
      ∙ ap (λ n. some (d, Verdict.to_tcp (record came { transport_hdr = some (n * 4) } ∷ [])))
          (ap (λ h. h.ihl) ip_hdr-came)

  -- The flow that the other stack looks for.
  abbrev pub flow : Flow
  flow = record { faddr = p.laddr; fport = p.lport; laddr = p.faddr; lport = p.fport }

  pub came-flow : tcp_flow (record came { transport_hdr = some 20 }) 20 ≡ flow
  unfolding tcp_flow fill_header prepare_before_ip_tx pseudo_ip tcp_template
  came-flow = ground (arith, ip_hdr-came, tcp_header-came)
