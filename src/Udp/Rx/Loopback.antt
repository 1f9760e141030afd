-- ===== src/Udp/Rx/Loopback.antt =====
-- A UDP packet from one stack's wire to another stack's socket.
use mu_quinet.Prelude.{
  ℕ, ◌+◌, ◌*◌, ◌^◌, ◌≤◌, ◌<◌, ◌≡◌, refl, ap, ◌∙◌, List, [], ◌∷◌, ◌++◌, true, false, Option, none,
  some, arith, length, take, drop, swap16, swap16-lt, u16,
}
use mathlib.Core.List.{append-nil}
use mu_quinet.Net.Headers.{udp_header, ip_bytes, udp_bytes}
use mu_quinet.Net.Buffer.{SocketBuffer, ip_hdr, wire, transport_bytes, tun_rx, user_payload}
use mu_quinet.Net.RoundTrip.{udp_header-udp_bytes}
use mu_quinet.Pcb.{Pcb, Flow, find}
use mu_quinet.Pcb.Calls.{PcbFits}
use mu_quinet.Ip.Header.{is_frag, frag_offset, more_frag}
use mu_quinet.Ip.Tx.{fill_header}
use mu_quinet.Ip.Tx.Header.{ip_header-fill_header}
use mu_quinet.Ip.Defrag.{Defrager}
use mu_quinet.Ip.Rx.{en_rx_que, rx, Verdict, rx_whole_udp}
use mu_quinet.Mux.Rpc.{SockAddr}
use mu_quinet.Mux.Handler.{chain_payload}
use mu_quinet.Udp
use mu_quinet.Udp.{udp_packet}
use mu_quinet.Udp.Packets.{udp_packet-IsDraft}
use mu_quinet.Udp.Rx.{Delivery, udp_flow, udp_deliver, udp_rx}

take-length : (xs ys : List ℕ) → take (length xs) (xs ++ ys) ≡ xs
take-length [] ys = refl
take-length (x ∷ xs) ys = ap (◌∷◌ x) (take-length xs ys)

chain_payload-one :
    (b : SocketBuffer) (bytes : List ℕ)
    → user_payload b ≡ some bytes
    → chain_payload (b ∷ []) ≡ some bytes
unfolding chain_payload
chain_payload-one b bytes e = ground (arith, e, append-nil bytes)

-- What follows when the search for the block gave `r`.
abbrev pub delivered : Option ℕ → SockAddr → SocketBuffer → Delivery
delivered none peer b = Delivery.no_receiver
delivered (some a) peer b = Delivery.to_socket a peer (b ∷ [])

udp_rx-delivered :
    (lock : ℕ → Option Pcb) (pcbs : List ℕ) (b : SocketBuffer) (hdr : ℕ) (k : Flow)
    → b.transport_hdr ≡ some hdr
    → udp_flow b hdr ≡ k
    → udp_rx lock pcbs (b ∷ [])
      ≡ delivered
          (find lock pcbs k)
          (record { family = 2; port = k.fport; addr = k.faddr })
          (record b { user_payload_begin = some (hdr + 8) })
unfolding udp_rx udp_deliver Udp.recv
udp_rx-delivered lock pcbs b hdr k e g = ground (arith, e, g)

module _ (p : Pcb) (buf : List ℕ) (id : ℕ) (garbage : List ℕ) (f : PcbFits p)
    (fits : length buf + 28 < 2 ^ 16) (lt : id < 2 ^ 16) where
  abbrev sent : List ℕ
  sent = let pk = udp_packet p buf in wire (record pk { ip = fill_header pk.ip id })

  -- The buffer that the other stack's device fills.
  abbrev came : SocketBuffer
  came = tun_rx sent garbage (length sent)

  ip_hdr-came : ip_hdr came ≡ fill_header (udp_packet p buf).ip id
  unfolding wire tun_rx ip_bytes
  ip_hdr-came = ip_header-fill_header (udp_packet p buf).ip id _ (udp_packet-IsDraft p buf f) lt

  udp_header-came :
      udp_header (drop 20 came.raw)
      ≡ record { source = p.lport; dest = p.fport; len = swap16 (u16 (length buf + 8)); check = 0 }
  unfolding wire tun_rx ip_bytes transport_bytes udp_packet udp_bytes
  udp_header-came =
      udp_header-udp_bytes _ (buf ++ garbage) (ground (arith, swap16-lt (u16 (length buf + 8))))

  payload-came :
      user_payload (record came { transport_hdr = some 20; user_payload_begin = some 28 })
      ≡ some buf
  unfolding user_payload wire tun_rx ip_bytes transport_bytes udp_packet udp_bytes
  payload-came = ground (arith, take-length buf garbage)

  came-end : came.user_payload_end ≡ length buf + 28
  unfolding wire tun_rx ip_bytes transport_bytes udp_packet udp_bytes
  came-end = omega arith

  came-accepted : en_rx_que came ≡ true
  unfolding en_rx_que fill_header
  came-accepted = ground (arith, ip_hdr-came)

  came-whole : is_frag (ip_hdr came) ≡ false
  unfolding is_frag frag_offset more_frag fill_header udp_packet swap16
  came-whole = rw ip_hdr-came refl

  came-rx :
      (d : Defrager)
      → rx d came ≡ some (d, Verdict.to_udp (record came { transport_hdr = some 20 } ∷ []))
  unfolding fill_header udp_packet
  came-rx d =
      rx_whole_udp d came (omega (arith, came-end)) came-whole (ap (λ h. h.protocol) ip_hdr-came)
      ∙ ap (λ n. some (d, Verdict.to_udp (record came { transport_hdr = some (n * 4) } ∷ [])))
          (ap (λ h. h.ihl) ip_hdr-came)

  -- The flow that the other stack looks for.
  abbrev flow : Flow
  flow = record { faddr = p.laddr; fport = p.lport; laddr = p.faddr; lport = p.fport }

  came-flow : udp_flow (record came { transport_hdr = some 20 }) 20 ≡ flow
  unfolding udp_flow fill_header udp_packet
  came-flow = ground (arith, ip_hdr-came, udp_header-came)

  abbrev received : SocketBuffer
  received = record came { transport_hdr = some 20; user_payload_begin = some 28 }

  came-udp_rx :
      (lock : ℕ → Option Pcb) (pcbs : List ℕ)
      → udp_rx lock pcbs (record came { transport_hdr = some 20 } ∷ [])
        ≡ delivered
            (find lock pcbs flow)
            (record { family = 2; port = p.lport; addr = p.laddr })
            received
  came-udp_rx lock pcbs =
      udp_rx-delivered lock pcbs (record came { transport_hdr = some 20 }) 20 flow refl came-flow

  came-payload : chain_payload (received ∷ []) ≡ some buf
  came-payload = chain_payload-one received buf payload-came

-- A UDP packet whose header the IP layer completed, as another stack's device reads it: it is
-- accepted, passes the IP layer without touching reassembly, and goes to the block that `find`
-- gives for its addresses and ports the other way round, with the sender's address and with the
-- payload that was sent; or nowhere if there is no such block. The sender's fields are in range, and
-- the packet fits a buffer.
pub udp_rx-sent :
    (p : Pcb) (buf : List ℕ) (id : ℕ) (garbage : List ℕ) (d : Defrager) (lock : ℕ → Option Pcb)
    (pcbs : List ℕ)
    → PcbFits p
    → id < 2 ^ 16
    → length buf + 28 ≤ 1518
    → let bytes : List ℕ =
        wire (record (udp_packet p buf) { ip = fill_header (udp_packet p buf).ip id }) in
      let k : Flow = record {
        faddr = p.laddr;
        fport = p.lport;
        laddr = p.faddr;
        lport = p.fport;
      } in
      let b : SocketBuffer = tun_rx bytes garbage (length bytes) in
      (chain : List SocketBuffer) × (b' : SocketBuffer) × (en_rx_que b ≡ true)
      × (rx d b ≡ some (d, Verdict.to_udp chain))
      × (udp_rx lock pcbs chain
          ≡ delivered (find lock pcbs k) (record { family = 2; port = p.lport; addr = p.laddr }) b')
      × (chain_payload (b' ∷ []) ≡ some buf)
udp_rx-sent p buf id garbage d lock pcbs f lt fits =
    let small : length buf + 28 < 2 ^ 16 = omega arith in
    (
      record (came p buf id garbage f small lt) { transport_hdr = some 20 } ∷ [],
      received p buf id garbage f small lt,
      came-accepted p buf id garbage f small lt,
      came-rx p buf id garbage f small lt d,
      came-udp_rx p buf id garbage f small lt lock pcbs,
      came-payload p buf id garbage f small lt,
    )
