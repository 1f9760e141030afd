-- ===== src/Udp/Calls.antt =====
-- UdpPcb::send with and without an address: where packets go, and what the block holds after.
use mu_quinet.Prelude.{ℕ, ◌+◌, ◌^◌, ◌<◌, ◌≡◌, refl, sym, ◌∙◌, List, [], ◌∷◌, ◌++◌, length}
use mu_quinet.Net.Buffer.{TxPacket, wire}
use mu_quinet.Pcb
use mu_quinet.Pcb.{Pcb}
use mu_quinet.Ip.Tx.{Out}
use mu_quinet.Udp.{send, send_to}
use mu_quinet.Udp.Packets.{Received, send-Received}
use mu_quinet.Pcb.Calls.{
  PcbFits, IsBound, send-IsBound, send_to-IsBound, connect-IsBound, send_to-PcbFits,
  connect-PcbFits, send_not_connected,
}

-- The block that a `send_to` sends from.
abbrev pub addressed : ℕ → Pcb → ℕ → ℕ → Pcb
addressed port p faddr fport =
    let (port', q, _) = Pcb.send_to port p in (Pcb.connect port' q faddr fport).1

abbrev pub addressed_port : ℕ → Pcb → ℕ → ℕ → ℕ
addressed_port port p faddr fport =
    let (port', q, _) = Pcb.send_to port p in (Pcb.connect port' q faddr fport).0

pub addressed-PcbFits :
    (port : ℕ) (p : Pcb) (faddr fport : ℕ)
    → PcbFits p
    → faddr < 2 ^ 32
    → fport < 2 ^ 16
    → PcbFits (addressed port p faddr fport)
addressed-PcbFits port p faddr fport f a b =
    connect-PcbFits (Pcb.send_to port p).0 (Pcb.send_to port p).1 faddr fport
      (send_to-PcbFits port p f) a b

-- The block that the packet of a `send_to` is made from, in terms of the block before.
pub addressed-IsBound :
    (port : ℕ) (p : Pcb) (faddr fport : ℕ) (q : Pcb)
    → IsBound (addressed port p faddr fport) q
    → IsBound (record p { faddr = faddr; fport = fport }) q
addressed-IsBound port p faddr fport q h =
    let s = send_to-IsBound port p in
    let c = connect-IsBound (Pcb.send_to port p).0 (Pcb.send_to port p).1 faddr fport in
    record {
      laddr = h.laddr ∙ c.laddr ∙ s.laddr;
      faddr = h.faddr ∙ c.faddr;
      fport = h.fport ∙ c.fport;
      lport = λ n.
          let e = s.lport n in
          let d = c.lport (λ z. n (sym e ∙ z)) in h.lport (λ z. n (sym (d ∙ e) ∙ z)) ∙ d ∙ e;
    }

-- A send to an address sends one packet to that address and port from the block's own address, and
-- from its own port if it had one (the packet's block is `sender`), and returns the buffer's length. Afterwards the block has no
-- peer, whether it was connected before or not.
pub send_to-Received :
    (o : Out) (p : Pcb) (faddr fport : ℕ) (buf : List ℕ)
    → PcbFits p
    → faddr < 2 ^ 32
    → fport < 2 ^ 16
    → length buf + 28 < 2 ^ 16
    → let (o', q, ret) = send_to o p faddr fport buf in
      (pk : TxPacket) × (sender : Pcb) × (o'.sent ≡ o.sent ++ pk ∷ [])
      × Received sender buf (wire pk)
      × IsBound (record p { faddr = faddr; fport = fport }) sender
      × (q ≡ record sender { faddr = 0; fport = 0 })
      × (ret ≡ length buf)
unfolding send_to
send_to-Received o p faddr fport buf f a b fits =
    let r : Pcb = addressed o.port p faddr fport in
    let o' : Out = record o { port = addressed_port o.port p faddr fport } in
    let (pk, e, got, _) =
      send-Received o' r buf (addressed-PcbFits o.port p faddr fport f a b) fits in
    let sender : Pcb = (Pcb.send o'.port r).1 in
    (
      pk,
      sender,
      e,
      got,
      addressed-IsBound o.port p faddr fport sender (send-IsBound o'.port r),
      refl,
      refl,
    )

-- A plain send on a block without a peer is reported by Pcb::send as not connected; the UDP send
-- returns the buffer's length all the same, and its one packet goes to address and port 0 of an
-- unset peer.
pub send_unconnected :
    (o : Out) (p : Pcb) (buf : List ℕ)
    → p.fport ≡ 0
    → let (o', q, ret) = send o p buf in
      ((Pcb.send o.port p).2 ≡ Pcb.e_not_conn)
      × (ret ≡ length buf)
      × (pk : TxPacket) × (o'.sent ≡ o.sent ++ pk ∷ [])
      × (pk.ip.daddr ≡ p.faddr)
      × (q.fport ≡ 0)
unfolding send
send_unconnected o p buf h =
    let keeps = send-IsBound o.port p in
    (send_not_connected o.port p h, refl, _, refl, keeps.faddr, keeps.fport ∙ h)
