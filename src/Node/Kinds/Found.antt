-- ===== src/Node/Kinds/Found.antt =====
-- Each list finds blocks of its kind only.
use mu_quinet.Prelude.{
  ℕ, ◌≡◌, sym, ap, ◌∙◌, inl, inr, subst, List, [], ◌∷◌, true, Option, some, Option-cases, arith,
}
use mathlib.Core.Option.{some-injective, none-ne-some}
use mathlib.Core.Bool.{true≢false}
use mu_quinet.Net.Buffer.{SocketBuffer}
use mu_quinet.Pcb.{Pcb, Flow, find}
use mu_quinet.Pcb.Find.{TakesAt, find-IsLast}
use mu_quinet.Tcp.{TcpPcb}
use mu_quinet.Udp
use mu_quinet.Udp.Rx.{Delivery, udp_deliver, udp_flow, udp_rx, tcp_rx, tcp_flow}
use mu_quinet.Mux.Socket.{PcbRef, udp_pcb, tcp_pcb}
use mu_quinet.Mux.Handler.{Channel}
use mu_quinet.Node.{Node, lock, block_at}
use mu_quinet.Node.Kinds.{contains, contains-middle, IsValid, block_at-Listed}

found :
    (look : ℕ → Option Pcb) (c : List ℕ) (k : Flow) (a : ℕ)
    → find look c k ≡ some a
    → (contains a c ≡ true) × TakesAt look k a
found look c k a e = elim (find-IsLast look k c) [
  | inl (n, _) ↦ absurd (none-ne-some a (sym n ∙ e))
  | inr (b, before, after, l, t, _, o) ↦
      subst (λ x. (contains x c ≡ true) × TakesAt look k x) (some-injective b a (sym o ∙ e))
        (ap (contains b) l ∙ contains-middle b before after, t)
]

module _ {Q : Type 0} where
  lock-block_at :
      (l : List (ℕ × Channel Q)) (a : ℕ) (p : Pcb)
      → lock l a ≡ some p
      → (x : PcbRef) × (block_at a l ≡ some x)
  unfolding lock
  lock-block_at l a p e = elim (Option-cases (block_at a l)) [
    | inl z ↦ absurd (none-ne-some p (ground (arith, e, z)))
    | inr (x, z) ↦ (x, z)
  ]

  udp_block :
      (n : Node Q) (a : ℕ) (x : PcbRef)
      → IsValid n
      → contains a n.mux.udp_pcbs ≡ true
      → block_at a n.channels ≡ some x
      → (p : Pcb) × (block_at a n.channels ≡ some (udp_pcb a p))
  udp_block n a (udp_pcb b p) v c z =
      let (_, s) =
        block_at-Listed n.mux.udp_pcbs n.mux.tcp_pcbs a (udp_pcb b p) n.channels v.listed z in
      (p, z ∙ ap (λ x. some (udp_pcb x p)) s)
  udp_block n a (tcp_pcb b p) v c z =
      let (l, s) =
        block_at-Listed n.mux.udp_pcbs n.mux.tcp_pcbs a (tcp_pcb b p) n.channels v.listed z in
      absurd (true≢false (sym l ∙ ap (λ x. contains x n.mux.tcp_pcbs) s ∙ v.disjoint a c))

  udp_found :
      (n : Node Q) (k : Flow) (a : ℕ)
      → IsValid n
      → find (lock n.channels) n.mux.udp_pcbs k ≡ some a
      → (p : Pcb) × (block_at a n.channels ≡ some (udp_pcb a p))
  udp_found n k a v e =
      let (c, (q, t, _)) = found (lock n.channels) n.mux.udp_pcbs k a e in
      let (x, z) = lock-block_at n.channels a q t in udp_block n a x v c z

  tcp_block :
      (n : Node Q) (a : ℕ) (x : PcbRef)
      → IsValid n
      → contains a n.mux.tcp_pcbs ≡ true
      → block_at a n.channels ≡ some x
      → (p : TcpPcb) × (block_at a n.channels ≡ some (tcp_pcb a p))
  tcp_block n a (tcp_pcb b p) v c z =
      let (_, s) =
        block_at-Listed n.mux.udp_pcbs n.mux.tcp_pcbs a (tcp_pcb b p) n.channels v.listed z in
      (p, z ∙ ap (λ x. some (tcp_pcb x p)) s)
  tcp_block n a (udp_pcb b p) v c z =
      let (l, s) =
        block_at-Listed n.mux.udp_pcbs n.mux.tcp_pcbs a (udp_pcb b p) n.channels v.listed z in
      absurd (true≢false (sym c ∙ v.disjoint a (sym (ap (λ x. contains x n.mux.udp_pcbs) s) ∙ l)))

  tcp_found :
      (n : Node Q) (k : Flow) (a : ℕ)
      → IsValid n
      → find (lock n.channels) n.mux.tcp_pcbs k ≡ some a
      → (p : TcpPcb) × (block_at a n.channels ≡ some (tcp_pcb a p))
  tcp_found n k a v e =
      let (c, (q, t, _)) = found (lock n.channels) n.mux.tcp_pcbs k a e in
      let (x, z) = lock-block_at n.channels a q t in tcp_block n a x v c z

  -- What a delivery names is a live block of the delivery's kind.
  abbrev pub HasKind : List (ℕ × Channel Q) → Delivery → Type 0
  HasKind l (Delivery.to_socket a peer chain) = (p : Pcb) × (block_at a l ≡ some (udp_pcb a p))
  HasKind l (Delivery.to_tcp_pcb a chain) = (p : TcpPcb) × (block_at a l ≡ some (tcp_pcb a p))
  HasKind l _ = Unit

  udp_rx-HasKind :
      (n : Node Q) (chain : List SocketBuffer)
      → IsValid n
      → HasKind n.channels (udp_rx (lock n.channels) n.mux.udp_pcbs chain)
  unfolding udp_rx udp_deliver
  udp_rx-HasKind n [] v = tt
  udp_rx-HasKind n (b ∷ rest) v = elim (Option-cases b.transport_hdr) [
    | inl z ↦ rw z tt
    | inr (hdr, h) ↦ elim (Option-cases (find (lock n.channels) n.mux.udp_pcbs (udp_flow b hdr))) [
      | inl z ↦ rw (h, z) tt
      | inr (a, f) ↦ elim (Option-cases (Udp.recv b)) [
        | inl z ↦ rw (h, f, udp_deliver, z) tt
        | inr (b', z) ↦ rw (h, f, udp_deliver, z) (udp_found n (udp_flow b hdr) a v f)
      ]
    ]
  ]

  tcp_rx-HasKind :
      (n : Node Q) (chain : List SocketBuffer)
      → IsValid n
      → HasKind n.channels (tcp_rx (lock n.channels) n.mux.tcp_pcbs chain)
  unfolding tcp_rx
  tcp_rx-HasKind n [] v = tt
  tcp_rx-HasKind n (b ∷ rest) v = elim (Option-cases b.transport_hdr) [
    | inl z ↦ rw z tt
    | inr (hdr, h) ↦ elim (Option-cases (find (lock n.channels) n.mux.tcp_pcbs (tcp_flow b hdr))) [
      | inl z ↦ rw (h, z) tt
      | inr (a, f) ↦ rw (h, f) (tcp_found n (tcp_flow b hdr) a v f)
    ]
  ]

  -- In a node whose blocks are all in the lists of their kinds, and whose lists share no address,
  -- Udp::rx only ever names a live UDP block and Tcp::rx only ever names a live TCP block.
  pub udp_rx-tcp_rx-HasKind :
      (n : Node Q) (chain : List SocketBuffer)
      → IsValid n
      → HasKind n.channels (udp_rx (lock n.channels) n.mux.udp_pcbs chain)
        × HasKind n.channels (tcp_rx (lock n.channels) n.mux.tcp_pcbs chain)
  udp_rx-tcp_rx-HasKind n chain v = (udp_rx-HasKind n chain v, tcp_rx-HasKind n chain v)
