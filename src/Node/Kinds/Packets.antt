-- ===== src/Node/Kinds/Packets.antt =====
-- A packet keeps every block in the list of its kind.
use mu_quinet.Prelude.{
  ℕ, ◌≡◌, refl, sym, ap, ◌∙◌, inl, inr, subst, List, [], ◌∷◌, true, Bool-cases, Option, none, some,
  Option-cases, arith, length,
}
use mathlib.Core.Option.{some-injective, none-ne-some}
use mu_quinet.Net.Buffer.{SocketBuffer, tun_rx}
use mu_quinet.Ip.Rx.{Verdict, en_rx_que, rx}
use mu_quinet.Tcp.{TcpPcb, Handled, recv}
use mu_quinet.Udp.Rx.{Delivery}
use mu_quinet.Mux.Rpc.{SockAddr}
use mu_quinet.Mux.Socket.{Socket, Packet, RecvQueue, udp_pcb, tcp_pcb, put_to_recv_q}
use mu_quinet.Mux.Handler.{Channel, tcp_out, on_conn_estab}
use mu_quinet.Mux.Handler.Blocks.{address_of}
use mu_quinet.Node.{
  Node, block_at, update, owner_of, queue_segment, after_segment, deliver, dispatch, arrive,
}
use mu_quinet.Node.Kinds.{contains, Listed, AreKinds, IsValid, update-AllListed, block_at-Listed}

module _ {Q : Type 0} where
  put_to_recv_q-pcb :
      (ops : RecvQueue Q) (p : Packet) (so : Socket Q) → (put_to_recv_q ops p so).pcb ≡ so.pcb
  unfolding put_to_recv_q
  put_to_recv_q-pcb ops p so = ground arith

  updated-AreKinds :
      (udp tcp : List ℕ) (next a : ℕ) (f : Socket Q → Socket Q) (l : List (ℕ × Channel Q))
      → ((so : Socket Q)
          → address_of so.pcb ≡ a
          → Listed udp tcp so.pcb
          → Listed udp tcp (f so).pcb)
      → AreKinds udp tcp next l
      → AreKinds udp tcp next (update a f l)
  updated-AreKinds udp tcp next a f l k v = record {
    listed = update-AllListed udp tcp a f l k v.listed;
    disjoint = v.disjoint;
    udp_below = v.udp_below;
    tcp_below = v.tcp_below;
  }

module _ {Q : Type 0} (ops : RecvQueue Q) (garbage : TcpPcb) where
  queue_segment-pcb :
      (junk : SockAddr) (rest : List SocketBuffer) (o : Option SocketBuffer) (so : Socket Q)
      → (queue_segment ops garbage junk rest o so).pcb ≡ so.pcb
  queue_segment-pcb junk rest none so = refl
  queue_segment-pcb junk rest (some b) so = put_to_recv_q-pcb ops _ so

  after_segment-IsValid :
      (n : Node Q) (junk : SockAddr) (a : ℕ) (rest : List SocketBuffer) (r : Handled)
      → contains a n.mux.tcp_pcbs ≡ true
      → IsValid n
      → IsValid (after_segment ops garbage n junk a rest r)
  unfolding after_segment on_conn_estab
  after_segment-IsValid n junk a rest r h v = elim (Bool-cases r.called) [
    | inr q ↦ rw q changed
    | inl q ↦ elim (Option-cases (owner_of a n.channels)) [
      | inl o ↦ rw (q, o) changed
      | inr (c, o) ↦ rw (q, o) changed
    ]
  ]
    where
      changed : AreKinds n.mux.udp_pcbs n.mux.tcp_pcbs n.mux.next_address (
          update a
            (λ so.
              queue_segment ops garbage junk rest r.queued (record so { pcb = tcp_pcb a r.block }))
            n.channels)
      changed =
          updated-AreKinds n.mux.udp_pcbs n.mux.tcp_pcbs n.mux.next_address a _ n.channels
            (λ so e l.
              subst (Listed n.mux.udp_pcbs n.mux.tcp_pcbs)
                (sym (queue_segment-pcb junk rest r.queued (record so { pcb = tcp_pcb a r.block })))
                h)
            v

  deliver-IsValid :
      (n : Node Q) (junk : SockAddr) (d : Delivery) (n' : Node Q)
      → IsValid n
      → deliver ops garbage n junk d ≡ some n'
      → IsValid n'
  unfolding deliver
  deliver-IsValid n junk Delivery.crashed n' v e = absurd (none-ne-some n' e)
  deliver-IsValid n junk Delivery.no_receiver n' v e =
      subst (λ x. IsValid x) (some-injective n n' e) v
  deliver-IsValid n junk (Delivery.to_socket a peer chain) n' v e =
      subst (λ x. IsValid x) (some-injective _ n' e)
        (updated-AreKinds n.mux.udp_pcbs n.mux.tcp_pcbs n.mux.next_address a _ n.channels
          (λ so k l.
            subst (Listed n.mux.udp_pcbs n.mux.tcp_pcbs) (sym (put_to_recv_q-pcb ops _ so)) l)
          v)
  deliver-IsValid n junk (Delivery.to_tcp_pcb a []) n' v e = absurd (none-ne-some n' e)
  deliver-IsValid n junk (Delivery.to_tcp_pcb a (b ∷ rest)) n' v e =
      elim (Option-cases (block_at a n.channels)) [
        | inl z ↦ absurd (none-ne-some n' (ground (arith, e, z)))
        | inr (udp_pcb _ p, z) ↦ absurd (none-ne-some n' (ground (arith, e, z)))
        | inr (tcp_pcb c p, z) ↦ elim (Option-cases (recv (tcp_out n.mux) p b)) [
          | inl y ↦ absurd (none-ne-some n' (ground (arith, e, z, y)))
          | inr (r, y) ↦
              let (l, s) =
                block_at-Listed n.mux.udp_pcbs n.mux.tcp_pcbs a (tcp_pcb c p) n.channels v.listed
                  z in
              subst (λ x. IsValid x)
                (some-injective (after_segment ops garbage n junk a rest r) n'
                  (ground (arith, e, z, y)))
                (after_segment-IsValid n junk a rest r
                  (sym (ap (λ x. contains x n.mux.tcp_pcbs) s) ∙ l) v)
        ]
      ]

  dispatch-IsValid :
      (n : Node Q) (junk : SockAddr) (d : Verdict) (n' : Node Q)
      → IsValid n
      → dispatch ops garbage n junk d ≡ some n'
      → IsValid n'
  unfolding dispatch
  dispatch-IsValid n junk Verdict.dropped n' v e = subst (λ x. IsValid x) (some-injective n n' e) v
  dispatch-IsValid n junk Verdict.kept n' v e = subst (λ x. IsValid x) (some-injective n n' e) v
  dispatch-IsValid n junk Verdict.ignored n' v e = subst (λ x. IsValid x) (some-injective n n' e) v
  dispatch-IsValid n junk (Verdict.to_udp chain) n' v e = deliver-IsValid n junk _ n' v e
  dispatch-IsValid n junk (Verdict.to_tcp chain) n' v e = deliver-IsValid n junk _ n' v e

  -- A packet that the daemon survives keeps every block in the list of its kind, the lists without a
  -- common address, and their addresses below the next.
  pub arrive-IsValid :
      (n : Node Q) (junk : SockAddr) (bytes rest : List ℕ) (n' : Node Q)
      → IsValid n
      → arrive ops garbage n junk bytes rest ≡ some n'
      → IsValid n'
  unfolding arrive
  arrive-IsValid n junk bytes rest n' v e =
      elim (Bool-cases (en_rx_que (tun_rx bytes rest (length bytes)))) [
        | inr q ↦ subst (λ x. IsValid x) (some-injective n n' (ground (arith, e, q))) v
        | inl q ↦ elim (Option-cases (rx n.defrager (tun_rx bytes rest (length bytes)))) [
          | inl z ↦ absurd (none-ne-some n' (ground (arith, e, q, z)))
          | inr ((d, y), z) ↦
              dispatch-IsValid (record n { defrager = d }) junk y n' v (ground (arith, e, q, z))
        ]
      ]
