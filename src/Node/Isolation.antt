-- ===== src/Node/Isolation.antt =====
-- A packet touches the socket of one block at most.
use mu_quinet.Prelude.{
  ℕ, ◌≡◌, refl, sym, ap, ◌∙◌, ◌⊎◌, inl, inr, subst, List, [], ◌∷◌, false, Bool-cases, Option, none,
  some, Option-cases, arith, ◌==◌, length,
}
use mathlib.Core.Option.{some-injective, none-ne-some}
use mu_quinet.Net.Buffer.{SocketBuffer, tun_rx}
use mu_quinet.Pcb.{Pcb, Flow, find}
use mu_quinet.Pcb.Find.{TakesAt, find-IsLast}
use mu_quinet.Ip.Defrag.{Defrager}
use mu_quinet.Ip.Rx.{Verdict, en_rx_que, rx}
use mu_quinet.Tcp.{TcpPcb, Handled, recv}
use mu_quinet.Udp
use mu_quinet.Udp.Rx.{Delivery, udp_flow, tcp_flow, udp_deliver, udp_rx, tcp_rx}
use mu_quinet.Mux.Rpc.{SockAddr}
use mu_quinet.Mux.Socket.{Socket, RecvQueue, udp_pcb, tcp_pcb}
use mu_quinet.Mux.Handler.{Channel, tcp_out}
use mu_quinet.Node.{
  Node, holds, lock, block_at, update, channel_at, owner_of, queue_segment, after_segment, deliver,
  dispatch, arrive,
}

-- The flow of what the IP layer passes on.
pub HasFlow : Verdict → Flow → Type 0
HasFlow (Verdict.to_udp (b ∷ rest)) k =
    (hdr : ℕ) × (b.transport_hdr ≡ some hdr) × (udp_flow b hdr ≡ k)
HasFlow (Verdict.to_tcp (b ∷ rest)) k =
    (hdr : ℕ) × (b.transport_hdr ≡ some hdr) × (tcp_flow b hdr ≡ k)
HasFlow v k = ⊥

-- The address of the block that a delivery goes to.
abbrev target : Delivery → Option ℕ
target (Delivery.to_socket a peer chain) = some a
target (Delivery.to_tcp_pcb a chain) = some a
target _ = none

find-TakesAt :
    (look : ℕ → Option Pcb) (c : List ℕ) (k : Flow) (a : ℕ)
    → find look c k ≡ some a
    → TakesAt look k a
find-TakesAt look c k a e = elim (find-IsLast look k c) [
  | inl (n, _) ↦ absurd (none-ne-some a (sym n ∙ e))
  | inr (b, before, after, _, t, _, o) ↦ subst (TakesAt look k) (some-injective b a (sym o ∙ e)) t
]

udp_rx-TakesAt :
    (look : ℕ → Option Pcb) (pcbs : List ℕ) (chain : List SocketBuffer) (a : ℕ)
    → target (udp_rx look pcbs chain) ≡ some a
    → (k : Flow) × HasFlow (Verdict.to_udp chain) k × TakesAt look k a
unfolding udp_rx udp_deliver Udp.recv HasFlow
udp_rx-TakesAt look pcbs [] a e = absurd (none-ne-some a e)
udp_rx-TakesAt look pcbs (b ∷ rest) a e = elim (Option-cases b.transport_hdr) [
  | inl n ↦ absurd (none-ne-some a (ground (arith, e, n)))
  | inr (hdr, h) ↦ elim (Option-cases (find look pcbs (udp_flow b hdr))) [
    | inl n ↦ absurd (none-ne-some a (ground (arith, e, h, n)))
    | inr (x, f) ↦
        let same : x ≡ a = some-injective x a (ground (arith, e, h, f)) in
        (
          udp_flow b hdr,
          (hdr, h, refl),
          subst (TakesAt look (udp_flow b hdr)) same (find-TakesAt look pcbs _ x f),
        )
  ]
]

tcp_rx-TakesAt :
    (look : ℕ → Option Pcb) (pcbs : List ℕ) (chain : List SocketBuffer) (a : ℕ)
    → target (tcp_rx look pcbs chain) ≡ some a
    → (k : Flow) × HasFlow (Verdict.to_tcp chain) k × TakesAt look k a
unfolding tcp_rx HasFlow
tcp_rx-TakesAt look pcbs [] a e = absurd (none-ne-some a e)
tcp_rx-TakesAt look pcbs (b ∷ rest) a e = elim (Option-cases b.transport_hdr) [
  | inl n ↦ absurd (none-ne-some a (ground (arith, e, n)))
  | inr (hdr, h) ↦ elim (Option-cases (find look pcbs (tcp_flow b hdr))) [
    | inl n ↦ absurd (none-ne-some a (ground (arith, e, h, n)))
    | inr (x, f) ↦
        let same : x ≡ a = some-injective x a (ground (arith, e, h, f)) in
        (
          tcp_flow b hdr,
          (hdr, h, refl),
          subst (TakesAt look (tcp_flow b hdr)) same (find-TakesAt look pcbs _ x f),
        )
  ]
]

module _ {Q : Type 0} where
  channel_at-others :
      (c a : ℕ) (f : Socket Q → Socket Q) (ch : Channel Q) (l : List (ℕ × Channel Q))
      → channel_at c l ≡ some ch
      → holds a ch ≡ false
      → channel_at c (update a f l) ≡ some ch
  unfolding channel_at update
  channel_at-others c a f ch [] e h = absurd (none-ne-some ch e)
  channel_at-others c a f ch ((d, x) ∷ l) e h = elim (Bool-cases (c == d)) [
    | inl q ↦
        let same : x ≡ ch = some-injective x ch (ground (arith, e, q)) in ground (arith, q, same, h)
    | inr q ↦ ground (arith, q, channel_at-others c a f ch l (ground (arith, e, q)) h)
  ]

module _ {Q : Type 0} (ops : RecvQueue Q) (garbage : TcpPcb) where
  -- What a delivery does to the channels.
  abbrev Updates : Node Q → Delivery → Node Q → Type 0
  Updates n v n' =
      (n'.channels ≡ n.channels)
      ⊎ ((a : ℕ) × (f : Socket Q → Socket Q) × (target v ≡ some a)
          × (n'.channels ≡ update a f n.channels))

  after_segment-channels :
      (n : Node Q) (junk : SockAddr) (a : ℕ) (rest : List SocketBuffer) (r : Handled)
      → (f : Socket Q → Socket Q) × ((after_segment ops garbage n junk a rest r).channels
          ≡ update a f n.channels)
  unfolding after_segment
  after_segment-channels n junk a rest r = (
    (λ so. queue_segment ops garbage junk rest r.queued (record so { pcb = tcp_pcb a r.block })),
    elim (Bool-cases r.called) [
      | inr q ↦ ground (arith, q)
      | inl q ↦ elim (Option-cases (owner_of a n.channels)) [
        | inl o ↦ ground (arith, q, o)
        | inr (c, o) ↦ ground (arith, q, o)
      ]
    ],
  )

  deliver-Updates :
      (n : Node Q) (junk : SockAddr) (v : Delivery) (n' : Node Q)
      → deliver ops garbage n junk v ≡ some n'
      → Updates n v n'
  unfolding deliver
  deliver-Updates n junk Delivery.crashed n' e = absurd (none-ne-some n' e)
  deliver-Updates n junk Delivery.no_receiver n' e =
      inl (ap (λ x. x.channels) (sym (some-injective n n' e)))
  deliver-Updates n junk (Delivery.to_socket a peer chain) n' e =
      inr (a, _, refl, ap (λ x. x.channels) (sym (some-injective _ n' e)))
  deliver-Updates n junk (Delivery.to_tcp_pcb a []) n' e = absurd (none-ne-some n' e)
  deliver-Updates n junk (Delivery.to_tcp_pcb a (b ∷ rest)) n' e =
      elim (Option-cases (block_at a n.channels)) [
        | inl z ↦ absurd (none-ne-some n' (ground (arith, e, z)))
        | inr (udp_pcb _ p, z) ↦ absurd (none-ne-some n' (ground (arith, e, z)))
        | inr (tcp_pcb _ p, z) ↦ elim (Option-cases (recv (tcp_out n.mux) p b)) [
          | inl y ↦ absurd (none-ne-some n' (ground (arith, e, z, y)))
          | inr (r, y) ↦
              let (f, k) = after_segment-channels n junk a rest r in
              let same : after_segment ops garbage n junk a rest r ≡ n' =
                some-injective _ n' (ground (arith, e, z, y)) in
              inr (a, f, refl, ap (λ x. x.channels) (sym same) ∙ k)
        ]
      ]

  -- What a packet does to the channels: nothing, or what it brings goes to a live block that takes
  -- its flow, and every channel whose socket does not hold that block is as before.
  abbrev pub Isolated : Node Q → List ℕ → List ℕ → Node Q → Type 0
  Isolated n bytes rest n' =
      (n'.channels ≡ n.channels)
      ⊎ ((a : ℕ) × (k : Flow) × (d : Defrager) × (v : Verdict) × (rx n.defrager
              (tun_rx bytes rest (length bytes))
            ≡ some (d, v))
          × HasFlow v k
          × TakesAt (lock n.channels) k a
          × ((c : ℕ) (ch : Channel Q)
              → channel_at c n.channels ≡ some ch
              → holds a ch ≡ false
              → channel_at c n'.channels ≡ some ch))

  dispatched :
      (n : Node Q) (bytes rest : List ℕ) (d : Defrager) (v : Verdict) (y : Delivery) (n' : Node Q)
      → rx n.defrager (tun_rx bytes rest (length bytes)) ≡ some (d, v)
      → ((a : ℕ) → target y ≡ some a → (k : Flow) × HasFlow v k × TakesAt (lock n.channels) k a)
      → Updates (record n { defrager = d }) y n'
      → Isolated n bytes rest n'
  dispatched n bytes rest d v y n' r t (inl e) = inl e
  dispatched n bytes rest d v y n' r t (inr (a, f, g, e)) =
      let (k, h, takes) = t a g in
      inr (
        a,
        k,
        d,
        v,
        r,
        h,
        takes,
        λ c ch z o. ap (channel_at c) e ∙ channel_at-others c a f ch n.channels z o,
      )

  verdict-Isolated :
      (n : Node Q) (junk : SockAddr) (bytes rest : List ℕ) (d : Defrager) (v : Verdict)
      (n' : Node Q)
      → rx n.defrager (tun_rx bytes rest (length bytes)) ≡ some (d, v)
      → dispatch ops garbage (record n { defrager = d }) junk v ≡ some n'
      → Isolated n bytes rest n'
  unfolding dispatch
  verdict-Isolated n junk bytes rest d Verdict.dropped n' r e =
      inl (ap (λ x. x.channels) (sym (some-injective _ n' e)))
  verdict-Isolated n junk bytes rest d Verdict.kept n' r e =
      inl (ap (λ x. x.channels) (sym (some-injective _ n' e)))
  verdict-Isolated n junk bytes rest d Verdict.ignored n' r e =
      inl (ap (λ x. x.channels) (sym (some-injective _ n' e)))
  verdict-Isolated n junk bytes rest d (Verdict.to_udp chain) n' r e =
      dispatched n bytes rest d (Verdict.to_udp chain) _ n' r
        (λ a t. udp_rx-TakesAt (lock n.channels) n.mux.udp_pcbs chain a t)
        (deliver-Updates (record n { defrager = d }) junk _ n' e)
  verdict-Isolated n junk bytes rest d (Verdict.to_tcp chain) n' r e =
      dispatched n bytes rest d (Verdict.to_tcp chain) _ n' r
        (λ a t. tcp_rx-TakesAt (lock n.channels) n.mux.tcp_pcbs chain a t)
        (deliver-Updates (record n { defrager = d }) junk _ n' e)

  -- A packet that the daemon survives leaves all channels as they are, or goes to a live block that
  -- takes the flow of what the IP layer passed on, and then every channel whose socket does not hold
  -- that block is as before.
  pub arrive-Isolated :
      (n : Node Q) (junk : SockAddr) (bytes rest : List ℕ) (n' : Node Q)
      → arrive ops garbage n junk bytes rest ≡ some n'
      → Isolated n bytes rest n'
  unfolding arrive
  arrive-Isolated n junk bytes rest n' e =
      elim (Bool-cases (en_rx_que (tun_rx bytes rest (length bytes)))) [
        | inr q ↦ inl (ap (λ x. x.channels) (sym (some-injective n n' (ground (arith, e, q)))))
        | inl q ↦ elim (Option-cases (rx n.defrager (tun_rx bytes rest (length bytes)))) [
          | inl z ↦ absurd (none-ne-some n' (ground (arith, e, q, z)))
          | inr ((d, v), z) ↦ verdict-Isolated n junk bytes rest d v n' z (ground (arith, e, q, z))
        ]
      ]
