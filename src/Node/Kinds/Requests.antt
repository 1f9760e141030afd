-- ===== src/Node/Kinds/Requests.antt =====
-- A request keeps every block in the list of its kind.
use mu_quinet.Prelude.{
  ℕ, suc, ◌<◌, ◌≡◌, sym, ◌∙◌, ◌⊎◌, inl, inr, subst, List, [], ◌∷◌, ◌++◌, true, false, Bool-cases,
  some, Option-cases, arith, ◌==◌, ==→eq,
}
use mathlib.Core.Option.{some-injective, none-ne-some}
use mathlib.Core.Bool.{true≢false}
use mu_quinet.Tcp.{TcpPcb}
use mu_quinet.Mux.Rpc.{Request, Response}
use mu_quinet.Mux.Socket.{Socket, RecvQueue, PcbRef, udp_pcb, tcp_pcb}
use mu_quinet.Mux.Handler
use mu_quinet.Mux.Handler.{Channel, handle_request, tcp_out, on_conn_estab}
use mu_quinet.Mux.Handler.Blocks.{address_of, is_udp, Keeps, Adds, handle_request-KeepsOrAdds}
use mu_quinet.Node.{Node, channel_at, put_channel, ask}
use mu_quinet.Node.Kinds.{
  contains, contains-append, Listed, AreKinds, IsValid, put_channel-AllListed, channel_at-AllListed,
  grown-AllListed,
}

-- What an appended list contains, and that it does not contain a number above its own.
appended :
    (x next : ℕ) (l : List ℕ)
    → contains x (l ++ next ∷ []) ≡ true
    → (x ≡ next) ⊎ (contains x l ≡ true)
appended x next l h = elim (Bool-cases (x == next)) [
  | inl q ↦ inl (==→eq x next q)
  | inr q ↦ inr (ground (arith, contains-append x next l, h, q))
]

absent :
    (next : ℕ) (l : List ℕ) → ((x : ℕ) → contains x l ≡ true → x < next) → contains next l ≡ false
absent next l below = elim (Bool-cases (contains next l)) [
  | inr q ↦ q
  | inl q ↦ absurd (omega (arith, below next q))
]

below_suc :
    (next : ℕ) (l : List ℕ)
    → ((x : ℕ) → contains x l ≡ true → x < next)
    → (x : ℕ) → contains x (l ++ next ∷ []) ≡ true
    → x < suc next
below_suc next l below x h = elim (appended x next l h) [
  | inl e ↦ omega (arith, e)
  | inr m ↦ omega (arith, below x m)
]

module _ {Q : Type 0} where
  kept-AreKinds :
      (s s' : Handler.Stack) (c : ℕ) (ch ch' : Channel Q) (l : List (ℕ × Channel Q))
      → AreKinds s.udp_pcbs s.tcp_pcbs s.next_address l
      → channel_at c l ≡ some ch
      → Keeps s ch.socket s' ch'.socket
      → AreKinds s'.udp_pcbs s'.tcp_pcbs s'.next_address (put_channel c ch' l)
  kept-AreKinds s s' c ch ch' l v e k =
      rw (k.udp, k.tcp, k.next)
        (record {
          listed =
              put_channel-AllListed s.udp_pcbs s.tcp_pcbs c ch' l
                (λ so' t.
                  let (so, u, a, b) = k.block so' t in
                  rw (a, b) (channel_at-AllListed s.udp_pcbs s.tcp_pcbs c ch l v.listed e so u))
                v.listed;
          disjoint = v.disjoint;
          udp_below = v.udp_below;
          tcp_below = v.tcp_below;
        })

  -- A new UDP block, or a new TCP block.
  udp_added-AreKinds :
      (udp tcp : List ℕ) (next c : ℕ) (ch' : Channel Q) (so : Socket Q) (l : List (ℕ × Channel Q))
      → AreKinds udp tcp next l
      → ch'.socket ≡ some so
      → address_of so.pcb ≡ next
      → is_udp so.pcb ≡ true
      → AreKinds (udp ++ next ∷ []) tcp (suc next) (put_channel c ch' l)
  udp_added-AreKinds udp tcp next c ch' so l v t a u = record {
    listed =
        put_channel-AllListed (udp ++ next ∷ []) tcp c ch' l
          (λ so' t'.
            let same : so ≡ so' = some-injective so so' (sym t ∙ t') in
            subst (λ x. Listed (udp ++ next ∷ []) tcp x.pcb) same
              (rw (a, u) (ground (arith, contains-append next next udp))))
          (grown-AllListed udp tcp (udp ++ next ∷ []) tcp l (λ x. grows x) v.listed);
    disjoint = λ x h. elim (appended x next udp h) [
      | inl e ↦ rw e (absent next tcp v.tcp_below)
      | inr m ↦ v.disjoint x m
    ];
    udp_below = below_suc next udp v.udp_below;
    tcp_below = λ x h. omega (arith, v.tcp_below x h);
  }
    where
      grows : (x : PcbRef) → Listed udp tcp x → Listed (udp ++ next ∷ []) tcp x
      grows (udp_pcb b p) h = ground (arith, contains-append b next udp, h)
      grows (tcp_pcb b p) h = h

  tcp_added-AreKinds :
      (udp tcp : List ℕ) (next c : ℕ) (ch' : Channel Q) (so : Socket Q) (l : List (ℕ × Channel Q))
      → AreKinds udp tcp next l
      → ch'.socket ≡ some so
      → address_of so.pcb ≡ next
      → is_udp so.pcb ≡ false
      → AreKinds udp (tcp ++ next ∷ []) (suc next) (put_channel c ch' l)
  tcp_added-AreKinds udp tcp next c ch' so l v t a u = record {
    listed =
        put_channel-AllListed udp (tcp ++ next ∷ []) c ch' l
          (λ so' t'.
            let same : so ≡ so' = some-injective so so' (sym t ∙ t') in
            subst (λ x. Listed udp (tcp ++ next ∷ []) x.pcb) same
              (rw (a, u) (ground (arith, contains-append next next tcp))))
          (grown-AllListed udp tcp udp (tcp ++ next ∷ []) l (λ x. grows x) v.listed);
    disjoint = λ x h. elim (Bool-cases (contains x (tcp ++ next ∷ []))) [
      | inr q ↦ q
      | inl q ↦ elim (appended x next tcp q) [
        | inl e ↦ absurd (omega (arith, v.udp_below x h, e))
        | inr m ↦ absurd (true≢false (sym m ∙ v.disjoint x h))
      ]
    ];
    udp_below = λ x h. omega (arith, v.udp_below x h);
    tcp_below = below_suc next tcp v.tcp_below;
  }
    where
      grows : (x : PcbRef) → Listed udp tcp x → Listed udp (tcp ++ next ∷ []) x
      grows (udp_pcb b p) h = h
      grows (tcp_pcb b p) h = ground (arith, contains-append b next tcp, h)

  added-AreKinds :
      (s s' : Handler.Stack) (c : ℕ) (ch' : Channel Q) (l : List (ℕ × Channel Q))
      → AreKinds s.udp_pcbs s.tcp_pcbs s.next_address l
      → Adds s s' ch'.socket
      → AreKinds s'.udp_pcbs s'.tcp_pcbs s'.next_address (put_channel c ch' l)
  added-AreKinds s s' c ch' l v k = elim k.lists [
    | inl (u, a, b) ↦
        rw (a, b, k.next)
          (udp_added-AreKinds s.udp_pcbs s.tcp_pcbs s.next_address c ch' k.socket l v k.has
            k.address u)
    | inr (u, a, b) ↦
        rw (a, b, k.next)
          (tcp_added-AreKinds s.udp_pcbs s.tcp_pcbs s.next_address c ch' k.socket l v k.has
            k.address u)
  ]

  -- A request that is answered keeps every block in the list of its kind, the lists without a common
  -- address, and their addresses below the next.
  pub ask-IsValid :
      (ops : RecvQueue Q) (garbage : TcpPcb) (n : Node Q) (c : ℕ) (req : Request) (n' : Node Q)
      (r : Response)
      → IsValid n
      → ask ops garbage n c req ≡ some (n', r)
      → IsValid n'
  unfolding ask
  ask-IsValid ops garbage n c req n' r v e =
      let w : Node Q × Response = (n', r) in
      elim (Option-cases (channel_at c n.channels)) [
        | inl z ↦ absurd (none-ne-some w (ground (arith, e, z)))
        | inr (ch, z) ↦ elim (Option-cases (handle_request ops garbage n.mux ch req)) [
          | inl y ↦ absurd (none-ne-some w (ground (arith, e, z, y)))
          | inr ((s, ch', r'), y) ↦
              let n1 : Node Q = record n { mux = s; channels = put_channel c ch' n.channels } in
              let x : Node Q × Response = (n1, r') in
              let same : x ≡ w = some-injective x w (ground (arith, e, z, y)) in
              subst (λ (p : Node Q × Response). IsValid p.0) same
                (elim (handle_request-KeepsOrAdds ops garbage n.mux ch req s ch' r' y) [
                  | inl k ↦ kept-AreKinds n.mux s c ch ch' n.channels v z k
                  | inr k ↦ added-AreKinds n.mux s c ch' n.channels v k
                ])
        ]
      ]
