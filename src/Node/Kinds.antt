-- ===== src/Node/Kinds.antt =====
-- Every block is in the list of its kind, so that Tcp::rx and Udp::rx only find blocks of theirs.
pub mod Requests
pub mod Found
pub mod Packets
use mu_quinet.Prelude.{
  ℕ, suc, ◌<◌, ◌≡◌, refl, sym, ap, ◌∙◌, ◌⊎◌, inl, inr, subst, List, [], ◌∷◌, ◌++◌, Bool, true,
  false, Bool-cases, Option, none, some, Option-cases, arith, ◌==◌, ==→eq, if◌then◌else◌, length,
  All,
}
use mathlib.Core.Option.{some-injective, none-ne-some}
use mathlib.Core.Bool.{true≢false}
use mu_quinet.Net.Buffer.{SocketBuffer, tun_rx}
use mu_quinet.Pcb.{Pcb, Flow, find}
use mu_quinet.Pcb.Find.{find-IsLast}
use mu_quinet.Ip.Rx.{Verdict, en_rx_que, rx}
use mu_quinet.Tcp.{TcpPcb, Handled, recv}
use mu_quinet.Udp.Rx.{Delivery, udp_rx, tcp_rx, tcp_flow}
use mu_quinet.Mux.Rpc.{SockAddr, Request, Response}
use mu_quinet.Mux.Socket.{Socket, RecvQueue, PcbRef, udp_pcb, tcp_pcb, put_to_recv_q}
use mu_quinet.Mux.Handler
use mu_quinet.Mux.Handler.{Channel, handle_request, tcp_out, on_conn_estab}
use mu_quinet.Mux.Handler.Blocks.{
  address_of, is_udp, Keeps, Adds, KeepsOrAdds, handle_request-KeepsOrAdds,
}
use mu_quinet.Node.{
  Node, holds, lock, block_at, update, update_socket, channel_at, put_channel, owner_of,
  queue_segment, after_segment, deliver, dispatch, arrive, ask,
}

unfoldable pub contains : ℕ → List ℕ → Bool
contains a [] = false
contains a (x ∷ xs) = let rest = contains a xs in if a == x then true else rest

pub contains-append :
    (a b : ℕ) (xs : List ℕ) → contains a (xs ++ b ∷ []) ≡ (if a == b then true else contains a xs)
unfolding contains
contains-append a b [] = refl
contains-append a b (x ∷ xs) = ground (arith, contains-append a b xs)

pub contains-middle : (a : ℕ) (xs ys : List ℕ) → contains a (xs ++ a ∷ ys) ≡ true
unfolding contains
contains-middle a [] ys = ground arith
contains-middle a (x ∷ xs) ys = ground (arith, contains-middle a xs ys)

-- A block is in the list of its kind.
abbrev pub Listed : (udp tcp : List ℕ) → PcbRef → Type 0
Listed udp tcp x = contains (address_of x) (if is_udp x then udp else tcp) ≡ true

module _ {Q : Type 0} where
  abbrev pub ChannelListed : (udp tcp : List ℕ) → Channel Q → Type 0
  ChannelListed udp tcp ch = (so : Socket Q) → ch.socket ≡ some so → Listed udp tcp so.pcb

  -- The blocks of all sockets are in the lists of their kinds, no address is in both lists, and
  -- addresses of new blocks are new.
  pub record AreKinds (udp tcp : List ℕ) (next : ℕ) (l : List (ℕ × Channel Q)) : Type 0 where
    pub listed : All (λ (x : ℕ × Channel Q). ChannelListed udp tcp x.1) l
    pub disjoint : (a : ℕ) → contains a udp ≡ true → contains a tcp ≡ false
    pub udp_below : (a : ℕ) → contains a udp ≡ true → a < next
    pub tcp_below : (a : ℕ) → contains a tcp ≡ true → a < next

  abbrev pub IsValid : Node Q → Type 0
  IsValid n = AreKinds n.mux.udp_pcbs n.mux.tcp_pcbs n.mux.next_address n.channels

  updated-Listed :
      (udp tcp : List ℕ) (a : ℕ) (f : Socket Q → Socket Q) (ch : Channel Q)
      → ((so : Socket Q)
          → address_of so.pcb ≡ a
          → Listed udp tcp so.pcb
          → Listed udp tcp (f so).pcb)
      → holds a ch ≡ true
      → ChannelListed udp tcp ch
      → ChannelListed udp tcp (update_socket f ch)
  updated-Listed udp tcp a f ch k q h so' e = elim (Option-cases ch.socket) [
    | inl n ↦ absurd (true≢false (sym q ∙ ground (arith, n)))
    | inr (so, t) ↦
        let same : f so ≡ so' = some-injective (f so) so' (ground (arith, e, t)) in
        let here : (address_of so.pcb == a) ≡ true = ground (arith, q, t) in
        subst (λ x. Listed udp tcp x.pcb) same (k so (==→eq (address_of so.pcb) a here) (h so t))
  ]

  -- A change of sockets that keeps what is asked of them.
  pub update-AllListed :
      (udp tcp : List ℕ) (a : ℕ) (f : Socket Q → Socket Q) (l : List (ℕ × Channel Q))
      → ((so : Socket Q)
          → address_of so.pcb ≡ a
          → Listed udp tcp so.pcb
          → Listed udp tcp (f so).pcb)
      → All (λ (x : ℕ × Channel Q). ChannelListed udp tcp x.1) l
      → All (λ (x : ℕ × Channel Q). ChannelListed udp tcp x.1) (update a f l)
  unfolding update
  update-AllListed udp tcp a f [] k h = tt
  update-AllListed udp tcp a f ((c, ch) ∷ l) k (h, hs) = elim (Bool-cases (holds a ch)) [
    | inl q ↦
        rw (update, q) (updated-Listed udp tcp a f ch k q h, update-AllListed udp tcp a f l k hs)
    | inr q ↦ rw (update, q) (h, update-AllListed udp tcp a f l k hs)
  ]

  pub put_channel-AllListed :
      (udp tcp : List ℕ) (c : ℕ) (ch : Channel Q) (l : List (ℕ × Channel Q))
      → ChannelListed udp tcp ch
      → All (λ (x : ℕ × Channel Q). ChannelListed udp tcp x.1) l
      → All (λ (x : ℕ × Channel Q). ChannelListed udp tcp x.1) (put_channel c ch l)
  unfolding put_channel
  put_channel-AllListed udp tcp c ch [] k h = tt
  put_channel-AllListed udp tcp c ch ((d, old) ∷ l) k (h, hs) = elim (Bool-cases (c == d)) [
    | inl q ↦ rw (put_channel, q) (k, put_channel-AllListed udp tcp c ch l k hs)
    | inr q ↦ rw (put_channel, q) (h, put_channel-AllListed udp tcp c ch l k hs)
  ]

  pub channel_at-AllListed :
      (udp tcp : List ℕ) (c : ℕ) (ch : Channel Q) (l : List (ℕ × Channel Q))
      → All (λ (x : ℕ × Channel Q). ChannelListed udp tcp x.1) l
      → channel_at c l ≡ some ch
      → ChannelListed udp tcp ch
  unfolding channel_at
  channel_at-AllListed udp tcp c ch [] h e = absurd (none-ne-some ch e)
  channel_at-AllListed udp tcp c ch ((d, x) ∷ l) (h, hs) e = elim (Bool-cases (c == d)) [
    | inl q ↦ subst (ChannelListed udp tcp) (some-injective x ch (ground (arith, e, q))) h
    | inr q ↦ channel_at-AllListed udp tcp c ch l hs (ground (arith, e, q))
  ]

  -- The lists grow.
  pub grown-AllListed :
      (udp tcp udp' tcp' : List ℕ) (l : List (ℕ × Channel Q))
      → ((x : PcbRef) → Listed udp tcp x → Listed udp' tcp' x)
      → All (λ (x : ℕ × Channel Q). ChannelListed udp tcp x.1) l
      → All (λ (x : ℕ × Channel Q). ChannelListed udp' tcp' x.1) l
  grown-AllListed udp tcp udp' tcp' [] k h = tt
  grown-AllListed udp tcp udp' tcp' (x ∷ l) k (h, hs) =
      ((λ so e. k so.pcb (h so e)), grown-AllListed udp tcp udp' tcp' l k hs)

  pub block_at-Listed :
      (udp tcp : List ℕ) (a : ℕ) (x : PcbRef) (l : List (ℕ × Channel Q))
      → All (λ (x : ℕ × Channel Q). ChannelListed udp tcp x.1) l
      → block_at a l ≡ some x
      → Listed udp tcp x × (address_of x ≡ a)
  unfolding block_at
  block_at-Listed udp tcp a x [] h e = absurd (none-ne-some x e)
  block_at-Listed udp tcp a x ((c, ch) ∷ l) (h, hs) e = elim (Option-cases ch.socket) [
    | inl n ↦ block_at-Listed udp tcp a x l hs (ground (arith, e, n))
    | inr (so, t) ↦ elim (Bool-cases (address_of so.pcb == a)) [
      | inl q ↦
          let same : so.pcb ≡ x = some-injective so.pcb x (ground (arith, e, t, q)) in
          (
            subst (Listed udp tcp) same (h so t),
            ap address_of (sym same) ∙ ==→eq (address_of so.pcb) a q,
          )
      | inr q ↦ block_at-Listed udp tcp a x l hs (ground (arith, e, t, q))
    ]
  ]
