-- ===== src/Ip/Defrag/Contexts.antt =====
-- The list of contexts: one for each packet under way.
use mu_quinet.Prelude.{
  ℕ, suc, ◌<◌, ◌≡◌, ◌≢◌, subst, List, [], ◌∷◌, ◌++◌, Bool-cases, inl, inr, none, some, Option-cases,
  arith, All, ◌==◌,
}
use mu_quinet.Net.Headers.{IpHeader}
use mu_quinet.Net.Buffer.{SocketBuffer, ip_hdr}
use mu_quinet.Ip.Defrag.{
  Defrager, DefragContext, lookup, insert_frag, ready, remove_ctx, set_first, context_of, settle,
  defrag, timeout_cb,
}

-- The two contexts are for different packets and stand at different addresses.
abbrev pub Apart : DefragContext → DefragContext → Type 0
Apart c c' =
    (c.address ≢ c'.address)
    × ((c.ip_id ≡ c'.ip_id)
        → (c.ip_protocol ≡ c'.ip_protocol)
        → (c.ip_saddr ≡ c'.ip_saddr)
        → c.ip_daddr ≢ c'.ip_daddr)

abbrev pub Below : ℕ → List DefragContext → Type 0
Below n = All (λ c. c.address < n)

abbrev pub AllApart : List DefragContext → Type 0
AllApart [] = Unit
AllApart (c ∷ cs) = All (Apart c) cs × AllApart cs

-- No two contexts are for one packet or at one address, and none is at an address that a new one may
-- get.
pub record IsValid (d : Defrager) : Type 0 where
  pub below : Below d.next_address d.ctxs
  pub apart : AllApart d.ctxs

module _ (P : DefragContext → Type 0) where
  All-append : (l : List DefragContext) (c : DefragContext) → All P l → P c → All P (l ++ c ∷ [])
  All-append [] c h p = (p, tt)
  All-append (x ∷ l) c (h, hs) p = (h, All-append l c hs p)

  All-remove : (a : ℕ) (l : List DefragContext) → All P l → All P (remove_ctx a l)
  unfolding remove_ctx
  All-remove a [] h = tt
  All-remove a (c ∷ l) (h, hs) = elim (Bool-cases (c.address == a)) [
    | inl e ↦ rw e (All-remove a l hs)
    | inr e ↦ rw e (h, All-remove a l hs)
  ]

  All-set_first :
      (a : ℕ) (f : List SocketBuffer) (l : List DefragContext)
      → ((c : DefragContext) → P c → P (record c { first = f }))
      → All P l
      → All P (set_first a f l)
  unfolding set_first
  All-set_first a f [] k h = tt
  All-set_first a f (c ∷ l) k (h, hs) = elim (Bool-cases (c.address == a)) [
    | inl e ↦ rw e (k c h, All-set_first a f l k hs)
    | inr e ↦ rw e (h, All-set_first a f l k hs)
  ]

AllApart-append :
    (l : List DefragContext) (c : DefragContext)
    → AllApart l
    → All (λ x. Apart x c) l
    → AllApart (l ++ c ∷ [])
AllApart-append [] c h k = (tt, tt)
AllApart-append (x ∷ l) c (h, hs) (k, ks) =
    (All-append (Apart x) l c h k, AllApart-append l c hs ks)

AllApart-remove : (a : ℕ) (l : List DefragContext) → AllApart l → AllApart (remove_ctx a l)
unfolding remove_ctx
AllApart-remove a [] h = tt
AllApart-remove a (c ∷ l) (h, hs) = elim (Bool-cases (c.address == a)) [
  | inl e ↦ rw e (AllApart-remove a l hs)
  | inr e ↦ rw e (All-remove (Apart c) a l h, AllApart-remove a l hs)
]

AllApart-set_first :
    (a : ℕ) (f : List SocketBuffer) (l : List DefragContext)
    → AllApart l
    → AllApart (set_first a f l)
unfolding set_first
AllApart-set_first a f [] h = tt
AllApart-set_first a f (c ∷ l) (h, hs) = elim (Bool-cases (c.address == a)) [
  | inl e ↦ rw e (
    All-set_first (Apart (record c { first = f })) a f l (λ _ k. k) h,
    AllApart-set_first a f l hs,
  )
  | inr e ↦ rw e (All-set_first (Apart c) a f l (λ _ k. k) h, AllApart-set_first a f l hs)
]

-- A packet that no context is found for.
lookup-none :
    (h : IpHeader) (n : ℕ) (l : List DefragContext)
    → Below n l
    → lookup h l ≡ none
    → All
        (λ c. Apart c (record {
          address = n;
          ip_id = h.id;
          ip_protocol = h.protocol;
          ip_saddr = h.saddr;
          ip_daddr = h.daddr;
          first = [];
        }))
        l
unfolding lookup
lookup-none h n [] b e = tt
lookup-none h n (c ∷ l) (b, bs) e = (
  ((λ q. absurd (omega arith)), (λ x y z w. absurd (ground (arith, e, x, y, z, w)))),
  lookup-none h n l bs (ground (arith, e)),
)

Below-suc : (n : ℕ) (l : List DefragContext) → Below n l → Below (suc n) l
Below-suc n [] b = tt
Below-suc n (c ∷ l) (b, bs) = (omega arith, Below-suc n l bs)

context_of-IsValid : (d : Defrager) (h : IpHeader) → IsValid d → IsValid (context_of d h).0
unfolding context_of
context_of-IsValid d h v = elim (Option-cases (lookup h d.ctxs)) [
  | inr (c, e) ↦ rw (e, context_of) v
  | inl e ↦
      rw (e, context_of)
        (record {
          below =
              All-append (λ c. c.address < suc d.next_address) d.ctxs _
                (Below-suc d.next_address d.ctxs v.below) (omega arith);
          apart = AllApart-append d.ctxs _ v.apart (lookup-none h d.next_address d.ctxs v.below e);
        })
]

settle-IsValid :
    (d : Defrager) (a : ℕ) (l : List SocketBuffer) → IsValid d → IsValid (settle d a l).0
unfolding settle
settle-IsValid d a l v = elim (Bool-cases (ready l)) [
  | inl e ↦ rw e (record {
    below = All-remove (λ c. c.address < d.next_address) a d.ctxs v.below;
    apart = AllApart-remove a d.ctxs v.apart;
  })
  | inr e ↦ rw e (record {
    below = All-set_first (λ c. c.address < d.next_address) a l d.ctxs (λ _ k. k) v.below;
    apart = AllApart-set_first a l d.ctxs v.apart;
  })
]

-- A fragment that is taken in keeps the contexts valid.
pub defrag-IsValid :
    (d : Defrager) (b : SocketBuffer) (d' : Defrager) (packet : List SocketBuffer)
    → IsValid d
    → defrag d b ≡ some (d', packet)
    → IsValid d'
unfolding defrag
defrag-IsValid d b d' packet v e =
    elim (Option-cases (insert_frag b (context_of d (ip_hdr b)).1.first)) [
      | inl n ↦ absurd (ground (arith, e, n))
      | inr (l, s) ↦ subst IsValid (ground (arith, e, s)) (
          settle-IsValid (context_of d (ip_hdr b)).0 (context_of d (ip_hdr b)).1.address l
            (context_of-IsValid d (ip_hdr b) v))
    ]

-- A timeout keeps them valid too.
pub timeout_cb-IsValid : (a : ℕ) (d : Defrager) → IsValid d → IsValid (timeout_cb a d)
unfolding timeout_cb
timeout_cb-IsValid a d v = record {
  below = All-remove (λ c. c.address < d.next_address) a d.ctxs v.below;
  apart = AllApart-remove a d.ctxs v.apart;
}
