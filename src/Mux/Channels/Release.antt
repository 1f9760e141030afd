-- ===== src/Mux/Channels/Release.antt =====
-- What the constructors, `socketCall` and `~ReqRespChannel` do to the loop.
use mu_quinet.Prelude.{
  ℕ, ◌≡◌, refl, List, [], ◌∷◌, ◌++◌, true, false, Option, none, some, arith, if◌then◌else◌,
}
use mu_quinet.Mux.Loop.{
  SelectableChannel, Handler, Epoll, EpollLaws, EventLoop, set_cb, put, has_channel, assign,
}
use mu_quinet.Mux.Loop.Agrees.{Agrees, Nodup}
use mu_quinet.Mux.Loop.Operations.{
  registers, destroys, sets_cb, operate, operate_at, touched-Agrees,
}
use mu_quinet.Mux.Channels.{
  ReqRespChannel, reading, new_rr_channel, destroy_all, operate_all, release,
}
use mu_quinet.Mux.Channels.Lifetime.{
  fresh, operate_all-chain, NoNew, Ends, reading-Ends, destroys-Ends, unregisters-Ends,
  registers-Ends,
}

-- The channels that a ReqRespChannel owns.
abbrev pub own : ReqRespChannel → List ℕ
own ch = ch.s_channel ∷ ch.watched

-- An object that is written, then others freed, then it.
released :
    (c d : ℕ) (cs : List ℕ) (f f1 f2 f3 : ℕ → Option SelectableChannel) (x : SelectableChannel)
    → f1 d ≡ put f c (some x) d
    → f2 d ≡ (if has_channel d cs then none else f1 d)
    → f3 d ≡ put f2 c none d
    → f3 d ≡ (if has_channel d (c ∷ cs) then none else f d)
unfolding has_channel
released c d cs f f1 f2 f3 x s1 s2 s3 = ground (arith, s1, s2, s3)

module _ {E : Type 0} (ops : Epoll E) (laws : EpollLaws ops) where
  abbrev pub Held : EventLoop E → List ℕ → Type 0
  Held w cs = (d : ℕ) → has_channel d cs ≡ true → (ch : SelectableChannel) × (w.store d ≡ some ch)

  abbrev pub AllFreed : EventLoop E → List ℕ → EventLoop E → Type 0
  AllFreed w cs w' =
      NoNew ops laws w w' × ((d : ℕ) → w'.store d ≡ (if has_channel d cs then none else w.store d))

  pub destroy_all-Ends :
      (cs : List ℕ) (w : EventLoop E)
      → Agrees ops laws w
      → Held w cs
      → Nodup cs
      → Ends ops laws (destroy_all cs) w (AllFreed w cs)
  unfolding operate_all has_channel
  destroy_all-Ends [] w g h n = (w, refl, g, ((λ fd k. k), λ d. refl))
  destroy_all-Ends (c ∷ cs) w g h (nc, ns) =
      let (ch, s) = h c (ground arith) in
      let (w1, e1, g1, (k1, s1)) = destroys-Ends ops laws w c ch g s in
      let (w2, e2, g2, (k2, s2)) =
        destroy_all-Ends cs w1 g1
          (λ d m. let (x, t) = h d (ground (arith, m)) in (x, ground (arith, s1 d, t, m, nc))) ns in
      (
        w2,
        operate_all-chain ops ((c, destroys) ∷ []) (destroy_all cs) w w1 (some w2) e1 e2,
        g2,
        ((λ fd k. k2 fd (k1 fd k)), λ d. ground (arith, s1 d, s2 d)),
      )

  -- A new connection's objects on a free address, for a descriptor that the kernel does not watch.
  pub connection-Ends :
      (w : EventLoop E) (c fd : ℕ)
      → Agrees ops laws w
      → w.store c ≡ none
      → laws.interest w.epoll fd ≡ none
      → Ends ops laws (new_rr_channel c fd ++ (c, registers) ∷ []) w (λ w'.
        ((d : ℕ)
          → w'.store d
            ≡ put w.store c (some (record (fresh fd) { on_close = true; has_owner = true })) d)
        × (has_channel c w'.channels ≡ true))
  unfolding new_rr_channel operate_all operate operate_at set_cb
  connection-Ends w c fd g n i =
      let (w1, e1, g1, (p1, c1, s1)) = reading-Ends ops laws w c fd g n in
      let ch : SelectableChannel = record (fresh fd) { on_close = true } in
      let w2 : EventLoop E = assign ops w1 c ch in
      let e2 : operate_all ops ((c, sets_cb Handler.close) ∷ []) w1 ≡ some w2 =
        ground (arith, s1 c) in
      let g2 =
        touched-Agrees ops laws w1 c (fresh fd) ch g1 (ground (arith, s1 c)) refl refl refl in
      let (w3, e3, g3, (s3, m3, _)) =
        registers-Ends ops laws w2 c ch g2 (ground arith) (ground (arith, p1, i)) in
      (
        w3,
        operate_all-chain ops (new_rr_channel c fd) ((c, registers) ∷ []) w w2 (some w3)
            (operate_all-chain ops (reading c fd) ((c, sets_cb Handler.close) ∷ []) w w1 (some w2)
              e1 e2)
            e3,
        g3,
        ((λ d. ground (arith, s1 d, s3 d)), m3),
      )

  -- The destructor: what it owns is freed.
  pub release-Ends :
      (ch : ReqRespChannel) (w : EventLoop E)
      → Agrees ops laws w
      → Held w (own ch)
      → Nodup (own ch)
      → Ends ops laws (release ch) w (AllFreed w (own ch))
  unfolding release has_channel
  release-Ends ch w g h (nc, ns) =
      let c = ch.s_channel in
      let (x, s) = h c (ground arith) in
      let (w1, e1, g1, (k1, s1)) = unregisters-Ends ops laws w c x g s in
      let (w2, e2, g2, (k2, s2)) =
        destroy_all-Ends ch.watched w1 g1
          (λ d m. let (y, t) = h d (ground (arith, m)) in (y, ground (arith, s1 d, t, m, nc))) ns in
      let (w3, e3, g3, (k3, s3)) =
        destroys-Ends ops laws w2 c (record x { has_owner = false }) g2
          (ground (arith, s1 c, s2 c, nc)) in
      (
        w3,
        operate_all-chain ops (_ ∷ []) (destroy_all ch.watched ++ (c, destroys) ∷ []) w w1 (some w3)
            e1
            (operate_all-chain ops (destroy_all ch.watched) ((c, destroys) ∷ []) w1 w2 (some w3) e2
              e3),
        g3,
        (
          (λ fd k. k3 fd (k2 fd (k1 fd k))),
          λ d. released c d ch.watched w.store w1.store w2.store w3.store _ (s1 d) (s2 d) (s3 d),
        ),
      )
