-- ===== src/Mux/Channels/Watching.antt =====
-- What `socketCall` does to the loop: its new channels join it, and those of the socket before go.
use mu_quinet.Prelude.{
  ℕ, ◌≡◌, ◌≢◌, sym, ◌∙◌, subst, List, [], ◌∷◌, ◌++◌, true, false, Bool-cases, inl, inr, Option,
  none, some, arith, ◌==◌, if◌then◌else◌,
}
use mathlib.Core.Option.{none-ne-some}
use mu_quinet.Mux.Loop.{SelectableChannel, Epoll, EpollLaws, EventLoop, put, has_channel}
use mu_quinet.Mux.Loop.Agrees.{Agrees, Nodup}
use mu_quinet.Mux.Loop.Operations.{registers}
use mu_quinet.Mux.Channels.{Pipes, udp_pipe, tcp_pipes, reading, destroy_all, watch, owned}
use mu_quinet.Mux.Channels.Lifetime.{
  fresh, operate_all-chain, NoNew, Ends, reading-Ends, registers-Ends,
}
use mu_quinet.Mux.Channels.Release.{Held, destroy_all-Ends}

-- Two new objects, then others freed.
prepared :
    (c d x : ℕ) (cs : List ℕ) (f f1 f2 f3 : ℕ → Option SelectableChannel) (y y' : SelectableChannel)
    → f1 x ≡ put f c (some y) x
    → f2 x ≡ put f1 d (some y') x
    → f3 x ≡ (if has_channel x cs then none else f2 x)
    → has_channel c cs ≡ false
    → has_channel d cs ≡ false
    → f3 x ≡ (
        if x == d
        then some y'
        else if x == c
        then some y
        else if has_channel x cs
        then none
        else f x)
prepared c d x cs f f1 f2 f3 y y' s1 s2 s3 o o' = ground (arith, s1, s2, s3, o, o')

module _ {E : Type 0} (ops : Epoll E) (laws : EpollLaws ops) where
  -- Free addresses, and pipes whose descriptors the kernel does not watch.
  abbrev pub Free : EventLoop E → Pipes → Type 0
  Free w (udp_pipe c fd) = (w.store c ≡ none) × (laws.interest w.epoll fd ≡ none)
  Free w (tcp_pipes c fd d fd') =
      (w.store c ≡ none)
      × (laws.interest w.epoll fd ≡ none)
      × (w.store d ≡ none)
      × (laws.interest w.epoll fd' ≡ none)
      × (c ≢ d)
      × (fd ≢ fd')

  abbrev pub Replaced : EventLoop E → Pipes → List ℕ → EventLoop E → Type 0
  Replaced w p old w' =
      Held ops laws w' (owned p)
      × ((d : ℕ)
          → has_channel d (owned p) ≡ false
          → w'.store d ≡ (if has_channel d old then none else w.store d))

  -- An address in `old` is not free.
  absent :
      (w : EventLoop E) (old : List ℕ) (c : ℕ)
      → Held ops laws w old
      → w.store c ≡ none
      → has_channel c old ≡ false
  absent w old c h n = elim (Bool-cases (has_channel c old)) [
    | inr e ↦ e
    | inl e ↦ let (x, s) = h c e in absurd (none-ne-some x (sym n ∙ s))
  ]

  udp-Ends :
      (w : EventLoop E) (c fd : ℕ) (old : List ℕ)
      → Agrees ops laws w
      → Held ops laws w old
      → Nodup old
      → Free w (udp_pipe c fd)
      → Ends ops laws (watch (udp_pipe c fd) old) w (Replaced w (udp_pipe c fd) old)
  unfolding watch owned has_channel
  udp-Ends w c fd old g h n (z, i) =
      let o = absent w old c h z in
      let (w1, e1, g1, (p1, c1, s1)) = reading-Ends ops laws w c fd g z in
      let (w2, e2, g2, (k2, s2)) =
        destroy_all-Ends ops laws old w1 g1
          (λ d m. let (y, t) = h d m in (y, ground (arith, s1 d, t, z))) n in
      let (w3, e3, g3, (s3, m3, _)) =
        registers-Ends ops laws w2 c (fresh fd) g2 (ground (arith, s1 c, s2 c, o))
          (k2 fd (ground (arith, p1, i))) in
      (
        w3,
        operate_all-chain ops (reading c fd) (destroy_all old ++ (c, registers) ∷ []) w w1 (some w3)
            e1
            (operate_all-chain ops (destroy_all old) ((c, registers) ∷ []) w1 w2 (some w3) e2 e3),
        g3,
        (
          (λ d m. (record (fresh fd) { has_owner = true }, ground (arith, s3 d, m))),
          λ d m. ground (arith, s1 d, s2 d, s3 d, m),
        ),
      )

  prepare-Ends :
      (w : EventLoop E) (c fd d fd' : ℕ) (old : List ℕ)
      → Agrees ops laws w
      → Held ops laws w old
      → Nodup old
      → w.store c ≡ none
      → w.store d ≡ none
      → c ≢ d
      → Ends ops laws (reading c fd ++ reading d fd' ++ destroy_all old) w (λ w'.
        NoNew ops laws w w'
        × ((x : ℕ)
            → w'.store x ≡ (
                if x == d
                then some (fresh fd')
                else if x == c
                then some (fresh fd)
                else if has_channel x old
                then none
                else w.store x)))
  prepare-Ends w c fd d fd' old g h n z z' ne =
      let (w1, e1, g1, (p1, c1, s1)) = reading-Ends ops laws w c fd g z in
      let (w2, e2, g2, (p2, c2, s2)) =
        reading-Ends ops laws w1 d fd' g1 (ground (arith, s1 d, z', ne)) in
      let (w3, e3, g3, (k3, s3)) =
        destroy_all-Ends ops laws old w2 g2
          (λ x m. let (y, t) = h x m in (y, ground (arith, s1 x, s2 x, t, z, z'))) n in
      (
        w3,
        operate_all-chain ops (reading c fd) _ w w1 (some w3) e1
            (operate_all-chain ops (reading d fd') _ w1 w2 (some w3) e2 e3),
        g3,
        (
          (λ x k. k3 x (subst (λ e. laws.interest e x ≡ none) (sym (p2 ∙ p1)) k)),
          λ x.
              prepared c d x old w.store w1.store w2.store w3.store _ _ (s1 x) (s2 x) (s3 x)
                (absent w old c h z) (absent w old d h z'),
        ),
      )

  both-Ends :
      (w : EventLoop E) (c d : ℕ) (ch ch' : SelectableChannel)
      → Agrees ops laws w
      → w.store c ≡ some ch
      → w.store d ≡ some ch'
      → laws.interest w.epoll ch.fd ≡ none
      → laws.interest w.epoll ch'.fd ≡ none
      → c ≢ d
      → ch.fd ≢ ch'.fd
      → Ends ops laws ((c, registers) ∷ (d, registers) ∷ []) w (λ w'.
        (x : ℕ)
        → w'.store x
          ≡ put
              (put w.store c (some (record ch { has_owner = true })))
              d
              (some (record ch' { has_owner = true }))
              x)
  both-Ends w c d ch ch' g s s' i i' ne ne' =
      let (w1, e1, g1, (s1, _, k1)) = registers-Ends ops laws w c ch g s i in
      let (w2, e2, g2, (s2, _, k2)) =
        registers-Ends ops laws w1 d ch' g1 (ground (arith, s1 d, s'))
          (k1 ch'.fd (λ q. ne' (sym q)) i') in
      (
        w2,
        operate_all-chain ops ((c, registers) ∷ []) ((d, registers) ∷ []) w w1 (some w2) e1 e2,
        g2,
        λ x. ground (arith, s1 x, s2 x),
      )

  tcp-Ends :
      (w : EventLoop E) (c fd d fd' : ℕ) (old : List ℕ)
      → Agrees ops laws w
      → Held ops laws w old
      → Nodup old
      → Free w (tcp_pipes c fd d fd')
      → Ends ops laws (watch (tcp_pipes c fd d fd') old) w (Replaced w (tcp_pipes c fd d fd') old)
  unfolding watch owned has_channel
  tcp-Ends w c fd d fd' old g h n (z, i, z', i', ne, ne') =
      let (w1, e1, g1, (k1, s1)) = prepare-Ends w c fd d fd' old g h n z z' ne in
      let (w2, e2, g2, s2) =
        both-Ends w1 c d (fresh fd) (fresh fd') g1 (ground (arith, s1 c, ne)) (ground (arith, s1 d))
          (k1 fd i) (k1 fd' i') ne ne' in
      (
        w2,
        operate_all-chain ops (reading c fd ++ reading d fd' ++ destroy_all old)
            ((c, registers) ∷ (d, registers) ∷ []) w w1 (some w2) e1 e2,
        g2,
        (
          (λ x m. elim (Bool-cases (x == d)) [
            | inl q ↦ (record (fresh fd') { has_owner = true }, ground (arith, s2 x, q))
            | inr q ↦ (record (fresh fd) { has_owner = true }, ground (arith, s2 x, q, m))
          ]),
          λ x m. ground (arith, s1 x, s2 x, m),
        ),
      )

  pub watch-Ends :
      (p : Pipes) (w : EventLoop E) (old : List ℕ)
      → Agrees ops laws w
      → Held ops laws w old
      → Nodup old
      → Free w p
      → Ends ops laws (watch p old) w (Replaced w p old)
  watch-Ends (udp_pipe c fd) w old g h n f = udp-Ends w c fd old g h n f
  watch-Ends (tcp_pipes c fd d fd') w old g h n f = tcp-Ends w c fd d fd' old g h n f
